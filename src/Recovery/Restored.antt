-- ===== src/Recovery/Restored.antt =====
-- The book after a recovery.
use account_services.Base.{
  ℕ, ◌+◌, ◌≤◌, ◌≡◌, refl, ap, ◌∙◌, inl, inr, Option, none, some, List, [], ◌∷◌, Bool-cases,
  if_keeps, lookup, lookup-insert, nat_eq, ltb, ◌==◌, if◌then◌else◌, arith,
}
use account_services.Layout.{UpstreamShm}
use account_services.Pool.{Snapshot}
use account_services.Book.State.{
  OrderEntry, OrderBook, OrderBookEvent, added, find_slot, saturated_next_order_id,
  ensure_next_order_id_at_least, notify,
}
use account_services.Book.Slots.{IsValid, Slots}
use account_services.Book.Refresh.{Totals, apply_totals, refresh_parent_from_children}
use account_services.Book.Refresh.Frame.{refresh_cases}
use account_services.Book.Orders.{
  add_order, add_to_slot, place, index_broker, index_security, index_child, linked, stored_entry,
}
use account_services.Book.Orders.Added.{
  add_order-IsValid, add_order_cases, index_child_cases, slots_of-add_to_slot,
  slots_of-ensure_next_order_id_at_least,
}
use account_services.Recovery.{
  Candidate, Candidates, OrderRecoveryStats, recovered_entry, restore_candidates,
  seed_next_order_id, scan_slots, recover_from, larger,
}

-- The counter has passed every id in work; it stops at the largest 32-bit value.
abbrev pub HasFreshIds : OrderBook → Type 0
HasFreshIds b = (k i : ℕ) → find_slot k b ≡ some i → saturated_next_order_id k ≤ b.next_order_id

next_id-notify :
    (i : ℕ) (event : OrderBookEvent) (b : OrderBook)
    → (notify i event b).next_order_id ≡ b.next_order_id
next_id-notify i event b = elim (Bool-cases b.has_callback) [
  | inl h ↦ rw h refl
  | inr h ↦ rw h refl
]

next_id-apply_totals :
    (p slot : ℕ) (t : Totals) (b : OrderBook)
    → (apply_totals p slot t b).next_order_id ≡ b.next_order_id
unfolding apply_totals
next_id-apply_totals p slot t b = ground arith

next_id-refresh :
    (p : ℕ) (b : OrderBook) → (refresh_parent_from_children p b).next_order_id ≡ b.next_order_id
next_id-refresh p b = elim (refresh_cases p b) [
  | inl e ↦ ap (λ (c : OrderBook). c.next_order_id) e
  | inr (slot, t, _, _, e) ↦
      ap (λ (c : OrderBook). c.next_order_id) e ∙ next_id-apply_totals p slot t b
]

next_id-index_child :
    (k : ℕ) (e : OrderEntry) (b : OrderBook) → (index_child k e b).next_order_id ≡ b.next_order_id
next_id-index_child k e b = elim (index_child_cases k e b) [
  | inl h ↦ ap (λ (c : OrderBook). c.next_order_id) h
  | inr (inl h) ↦ ap (λ (c : OrderBook). c.next_order_id) h
  | inr (inr h) ↦
      ap (λ (c : OrderBook). c.next_order_id) h
      ∙ next_id-refresh e.parent_order_id (linked k e.parent_order_id b)
]

next_id-index_security :
    (k : ℕ) (e : OrderEntry) (b : OrderBook)
    → (index_security k e b).next_order_id ≡ b.next_order_id
unfolding index_security
next_id-index_security k e b = ground arith

next_id-index_broker :
    (k : ℕ) (e : OrderEntry) (b : OrderBook) → (index_broker k e b).next_order_id ≡ b.next_order_id
unfolding index_broker
next_id-index_broker k e b = ground arith

next_id-add_to_slot :
    (k slot : ℕ) (free : List ℕ) (e : OrderEntry) (b : OrderBook)
    → (add_to_slot k slot free e b).next_order_id
      ≡ larger b.next_order_id (saturated_next_order_id k)
unfolding add_to_slot place ensure_next_order_id_at_least
next_id-add_to_slot k slot free e b =
    let placed = place k slot free e b in
    let brokered = index_broker k e placed in
    let secured = index_security k e brokered in
    let indexed = index_child k e secured in
    next_id-notify slot added (record indexed { active_count = indexed.active_count + 1 })
    ∙ next_id-index_child k e secured
    ∙ next_id-index_security k e brokered
    ∙ next_id-index_broker k e placed
    ∙ ground arith

slot_of-add_to_slot :
    (j k slot : ℕ) (free : List ℕ) (e : OrderEntry) (b : OrderBook)
    → e.request.internal_order_id ≡ k
    → find_slot j (add_to_slot k slot free e b) ≡ (if k == j then some slot else find_slot j b)
slot_of-add_to_slot j k slot free e b h =
    ap (λ (s : Slots). lookup j s.index) (slots_of-add_to_slot k slot free e b h)
    ∙ lookup-insert k j slot b.id_to_index

add_order-HasFreshIds :
    (now : ℕ) (e : OrderEntry) (b : OrderBook) → HasFreshIds b → HasFreshIds (add_order now e b).1
unfolding stored_entry
add_order-HasFreshIds now e b fresh = elim (add_order_cases now e b) [
  | inl h ↦ rw h fresh
  | inr (slot, free, _, _, _, h) ↦ rw h (λ j i at.
      let k = e.request.internal_order_id in
      let next = next_id-add_to_slot k slot free (stored_entry now e) b in
      let slots = slot_of-add_to_slot j k slot free (stored_entry now e) b refl in
      elim (Bool-cases (k == j)) [
        | inl same ↦ ground (arith, next, same)
        | inr other ↦
            let before : find_slot j b ≡ some i = ground (arith, slots, at, other) in
            ground (arith, next, fresh j i before)
      ])
]

ensure-HasFreshIds :
    (n : ℕ) (b : OrderBook) → HasFreshIds b → HasFreshIds (ensure_next_order_id_at_least n b)
unfolding ensure_next_order_id_at_least
ensure-HasFreshIds n b fresh = elim (Bool-cases (ltb b.next_order_id n)) [
  | inl raise ↦
      rw (ensure_next_order_id_at_least, raise) (λ k i at. ground (arith, raise, fresh k i at))
  | inr stay ↦ rw (ensure_next_order_id_at_least, stay) fresh
]

ensured : (n : ℕ) (b : OrderBook) → n ≤ (ensure_next_order_id_at_least n b).next_order_id
unfolding ensure_next_order_id_at_least
ensured n b = ground arith

-- What insertions and the lift of the counter keep, a recovery keeps.
module _ (P : OrderBook → Type 0) (now : ℕ)
    (adds : (e : OrderEntry) (b : OrderBook) → P b → P (add_order now e b).1)
    (lifts : (n : ℕ) (b : OrderBook) → P b → P (ensure_next_order_id_at_least n b)) where
  restore_keeps :
      (items : List (ℕ × Candidate)) (b : OrderBook) (stats : OrderRecoveryStats) (highest : ℕ)
      → P b
      → P (restore_candidates now items b stats highest).0
  unfolding restore_candidates
  restore_keeps [] b stats highest v = v
  restore_keeps ((order_id, c) ∷ rest) b stats highest v =
      let kept = adds (recovered_entry now c) b v in
      if_keeps (λ (r : OrderBook × OrderRecoveryStats × ℕ). P r.0)
        (add_order now (recovered_entry now c) b).0 (restore_keeps rest _ _ _ kept)
        (restore_keeps rest _ _ _ kept)

  recover_from_keeps :
      (arrange : Candidates → List (ℕ × Candidate)) (read : ℕ → Option Snapshot) (upper : ℕ)
      (upstream_shm : Option UpstreamShm) (b : OrderBook)
      → P b
      → P (recover_from now arrange read upper upstream_shm b).0
  unfolding recover_from seed_next_order_id
  recover_from_keeps arrange read upper upstream_shm b v =
      let scanned = scan_slots read upper in
      let kept = restore_keeps (arrange scanned.0) b scanned.1 0 v in
      if_keeps P _ (lifts _ _ kept) kept

-- A recovery keeps the table of slots valid.
recover_from-IsValid :
    (capacity now : ℕ) (arrange : Candidates → List (ℕ × Candidate)) (read : ℕ → Option Snapshot)
    (upper : ℕ) (upstream_shm : Option UpstreamShm) (b : OrderBook)
    → IsValid capacity b
    → IsValid capacity (recover_from now arrange read upper upstream_shm b).0
recover_from-IsValid capacity now =
    recover_from_keeps (IsValid capacity) now (add_order-IsValid capacity now)
      (λ n b v. rw (slots_of-ensure_next_order_id_at_least n b) v)

-- In whatever order the map lists its elements, a recovery into a book whose id counter has passed
-- every id in work leaves such a book, and the counter has passed the upstream counter too.
pub recover_from-HasFreshIds :
    (now : ℕ) (arrange : Candidates → List (ℕ × Candidate)) (read : ℕ → Option Snapshot) (upper : ℕ)
    (upstream_shm : Option UpstreamShm) (b : OrderBook)
    → HasFreshIds b
    → HasFreshIds (recover_from now arrange read upper upstream_shm b).0
      × ((up : UpstreamShm)
          → upstream_shm ≡ some up
          → up.next_order_id ≤ (recover_from now arrange read upper upstream_shm b).0.next_order_id)
unfolding recover_from seed_next_order_id
recover_from-HasFreshIds now arrange read upper upstream_shm b v =
    let scanned = scan_slots read upper in
    let restored = restore_candidates now (arrange scanned.0) b scanned.1 0 in
    let first : ℕ = elim upstream_shm [ none ↦ 1 | some up ↦ up.next_order_id ] in
    let seed = larger first (saturated_next_order_id restored.2) in
    (
      recover_from_keeps HasFreshIds now (add_order-HasFreshIds now) ensure-HasFreshIds arrange read
          upper upstream_shm b v,
      λ up here. ground (arith, ensured seed restored.0, here),
    )
