-- ===== src/Book/Orders/Removed.antt =====
-- What archiving and clearing do to the slots.
use mathlib.Core.Path.{fun_ext}
use account_services.Base.{
  ℕ, ◌-◌, ◌≡◌, ap, ◌∙◌, inl, inr, true, false, none, some, ◌∷◌, lookup, nat_eq, eq_text, erase,
  length-erase, empty, Bool-cases, Option-cases, ltb, ◌==◌, update, if◌then◌else◌, arith,
}
use account_services.Identity.{normalize_security_key}
use account_services.Book.State.{
  OrderEntry, OrderBook, OrderBookEvent, archived, find_slot, call_back,
}
use account_services.Book.Slots.{Slots, slots_of, IsValid, empty-IsValidSlots, release-IsValidSlots}
use account_services.Book.Orders.{
  archive_order, release_slot, unindex_broker, unindex_security, removed, clear,
}

slots_of-unindex_broker :
    (k : ℕ) (e : OrderEntry) (b : OrderBook) → slots_of (unindex_broker k e b) ≡ slots_of b
unfolding unindex_broker
slots_of-unindex_broker k e b = elim (Bool-cases (e.request.broker_order_id == 0)) [
  | inl h ↦ rw (h, unindex_broker)
  | inr h ↦ elim (Option-cases (lookup e.request.broker_order_id b.broker_id_map)) [
    | inl absent ↦ rw (h, unindex_broker, absent)
    | inr (owner, at) ↦ elim (Bool-cases (owner == k)) [
      | inl own ↦ rw (h, unindex_broker, at, own)
      | inr other ↦ rw (h, unindex_broker, at, other)
    ]
  ]
]

slots_of-unindex_security :
    (k : ℕ) (e : OrderEntry) (b : OrderBook) → slots_of (unindex_security k e b) ≡ slots_of b
unfolding unindex_security
slots_of-unindex_security k e b = elim (Bool-cases (empty e.request.internal_security_id)) [
  | inl h ↦ rw (h, unindex_security)
  | inr h ↦ elim (Option-cases (normalize_security_key e.request.internal_security_id)) [
    | inl bad ↦ rw (h, unindex_security, bad)
    | inr (key, good) ↦ elim (Option-cases (lookup key b.security_orders)) [
      | inl absent ↦ rw (h, unindex_security, good, absent)
      | inr (ids, at) ↦ rw (h, unindex_security, good, at)
    ]
  ]
]

pub archive_order_absent :
    (k : ℕ) (b : OrderBook) → find_slot k b ≡ none → archive_order k b ≡ (false, b)
unfolding archive_order
archive_order_absent k b h = ground arith

pub archive_order_at :
    (k slot : ℕ) (b : OrderBook)
    → find_slot k b ≡ some slot
    → archive_order k b ≡ (true, call_back (b.orders slot) archived (removed k slot b))
unfolding archive_order
archive_order_at k slot b h = rw (h, archive_order)

abbrev released : ℕ → ℕ → ℕ → Slots → Slots
released k slot count s = record {
  index = erase k s.index;
  free = slot ∷ s.free;
  count = count;
  id_at = update s.id_at slot 0;
}

abbrev less_one : ℕ → ℕ
less_one n = if ltb 0 n then n - 1 else n

slots_of-release_slot :
    (k slot : ℕ) (b : OrderBook)
    → slots_of (release_slot k slot b) ≡ released k slot (less_one b.active_count) (slots_of b)
unfolding release_slot
slots_of-release_slot k slot b =
    ap
      (λ (f : ℕ → ℕ).
        let s : Slots = record {
          index = erase k b.id_to_index;
          free = slot ∷ b.free_slots;
          count = less_one b.active_count;
          id_at = f;
        } in
        s)
      (fun_ext (λ j. ground arith))

slots_of-call_back :
    (e : OrderEntry) (event : OrderBookEvent) (b : OrderBook)
    → slots_of (call_back e event b) ≡ slots_of b
slots_of-call_back e event b = elim (Bool-cases b.has_callback) [ inl h ↦ rw h | inr h ↦ rw h ]

slots_of-removed :
    (k slot : ℕ) (b : OrderBook)
    → slots_of (removed k slot b) ≡ released k slot (less_one b.active_count) (slots_of b)
unfolding removed
slots_of-removed k slot b =
    let e = b.orders slot in
    let brokered = unindex_broker k e b in
    let secured = unindex_security k e brokered in
    slots_of-release_slot k slot secured
    ∙ ap (λ (s : Slots). released k slot (less_one s.count) s)
        (slots_of-unindex_security k e brokered ∙ slots_of-unindex_broker k e b)

pub archive_order-IsValid :
    (capacity k : ℕ) (b : OrderBook) → IsValid capacity b → IsValid capacity (archive_order k b).1
archive_order-IsValid capacity k b v = elim (Option-cases (find_slot k b)) [
  | inl absent ↦ rw (archive_order_absent k b absent) v
  | inr (slot, at) ↦
      rw
        (
          archive_order_at k slot b at,
          slots_of-call_back (b.orders slot) archived (removed k slot b),
          slots_of-removed k slot b,
        )
        (release-IsValidSlots capacity (slots_of b) k slot (less_one b.active_count) v at
          (ground (arith, v.counted, length-erase k slot b.id_to_index v.is_map at)))
]

pub clear-IsValid : (capacity : ℕ) (b : OrderBook) → IsValid capacity (clear capacity b)
unfolding clear
clear-IsValid capacity b = empty-IsValidSlots capacity (λ _. 0)
