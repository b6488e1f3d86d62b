-- ===== src/Book/Orders/Added.antt =====
-- What an insertion does to the slots.
use mathlib.Core.Path.{fun_ext}
use account_services.Base.{
  ℕ, ◌+◌, ◌≡◌, ◌≢◌, refl, ap, ◌∙◌, ◌⊎◌, inl, inr, true, false, not, ◌&&◌, none, List, [], ◌∷◌,
  nat_eq, eq_text, insert, empty, Bool-cases, Option-cases, ltb, ◌==◌, update, arith,
}
use account_services.Identity.{normalize_security_key}
use account_services.Book.State.{
  OrderEntry, OrderBook, added, find_slot, is_managed_parent, saturated_next_order_id,
  ensure_next_order_id_at_least,
}
use account_services.Book.Slots.{Slots, slots_of, IsValid, take-IsValidSlots, slots_of-notify}
use account_services.Book.Refresh.{refresh_parent_from_children}
use account_services.Book.Refresh.Frame.{slots_of-refresh}
use account_services.Book.Orders.{
  add_order, add_to_slot, place, index_broker, index_security, index_child, linked, stored_entry,
}

abbrev pub taken : ℕ → ℕ → List ℕ → Slots → Slots
taken k slot free s = record s {
  index = insert k slot s.index;
  free = free;
  id_at = update s.id_at slot k;
}

abbrev pub counted_in : Slots → Slots
counted_in s = record s { count = s.count + 1 }

pub slots_of-ensure_next_order_id_at_least :
    (n : ℕ) (b : OrderBook) → slots_of (ensure_next_order_id_at_least n b) ≡ slots_of b
unfolding ensure_next_order_id_at_least
slots_of-ensure_next_order_id_at_least n b = elim (Bool-cases (ltb b.next_order_id n)) [
  | inl raise ↦ rw (raise, ensure_next_order_id_at_least)
  | inr stay ↦ rw (stay, ensure_next_order_id_at_least)
]

slots_of-place :
    (k slot : ℕ) (free : List ℕ) (e : OrderEntry) (b : OrderBook)
    → e.request.internal_order_id ≡ k
    → slots_of (place k slot free e b) ≡ taken k slot free (slots_of b)
unfolding place
slots_of-place k slot free e b h =
    slots_of-ensure_next_order_id_at_least (saturated_next_order_id k) (record b {
      free_slots = free;
      orders = update b.orders slot e;
      id_to_index = insert k slot b.id_to_index;
    })
    ∙ ap
        (λ (f : ℕ → ℕ).
          let s : Slots = record {
            index = insert k slot b.id_to_index;
            free = free;
            count = b.active_count;
            id_at = f;
          } in
          s)
        (fun_ext (λ j. ground arith))

slots_of-index_broker :
    (k : ℕ) (e : OrderEntry) (b : OrderBook) → slots_of (index_broker k e b) ≡ slots_of b
unfolding index_broker
slots_of-index_broker k e b = elim (Bool-cases (e.request.broker_order_id == 0)) [
  | inl h ↦ rw (h, index_broker)
  | inr h ↦ rw (h, index_broker)
]

slots_of-index_security :
    (k : ℕ) (e : OrderEntry) (b : OrderBook) → slots_of (index_security k e b) ≡ slots_of b
unfolding index_security
slots_of-index_security k e b = elim (Bool-cases (empty e.request.internal_security_id)) [
  | inl h ↦ rw (h, index_security)
  | inr h ↦ elim (Option-cases (normalize_security_key e.request.internal_security_id)) [
    | inl bad ↦ rw (h, index_security, bad)
    | inr (key, good) ↦ rw (h, index_security, good)
  ]
]

pub index_child_cases :
    (k : ℕ) (e : OrderEntry) (b : OrderBook)
    → (index_child k e b ≡ b)
      ⊎ (index_child k e b ≡ linked k e.parent_order_id b)
      ⊎ (index_child k e b
          ≡ refresh_parent_from_children e.parent_order_id (linked k e.parent_order_id b))
unfolding index_child
index_child_cases k e b = elim (Bool-cases (e.is_split_child && not (e.parent_order_id == 0))) [
  | inr h ↦ inl (ground arith)
  | inl h ↦ elim (Bool-cases (is_managed_parent e.parent_order_id b)) [
    | inl managed ↦ inr (inl (ground arith))
    | inr free ↦ inr (inr (ground arith))
  ]
]

slots_of-index_child :
    (k : ℕ) (e : OrderEntry) (b : OrderBook) → slots_of (index_child k e b) ≡ slots_of b
slots_of-index_child k e b = elim (index_child_cases k e b) [
  | inl h ↦ ap slots_of h
  | inr (inl h) ↦ ap slots_of h
  | inr (inr h) ↦ ap slots_of h ∙ slots_of-refresh e.parent_order_id (linked k e.parent_order_id b)
]

pub slots_of-add_to_slot :
    (k slot : ℕ) (free : List ℕ) (e : OrderEntry) (b : OrderBook)
    → e.request.internal_order_id ≡ k
    → slots_of (add_to_slot k slot free e b) ≡ counted_in (taken k slot free (slots_of b))
unfolding add_to_slot
slots_of-add_to_slot k slot free e b h =
    let placed = place k slot free e b in
    let brokered = index_broker k e placed in
    let secured = index_security k e brokered in
    let indexed = index_child k e secured in
    slots_of-notify slot added (record indexed { active_count = indexed.active_count + 1 })
    ∙ ap counted_in (
        slots_of-index_child k e secured
        ∙ slots_of-index_security k e brokered
        ∙ slots_of-index_broker k e placed
        ∙ slots_of-place k slot free e b h)

-- The ends of an insertion.
pub add_order_cases :
    (now : ℕ) (e : OrderEntry) (b : OrderBook)
    → (add_order now e b ≡ (false, b))
      ⊎ ((slot : ℕ) × (free : List ℕ) × (e.request.internal_order_id ≢ 0)
          × (find_slot e.request.internal_order_id b ≡ none)
          × (b.free_slots ≡ slot ∷ free)
          × (add_order now e b
              ≡ (true, add_to_slot e.request.internal_order_id slot free (stored_entry now e) b)))
unfolding add_order
add_order_cases now e b = elim (Bool-cases (e.request.internal_order_id == 0)) [
  | inl zero_id ↦ inl (ground arith)
  | inr h ↦ elim (Option-cases (find_slot e.request.internal_order_id b)) [
    | inr (i, known) ↦ inl (ground arith)
    | inl fresh ↦ by_free b.free_slots refl h fresh
  ]
]
  where
    by_free :
        (l : List ℕ)
        → b.free_slots ≡ l
        → (e.request.internal_order_id == 0) ≡ false
        → find_slot e.request.internal_order_id b ≡ none
        → (add_order now e b ≡ (false, b))
          ⊎ ((slot : ℕ) × (free : List ℕ) × (e.request.internal_order_id ≢ 0)
              × (find_slot e.request.internal_order_id b ≡ none)
              × (b.free_slots ≡ slot ∷ free)
              × (add_order now e b ≡ (
                true,
                add_to_slot e.request.internal_order_id slot free (stored_entry now e) b,
              )))
    by_free [] full h fresh = inl (ground arith)
    by_free (slot ∷ free) first h fresh = inr (slot, free, ground arith, fresh, first, ground arith)

pub add_order-IsValid :
    (capacity now : ℕ) (e : OrderEntry) (b : OrderBook)
    → IsValid capacity b
    → IsValid capacity (add_order now e b).1
unfolding stored_entry
add_order-IsValid capacity now e b v = elim (add_order_cases now e b) [
  | inl h ↦ rw h v
  | inr (slot, free, nz, fresh, first, h) ↦
      let k = e.request.internal_order_id in
      rw (h, slots_of-add_to_slot k slot free (stored_entry now e) b refl)
        (take-IsValidSlots capacity (slots_of b) k slot free v nz fresh first)
]
