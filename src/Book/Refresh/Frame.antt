-- ===== src/Book/Refresh/Frame.antt =====
-- What a refresh leaves alone.
use account_services.Base.{
  ℕ, ◌≡◌, ◌≢◌, refl, ap, ◌∙◌, ◌⊎◌, inl, inr, false, some, lookup, nat_eq, contains, Bool-cases,
  Option-cases, ◌==◌, arith,
}
use account_services.Book.State.{
  OrderEntry, OrderBook, parent_refreshed, find_slot, find_order, store, is_managed_parent,
}
use account_services.Book.Slots.{slots_of, slots_of-store, slots_of-notify}
use account_services.Book.Refresh.{
  Totals, initial_totals, sum_children, refreshed_parent, apply_totals,
  refresh_parent_from_children,
}

-- An order that is found stands at its slot.
pub find_order-slot :
    (k : ℕ) (b : OrderBook) {e : OrderEntry}
    → find_order k b ≡ some e
    → (slot : ℕ) × (find_slot k b ≡ some slot) × (b.orders slot ≡ e)
unfolding find_order
find_order-slot k b h = ground arith

-- A refresh does nothing, or applies totals at the slot of a parent that is not managed.
pub refresh_cases :
    (p : ℕ) (b : OrderBook)
    → (refresh_parent_from_children p b ≡ b)
      ⊎ ((slot : ℕ) × (t : Totals) × (is_managed_parent p b ≡ false)
          × (find_slot p b ≡ some slot)
          × (refresh_parent_from_children p b ≡ apply_totals p slot t b))
unfolding refresh_parent_from_children
refresh_cases p b = elim (Bool-cases (is_managed_parent p b)) [
  | inl managed ↦ inl (ground arith)
  | inr free ↦ elim (Option-cases (find_slot p b)) [
    | inl absent ↦ inl (ground arith)
    | inr (slot, at) ↦ elim (Option-cases (lookup p b.parent_to_children)) [
      | inl childless ↦ inl (ground arith)
      | inr (children, kids) ↦
          inr
            (slot, sum_children b children (initial_totals (b.orders slot)), free, at, ground arith)
    ]
  ]
]

slots_of-apply_totals :
    (p slot : ℕ) (t : Totals) (b : OrderBook) → slots_of (apply_totals p slot t b) ≡ slots_of b
unfolding apply_totals refreshed_parent
slots_of-apply_totals p slot t b = elim (Bool-cases (t.new_child_count == 0)) [
  | inl e ↦ rw (e, apply_totals)
  | inr e ↦
      rw (e, apply_totals)
        (slots_of-notify slot parent_refreshed (
            store slot
              (refreshed_parent t (contains p b.split_parent_error_latched) (b.orders slot)) b)
          ∙ slots_of-store slot
              (refreshed_parent t (contains p b.split_parent_error_latched) (b.orders slot)) b refl)
]

pub slots_of-refresh :
    (p : ℕ) (b : OrderBook) → slots_of (refresh_parent_from_children p b) ≡ slots_of b
slots_of-refresh p b = elim (refresh_cases p b) [
  | inl e ↦ ap slots_of e
  | inr (slot, t, _, _, e) ↦ ap slots_of e ∙ slots_of-apply_totals p slot t b
]

find_order-apply_totals_other :
    (p slot j : ℕ) (t : Totals) (b : OrderBook)
    → find_order j (
        store slot (refreshed_parent t (contains p b.split_parent_error_latched) (b.orders slot)) b)
      ≡ find_order j b
    → find_order j (apply_totals p slot t b) ≡ find_order j b
unfolding apply_totals find_order
find_order-apply_totals_other p slot j t b h = ground arith

-- The slot of every id in work holds the order of that id.
abbrev pub IsOwned : OrderBook → Type 0
IsOwned b = (k i : ℕ) → find_slot k b ≡ some i → (b.orders i).request.internal_order_id ≡ k

-- In such a book a write at the slot of one order, and so a refresh, leaves the others alone.
module _ (b : OrderBook) (owned : IsOwned b) where
  pub find_order-store_other :
      (k slot j : ℕ) (e : OrderEntry)
      → find_slot k b ≡ some slot
      → j ≢ k
      → find_order j (store slot e b) ≡ find_order j b
  unfolding find_order
  find_order-store_other k slot j e at other = elim (Option-cases (find_slot j b)) [
    | inl absent ↦ ground arith
    | inr (i, at_j) ↦ ground (arith, owned j i at_j, owned k slot at)
  ]

  pub find_order-refresh_other :
      (p j : ℕ) → j ≢ p → find_order j (refresh_parent_from_children p b) ≡ find_order j b
  find_order-refresh_other p j other = elim (refresh_cases p b) [
    | inl e ↦ ap (find_order j) e
    | inr (slot, t, _, at, e) ↦ ap (find_order j) e ∙ applied slot t at
  ]
    where
      applied :
          (slot : ℕ) (t : Totals)
          → find_slot p b ≡ some slot
          → find_order j (apply_totals p slot t b) ≡ find_order j b
      applied slot t at = find_order-apply_totals_other p slot j t b (
          find_order-store_other p slot j
            (refreshed_parent t (contains p b.split_parent_error_latched) (b.orders slot)) at other)
