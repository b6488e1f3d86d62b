-- ===== src/Book/Updates/Frame.antt =====
-- Which orders an update changes: its own, and its parent if the execution engine does not manage it.
use account_services.Base.{
  ℕ, ◌≡◌, ◌≢◌, refl, ap, ◌∙◌, ◌⊎◌, inl, inr, Bool, true, some, lookup, nat_eq, Bool-cases,
  Option-cases, arith,
}
use account_services.Types.{OrderState}
use account_services.Book.State.{
  OrderEntry, OrderBook, OrderBookEvent, status_updated, find_slot, find_order, store, notify,
  is_managed_parent,
}
use account_services.Book.Slots.{IsValid, slots_of-store}
use account_services.Book.Refresh.Frame.{
  find_order-slot, find_order-store_other, find_order-refresh_other,
}
use account_services.Book.Updates.{refresh_parent_of, latch_error, with_state, update_state}
use account_services.Book.Updates.Cases.{
  refresh_parent_of_cases, update_state_at, update_state_absent, slots_of-latch_error,
}

-- A refresh after a change of the order `k` does not reach the order `j`.
abbrev pub IsOutOfReach : ℕ → ℕ → OrderBook → Type 0
IsOutOfReach k j b = (lookup k b.child_to_parent ≢ some j) ⊎ (is_managed_parent j b ≡ true)

pub find_order-notify :
    (j slot : ℕ) (event : OrderBookEvent) (b : OrderBook)
    → find_order j (notify slot event b) ≡ find_order j b
unfolding find_order
find_order-notify j slot event b = elim (Bool-cases b.has_callback) [ inl e ↦ rw e | inr e ↦ rw e ]

pub find_order-refresh_parent_of :
    (capacity k j : ℕ) (b : OrderBook)
    → IsValid capacity b
    → IsOutOfReach k j b
    → find_order j (refresh_parent_of k b) ≡ find_order j b
find_order-refresh_parent_of capacity k j b v far = elim (refresh_parent_of_cases k b) [
  | inl e ↦ ap (find_order j) e
  | inr (p, child, unmanaged, e) ↦
      ap (find_order j) e ∙ find_order-refresh_other b v.owned p j (ground arith)
]

find_order-latch_error :
    (k j : ℕ) (st : OrderState) (b : OrderBook) → find_order j (latch_error k st b) ≡ find_order j b
unfolding find_order
find_order-latch_error k j st b = ground arith

pub find_order-store_self :
    (k slot : ℕ) (e : OrderEntry) (b : OrderBook)
    → find_slot k b ≡ some slot
    → find_order k (store slot e b) ≡ some e
unfolding find_order
find_order-store_self k slot e b at = ground arith

IsOutOfReach-latch_error :
    (k j : ℕ) (st : OrderState) (b : OrderBook)
    → IsOutOfReach k j b
    → IsOutOfReach k j (latch_error k st b)
IsOutOfReach-latch_error k j st b far = ground arith

module _ (capacity now k : ℕ) (st : OrderState) (b : OrderBook) (v : IsValid capacity b) where
  -- The state update, seen at an order out of its refresh's reach, is its first write.
  find_order-update_state_written :
      (slot j : ℕ)
      → find_slot k b ≡ some slot
      → IsOutOfReach k j b
      → find_order j (update_state now k st b).1
        ≡ find_order j (store slot (with_state now st (b.orders slot)) b)
  find_order-update_state_written slot j at far =
      let written = store slot (with_state now st (b.orders slot)) b in
      let latched = latch_error k st written in
      let valid : IsValid capacity latched =
        rw
          (
            slots_of-latch_error k st written,
            slots_of-store slot (with_state now st (b.orders slot)) b refl,
          )
          v in
      ap (λ (r : Bool × OrderBook). find_order j r.1) (update_state_at now k st b slot at)
      ∙ find_order-notify j slot status_updated (refresh_parent_of k latched)
      ∙ find_order-refresh_parent_of capacity k j latched valid
          (IsOutOfReach-latch_error k j st written far)
      ∙ find_order-latch_error k j st written

  -- In a valid book, setting an order's state gives it that state and the time, if the order is
  -- not its own unmanaged parent.
  pub find_order-update_state_self :
      {e : OrderEntry}
      → find_order k b ≡ some e
      → IsOutOfReach k k b
      → find_order k (update_state now k st b).1 ≡ some (with_state now st e)
  find_order-update_state_self {e} found far =
      let (slot, at, stands) = find_order-slot k b found in
      find_order-update_state_written slot k at far
      ∙ find_order-store_self k slot (with_state now st (b.orders slot)) b at
      ∙ ap (λ (x : OrderEntry). some (with_state now st x)) stands

  -- In a valid book, setting an order's state changes no other order but its parent, and a parent
  -- that the execution engine manages not either.
  pub find_order-update_state_other :
      (j : ℕ)
      → j ≢ k
      → IsOutOfReach k j b
      → find_order j (update_state now k st b).1 ≡ find_order j b
  find_order-update_state_other j other far = elim (Option-cases (find_slot k b)) [
    | inl absent ↦
        ap (λ (r : Bool × OrderBook). find_order j r.1) (update_state_absent now k st b absent)
    | inr (slot, at) ↦
        find_order-update_state_written slot j at far
        ∙ find_order-store_other b v.owned k slot j (with_state now st (b.orders slot)) at other
  ]
