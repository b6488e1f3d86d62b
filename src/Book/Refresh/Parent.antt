-- ===== src/Book/Refresh/Parent.antt =====
-- What a refresh makes of the parent, in terms of its children.
use account_services.Base.{
  ℕ, ◌<◌, ◌≡◌, ◌≢◌, refl, ap, ◌∙◌, ◌⊎◌, inl, inr, Bool, true, false, not, if◌then◌else◌, some, List,
  lookup, nat_eq, contains, u64_max, min, All, length, ◌==◌, Bool-cases, arith,
}
use account_services.Types.{OrderState, state_code}
use account_services.Book.State.{OrderEntry, OrderBook, find_slot, find_order, is_managed_parent}
use account_services.Book.Refresh.{
  Totals, initial_totals, sum_children, refreshed_state, refreshed_parent, apply_totals,
  refresh_parent_from_children,
}
use account_services.Book.Refresh.Sums.{
  new_children, sum, traded_volumes, remaining_volumes, traded_values, executed_fees, all_ended,
  IsFront, IsSummed, HasWords, sum_children-IsSummed,
}
use account_services.Book.Refresh.Frame.{find_order-slot}

abbrev pub is_not_set : OrderState → Bool
is_not_set OrderState.not_set = true
is_not_set _ = false

-- The parent shows a latched error, or the end of all children, or the state of the first of the
-- most advanced children; where that child has none yet, the parent keeps its own.
abbrev pub ShowsProgress : List OrderEntry → Bool → OrderState → OrderState → Type 0
ShowsProgress cs latched current st =
    ((latched ≡ true) × (st ≡ OrderState.trader_error))
    ⊎ ((latched ≡ false) × (all_ended cs ≡ true) × (st ≡ OrderState.finished))
    ⊎ ((latched ≡ false)
        × (all_ended cs ≡ false)
        × ((c : OrderEntry) × IsFront c cs
            × (st ≡ (if is_not_set c.request.order_state then current else c.request.order_state))))

-- The parent's amounts are the children's sums, cut at the largest 64-bit value, and what remains
-- is also cut at the parent's own volume, if it has one.
abbrev pub ShowsSums : List OrderEntry → OrderEntry → OrderEntry → Type 0
ShowsSums cs e e' =
    (e'.request.volume_traded ≡ min u64_max (sum (traded_volumes cs)))
    × (e'.request.dvalue_traded ≡ min u64_max (sum (traded_values cs)))
    × (e'.request.dfee_executed ≡ min u64_max (sum (executed_fees cs)))
    × (((e.request.volume_entrust ≡ 0)
          × (e'.request.volume_remain ≡ min u64_max (sum (remaining_volumes cs))))
        ⊎ ((0 < e.request.volume_entrust)
            × (e'.request.volume_remain
                ≡ min e.request.volume_entrust (min u64_max (sum (remaining_volumes cs))))))

shown :
    (st current : OrderState)
    → (if not (state_code st == state_code OrderState.not_set) then st else current)
      ≡ (if is_not_set st then current else st)
shown OrderState.not_set current = refl
shown _ current = refl

refreshed_state-ShowsProgress :
    (cs : List OrderEntry) (t : Totals) (latched : Bool) (current : OrderState)
    → IsSummed cs t
    → ShowsProgress cs latched current (refreshed_state t latched current)
unfolding refreshed_state
refreshed_state-ShowsProgress cs t true current s = inl (refl, refl)
refreshed_state-ShowsProgress cs t false current s = elim (Bool-cases t.all_terminal) [
  | inl h ↦ inr (inl (refl, ground (arith, s.ended), ground arith))
  | inr h ↦
      let (c, front, is_c) = s.progress in
      inr (
        inr (
          refl,
          ground (arith, s.ended),
          (c, front, rw (refreshed_state, h, is_c) (shown c.request.order_state current)),
        ))
]

refreshed_parent-ShowsSums :
    (cs : List OrderEntry) (t : Totals) (latched : Bool) (e : OrderEntry)
    → IsSummed cs t
    → ShowsSums cs e (refreshed_parent t latched e)
unfolding refreshed_parent
refreshed_parent-ShowsSums cs t latched e s = (s.traded, s.value, s.fee, ground (arith, s.remain))

find_order-apply_totals :
    (p slot : ℕ) (t : Totals) (b : OrderBook)
    → find_slot p b ≡ some slot
    → t.new_child_count ≢ 0
    → find_order p (apply_totals p slot t b)
      ≡ some (refreshed_parent t (contains p b.split_parent_error_latched) (b.orders slot))
unfolding apply_totals find_order
find_order-apply_totals p slot t b at h = ground arith

refresh_at :
    (p slot : ℕ) (b : OrderBook) (ids : List ℕ)
    → is_managed_parent p b ≡ false
    → find_slot p b ≡ some slot
    → lookup p b.parent_to_children ≡ some ids
    → refresh_parent_from_children p b
      ≡ apply_totals p slot (sum_children b ids (initial_totals (b.orders slot))) b
unfolding refresh_parent_from_children
refresh_at p slot b ids free at kids = ground arith

-- A refresh of a parent that is not managed and has a child that is a new order, all amounts of
-- such children being 64-bit values, gives the parent the children's sums, cut at the largest 64-bit
-- value and for what remains at its own volume. Its state is an error if one was latched, or else
-- finished if all of them have ended, or else that of the first of the most advanced of them, where
-- the parent keeps its own state if that child has none.
pub refresh_parent_lem :
    (p : ℕ) (b : OrderBook) {e : OrderEntry} {ids : List ℕ}
    → is_managed_parent p b ≡ false
    → find_order p b ≡ some e
    → lookup p b.parent_to_children ≡ some ids
    → 0 < length (new_children b ids)
    → All HasWords (new_children b ids)
    → (e' : OrderEntry) × (find_order p (refresh_parent_from_children p b) ≡ some e')
      × ShowsSums (new_children b ids) e e'
      × ShowsProgress
          (new_children b ids)
          (contains p b.split_parent_error_latched)
          e.request.order_state
          e'.request.order_state
unfolding refreshed_parent
refresh_parent_lem p b {e} {ids} free at kids some_child words =
    let (slot, at_slot, stands) = find_order-slot p b at in
    let cs = new_children b ids in
    let t = sum_children b ids (initial_totals (b.orders slot)) in
    let latched = contains p b.split_parent_error_latched in
    let summed : IsSummed cs t = sum_children-IsSummed b ids (b.orders slot) some_child words in
    let e' = refreshed_parent t latched (b.orders slot) in
    (
      e',
      ap (find_order p) (refresh_at p slot b ids free at_slot kids)
          ∙ find_order-apply_totals p slot t b at_slot (omega (arith, summed.number)),
      rw (← stands) (refreshed_parent-ShowsSums cs t latched (b.orders slot) summed),
      rw (← stands)
          (refreshed_state-ShowsProgress cs t latched (b.orders slot).request.order_state summed),
    )
