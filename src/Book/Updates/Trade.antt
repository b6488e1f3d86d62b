-- ===== src/Book/Updates/Trade.antt =====
-- Trades: what they do to the order, and what the order's volumes then say.
use account_services.Base.{
  ℕ, ◌+◌, ◌-◌, ◌≤◌, ◌<◌, ◌≡◌, ◌≢◌, refl, ap, ◌∙◌, ◌⊎◌, inl, inr, Bool, true, false, some, nat_eq,
  u64_mod, saturating_add, Option-cases, arith,
}
use account_services.Types.{OrderState, is_terminal_state}
use account_services.Request.{OrderRequest}
use account_services.Book.State.{OrderEntry, OrderBook, trade_updated, find_slot, find_order, store}
use account_services.Book.Slots.{IsValid, slots_of-store}
use account_services.Book.Refresh.Frame.{find_order-slot, find_order-store_other}
use account_services.Book.Updates.{refresh_parent_of, trade_request, update_trade}
use account_services.Book.Updates.Cases.{update_trade_at, update_trade_absent, traded_entry}
use account_services.Book.Updates.Frame.{
  IsOutOfReach, find_order-notify, find_order-refresh_parent_of, find_order-store_self,
}

module _ (capacity now k vol px val fee : ℕ) (b : OrderBook) (v : IsValid capacity b) where
  find_order-update_trade_written :
      (slot j : ℕ)
      → find_slot k b ≡ some slot
      → IsOutOfReach k j b
      → find_order j (update_trade now k vol px val fee b).1
        ≡ find_order j (store slot (traded_entry now k vol px val fee b (b.orders slot)) b)
  unfolding trade_request
  find_order-update_trade_written slot j at far =
      let e' = traded_entry now k vol px val fee b (b.orders slot) in
      let written = store slot e' b in
      let valid : IsValid capacity written = rw (slots_of-store slot e' b refl) v in
      ap (λ (r : Bool × OrderBook). find_order j r.1)
        (update_trade_at now k vol px val fee b slot at)
      ∙ find_order-notify j slot trade_updated (refresh_parent_of k written)
      ∙ find_order-refresh_parent_of capacity k j written valid far

  -- In a valid book, a trade changes no other order but the parent of its order, and a parent that
  -- the execution engine manages not either.
  pub find_order-update_trade_other :
      (j : ℕ)
      → j ≢ k
      → IsOutOfReach k j b
      → find_order j (update_trade now k vol px val fee b).1 ≡ find_order j b
  find_order-update_trade_other j other far = elim (Option-cases (find_slot k b)) [
    | inl absent ↦
        ap (λ (r : Bool × OrderBook). find_order j r.1)
          (update_trade_absent now k vol px val fee b absent)
    | inr (slot, at) ↦
        find_order-update_trade_written slot j at far
        ∙ find_order-store_other b v.owned k slot j
            (traded_entry now k vol px val fee b (b.orders slot)) at other
  ]

  find_order-update_trade_self :
      {e : OrderEntry}
      → find_order k b ≡ some e
      → IsOutOfReach k k b
      → find_order k (update_trade now k vol px val fee b).1
        ≡ some (traded_entry now k vol px val fee b e)
  find_order-update_trade_self {e} found far =
      let (slot, at, stands) = find_order-slot k b found in
      find_order-update_trade_written slot k at far
      ∙ find_order-store_self k slot (traded_entry now k vol px val fee b (b.orders slot)) b at
      ∙ ap (λ (x : OrderEntry). some (traded_entry now k vol px val fee b x)) stands

-- What was traded and what remains make up what was entrusted.
pub record IsAccounted (r : OrderRequest) : Type 0 where
  pub entrusted : 0 < r.volume_entrust
  pub fits : r.volume_entrust < u64_mod
  pub adds_up : r.volume_traded + r.volume_remain ≡ r.volume_entrust

trade_request-IsAccounted :
    (vol px val fee : ℕ) (r : OrderRequest)
    → vol < u64_mod
    → IsAccounted r
    → IsAccounted (trade_request vol px val fee r)
unfolding trade_request saturating_add
trade_request-IsAccounted vol px val fee r w a = ground arith

-- The state after a trade of an order: an ended order keeps its state, and any other ends, as
-- finished, exactly when the trade covers what remained.
abbrev pub EndsWhenFilled : ℕ → OrderRequest → OrderRequest → Type 0
EndsWhenFilled vol r r' =
    ((is_terminal_state r.order_state ≡ true) × (r'.order_state ≡ r.order_state))
    ⊎ ((r.volume_remain ≤ vol)
        × (is_terminal_state r.order_state ≡ false)
        × (r'.order_state ≡ OrderState.finished))
    ⊎ ((vol < r.volume_remain)
        × (is_terminal_state r.order_state ≡ false)
        × (r'.order_state ≡ r.order_state))

trade_request-EndsWhenFilled :
    (vol px val fee : ℕ) (r : OrderRequest) → EndsWhenFilled vol r (trade_request vol px val fee r)
unfolding trade_request
trade_request-EndsWhenFilled vol px val fee r = ground arith

-- In a valid book, a trade of an order that is not its own unmanaged parent and whose volumes add
-- up leaves volumes that add up, takes from what remains no more than there is, and ends the order
-- exactly when nothing remains.
pub update_trade_lem :
    (capacity now k vol px val fee : ℕ) (b : OrderBook) {e : OrderEntry}
    → IsValid capacity b
    → find_order k b ≡ some e
    → IsOutOfReach k k b
    → vol < u64_mod
    → IsAccounted e.request
    → (e' : OrderEntry) × (find_order k (update_trade now k vol px val fee b).1 ≡ some e')
      × IsAccounted e'.request
      × (e'.request.volume_remain ≡ e.request.volume_remain - vol)
      × EndsWhenFilled vol e.request e'.request
unfolding trade_request
update_trade_lem capacity now k vol px val fee b {e} v found far w a = (
  traded_entry now k vol px val fee b e,
  find_order-update_trade_self capacity now k vol px val fee b v found far,
  trade_request-IsAccounted vol px val fee e.request w a,
  ground arith,
  trade_request-EndsWhenFilled vol px val fee e.request,
)
