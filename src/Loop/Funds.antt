-- ===== src/Loop/Funds.antt =====
-- EventLoop::prepare_order_estimate, reserve_order_resources, release_order_resources and
-- settle_buy_trade_fund. An entry is given by its slot in the book.
use account_services.Base.{
  ℕ, ◌+◌, ◌-◌, ◌*◌, Bool, true, false, not, ◌&&◌, ◌||◌, Option, none, some, u64_max, ltb, leb, ◌==◌,
  if◌then◌else◌,
}
use account_services.Types.{TradeSide, is_new}
use account_services.Request.{OrderRequest}
use account_services.Book.State.{OrderEntry}
use account_services.Risk.Rules.{is_buy}
use account_services.Portfolio.Fund.{freeze_fund, unfreeze_fund, deduct_fund, apply_buy_trade_fund}
use account_services.Loop.State.{EventLoop, book_of, write_entry}

unfoldable pub try_calculate_trade_value : ℕ → ℕ → Option ℕ
try_calculate_trade_value volume price =
    if ltb u64_max (volume * price) then none else some (volume * price)

unfoldable pub try_total_with_fee : ℕ → ℕ → Option ℕ
try_total_with_fee amount fee = if ltb u64_max (amount + fee) then none else some (amount + fee)

unfoldable pub prepare_order_estimate : (TradeSide → ℕ → ℕ) → OrderRequest → OrderRequest
prepare_order_estimate calculate_fee r =
    if not (is_new r.order_type) || not (r.dfee_estimate == 0)
    then r
    else elim (try_calculate_trade_value r.volume_entrust r.dprice_entrust) [
      | none ↦ r
      | some value ↦
          if value == 0 then r else record r { dfee_estimate = calculate_fee r.trade_side value }
    ]

-- A buy, whose money is frozen.
unfoldable pub is_new_buy : OrderEntry → Bool
is_new_buy e = is_new e.request.order_type && is_buy e.request.trade_side

-- What a buy costs with its fee, in 64 bits.
unfoldable pub reserved_total : OrderRequest → Option ℕ
reserved_total r = elim (try_calculate_trade_value r.volume_entrust r.dprice_entrust) [
  | none ↦ none
  | some value ↦ try_total_with_fee value r.dfee_estimate
]

abbrev pub with_frozen : ℕ → OrderEntry → OrderEntry
with_frozen amount e = record e { fund_frozen = amount }

module _ {E : Type 0} where
  abbrev pub entry_at : ℕ → EventLoop E → OrderEntry
  entry_at slot s = (book_of s).orders slot

  unfoldable pub reserve_order_resources : ℕ → ℕ → EventLoop E → Bool × EventLoop E
  reserve_order_resources now slot s =
      if not (is_new_buy (entry_at slot s))
      then (true, s)
      else elim (reserved_total (entry_at slot s).request) [
        | none ↦ (false, s)
        | some total ↦
            let (frozen, positions) = freeze_fund now total s.positions in
            let s' = record s { positions = positions } in
            if frozen then (true, write_entry slot (with_frozen total) s') else (false, s')
      ]

  unfoldable pub release_order_resources : ℕ → ℕ → EventLoop E → EventLoop E
  release_order_resources now slot s =
      let e = entry_at slot s in
      let (released, positions) = unfreeze_fund now e.fund_frozen s.positions in
      let s' = record s { positions = positions } in
      if not (is_new_buy e) || (e.fund_frozen == 0)
      then s
      else if released
      then write_entry slot (with_frozen 0) s'
      else s'

  unfoldable pub settle_buy_trade_fund : ℕ → ℕ → ℕ → ℕ → EventLoop E → Bool × EventLoop E
  settle_buy_trade_fund now slot amount fee s =
      let frozen = (entry_at slot s).fund_frozen in
      let (bought, positions) = apply_buy_trade_fund now amount fee s.positions in
      let (deducted, positions') = deduct_fund now amount fee s.positions in
      if frozen == 0
      then (bought, record s { positions = positions })
      else elim (try_total_with_fee amount fee) [
        | none ↦ (false, s)
        | some total ↦
            let s' = record s { positions = positions' } in
            if deducted
            then (
              true,
              write_entry slot (with_frozen (if leb total frozen then frozen - total else 0)) s',
            )
            else (false, s')
      ]
