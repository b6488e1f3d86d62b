-- ===== src/Portfolio/Fund/Balance.antt =====
-- The books of the fund row: total asset = available + frozen + market value.
use account_services.Base.{ℕ, ◌+◌, ◌≤◌, ◌<◌, ◌≡◌, Bool, true, u64_mod, arith}
use account_services.Portfolio.State.{FundInfo, PositionManager}
use account_services.Portfolio.Fund.{
  get_fund_info, freeze_fund, unfreeze_fund, deduct_fund, add_fund, apply_buy_trade_fund,
  apply_sell_trade_fund,
}

-- The fund calls that the event loop and the execution engine make, with their arguments.
pub data FundCall : Type 0 where
  freezes unfreezes adds : ℕ → FundCall
  deducts buys sells : ℕ → ℕ → FundCall

unfoldable pub fund_step : ℕ → FundCall → PositionManager → Bool × PositionManager
unfolding freeze_fund unfreeze_fund deduct_fund add_fund apply_buy_trade_fund apply_sell_trade_fund
fund_step now (FundCall.freezes amount) = freeze_fund now amount
fund_step now (FundCall.unfreezes amount) = unfreeze_fund now amount
fund_step now (FundCall.adds amount) = add_fund now amount
fund_step now (FundCall.deducts amount fee) = deduct_fund now amount fee
fund_step now (FundCall.buys amount fee) = apply_buy_trade_fund now amount fee
fund_step now (FundCall.sells amount fee) = apply_sell_trade_fund now amount fee

-- The books add up, in 64 bits.
pub record IsBalanced (f : FundInfo) : Type 0 where
  pub adds_up : f.total_asset ≡ f.available + f.frozen + f.market_value
  pub fits : f.total_asset < u64_mod

-- The arguments are 64-bit values, and a sale is worth no more than the market value on the books.
abbrev pub IsCovered : FundCall → FundInfo → Type 0
IsCovered (FundCall.freezes amount) f = amount < u64_mod
IsCovered (FundCall.unfreezes amount) f = amount < u64_mod
IsCovered (FundCall.adds amount) f = amount < u64_mod
IsCovered (FundCall.deducts amount fee) f = (amount < u64_mod) × (fee < u64_mod)
IsCovered (FundCall.buys amount fee) f = (amount < u64_mod) × (fee < u64_mod)
IsCovered (FundCall.sells amount fee) f =
    (amount < u64_mod) × (fee < u64_mod) × (amount ≤ f.market_value)

-- Every fund operation, whether it succeeds or is refused, keeps the books in balance, if its
-- arguments are 64-bit values and a sale is worth no more than the market value on the books.
pub fund_step-IsBalanced :
    (now : ℕ) (c : FundCall) (m : PositionManager)
    → IsCovered c (get_fund_info m)
    → IsBalanced (get_fund_info m)
    → IsBalanced (get_fund_info (fund_step now c m).1)
unfolding fund_step get_fund_info
fund_step-IsBalanced now (FundCall.freezes amount) m c v = ground arith
fund_step-IsBalanced now (FundCall.unfreezes amount) m c v = ground arith
fund_step-IsBalanced now (FundCall.adds amount) m c v = ground arith
fund_step-IsBalanced now (FundCall.deducts amount fee) m c v = ground arith
fund_step-IsBalanced now (FundCall.buys amount fee) m c v = ground arith
fund_step-IsBalanced now (FundCall.sells amount fee) m c v = ground arith

-- From balanced books, a sale that succeeds above the market value on the books, with a fee no
-- larger than the amount and the total asset, leaves a total asset below the sum of its parts.
pub sell_gain_unbalanced :
    (now amount fee : ℕ) (m : PositionManager)
    → amount < u64_mod
    → fee ≤ amount
    → fee ≤ (get_fund_info m).total_asset
    → IsBalanced (get_fund_info m)
    → (get_fund_info m).market_value < amount
    → (apply_sell_trade_fund now amount fee m).0 ≡ true
    → let f = get_fund_info (apply_sell_trade_fund now amount fee m).1 in
      f.total_asset < f.available + f.frozen + f.market_value
unfolding get_fund_info apply_sell_trade_fund
sell_gain_unbalanced now amount fee m wa small paid v gain done = ground arith
