-- ===== src/Portfolio/Fund/Worth.antt =====
-- Freezing and releasing money: what the fund is worth stays.
use account_services.Base.{ℕ, ◌≡◌, refl, some, arith}
use account_services.Portfolio.State.{
  PositionManager, PositionsShm, load_fund_info, fund_position_index,
}
use account_services.Portfolio.Fund.{get_fund_info, freeze_fund, unfreeze_fund}
use account_services.Portfolio.Fund.Balance.{IsBalanced}

-- The books are in balance, with a total asset and a market value that are given; what is available
-- and what is frozen then have a given sum.
pub record IsWorth (total_asset market_value : ℕ) (m : PositionManager) : Type 0 where
  pub balanced : IsBalanced (get_fund_info m)
  pub total : (get_fund_info m).total_asset ≡ total_asset
  pub market : (get_fund_info m).market_value ≡ market_value

pub freeze_fund-IsWorth :
    (now amount t v : ℕ) (m : PositionManager)
    → IsWorth t v m
    → IsWorth t v (freeze_fund now amount m).1
unfolding get_fund_info freeze_fund
freeze_fund-IsWorth now amount t v m w = record {
  balanced = let b = w.balanced in ground arith;
  total = let b = w.total in ground arith;
  market = let b = w.market in ground arith;
}

pub unfreeze_fund-IsWorth :
    (now amount t v : ℕ) (m : PositionManager)
    → IsWorth t v m
    → IsWorth t v (unfreeze_fund now amount m).1
unfolding get_fund_info unfreeze_fund
unfreeze_fund-IsWorth now amount t v m w = record {
  balanced = let b = w.balanced in ground arith;
  total = let b = w.total in ground arith;
  market = let b = w.market in ground arith;
}

-- The fund of a mapped table is its fund row's.
pub get_fund_info_at :
    (m : PositionManager) {s : PositionsShm}
    → m.shm ≡ some s
    → get_fund_info m ≡ load_fund_info (s.positions fund_position_index)
unfolding get_fund_info
get_fund_info_at m mapped = rw mapped refl
