-- ===== src/Portfolio/Fund/Exact.antt =====
-- The fund operations against their description in unbounded arithmetic.
use account_services.Base.{ℕ, ◌+◌, ◌-◌, ◌≤◌, ◌<◌, ◌≡◌, ◌↔◌, true, some, u64_mod, arith}
use account_services.Portfolio.State.{FundInfo, PositionsShm, PositionManager}
use account_services.Portfolio.Fund.{get_fund_info, freeze_fund, unfreeze_fund}
use account_services.Portfolio.Fund.Balance.{FundCall, fund_step}

pub record IsWords (f : FundInfo) : Type 0 where
  pub total_fits : f.total_asset < u64_mod
  pub available_fits : f.available < u64_mod
  pub frozen_fits : f.frozen < u64_mod
  pub market_fits : f.market_value < u64_mod

abbrev pub AreWords : FundCall → Type 0
AreWords (FundCall.freezes amount) = amount < u64_mod
AreWords (FundCall.unfreezes amount) = amount < u64_mod
AreWords (FundCall.adds amount) = amount < u64_mod
AreWords (FundCall.deducts amount fee) = (amount < u64_mod) × (fee < u64_mod)
AreWords (FundCall.buys amount fee) = (amount < u64_mod) × (fee < u64_mod)
AreWords (FundCall.sells amount fee) = (amount < u64_mod) × (fee < u64_mod)

-- When the call can be made: the row it takes from, available or frozen, holds what it takes, and
-- the amounts it adds to stay below 2^64. What is taken from the market value or the total asset is
-- cut at zero, and refuses no call.
abbrev pub IsPossible : FundCall → FundInfo → Type 0
IsPossible (FundCall.freezes amount) f = (amount ≤ f.available) × (f.frozen + amount < u64_mod)
IsPossible (FundCall.unfreezes amount) f = (amount ≤ f.frozen) × (f.available + amount < u64_mod)
IsPossible (FundCall.adds amount) f =
    (f.available + amount < u64_mod) × (f.total_asset + amount < u64_mod)
IsPossible (FundCall.deducts amount fee) f =
    (amount + fee ≤ f.frozen) × (f.market_value + amount < u64_mod)
IsPossible (FundCall.buys amount fee) f =
    (amount + fee ≤ f.available) × (f.market_value + amount < u64_mod)
IsPossible (FundCall.sells amount fee) f =
    (fee ≤ f.available + amount) × (f.available + amount < u64_mod + fee)

-- What the call makes of the fund, with no machine arithmetic.
abbrev pub outcome : FundCall → FundInfo → FundInfo
outcome (FundCall.freezes amount) f = record f {
  available = f.available - amount;
  frozen = f.frozen + amount;
}
outcome (FundCall.unfreezes amount) f = record f {
  available = f.available + amount;
  frozen = f.frozen - amount;
}
outcome (FundCall.adds amount) f = record f {
  available = f.available + amount;
  total_asset = f.total_asset + amount;
}
outcome (FundCall.deducts amount fee) f = record f {
  frozen = f.frozen - (amount + fee);
  total_asset = f.total_asset - fee;
  market_value = f.market_value + amount;
}
outcome (FundCall.buys amount fee) f = record f {
  available = f.available - (amount + fee);
  total_asset = f.total_asset - fee;
  market_value = f.market_value + amount;
}
outcome (FundCall.sells amount fee) f = record f {
  available = f.available + amount - fee;
  total_asset = f.total_asset - fee;
  market_value = f.market_value - amount;
}

module _ (now : ℕ) (m : PositionManager) {s : PositionsShm} (mapped : m.shm ≡ some s) where
  -- On a mapped table of 64-bit amounts a call with 64-bit arguments returns true exactly when the
  -- available or the frozen amount that it takes from, with what a sale brings in, holds what it
  -- takes, and no amount that it adds to leaves the 64-bit range. A fee above the total asset and a sale above the market value are no
  -- reason to refuse.
  pub fund_step-iff-IsPossible :
      (c : FundCall)
      → AreWords c
      → IsWords (get_fund_info m)
      → ((fund_step now c m).0 ≡ true) ↔ IsPossible c (get_fund_info m)
  unfolding fund_step get_fund_info
  fund_step-iff-IsPossible (FundCall.freezes amount) w f = ground arith
  fund_step-iff-IsPossible (FundCall.unfreezes amount) w f = ground arith
  fund_step-iff-IsPossible (FundCall.adds amount) w f = ground arith
  fund_step-iff-IsPossible (FundCall.deducts amount fee) w f = ground arith
  fund_step-iff-IsPossible (FundCall.buys amount fee) w f = ground arith
  fund_step-iff-IsPossible (FundCall.sells amount fee) w f = ground arith

  -- On a mapped table of 64-bit amounts a call with 64-bit arguments that returns true makes of the
  -- fund what unbounded arithmetic says.
  pub fund_step-outcome :
      (c : FundCall)
      → AreWords c
      → IsWords (get_fund_info m)
      → (fund_step now c m).0 ≡ true
      → get_fund_info (fund_step now c m).1 ≡ outcome c (get_fund_info m)
  unfolding fund_step get_fund_info
  fund_step-outcome (FundCall.freezes amount) w f h = ground arith
  fund_step-outcome (FundCall.unfreezes amount) w f h = ground arith
  fund_step-outcome (FundCall.adds amount) w f h = ground arith
  fund_step-outcome (FundCall.deducts amount fee) w f h = ground arith
  fund_step-outcome (FundCall.buys amount fee) w f h = ground arith
  fund_step-outcome (FundCall.sells amount fee) w f h = ground arith

-- In a fund of 64-bit amounts, releasing what was just frozen succeeds and restores the fund.
pub unfreeze_fund-freeze_fund :
    (now later amount : ℕ) (m : PositionManager)
    → IsWords (get_fund_info m)
    → (freeze_fund now amount m).0 ≡ true
    → let r = unfreeze_fund later amount (freeze_fund now amount m).1 in
      (r.0 ≡ true) × (get_fund_info r.1 ≡ get_fund_info m)
unfolding get_fund_info freeze_fund unfreeze_fund
unfreeze_fund-freeze_fund now later amount m w h = ground arith
