-- ===== src/Portfolio/Fund/Tests.antt =====
-- A fund row of ten thousand, and the fund theorems at it.
use account_services.Base.{◌+◌, ◌<◌, ◌≡◌, ◌↔◌, refl, true, false, some, [], arith}
use account_services.Portfolio.State.{
  FundInfo, PositionsHeader, PositionsShm, PositionManager, clear_position, store_fund_info,
}
use account_services.Portfolio.Fund.{
  get_fund_info, freeze_fund, unfreeze_fund, apply_sell_trade_fund,
}
use account_services.Portfolio.Fund.Balance.{
  buys, sells, fund_step, IsBalanced, fund_step-IsBalanced, sell_gain_unbalanced,
}
use account_services.Portfolio.Fund.Exact.{
  IsPossible, outcome, fund_step-iff-IsPossible, fund_step-outcome, unfreeze_fund-freeze_fund,
}

abbrev header : PositionsHeader
header = record {
  magic = 0x41435354;
  version = 4;
  header_size = 64;
  total_size = 1000;
  capacity = 8192;
  init_state = 1;
  create_time = 5;
  last_update = 5;
  id = 1;
}

abbrev fund : FundInfo
fund = record { total_asset = 10000; available = 6000; frozen = 3000; market_value = 1000 }

abbrev table : PositionsShm
table = record {
  header = header;
  position_count = 0;
  positions = λ _. store_fund_info clear_position fund;
}

abbrev manager : PositionManager
manager = record { shm = some table; security_to_row = [] }

freeze_run :
    get_fund_info (freeze_fund 9 500 manager).1 ≡ record fund { available = 5500; frozen = 3500 }
unfolding get_fund_info freeze_fund
freeze_run = refl

-- A sum that wraps is refused.
freeze_too_much : (freeze_fund 9 6001 manager).0 ≡ false
unfolding freeze_fund
freeze_too_much = refl

fund_step-IsBalanced_example : IsBalanced (get_fund_info (fund_step 9 (sells 800 3) manager).1)
unfolding get_fund_info
fund_step-IsBalanced_example =
    fund_step-IsBalanced 9 (sells 800 3) manager (omega arith)
      (record { adds_up = refl; fits = omega arith })

sell_gain_unbalanced_example :
    let f = get_fund_info (apply_sell_trade_fund 9 1200 3 manager).1 in
    f.total_asset < f.available + f.frozen + f.market_value
unfolding get_fund_info apply_sell_trade_fund
sell_gain_unbalanced_example =
    sell_gain_unbalanced 9 1200 3 manager (omega arith) (omega arith) (omega arith)
      (record { adds_up = refl; fits = omega arith }) (omega arith) refl

fund_step-iff-IsPossible_example :
    ((fund_step 9 (buys 700 1) manager).0 ≡ true) ↔ IsPossible (buys 700 1) (get_fund_info manager)
unfolding get_fund_info
fund_step-iff-IsPossible_example =
    fund_step-iff-IsPossible 9 manager refl (buys 700 1) (omega arith) (omega arith)

fund_step-outcome_example :
    get_fund_info (fund_step 9 (buys 700 1) manager).1
    ≡ outcome (buys 700 1) (get_fund_info manager)
unfolding get_fund_info fund_step
fund_step-outcome_example =
    fund_step-outcome 9 manager refl (buys 700 1) (omega arith) (omega arith) refl

unfreeze_fund-freeze_fund_example :
    let r = unfreeze_fund 10 500 (freeze_fund 9 500 manager).1 in
    (r.0 ≡ true) × (get_fund_info r.1 ≡ get_fund_info manager)
unfolding get_fund_info freeze_fund
unfreeze_fund-freeze_fund_example = unfreeze_fund-freeze_fund 9 10 500 manager (omega arith) refl
