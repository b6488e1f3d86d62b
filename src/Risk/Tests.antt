-- ===== src/Risk/Tests.antt =====
-- A manager with every rule, an order, and the risk theorems at them.
use account_services.Base.{
  lookup, ℕ, ◌+◌, ◌-◌, ◌≡◌, ◌≢◌, ◌↔◌, ◌⊎◌, refl, true, some, [], ◌∷◌, codes, min, arith,
}
use account_services.Types.{OrderType, TradeSide, RiskResult, is_new}
use account_services.Request.{OrderRequest, blank_request}
use account_services.Portfolio.State.{PositionManager, clear_position, store_fund_info}
use account_services.Risk.Rules.{RateLimit, RecentOrders, check_duplicate}
use account_services.Risk.Manager.{RiskConfig, RiskManager, check_order}
use account_services.Risk.Manager.Registry.{new_manager}
use account_services.Risk.Manager.Counts.{passes}
use account_services.Risk.Manager.Pointers.{IsLive, RiskCall, risk_run, risk_run-IsLive}
use account_services.Risk.Admission.{AllAdmit, check_order_iff}
use account_services.Risk.Pacing.{rate_results, rate_results_lem, check_duplicate_again}

abbrev config : RiskConfig
config = record {
  max_order_value = 5000;
  max_order_volume = 300;
  max_daily_turnover = 0;
  max_orders_per_second = 2;
  enable_price_limit_check = true;
  enable_duplicate_check = true;
  enable_fund_check = true;
  enable_position_check = true;
  duplicate_window_ns = 100000000;
}

abbrev manager : RiskManager
manager = new_manager config

abbrev positions : PositionManager
positions = record {
  shm = some (record {
    header = record {
      magic = 0x41435354;
      version = 4;
      header_size = 64;
      total_size = 1000;
      capacity = 8192;
      init_state = 1;
      create_time = 5;
      last_update = 5;
      id = 1;
    };
    position_count = 0;
    positions = λ _.
        store_fund_info clear_position
          (record { total_asset = 6000; available = 6000; frozen = 0; market_value = 0 });
  });
  security_to_row = [];
}

abbrev order : ℕ → ℕ → OrderRequest
order id volume = record blank_request {
  internal_order_id = id;
  order_type = OrderType.new;
  trade_side = TradeSide.buy;
  volume_entrust = volume;
  dprice_entrust = 20;
}

check_order_iff_example :
    ((check_order (λ i. 1000 + i) 7 positions (order 4 200) manager).0 ≡ RiskResult.pass)
    ↔ AllAdmit (λ i. 1000 + i) 0 positions (order 4 200) manager.rules
check_order_iff_example =
    check_order_iff (λ i. 1000 + i) 7 positions (order 4 200) manager
      (record { volume = omega arith; price = omega arith; fee = omega arith })

risk_run-IsLive_example : IsLive (
    risk_run
      (RiskCall.removes (some (codes "price_limit"))
        ∷ RiskCall.sets_limits (codes "XSHE_000001") 11 9
        ∷ RiskCall.configures config
        ∷ [])
      manager)
risk_run-IsLive_example = risk_run-IsLive config (
    RiskCall.removes (some (codes "price_limit"))
    ∷ RiskCall.sets_limits (codes "XSHE_000001") 11 9
    ∷ RiskCall.configures config
    ∷ [])

abbrev second : RateLimit
second = record { max_orders_per_second = 2; current_second_count = 1; current_second_start = 1000 }

rate_results_lem_example :
    passes
      (rate_results ((1001, order 1 100) ∷ (1002, order 2 100) ∷ (1003, order 3 100) ∷ []) second)
    ≡ min 3 (2 - 1)
unfolding is_new
rate_results_lem_example =
    rate_results_lem ((1001, order 1 100) ∷ (1002, order 2 100) ∷ (1003, order 3 100) ∷ []) second
      (omega arith) (omega arith)
      (
        (refl, omega arith, omega arith),
        ((refl, omega arith, omega arith), ((refl, omega arith, omega arith), tt)),
      )
      (omega arith)

abbrev recent : RecentOrders
recent = record { recent_orders = (9, 500) ∷ []; time_window_ns = 100 }

check_duplicate_again_example :
    (((order 4 100).internal_order_id ≡ (order 4 200).internal_order_id)
      × ((check_duplicate 1050 (order 4 100) (check_duplicate 1000 (order 4 200) recent).1).0
          ≡ RiskResult.reject_duplicate_order))
    ⊎ (((order 4 100).internal_order_id ≢ (order 4 200).internal_order_id)
        × ((check_duplicate 1050 (order 4 100) (check_duplicate 1000 (order 4 200) recent).1).0
            ≡ (check_duplicate 1050 (order 4 100) recent).0))
unfolding is_new check_duplicate lookup
check_duplicate_again_example =
    check_duplicate_again 1000 1050 (order 4 200) (order 4 100) recent refl refl refl (omega arith)
      (omega arith)
