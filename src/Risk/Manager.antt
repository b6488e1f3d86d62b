-- ===== src/Risk/Manager.antt =====
-- src/risk/risk_manager.hpp and risk_manager.cpp. The vector of owned rules is a list of rules with
-- their identity, which is what a pointer to a rule points at; `next_rule` is the next identity.
pub mod Registry
pub mod Kinds
pub mod Pointers
pub mod Counts
use account_services.Base.{
  ℕ, ◌+◌, Bool, true, false, not, Option, none, some, List, [], ◌∷◌, add64, if◌then◌else◌,
}
use account_services.Types.{RiskResult}
use account_services.Request.{OrderRequest}
use account_services.Portfolio.State.{PositionManager}
use account_services.Risk.Rules.{RiskRule, passed, check}

pub record RiskConfig : Type 0 where
  pub max_order_value : ℕ
  pub max_order_volume : ℕ
  pub max_daily_turnover : ℕ
  pub max_orders_per_second : ℕ
  pub enable_price_limit_check : Bool
  pub enable_duplicate_check : Bool
  pub enable_fund_check : Bool
  pub enable_position_check : Bool
  pub duplicate_window_ns : ℕ

pub record RiskState : Type 0 where
  pub total_checks : ℕ
  pub passed : ℕ
  pub rejected : ℕ
  pub rejected_fund : ℕ
  pub rejected_position : ℕ
  pub rejected_price : ℕ
  pub rejected_value : ℕ
  pub rejected_volume : ℕ
  pub rejected_duplicate : ℕ
  pub rejected_rate_limit : ℕ
  pub last_check_time : ℕ

-- RiskState::reset
abbrev pub reset_state : RiskState
reset_state = record {
  total_checks = 0;
  passed = 0;
  rejected = 0;
  rejected_fund = 0;
  rejected_position = 0;
  rejected_price = 0;
  rejected_value = 0;
  rejected_volume = 0;
  rejected_duplicate = 0;
  rejected_rate_limit = 0;
  last_check_time = 0;
}

pub record OwnedRule : Type 0 where
  pub identity : ℕ
  pub rule : RiskRule

-- `checked` lists the calls of the post-check callback, newest first. The positions are an argument
-- of the checks, since the manager holds a reference to them.
pub record RiskManager : Type 0 where
  pub config : RiskConfig
  pub rules : List OwnedRule
  pub next_rule : ℕ
  pub stats : RiskState
  pub has_callback : Bool
  pub checked : List (OrderRequest × RiskResult)
  pub price_limit_rule : Option ℕ
  pub duplicate_rule : Option ℕ
  pub rate_limit_rule : Option ℕ

-- switch (result.code) of update_stats
unfoldable pub count_rejection : RiskResult → RiskState → RiskState
count_rejection RiskResult.reject_insufficient_fund s = record s {
  rejected_fund = add64 s.rejected_fund 1;
}
count_rejection RiskResult.reject_insufficient_position s = record s {
  rejected_position = add64 s.rejected_position 1;
}
count_rejection RiskResult.reject_price_out_of_range s = record s {
  rejected_price = add64 s.rejected_price 1;
}
count_rejection RiskResult.reject_exceed_max_order_value s = record s {
  rejected_value = add64 s.rejected_value 1;
}
count_rejection RiskResult.reject_exceed_max_order_volume s = record s {
  rejected_volume = add64 s.rejected_volume 1;
}
count_rejection RiskResult.reject_duplicate_order s = record s {
  rejected_duplicate = add64 s.rejected_duplicate 1;
}
count_rejection _ s = record s { rejected_rate_limit = add64 s.rejected_rate_limit 1 }

unfoldable pub update_stats : ℕ → RiskResult → RiskState → RiskState
update_stats now result s =
    let s' = record s { total_checks = add64 s.total_checks 1; last_check_time = now } in
    if passed result
    then record s' { passed = add64 s.passed 1 }
    else count_rejection result (record s' { rejected = add64 s.rejected 1 })

-- The loop of check_order. A rule that is off is passed over, and the first rejection ends it.
-- `clock i` is the time that the rule at place i reads, and `i` the place of the first of `rules`.
unfoldable pub check_rules :
    (ℕ → ℕ) → ℕ → PositionManager → OrderRequest → List OwnedRule → RiskResult × List OwnedRule
check_rules clock i positions order [] = (RiskResult.pass, [])
check_rules clock i positions order (owned ∷ rules) =
    let (result, rule) = check (clock i) positions order owned.rule in
    let (rest, rules') = check_rules clock (i + 1) positions order rules in
    let owned' = record owned { rule = rule } in
    if not owned.rule.enabled
    then (rest, owned ∷ rules')
    else if passed result
    then (rest, owned' ∷ rules')
    else (result, owned' ∷ rules)

-- `now` is the value of now_ns() in update_stats.
unfoldable pub check_order :
    (ℕ → ℕ) → ℕ → PositionManager → OrderRequest → RiskManager → RiskResult × RiskManager
check_order clock now positions order m =
    let (result, rules) = check_rules clock 0 positions order m.rules in
    (
      result,
      record m {
        rules = rules;
        stats = update_stats now result m.stats;
        checked = if m.has_callback then (order, result) ∷ m.checked else m.checked;
      },
    )

-- One clock and one time for each order.
unfoldable pub check_orders :
    (ℕ → ℕ → ℕ)
    → (ℕ → ℕ)
    → ℕ
    → PositionManager
    → List OrderRequest
    → RiskManager
    → List RiskResult × RiskManager
check_orders clock now i positions [] m = ([], m)
check_orders clock now i positions (order ∷ orders) m =
    let (result, m') = check_order (clock i) (now i) positions order m in
    let (results, m'') = check_orders clock now (i + 1) positions orders m' in
    (result ∷ results, m'')
