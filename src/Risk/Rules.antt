-- ===== src/Risk/Rules.antt =====
-- src/risk/risk_checker.hpp and risk_checker.cpp: the risk rules. The virtual class of rules is the
-- sum of its subclasses; a result is its code, and the text of its message is left out. `now` is
-- the value of now_monotonic_ns().
use account_services.Base.{
  ℕ, ◌+◌, ◌-◌, ◌*◌, ◌%◌, Bool, true, false, not, ◌&&◌, ◌||◌, Option, none, some, Map, Text, lookup,
  insert, nat_eq, eq_text, u128_mod, add32, ltb, leb, ◌==◌, if◌then◌else◌,
}
use account_services.Types.{TradeSide, RiskResult, is_new}
use account_services.Request.{OrderRequest}
use account_services.Identity.{normalize_internal_security_id}
use account_services.Portfolio.State.{PositionManager}
use account_services.Portfolio.Fund.{get_available_fund}
use account_services.Portfolio.Securities.{get_sellable_volume}

-- price_limit_rule: limit up and limit down per security
pub record PriceLimits : Type 0 where
  pub limits : Map Text (ℕ × ℕ)

-- duplicate_order_rule
pub record RecentOrders : Type 0 where
  pub recent_orders : Map ℕ ℕ
  pub time_window_ns : ℕ

-- rate_limit_rule
pub record RateLimit : Type 0 where
  pub max_orders_per_second : ℕ
  pub current_second_count : ℕ
  pub current_second_start : ℕ

pub data RuleBody : Type 0 where
  fund_check position_check : RuleBody
  max_order_value max_order_volume : ℕ → RuleBody
  price_limit : PriceLimits → RuleBody
  duplicate_order : RecentOrders → RuleBody
  rate_limit : RateLimit → RuleBody

pub record RiskRule : Type 0 where
  pub enabled : Bool
  pub body : RuleBody

-- risk_check_result::passed
unfoldable pub passed : RiskResult → Bool
passed RiskResult.pass = true
passed _ = false

unfoldable pub is_buy : TradeSide → Bool
is_buy TradeSide.buy = true
is_buy _ = false

unfoldable pub is_sell : TradeSide → Bool
is_sell TradeSide.sell = true
is_sell _ = false

-- static_cast<__uint128_t>(volume) * static_cast<__uint128_t>(price)
abbrev pub order_value : OrderRequest → ℕ
order_value order = (order.volume_entrust * order.dprice_entrust) % u128_mod

-- A fee that is not known counts as one, if the order has a value.
abbrev pub estimated_fee : OrderRequest → ℕ
estimated_fee order =
    if (order.dfee_estimate == 0) && ltb 0 (order_value order) then 1 else order.dfee_estimate

unfoldable pub check_fund : PositionManager → OrderRequest → RiskResult
check_fund positions order =
    let required_value = order_value order in
    let required_total = (required_value + estimated_fee order) % u128_mod in
    if not (is_new order.order_type) || not (is_buy order.trade_side)
    then RiskResult.pass
    else if ltb required_total required_value || ltb (get_available_fund positions) required_total
    then RiskResult.reject_insufficient_fund
    else RiskResult.pass

unfoldable pub check_position : PositionManager → OrderRequest → RiskResult
check_position positions order =
    if not (is_new order.order_type) || not (is_sell order.trade_side)
    then RiskResult.pass
    else if ltb (get_sellable_volume positions order.internal_security_id) order.volume_entrust
    then RiskResult.reject_insufficient_position
    else RiskResult.pass

unfoldable pub check_value : ℕ → OrderRequest → RiskResult
check_value max_value order =
    if not (is_new order.order_type) || (max_value == 0)
    then RiskResult.pass
    else if ltb max_value (order_value order)
    then RiskResult.reject_exceed_max_order_value
    else RiskResult.pass

unfoldable pub check_volume : ℕ → OrderRequest → RiskResult
check_volume max_volume order =
    if not (is_new order.order_type) || (max_volume == 0)
    then RiskResult.pass
    else if ltb max_volume order.volume_entrust
    then RiskResult.reject_exceed_max_order_volume
    else RiskResult.pass

-- limits_.find on the canonical key, if there is one
abbrev pub limits_of : PriceLimits → Text → Option (ℕ × ℕ)
limits_of p security_id = elim (normalize_internal_security_id security_id) [
  | none ↦ none
  | some key ↦ lookup key p.limits
]

-- A limit of zero does not bind.
unfoldable pub check_price : PriceLimits → OrderRequest → RiskResult
check_price p order =
    if not (is_new order.order_type)
    then RiskResult.pass
    else elim (limits_of p order.internal_security_id) [
      | none ↦ RiskResult.pass
      | some (limit_up, limit_down) ↦
          if (not (limit_up == 0) && ltb limit_up order.dprice_entrust)
            || (not (limit_down == 0) && ltb order.dprice_entrust limit_down)
          then RiskResult.reject_price_out_of_range
          else RiskResult.pass
    ]

unfoldable pub set_price_limits : Text → ℕ → ℕ → PriceLimits → PriceLimits
set_price_limits security_id limit_up limit_down p =
    elim (normalize_internal_security_id security_id) [
      | none ↦ p
      | some key ↦ record { limits = insert key (limit_up, limit_down) p.limits }
    ]

-- The id was recorded no longer ago than the window.
abbrev pub is_recent : ℕ → ℕ → RecentOrders → Bool
is_recent now key r = elim (lookup key r.recent_orders) [
  | none ↦ false
  | some seen ↦ leb seen now && leb (now - seen) r.time_window_ns
]

-- make_order_fingerprint is the order's id.
unfoldable pub check_duplicate : ℕ → OrderRequest → RecentOrders → RiskResult × RecentOrders
check_duplicate now order r =
    let key = order.internal_order_id in
    if not (is_new order.order_type)
    then (RiskResult.pass, r)
    else if is_recent now key r
    then (RiskResult.reject_duplicate_order, r)
    else (RiskResult.pass, record r { recent_orders = insert key now r.recent_orders })

unfoldable pub record_order : ℕ → OrderRequest → RecentOrders → RecentOrders
record_order now order r = record r {
  recent_orders = insert order.internal_order_id now r.recent_orders;
}

abbrev pub second_ns : ℕ
second_ns = 1000000000

-- The counter starts again when its second is over, or when the clock went back.
abbrev pub in_window : ℕ → RateLimit → RateLimit
in_window now r =
    if (r.current_second_start == 0)
      || (ltb now r.current_second_start || leb second_ns (now - r.current_second_start))
    then record r { current_second_start = now; current_second_count = 0 }
    else r

unfoldable pub check_rate : ℕ → OrderRequest → RateLimit → RiskResult × RateLimit
check_rate now order r =
    let opened = in_window now r in
    let count = add32 opened.current_second_count 1 in
    if not (is_new order.order_type) || (r.max_orders_per_second == 0)
    then (RiskResult.pass, r)
    else (
      if ltb r.max_orders_per_second count then RiskResult.reject_unknown else RiskResult.pass,
      record opened { current_second_count = count },
    )

-- risk_rule::check, past the test of the flag that each rule begins with
unfoldable pub check_body : ℕ → PositionManager → OrderRequest → RuleBody → RiskResult × RuleBody
check_body now positions order RuleBody.fund_check =
    (check_fund positions order, RuleBody.fund_check)
check_body now positions order RuleBody.position_check =
    (check_position positions order, RuleBody.position_check)
check_body now positions order (RuleBody.max_order_value v) =
    (check_value v order, RuleBody.max_order_value v)
check_body now positions order (RuleBody.max_order_volume v) =
    (check_volume v order, RuleBody.max_order_volume v)
check_body now positions order (RuleBody.price_limit p) =
    (check_price p order, RuleBody.price_limit p)
check_body now positions order (RuleBody.duplicate_order r) =
    let (result, r') = check_duplicate now order r in (result, RuleBody.duplicate_order r')
check_body now positions order (RuleBody.rate_limit r) =
    let (result, r') = check_rate now order r in (result, RuleBody.rate_limit r')

unfoldable pub check : ℕ → PositionManager → OrderRequest → RiskRule → RiskResult × RiskRule
check now positions order rule =
    let (result, body) = check_body now positions order rule.body in
    if rule.enabled then (result, record rule { body = body }) else (RiskResult.pass, rule)
