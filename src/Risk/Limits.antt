-- ===== src/Risk/Limits.antt =====
-- What it takes to pass each rule.
use account_services.Base.{
  ℕ, ◌+◌, ◌-◌, ◌*◌, ◌%◌, ◌^◌, ◌≤◌, ◌<◌, ◌≡◌, ◌↔◌, subst, ◌⊎◌, inl, inr, true, ◌&&◌, some, lookup,
  nat_eq, eq_text, u64_mod, ltb, ◌==◌, if◌then◌else◌, Option-cases, arith,
}
use account_services.Types.{RiskResult, is_new}
use account_services.Request.{OrderRequest}
use account_services.Portfolio.State.{PositionManager}
use account_services.Portfolio.Fund.{get_available_fund}
use account_services.Portfolio.Securities.{get_sellable_volume}
use account_services.Risk.Rules.{
  check_fund, check_position, check_value, check_volume, check_price, check_duplicate, check_rate,
  check_body, second_ns, limits_of, PriceLimits, RecentOrders, RateLimit, RuleBody, is_buy, is_sell,
}

mul_mono_l : (a d c : ℕ) → a * c ≤ (a + d) * c
mul_mono_l a d c = omega arith

mul_mono_r : (a c d : ℕ) → a * c ≤ a * (c + d)
mul_mono_r a c d = omega arith

mul_words : (a b : ℕ) → a < u64_mod → b < u64_mod → a * b ≤ (u64_mod - 1) * (u64_mod - 1)
mul_words a b ha hb =
    let da = u64_mod - 1 - a in
    let db = u64_mod - 1 - b in
    let ea : a + da ≡ u64_mod - 1 = omega arith in
    let eb : b + db ≡ u64_mod - 1 = omega arith in
    let first : a * b ≤ (u64_mod - 1) * b = subst (λ t. a * b ≤ t * b) ea (mul_mono_l a da b) in
    let second : (u64_mod - 1) * b ≤ (u64_mod - 1) * (u64_mod - 1) =
      subst (λ t. (u64_mod - 1) * b ≤ (u64_mod - 1) * t) eb (mul_mono_r (u64_mod - 1) b db) in
    omega (arith, first, second)

-- The amounts of an order, as uint64_t values.
pub record HasWordAmounts (order : OrderRequest) : Type 0 where
  pub volume : order.volume_entrust < u64_mod
  pub price : order.dprice_entrust < u64_mod
  pub fee : order.dfee_estimate < u64_mod

-- The fee that a buyer must have: the estimate, or one if an order of some value has none.
abbrev pub due_fee : OrderRequest → ℕ
due_fee order =
    if (order.dfee_estimate == 0) && ltb 0 (order.volume_entrust * order.dprice_entrust)
    then 1
    else order.dfee_estimate

-- A purchase and its fee are covered by the available fund.
abbrev IsAffordable : PositionManager → OrderRequest → Type 0
IsAffordable positions order =
    is_new order.order_type ≡ true
    → is_buy order.trade_side ≡ true
    → order.volume_entrust * order.dprice_entrust + due_fee order ≤ get_available_fund positions

-- A sale is covered by the volume that can be sold.
abbrev IsSellable : PositionManager → OrderRequest → Type 0
IsSellable positions order =
    is_new order.order_type ≡ true
    → is_sell order.trade_side ≡ true
    → order.volume_entrust ≤ get_sellable_volume positions order.internal_security_id

-- A limit of zero does not bind.
abbrev IsWithin : ℕ → ℕ → Type 0
IsWithin limit amount = (limit ≡ 0) ⊎ (amount ≤ limit)

abbrev IsInBand : PriceLimits → OrderRequest → Type 0
IsInBand p order =
    is_new order.order_type ≡ true
    → (up down : ℕ) → limits_of p order.internal_security_id ≡ some (up, down)
    → IsWithin up order.dprice_entrust × (down ≤ order.dprice_entrust)

-- No sighting of the order's id is younger than the window.
abbrev IsUnseen : ℕ → OrderRequest → RecentOrders → Type 0
IsUnseen now order r =
    is_new order.order_type ≡ true
    → (seen : ℕ) → lookup order.internal_order_id r.recent_orders ≡ some seen
    → seen ≤ now
    → r.time_window_ns < now - seen

-- The second of the count is over or has not begun, or one more order is within the limit.
abbrev IsPaced : ℕ → OrderRequest → RateLimit → Type 0
IsPaced now order r =
    is_new order.order_type ≡ true
    → (r.max_orders_per_second ≡ 0)
      ⊎ (r.current_second_start ≡ 0)
      ⊎ (now < r.current_second_start)
      ⊎ (r.current_second_start + second_ns ≤ now)
      ⊎ ((r.current_second_count + 1) % 2 ^ 32 ≤ r.max_orders_per_second)

check_fund_iff :
    (positions : PositionManager) (order : OrderRequest)
    → HasWordAmounts order
    → (check_fund positions order ≡ RiskResult.pass) ↔ IsAffordable positions order
unfolding check_fund
check_fund_iff positions order w = ground (
  arith,
  w.volume,
  w.price,
  w.fee,
  mul_words order.volume_entrust order.dprice_entrust w.volume w.price,
)

check_position_iff :
    (positions : PositionManager) (order : OrderRequest)
    → (check_position positions order ≡ RiskResult.pass) ↔ IsSellable positions order
unfolding check_position
check_position_iff positions order = ground arith

check_value_iff :
    (limit : ℕ) (order : OrderRequest)
    → HasWordAmounts order
    → (check_value limit order ≡ RiskResult.pass) ↔ (
        is_new order.order_type ≡ true
        → IsWithin limit (order.volume_entrust * order.dprice_entrust))
unfolding check_value
check_value_iff limit order w =
    ground (arith, mul_words order.volume_entrust order.dprice_entrust w.volume w.price)

check_volume_iff :
    (limit : ℕ) (order : OrderRequest)
    → (check_volume limit order ≡ RiskResult.pass)
      ↔ (is_new order.order_type ≡ true → IsWithin limit order.volume_entrust)
unfolding check_volume
check_volume_iff limit order = ground arith

check_price_iff :
    (p : PriceLimits) (order : OrderRequest)
    → (check_price p order ≡ RiskResult.pass) ↔ IsInBand p order
unfolding check_price
check_price_iff p order = elim (Option-cases (limits_of p order.internal_security_id)) [
  | inl absent ↦ ground arith
  | inr ((up, down), at) ↦ (
    λ passes new up' down' at'. ground (arith, at),
    λ band. ground (arith, at, λ (new : is_new order.order_type ≡ true). band new up down at),
  )
]

check_duplicate_iff :
    (now : ℕ) (order : OrderRequest) (r : RecentOrders)
    → ((check_duplicate now order r).0 ≡ RiskResult.pass) ↔ IsUnseen now order r
unfolding check_duplicate
check_duplicate_iff now order r =
    elim (Option-cases (lookup order.internal_order_id r.recent_orders)) [
      | inl absent ↦ ground arith
      | inr (seen, at) ↦ (
        λ passes new seen' at' past. ground (arith, at),
        λ unseen. ground (arith, at, λ (new : is_new order.order_type ≡ true). unseen new seen at),
      )
    ]

check_rate_iff :
    (now : ℕ) (order : OrderRequest) (r : RateLimit)
    → ((check_rate now order r).0 ≡ RiskResult.pass) ↔ IsPaced now order r
unfolding check_rate
check_rate_iff now order r = ground arith

-- What it takes to pass a rule at the time `now`.
pub IsAdmitted : ℕ → PositionManager → OrderRequest → RuleBody → Type 0
IsAdmitted now positions order RuleBody.fund_check = IsAffordable positions order
IsAdmitted now positions order RuleBody.position_check = IsSellable positions order
IsAdmitted now positions order (RuleBody.max_order_value limit) =
    is_new order.order_type ≡ true → IsWithin limit (order.volume_entrust * order.dprice_entrust)
IsAdmitted now positions order (RuleBody.max_order_volume limit) =
    is_new order.order_type ≡ true → IsWithin limit order.volume_entrust
IsAdmitted now positions order (RuleBody.price_limit p) = IsInBand p order
IsAdmitted now positions order (RuleBody.duplicate_order r) = IsUnseen now order r
IsAdmitted now positions order (RuleBody.rate_limit r) = IsPaced now order r

pub check_body_iff :
    (now : ℕ) (positions : PositionManager) (order : OrderRequest) (body : RuleBody)
    → HasWordAmounts order
    → ((check_body now positions order body).0 ≡ RiskResult.pass)
      ↔ IsAdmitted now positions order body
unfolding IsAdmitted check_body
check_body_iff now positions order RuleBody.fund_check w = check_fund_iff positions order w
check_body_iff now positions order RuleBody.position_check w = check_position_iff positions order
check_body_iff now positions order (RuleBody.max_order_value limit) w =
    check_value_iff limit order w
check_body_iff now positions order (RuleBody.max_order_volume limit) w =
    check_volume_iff limit order
check_body_iff now positions order (RuleBody.price_limit p) w = check_price_iff p order
check_body_iff now positions order (RuleBody.duplicate_order r) w = check_duplicate_iff now order r
check_body_iff now positions order (RuleBody.rate_limit r) w = check_rate_iff now order r
