-- ===== src/Risk/Pacing.antt =====
-- What the rate limit and the duplicate check do over several orders.
use account_services.Base.{
  ℕ, suc, ◌+◌, ◌-◌, ◌≡◌, ◌≢◌, ◌≤◌, ◌<◌, refl, ◌⊎◌, true, List, [], ◌∷◌, lookup-insert, nat_eq, min,
  u32_mod, length, All, ltb, if◌then◌else◌, arith,
}
use account_services.Types.{RiskResult, is_new}
use account_services.Request.{OrderRequest}
use account_services.Risk.Rules.{
  passed, RateLimit, RecentOrders, check_rate, check_duplicate, second_ns,
}
use account_services.Risk.Manager.Counts.{passes}

-- The results of the rule on orders, each checked at its time.
unfoldable pub rate_results : List (ℕ × OrderRequest) → RateLimit → List RiskResult
rate_results [] r = []
rate_results ((now, order) ∷ rest) r =
    (check_rate now order r).0 ∷ rate_results rest (check_rate now order r).1

-- A new order in the second that starts at `start`.
abbrev pub IsInSecond : ℕ → ℕ × OrderRequest → Type 0
IsInSecond start e = (is_new e.1.order_type ≡ true) × (start ≤ e.0) × (e.0 < start + second_ns)

counted : RateLimit → RateLimit
counted r = record r { current_second_count = r.current_second_count + 1 }

check_rate_in_second :
    (now : ℕ) (order : OrderRequest) (r : RateLimit)
    → 0 < r.max_orders_per_second
    → 0 < r.current_second_start
    → IsInSecond r.current_second_start (now, order)
    → r.current_second_count + 1 < u32_mod
    → check_rate now order r ≡ (
      (if ltb r.max_orders_per_second (r.current_second_count + 1)
          then RiskResult.reject_unknown
          else RiskResult.pass),
      counted r,
    )
unfolding check_rate counted
check_rate_in_second now order r limited begun now_in room = ground (arith, now_in.0, now_in.1)

passes_step :
    (result : RiskResult) (rest : List RiskResult)
    → passes (result ∷ rest) ≡ (if passed result then suc (passes rest) else passes rest)
unfolding passes
passes_step result rest = refl

-- Of the new orders in the second that has begun, under a positive limit, as many pass as the limit
-- leaves room for, and no more, while the 32-bit counter does not wrap.
pub rate_results_lem :
    (es : List (ℕ × OrderRequest)) (r : RateLimit)
    → 0 < r.max_orders_per_second
    → 0 < r.current_second_start
    → All (IsInSecond r.current_second_start) es
    → r.current_second_count + length es < u32_mod
    → passes (rate_results es r)
      ≡ min (length es) (r.max_orders_per_second - r.current_second_count)
unfolding rate_results passes counted passed
rate_results_lem [] r limited begun all room = omega arith
rate_results_lem ((now, order) ∷ es) r limited begun all room =
    let rest = rate_results_lem es (counted r) limited begun all.1 (omega (arith, room)) in
    rw (check_rate_in_second now order r limited begun all.0 (omega (arith, room)))
      (ground (arith, rest))

-- After a new order has passed the duplicate check, the next new order of its id is refused within
-- the window, and orders of other ids are judged as before.
pub check_duplicate_again :
    (now later : ℕ) (order other : OrderRequest) (r : RecentOrders)
    → is_new order.order_type ≡ true
    → is_new other.order_type ≡ true
    → (check_duplicate now order r).0 ≡ RiskResult.pass
    → now ≤ later
    → later ≤ now + r.time_window_ns
    → ((other.internal_order_id ≡ order.internal_order_id)
        × ((check_duplicate later other (check_duplicate now order r).1).0
            ≡ RiskResult.reject_duplicate_order))
      ⊎ ((other.internal_order_id ≢ order.internal_order_id)
          × ((check_duplicate later other (check_duplicate now order r).1).0
              ≡ (check_duplicate later other r).0))
unfolding check_duplicate
check_duplicate_again now later order other r new new' passes order_of within =
    let found = lookup-insert order.internal_order_id other.internal_order_id now r.recent_orders in
    ground (arith, found)
