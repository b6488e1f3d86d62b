-- ===== src/Risk/Manager/Registry.antt =====
-- The registration of rules, the limits set through the manager, and its configuration.
use account_services.Base.{
  ℕ, ◌+◌, Bool, true, false, Option, none, some, List, [], ◌∷◌, ◌++◌, Text, codes, text_eq, ltb,
  ◌==◌, if◌then◌else◌,
}
use account_services.Risk.Rules.{RiskRule, RuleBody, PriceLimits, set_price_limits}
use account_services.Risk.Manager.{RiskConfig, RiskManager, OwnedRule, reset_state}

unfoldable pub set_post_check_callback : Bool → RiskManager → RiskManager
set_post_check_callback callback m = record m { has_callback = callback }

-- The dynamic casts of add_rule
unfoldable pub tracked : ℕ → RuleBody → RiskManager → RiskManager
tracked id (RuleBody.price_limit _) m = record m { price_limit_rule = some id }
tracked id (RuleBody.duplicate_order _) m = record m { duplicate_rule = some id }
tracked id (RuleBody.rate_limit _) m = record m { rate_limit_rule = some id }
tracked id _ m = m

-- A null rule is none.
unfoldable pub add_rule : Option RiskRule → RiskManager → RiskManager
add_rule none m = m
add_rule (some rule) m =
    let m' = tracked m.next_rule rule.body m in
    record m' {
      rules = m.rules ++ (record { identity = m.next_rule; rule = rule } ∷ []);
      next_rule = m.next_rule + 1;
    }

-- name()
unfoldable pub name : RuleBody → Text
name RuleBody.fund_check = codes "fund_check"
name RuleBody.position_check = codes "position_check"
name (RuleBody.max_order_value _) = codes "max_order_value"
name (RuleBody.max_order_volume _) = codes "max_order_volume"
name (RuleBody.price_limit _) = codes "price_limit"
name (RuleBody.duplicate_order _) = codes "duplicate_order"
name (RuleBody.rate_limit _) = codes "rate_limit"

-- get_rule on a name that is not null
unfoldable pub rule_named : Text → List OwnedRule → Option OwnedRule
rule_named target [] = none
rule_named target (owned ∷ rules) =
    if text_eq (name owned.rule.body) target then some owned else rule_named target rules

unfoldable pub get_rule : Option Text → RiskManager → Option OwnedRule
get_rule none m = none
get_rule (some target) m = rule_named target m.rules

-- The pointer, unless it points at the rule that goes.
abbrev pub unless_at : ℕ → Option ℕ → Option ℕ
unless_at id none = none
unless_at id (some p) = if p == id then none else some p

-- rules_.erase of the first rule of the name
unfoldable pub without_first : Text → List OwnedRule → List OwnedRule
without_first target [] = []
without_first target (owned ∷ rules) =
    if text_eq (name owned.rule.body) target then rules else owned ∷ without_first target rules

unfoldable pub remove_rule : Option Text → RiskManager → Bool × RiskManager
remove_rule none m = (false, m)
remove_rule (some target) m = elim (rule_named target m.rules) [
  | none ↦ (false, m)
  | some owned ↦ (
    true,
    record m {
      rules = without_first target m.rules;
      price_limit_rule = unless_at owned.identity m.price_limit_rule;
      duplicate_rule = unless_at owned.identity m.duplicate_rule;
      rate_limit_rule = unless_at owned.identity m.rate_limit_rule;
    },
  )
]

-- A write through a pointer to a rule.
unfoldable pub write_rule : ℕ → (RiskRule → RiskRule) → List OwnedRule → List OwnedRule
write_rule id f [] = []
write_rule id f (owned ∷ rules) =
    (if owned.identity == id then record owned { rule = f owned.rule } else owned)
    ∷ write_rule id f rules

unfoldable pub enable_rule : Option Text → Bool → RiskManager → Bool × RiskManager
enable_rule target enabled m = elim (get_rule target m) [
  | none ↦ (false, m)
  | some owned ↦ (
    true,
    record m {
      rules = write_rule owned.identity (λ rule. record rule { enabled = enabled }) m.rules;
    },
  )
]

-- The body of price_limit_rule's methods, on the rule that the pointer has
abbrev pub on_limits : (PriceLimits → PriceLimits) → RiskRule → RiskRule
on_limits f rule = record rule {
  body = elim rule.body [ RuleBody.price_limit p ↦ RuleBody.price_limit (f p) | other ↦ other ];
}

unfoldable pub update_price_limits : Text → ℕ → ℕ → RiskManager → RiskManager
update_price_limits security_id limit_up limit_down m = elim m.price_limit_rule [
  | none ↦ m
  | some id ↦ record m {
    rules = write_rule id (on_limits (set_price_limits security_id limit_up limit_down)) m.rules;
  }
]

unfoldable pub clear_price_limits : RiskManager → RiskManager
clear_price_limits m = elim m.price_limit_rule [
  | none ↦ m
  | some id ↦ record m { rules = write_rule id (on_limits (λ _. record { limits = [] })) m.rules }
]

-- A rule that is made when its condition holds.
unfoldable pub add_if : Bool → RuleBody → RiskManager → RiskManager
add_if condition body m =
    if condition then add_rule (some (record { enabled = true; body = body })) m else m

unfoldable pub initialize_default_rules : RiskManager → RiskManager
initialize_default_rules m =
    let c = m.config in
    add_if (ltb 0 c.max_orders_per_second)
      (RuleBody.rate_limit (record {
        max_orders_per_second = c.max_orders_per_second;
        current_second_count = 0;
        current_second_start = 0;
      }))
      (add_if c.enable_duplicate_check
        (RuleBody.duplicate_order
          (record { recent_orders = []; time_window_ns = c.duplicate_window_ns }))
        (add_if c.enable_price_limit_check (RuleBody.price_limit (record { limits = [] })) (
          add_if (ltb 0 c.max_order_volume) (RuleBody.max_order_volume c.max_order_volume) (
            add_if (ltb 0 c.max_order_value) (RuleBody.max_order_value c.max_order_value) (
              add_if c.enable_position_check RuleBody.position_check (
                add_if c.enable_fund_check RuleBody.fund_check (record m {
                  rules = [];
                  price_limit_rule = none;
                  duplicate_rule = none;
                  rate_limit_rule = none;
                })))))))

-- RiskManager(positions, config)
unfoldable pub new_manager : RiskConfig → RiskManager
new_manager config = initialize_default_rules (record {
  config = config;
  rules = [];
  next_rule = 0;
  stats = reset_state;
  has_callback = false;
  checked = [];
  price_limit_rule = none;
  duplicate_rule = none;
  rate_limit_rule = none;
})

unfoldable pub update_config : RiskConfig → RiskManager → RiskManager
update_config config m = initialize_default_rules (record m { config = config })

unfoldable pub reset_stats : RiskManager → RiskManager
reset_stats m = record m { stats = reset_state }
