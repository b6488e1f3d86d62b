-- ===== src/Risk/Manager/Pointers.antt =====
-- The manager's raw pointers to its price limit, duplicate and rate limit rules never dangle.
use account_services.Base.{
  ℕ, ◌≡◌, ◌<◌, refl, sym, subst, ap, inl, inr, Bool, true, false, Option, none, some, List, [], ◌∷◌,
  Map, Text, lookup, nat_eq, All, Option-cases, arith,
}
use account_services.Request.{OrderRequest}
use account_services.Portfolio.State.{PositionManager}
use account_services.Risk.Rules.{RiskRule, RuleBody, PriceLimits, set_price_limits}
use account_services.Risk.Manager.{RiskConfig, RiskManager, OwnedRule, check_order}
use account_services.Risk.Manager.Registry.{
  set_post_check_callback, tracked, add_rule, rule_named, get_rule, remove_rule, write_rule,
  enable_rule, on_limits, update_price_limits, clear_price_limits, add_if, initialize_default_rules,
  new_manager, update_config, reset_stats,
}
use account_services.Risk.Manager.Kinds.{
  RuleKind, kind, kinds, lookup-append, lookup-without_first, kinds-write_rule, kinds-check_rules,
  kind-on_limits, lookup_below, below-append, below-without_first,
}

-- What the pointers have to agree with.
pub record Pointers : Type 0 where
  pub owned : Map ℕ RuleKind
  pub next : ℕ
  pub price_limit_at : Option ℕ
  pub duplicate_at : Option ℕ
  pub rate_limit_at : Option ℕ

abbrev pub pointers_of : RiskManager → Pointers
pointers_of m = record {
  owned = kinds m.rules;
  next = m.next_rule;
  price_limit_at = m.price_limit_rule;
  duplicate_at = m.duplicate_rule;
  rate_limit_at = m.rate_limit_rule;
}

-- Every pointer that is not null points at a rule of its class that the manager owns, and no rule
-- has an identity that is still to come.
pub record IsLivePointers (p : Pointers) : Type 0 where
  pub fresh : All (λ (e : ℕ × RuleKind). e.0 < p.next) p.owned
  pub price : (id : ℕ) → p.price_limit_at ≡ some id → lookup id p.owned ≡ some RuleKind.price_limit
  pub duplicate :
      (id : ℕ) → p.duplicate_at ≡ some id → lookup id p.owned ≡ some RuleKind.duplicate_order
  pub rate : (id : ℕ) → p.rate_limit_at ≡ some id → lookup id p.owned ≡ some RuleKind.rate_limit

abbrev pub IsLive : RiskManager → Type 0
IsLive m = IsLivePointers (pointers_of m)

-- The calls that change the manager.
pub data RiskCall : Type 0 where
  checks : (ℕ → ℕ) → ℕ → PositionManager → OrderRequest → RiskCall
  adds : Option RiskRule → RiskCall
  removes : Option Text → RiskCall
  enables : Option Text → Bool → RiskCall
  sets_limits : Text → ℕ → ℕ → RiskCall
  clears_limits resets_stats : RiskCall
  configures : RiskConfig → RiskCall
  sets_callback : Bool → RiskCall

unfoldable pub risk_step : RiskCall → RiskManager → RiskManager
risk_step (RiskCall.checks clock now positions order) m =
    (check_order clock now positions order m).1
risk_step (RiskCall.adds rule) m = add_rule rule m
risk_step (RiskCall.removes target) m = (remove_rule target m).1
risk_step (RiskCall.enables target on) m = (enable_rule target on m).1
risk_step (RiskCall.sets_limits id up down) m = update_price_limits id up down m
risk_step RiskCall.clears_limits m = clear_price_limits m
risk_step RiskCall.resets_stats m = reset_stats m
risk_step (RiskCall.configures config) m = update_config config m
risk_step (RiskCall.sets_callback callback) m = set_post_check_callback callback m

add_rule-IsLive : (rule : Option RiskRule) (m : RiskManager) → IsLive m → IsLive (add_rule rule m)
unfolding add_rule tracked kind
add_rule-IsLive none m l = l
add_rule-IsLive (some rule) m l =
    let n = m.next_rule in
    let o : OwnedRule = record { identity = n; rule = rule } in
    let last = λ (id : ℕ). lookup-append id n (kind rule.body) m.rules o refl refl in
    let absent = lookup_below n m.rules l.fresh in
    record {
      fresh = below-append n m.rules o l.fresh refl;
      price = λ id. ground (arith, last id, absent, l.price id);
      duplicate = λ id. ground (arith, last id, absent, l.duplicate id);
      rate = λ id. ground (arith, last id, absent, l.rate id);
    }

remove_rule-IsLive :
    (target : Option Text) (m : RiskManager) → IsLive m → IsLive (remove_rule target m).1
unfolding remove_rule
remove_rule-IsLive none m l = l
remove_rule-IsLive (some target) m l = elim (Option-cases (rule_named target m.rules)) [
  | inl absent ↦ rw (absent, remove_rule) l
  | inr (o, found) ↦
      rw (found, remove_rule)
        (record {
          fresh = below-without_first m.next_rule target m.rules l.fresh;
          price = λ id. ground (arith, lookup-without_first id target m.rules o found, l.price id);
          duplicate =
              λ id. ground (arith, lookup-without_first id target m.rules o found, l.duplicate id);
          rate = λ id. ground (arith, lookup-without_first id target m.rules o found, l.rate id);
        })
]

pointers_of-enable_rule :
    (target : Option Text) (on : Bool) (m : RiskManager)
    → pointers_of (enable_rule target on m).1 ≡ pointers_of m
unfolding enable_rule
pointers_of-enable_rule target on m = elim (Option-cases (get_rule target m)) [
  | inl absent ↦ rw (absent, enable_rule) refl
  | inr (o, found) ↦
      rw (found, enable_rule)
        (ap (λ (owned : Map ℕ RuleKind). record (pointers_of m) { owned = owned })
          (kinds-write_rule o.identity (λ r. record r { enabled = on }) m.rules (λ r. refl)))
]

pointers_of-on_limits :
    (f : PriceLimits → PriceLimits) (id : ℕ) (m : RiskManager)
    → pointers_of (record m { rules = write_rule id (on_limits f) m.rules }) ≡ pointers_of m
pointers_of-on_limits f id m =
    ap (λ (owned : Map ℕ RuleKind). record (pointers_of m) { owned = owned })
      (kinds-write_rule id (on_limits f) m.rules (kind-on_limits f))

pointers_of-through :
    (f : PriceLimits → PriceLimits) (pointer : Option ℕ) (m : RiskManager)
    → pointers_of (elim pointer [
      | none ↦ m
      | some id ↦ record m { rules = write_rule id (on_limits f) m.rules }
    ])
      ≡ pointers_of m
pointers_of-through f none m = refl
pointers_of-through f (some id) m = pointers_of-on_limits f id m

pointers_of-update_price_limits :
    (security_id : Text) (up down : ℕ) (m : RiskManager)
    → pointers_of (update_price_limits security_id up down m) ≡ pointers_of m
unfolding update_price_limits
pointers_of-update_price_limits security_id up down m =
    pointers_of-through (set_price_limits security_id up down) m.price_limit_rule m

pointers_of-clear_price_limits :
    (m : RiskManager) → pointers_of (clear_price_limits m) ≡ pointers_of m
unfolding clear_price_limits
pointers_of-clear_price_limits m =
    pointers_of-through (λ _. record { limits = [] }) m.price_limit_rule m

add_if-IsLive :
    (condition : Bool) (body : RuleBody) (m : RiskManager)
    → IsLive m
    → IsLive (add_if condition body m)
unfolding add_if
add_if-IsLive true body m l = add_rule-IsLive (some (record { enabled = true; body = body })) m l
add_if-IsLive false body m l = l

initialize_default_rules-IsLive : (m : RiskManager) → IsLive (initialize_default_rules m)
unfolding initialize_default_rules
initialize_default_rules-IsLive m = add_if-IsLive _ _ _ (
    add_if-IsLive _ _ _ (
      add_if-IsLive _ _ _ (
        add_if-IsLive _ _ _ (
          add_if-IsLive _ _ _ (
            add_if-IsLive _ _ _ (
              add_if-IsLive _ _ _ (record {
                fresh = tt;
                price = λ id h. absurd (ground (arith, h));
                duplicate = λ id h. absurd (ground (arith, h));
                rate = λ id h. absurd (ground (arith, h));
              })))))))

pub risk_step-IsLive : (c : RiskCall) (m : RiskManager) → IsLive m → IsLive (risk_step c m)
unfolding risk_step check_order update_config set_post_check_callback reset_stats
risk_step-IsLive (RiskCall.checks clock now positions order) m l =
    subst (λ (owned : Map ℕ RuleKind). IsLivePointers (record (pointers_of m) { owned = owned }))
      (sym (kinds-check_rules clock 0 positions order m.rules)) l
risk_step-IsLive (RiskCall.adds rule) m l = add_rule-IsLive rule m l
risk_step-IsLive (RiskCall.removes target) m l = remove_rule-IsLive target m l
risk_step-IsLive (RiskCall.enables target on) m l = rw (pointers_of-enable_rule target on m) l
risk_step-IsLive (RiskCall.sets_limits id up down) m l =
    rw (pointers_of-update_price_limits id up down m) l
risk_step-IsLive RiskCall.clears_limits m l = rw (pointers_of-clear_price_limits m) l
risk_step-IsLive RiskCall.resets_stats m l = l
risk_step-IsLive (RiskCall.configures config) m l =
    initialize_default_rules-IsLive (record m { config = config })
risk_step-IsLive (RiskCall.sets_callback callback) m l = l

unfoldable pub risk_run : List RiskCall → RiskManager → RiskManager
risk_run [] m = m
risk_run (c ∷ cs) m = risk_run cs (risk_step c m)

run-IsLive : (cs : List RiskCall) (m : RiskManager) → IsLive m → IsLive (risk_run cs m)
unfolding risk_run
run-IsLive [] m l = l
run-IsLive (c ∷ cs) m l = run-IsLive cs (risk_step c m) (risk_step-IsLive c m l)

-- After any calls on a new manager, each of its pointers to rules is null or points at a rule of
-- its class that the manager still owns, and no owned rule has an identity that is still to come.
pub risk_run-IsLive :
    (config : RiskConfig) (cs : List RiskCall) → IsLive (risk_run cs (new_manager config))
unfolding new_manager
risk_run-IsLive config cs = run-IsLive cs (new_manager config) (initialize_default_rules-IsLive _)
