-- ===== src/Risk/Manager/Kinds.antt =====
-- The classes of the owned rules, and that only additions and removals change them.
use account_services.Base.{
  ℕ, ◌+◌, ◌≡◌, ◌≢◌, ◌<◌, refl, inl, inr, none, some, List, [], ◌∷◌, ◌++◌, map, Map, Text, text_eq,
  lookup, nat_eq, All, ◌==◌, if◌then◌else◌, Bool-cases, arith,
}
use account_services.Request.{OrderRequest}
use account_services.Portfolio.State.{PositionManager}
use account_services.Risk.Rules.{RiskRule, RuleBody, PriceLimits, check, check_body}
use account_services.Risk.Manager.{OwnedRule, check_rules}
use account_services.Risk.Manager.Registry.{name, rule_named, without_first, write_rule, on_limits}

-- The class of a rule.
pub data RuleKind : Type 0 where
  fund_check position_check max_order_value max_order_volume price_limit duplicate_order
        rate_limit :
      RuleKind

unfoldable pub kind : RuleBody → RuleKind
kind RuleBody.fund_check = RuleKind.fund_check
kind RuleBody.position_check = RuleKind.position_check
kind (RuleBody.max_order_value _) = RuleKind.max_order_value
kind (RuleBody.max_order_volume _) = RuleKind.max_order_volume
kind (RuleBody.price_limit _) = RuleKind.price_limit
kind (RuleBody.duplicate_order _) = RuleKind.duplicate_order
kind (RuleBody.rate_limit _) = RuleKind.rate_limit

-- The classes of the rules by their identity.
abbrev pub kinds : List OwnedRule → Map ℕ RuleKind
kinds rules = map (λ (o : OwnedRule). (o.identity, kind o.rule.body)) rules

pub lookup-append :
    (j n : ℕ) (k : RuleKind) (rules : List OwnedRule) (o : OwnedRule)
    → o.identity ≡ n
    → kind o.rule.body ≡ k
    → lookup j (kinds (rules ++ (o ∷ [])))
      ≡ elim (lookup j (kinds rules)) [ none ↦ (if n == j then some k else none) | some v ↦ some v ]
unfolding lookup
lookup-append j n k [] o en ek = ground arith
lookup-append j n k (r ∷ rules) o en ek = ground (arith, lookup-append j n k rules o en ek)

pub lookup-without_first :
    (j : ℕ) (target : Text) (rules : List OwnedRule) (o : OwnedRule)
    → rule_named target rules ≡ some o
    → o.identity ≢ j
    → lookup j (kinds (without_first target rules)) ≡ lookup j (kinds rules)
unfolding lookup without_first rule_named
lookup-without_first j target [] o found other = refl
lookup-without_first j target (r ∷ rules) o found other =
    ground (arith, lookup-without_first j target rules o)

pub kinds-write_rule :
    (id : ℕ) (f : RiskRule → RiskRule) (rules : List OwnedRule)
    → ((r : RiskRule) → kind (f r).body ≡ kind r.body)
    → kinds (write_rule id f rules) ≡ kinds rules
unfolding write_rule
kinds-write_rule id f [] same = refl
kinds-write_rule id f (o ∷ rules) same =
    ground (arith, same o.rule, kinds-write_rule id f rules same)

kind-check_body :
    (now : ℕ) (positions : PositionManager) (order : OrderRequest) (body : RuleBody)
    → kind (check_body now positions order body).1 ≡ kind body
unfolding check_body kind
kind-check_body now positions order RuleBody.fund_check = refl
kind-check_body now positions order RuleBody.position_check = refl
kind-check_body now positions order (RuleBody.max_order_value _) = refl
kind-check_body now positions order (RuleBody.max_order_volume _) = refl
kind-check_body now positions order (RuleBody.price_limit _) = refl
kind-check_body now positions order (RuleBody.duplicate_order _) = refl
kind-check_body now positions order (RuleBody.rate_limit _) = refl

kind-check :
    (now : ℕ) (positions : PositionManager) (order : OrderRequest) (r : RiskRule)
    → kind (check now positions order r).1.body ≡ kind r.body
unfolding check
kind-check now positions order r = elim (Bool-cases r.enabled) [
  | inl on ↦ rw on (kind-check_body now positions order r.body)
  | inr off ↦ rw off refl
]

pub kinds-check_rules :
    (clock : ℕ → ℕ) (i : ℕ) (positions : PositionManager) (order : OrderRequest)
    (rules : List OwnedRule)
    → kinds (check_rules clock i positions order rules).1 ≡ kinds rules
unfolding check_rules
kinds-check_rules clock i positions order [] = refl
kinds-check_rules clock i positions order (o ∷ rules) = ground (
  arith,
  kind-check (clock i) positions order o.rule,
  kinds-check_rules clock (i + 1) positions order rules,
)

pub kind-on_limits :
    (f : PriceLimits → PriceLimits) (r : RiskRule) → kind (on_limits f r).body ≡ kind r.body
unfolding kind
kind-on_limits f r = ground arith

module _ (n : ℕ) where
  abbrev AllBelow : List OwnedRule → Type 0
  AllBelow rules = All (λ (e : ℕ × RuleKind). e.0 < n) (kinds rules)

  pub lookup_below : (rules : List OwnedRule) → AllBelow rules → lookup n (kinds rules) ≡ none
  unfolding lookup
  lookup_below [] below = refl
  lookup_below (o ∷ rules) below = ground (arith, below.0, lookup_below rules below.1)

  pub below-append :
      (rules : List OwnedRule) (o : OwnedRule)
      → AllBelow rules
      → o.identity ≡ n
      → All (λ (e : ℕ × RuleKind). e.0 < n + 1) (kinds (rules ++ (o ∷ [])))
  below-append [] o below h = (omega (arith, h), tt)
  below-append (r ∷ rules) o below h = (omega (arith, below.0), below-append rules o below.1 h)

  pub below-without_first :
      (target : Text) (rules : List OwnedRule)
      → AllBelow rules
      → AllBelow (without_first target rules)
  unfolding without_first
  below-without_first target [] below = below
  below-without_first target (r ∷ rules) below =
      elim (Bool-cases (text_eq (name r.rule.body) target)) [
        | inl e ↦ rw e below.1
        | inr e ↦ rw e (below.0, below-without_first target rules below.1)
      ]
