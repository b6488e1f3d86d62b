-- ===== src/Risk/Admission.antt =====
-- Which orders the manager passes.
use account_services.Base.{
  ℕ, ◌+◌, ◌≡◌, ◌↔◌, refl, sym, ◌∙◌, inl, inr, true, false, List, [], ◌∷◌, Bool-cases, arith,
}
use account_services.Types.{RiskResult}
use account_services.Request.{OrderRequest}
use account_services.Portfolio.State.{PositionManager}
use account_services.Risk.Rules.{passed, check, check_body}
use account_services.Risk.Limits.{HasWordAmounts, IsAdmitted, check_body_iff}
use account_services.Risk.Manager.{OwnedRule, RiskManager, check_rules, check_order}

-- Every rule that is on admits the order, each at the time that it reads.
pub AllAdmit : (ℕ → ℕ) → ℕ → PositionManager → OrderRequest → List OwnedRule → Type 0
AllAdmit clock i positions order [] = Unit
AllAdmit clock i positions order (owned ∷ rules) =
    (owned.rule.enabled ≡ true → IsAdmitted (clock i) positions order owned.rule.body)
    × AllAdmit clock (i + 1) positions order rules

passed_iff : (result : RiskResult) → (passed result ≡ true) ↔ (result ≡ RiskResult.pass)
unfolding passed
passed_iff result = ground arith

check_rules_none :
    (clock : ℕ → ℕ) (i : ℕ) (positions : PositionManager) (order : OrderRequest)
    → (check_rules clock i positions order []).0 ≡ RiskResult.pass
unfolding check_rules
check_rules_none clock i positions order = refl

module _ (clock : ℕ → ℕ) (i : ℕ) (positions : PositionManager) (order : OrderRequest)
    (owned : OwnedRule) (rules : List OwnedRule) where
  abbrev first : RiskResult
  first = (check_body (clock i) positions order owned.rule.body).0

  abbrev result : RiskResult
  result = (check_rules clock i positions order (owned ∷ rules)).0

  abbrev result_of_rest : RiskResult
  result_of_rest = (check_rules clock (i + 1) positions order rules).0

  result_off : owned.rule.enabled ≡ false → result ≡ result_of_rest
  unfolding check_rules
  result_off off = ground arith

  result_passed : owned.rule.enabled ≡ true → passed first ≡ true → result ≡ result_of_rest
  unfolding check_rules check
  result_passed on h = ground arith

  result_rejected : owned.rule.enabled ≡ true → passed first ≡ false → result ≡ first
  unfolding check_rules check
  result_rejected on h = ground arith

check_rules_iff :
    (clock : ℕ → ℕ) (i : ℕ) (positions : PositionManager) (order : OrderRequest)
    (rules : List OwnedRule)
    → HasWordAmounts order
    → ((check_rules clock i positions order rules).0 ≡ RiskResult.pass)
      ↔ AllAdmit clock i positions order rules
unfolding AllAdmit
check_rules_iff clock i positions order [] w =
    (λ _. tt, λ _. check_rules_none clock i positions order)
check_rules_iff clock i positions order (owned ∷ rules) w =
    let rest = check_rules_iff clock (i + 1) positions order rules w in
    let here = check_body_iff (clock i) positions order owned.rule.body w in
    let first_passes = passed_iff (first clock i positions order owned rules) in
    elim (Bool-cases owned.rule.enabled) [
      | inl on ↦ elim (Bool-cases (passed (first clock i positions order owned rules))) [
        | inl h ↦
            let eq = result_passed clock i positions order owned rules on h in
            (λ p. (λ _. here.0 (first_passes.0 h), rest.0 (sym eq ∙ p)), λ a. eq ∙ rest.1 a.1)
        | inr h ↦
            let eq = result_rejected clock i positions order owned rules on h in
            (
              λ p. absurd (ground (arith, h, first_passes.1 (sym eq ∙ p))),
              λ a. eq ∙ here.1 (a.0 on),
            )
      ]
      | inr off ↦
          let eq = result_off clock i positions order owned rules off in
          (λ p. (λ on. absurd (ground (arith, on, off)), rest.0 (sym eq ∙ p)), λ a. eq ∙ rest.1 a.1)
    ]

-- An order of 64-bit amounts passes the check exactly when every rule that is on admits it: the
-- fund covers a purchase and its fee, the position covers a sale, and the value, volume, price,
-- repetition and rate are within the limits.
pub check_order_iff :
    (clock : ℕ → ℕ) (now : ℕ) (positions : PositionManager) (order : OrderRequest) (m : RiskManager)
    → HasWordAmounts order
    → ((check_order clock now positions order m).0 ≡ RiskResult.pass)
      ↔ AllAdmit clock 0 positions order m.rules
unfolding check_order
check_order_iff clock now positions order m w = check_rules_iff clock 0 positions order m.rules w
