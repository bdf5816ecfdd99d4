-- ===== src/Policy/Evaluation.antt =====
-- The evaluation of a whole policy of policy.py.
use continuityos.Prelude.{
  ◌+◌, ◌≡◌, ◌↔◌, refl, Bool, true, false, Option, none, String, List, [], ◌∷◌, All, length, arith,
}
use continuityos.Float.{Float}
use continuityos.Policy.{
  short_dimensions, short_dimension, missing_dimensions, missing_dimension, PolicyAssertion,
  PolicyRule, ContinuityPolicy, ObservedState, check_assertion, check_rule, check_rules,
  evaluate_policy, is_empty,
}
use continuityos.Policy.Rules.{IsMetButConcentration, check_assertion-IsMetButConcentration}

module _ {F : Type 0} ⦃fl : Float F⦄ where
  check_rule_iff :
      (r : PolicyRule F) (s : ObservedState F)
      → (check_rule r s ≡ none) ↔ IsMetButConcentration r.assertion s
  unfolding check_rule
  check_rule_iff r s = (
    λ h. (check_assertion-IsMetButConcentration r.assertion s).0 (ground arith),
    λ h. ground (arith, (check_assertion-IsMetButConcentration r.assertion s).1),
  )

  check_rules_iff :
      (rs : List (PolicyRule F)) (s : ObservedState F)
      → (is_empty (check_rules rs s).0 ≡ true) ↔ All (λ r. IsMetButConcentration r.assertion s) rs
  unfolding check_rules
  check_rules_iff [] s = (λ h. tt, λ h. refl)
  check_rules_iff (r ∷ rs) s = (
    λ h. ground (arith, (check_rule_iff r s).0, (check_rules_iff rs s).0),
    λ h. ground (arith, (check_rule_iff r s).1, (check_rules_iff rs s).1),
  )

  check_rules_total :
      (rs : List (PolicyRule F)) (s : ObservedState F)
      → (check_rules rs s).1 + length (check_rules rs s).0 ≡ length rs
  unfolding check_rules
  check_rules_total [] s = omega arith
  check_rules_total (r ∷ rs) s = ground (arith, check_rules_total rs s)

  -- An evaluation is compliant exactly when everything that the rules' assertions ask holds, but for their
  -- bounds on the concentration on a single dependency, which the code never reads; and each rule that
  -- is evaluated either passes or gives one violation.
  pub evaluate_policy-IsMetButConcentration :
      (p : ContinuityPolicy F) (s : ObservedState F)
      → let e = evaluate_policy p s in
        ((e.compliant ≡ true) ↔ All (λ r. IsMetButConcentration r.assertion s) p.rules)
        × (e.rules_passed + length e.violations ≡ e.rules_evaluated)
  unfolding evaluate_policy
  evaluate_policy-IsMetButConcentration p s =
      (check_rules_iff p.rules s, check_rules_total p.rules s)

  -- The limit on the concentration of dependencies is never tested: neither it nor the concentration
  -- that was observed changes what an assertion's check returns.
  concentration_unchecked :
      (a : PolicyAssertion F) (s : ObservedState F) (limit : Option F) (seen : List (String × F))
      → check_assertion
          (record a { maximum_single_dependency_concentration = limit })
          (record s { dependency_concentration = seen })
        ≡ check_assertion a s
  unfolding check_assertion
  concentration_unchecked a s limit seen = refl

  short_dimensions-nil : (ts : List (String × F)) → short_dimensions ts [] ≡ none
  unfolding short_dimensions short_dimension
  short_dimensions-nil [] = refl
  short_dimensions-nil (t ∷ ts) = short_dimensions-nil ts

  missing_dimensions-nil : (rs : List (String × Bool)) → missing_dimensions {F = F} rs [] ≡ none
  unfolding missing_dimensions missing_dimension
  missing_dimensions-nil [] = refl
  missing_dimensions-nil ((dim, true) ∷ rs) = missing_dimensions-nil rs
  missing_dimensions-nil ((dim, false) ∷ rs) = missing_dimensions-nil rs

  -- Without any dimensional trust score the thresholds and the required dimensions of an assertion
  -- pass, whatever they are: the check returns what it returns for an assertion with none.
  dimensions_pass_unread :
      (a : PolicyAssertion F) (s : ObservedState F)
      → s.dimensional_trust_scores ≡ []
      → check_assertion a s
        ≡ check_assertion
            (record a { trust_dimension_thresholds = []; trust_dimension_required = [] })
            s
  unfolding check_assertion
  dimensions_pass_unread a s e =
      rw (e, short_dimensions-nil, missing_dimensions-nil)
        (ground (
          arith,
          short_dimensions-nil a.trust_dimension_thresholds,
          missing_dimensions-nil a.trust_dimension_required,
          short_dimensions-nil [],
          missing_dimensions-nil [],
        ))
