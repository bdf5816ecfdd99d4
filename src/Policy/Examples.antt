-- ===== src/Policy/Examples.antt =====
-- A policy evaluated as in policy.py.
use continuityos.Prelude.{ℕ, pos, ◌≡◌, refl, none, some, [], ◌∷◌, true, arith}
use continuityos.Float.Micro.{micro}
use continuityos.Reconcile.{lookup}
use continuityos.Policy.{
  PolicyAssertion, ContinuityPolicy, ObservedState, check_assertion, evaluate_policy,
}
use continuityos.Policy.Rules.{IsMetButConcentration, check_assertion-IsMetButConcentration}
use continuityos.Policy.Evaluation.{evaluate_policy-IsMetButConcentration}

abbrev redundancy : PolicyAssertion ℕ
redundancy = record {
  minimum_providers = some (pos 2);
  minimum_reserve_days = some (pos 30);
  minimum_independent_routes = none;
  minimum_continuity = some 900000;
  maximum_single_dependency_concentration = some 400000;
  minimum_trust_score = none;
  trust_dimension_thresholds = ("cyber", 700000) ∷ [];
  trust_dimension_required = ("cyber", true) ∷ [];
}

abbrev network : ObservedState ℕ
network = record {
  provider_counts = ("satcom", pos 3) ∷ [];
  reserve_days = ("fuel", 45000000) ∷ [];
  independent_route_count = pos 1;
  overall_continuity = 950000;
  dependency_concentration = ("satcom", 800000) ∷ [];
  trust_scores = [];
  dimensional_trust_scores = ("satcom", ("cyber", 800000) ∷ []) ∷ [];
}

abbrev policy : ContinuityPolicy ℕ
policy = record {
  policy_id = "default";
  version = "1.0";
  rules =
      record {
        rule_id = "R1";
        description = "redundancy";
        assertion = redundancy;
        severity = "error";
      }
      ∷ [];
}

network-IsMetButConcentration : IsMetButConcentration redundancy network
unfolding lookup
network-IsMetButConcentration = record {
  providers = omega arith;
  reserves = (refl, tt);
  routes = tt;
  continuity = refl;
  trust = tt;
  thresholds = ((refl, tt), tt);
  required = (λ e. (refl, tt), tt);
}

check_assertion-IsMetButConcentration_example : check_assertion redundancy network ≡ none
check_assertion-IsMetButConcentration_example =
    (check_assertion-IsMetButConcentration redundancy network).1 network-IsMetButConcentration

evaluate_policy-IsMetButConcentration_example : (evaluate_policy policy network).compliant ≡ true
evaluate_policy-IsMetButConcentration_example =
    (evaluate_policy-IsMetButConcentration policy network).0.1 (network-IsMetButConcentration, tt)
