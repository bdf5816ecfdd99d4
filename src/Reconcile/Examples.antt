-- ===== src/Reconcile/Examples.antt =====
-- A network reconciled as in reconcile.py.
use continuityos.Prelude.{
  ℕ, ◌+◌, ◌≤◌, pos, ◌≡◌, ◌⊎◌, refl, none, some, [], ◌∷◌, All, Any, length, arith,
}
use continuityos.Float.Micro.{micro}
use continuityos.Reconcile.{compliant, DesiredState, ActualState, reconcile, lookup}
use continuityos.Reconcile.Severity.{rank, reconcile_worst}
use continuityos.Reconcile.Compliance.{IsMet, reconcile-IsMet}

abbrev wanted : DesiredState ℕ
wanted = record {
  satcom_provider_count = some (pos 2);
  fuel_reserve_days = some 30000000;
  medical_reserve_days = none;
  minimum_routes = some (pos 1);
  minimum_continuity = none;
  navigation_source_count = none;
  observation_source_count = none;
  minimum_trust_score = some 900000;
  custom_checks = ("berths", 4000000) ∷ [];
}

abbrev seen : ActualState ℕ
seen = record {
  satcom_provider_count = some (pos 3);
  fuel_reserve_days = some 31000000;
  medical_reserve_days = none;
  route_count = some (pos 1);
  overall_continuity = none;
  navigation_source_count = none;
  observation_source_count = none;
  trust_scores = ("satcom", 100000) ∷ [];
  custom_values = ("berths", 4000000) ∷ [];
}

seen-IsMet : IsMet wanted seen
unfolding lookup
seen-IsMet = record {
  satcom = omega arith;
  fuel = refl;
  medical = tt;
  routes = omega arith;
  continuity = tt;
  navigation = tt;
  observation = tt;
  custom = (refl, tt);
}

reconcile-IsMet_example : (reconcile wanted seen).overall_status ≡ compliant
reconcile-IsMet_example = (reconcile-IsMet wanted seen).1 seen-IsMet

reconcile_worst_example :
    All
      (λ c. rank c.status ≤ rank (reconcile wanted seen).overall_status)
      (reconcile wanted seen).checks
    × (((reconcile wanted seen).overall_status ≡ compliant)
        ⊎ Any
            (λ c. c.status ≡ (reconcile wanted seen).overall_status)
            (reconcile wanted seen).checks)
    × ((reconcile wanted seen).compliant_count
          + (reconcile wanted seen).drift_count
          + (reconcile wanted seen).degraded_count
          + (reconcile wanted seen).fail_count
          + (reconcile wanted seen).unknown_count
        ≡ length (reconcile wanted seen).checks)
reconcile_worst_example = reconcile_worst wanted seen
