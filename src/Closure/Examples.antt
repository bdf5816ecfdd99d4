-- ===== src/Closure/Examples.antt =====
-- A strait assessed by closure.py.
use continuityos.Prelude.{ℕ, ◌≡◌, [], ◌∷◌, inl, inr, refl, true, false}
use continuityos.Float.Micro.{micro}
use continuityos.Domain.{open_corridor, open_but_uninsurable}
use continuityos.Closure.Layers.{ClosureInput}
use continuityos.Closure.{assess_closure}
use continuityos.Closure.Verdicts.{IsNominal, IsFunctionallyClosed, closed_iff, open_iff}

abbrev strait : ClosureInput ℕ
strait = record {
  resource_ref = "corridor/strait";
  physically_accessible = true;
  physical_capacity_ratio = 1000000;
  navigation_available = true;
  navigation_trust = 900000;
  communications_available = true;
  communications_trust = 900000;
  escort_available = true;
  escort_dependent = false;
  weather_safe = true;
  insurance_available = true;
  insurance_coverage = 1000000;
  carrier_capacity_available = true;
  carrier_capacity_ratio = 1000000;
  commercial_viability = 1000000;
  data_integrity = 200000;
  observation_confidence = 900000;
  source_diversity = 3;
  recovery_backlog_active = false;
  policy_violations = [];
  dependency_trace = [];
  evidence_refs = "ev-1" ∷ [];
}

strait-IsNominal : IsNominal strait
strait-IsNominal = record {
  accessible = refl;
  capacity = refl;
  route = refl;
  navigation = refl;
  communications = refl;
  escort = refl;
  weather = refl;
  insured = refl;
  carried = refl;
  viable = refl;
  no_backlog = refl;
}

-- The same strait with its insurance revoked.
abbrev uninsured : ClosureInput ℕ
uninsured = record strait { insurance_available = false; insurance_coverage = 0 }

uninsured_passable : ¬ IsFunctionallyClosed uninsured
uninsured_passable (inl h) = cc
uninsured_passable (inr (inl h)) = cc
uninsured_passable (inr (inr h)) = cc (h.1)

closed_iff_example : (assess_closure uninsured).effective_state ≡ open_but_uninsurable
closed_iff_example = (closed_iff uninsured).2.1 (refl, refl, uninsured_passable)

open_iff_example : (assess_closure strait).effective_state ≡ open_corridor
open_iff_example = (open_iff strait).1 (strait-IsNominal, inr refl)
