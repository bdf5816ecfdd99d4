-- ===== src/Compiler/Examples.antt =====
-- A compilation of three actions in millionths: an icebreaker, a second ship that needs it, and a
-- detour that excludes it.
use continuityos.Prelude.{ℕ, [], ◌∷◌, true, false, some, ◌≡◌, refl, inl}
use mathlib.Core.List.{Sublistᴰ}
use continuityos.Float.{◌<=◌}
use continuityos.Domain.{open_degraded}
use continuityos.Float.Micro.{micro, micro-IsOrdered}
use continuityos.Compiler.Actions.{
  CorridorFactor, FactorAssessment, MitigationAction, CompileRequest, ice, port,
}
use continuityos.Compiler.{CompiledPlan, plan_of, compile, search, cost_of, sorted, subsets_up_to}
use continuityos.Compiler.Risk.{project_risk}
use continuityos.Compiler.Feasible.{IsChoice, continuity_of}
use continuityos.Compiler.Found.{found}
use continuityos.Compiler.Plans.{compile_cheapest, compile_most_continuity, compile-IsFeasible}

abbrev icebreaker : MitigationAction ℕ
icebreaker = record {
  action_id = "breaker";
  name = "breaker";
  lead_time_hours = 24;
  rationale = "";
  cost = 40000000;
  continuity_gain = 100000;
  risk_reductions = (ice, 500000) ∷ [];
  prerequisites = [];
  incompatible_with = [];
  requires_human_approval = true;
}

abbrev second_ship : MitigationAction ℕ
second_ship = record {
  action_id = "second";
  name = "second";
  lead_time_hours = 48;
  rationale = "";
  cost = 30000000;
  continuity_gain = 200000;
  risk_reductions = [];
  prerequisites = "breaker" ∷ [];
  incompatible_with = [];
  requires_human_approval = false;
}

abbrev detour : MitigationAction ℕ
detour = record {
  action_id = "detour";
  name = "detour";
  lead_time_hours = 12;
  rationale = "";
  cost = 20000000;
  continuity_gain = 300000;
  risk_reductions = [];
  prerequisites = [];
  incompatible_with = "breaker" ∷ [];
  requires_human_approval = false;
}

abbrev factor_risk : CorridorFactor → ℕ → FactorAssessment ℕ
factor_risk f r = record {
  factor = f;
  risk = r;
  confidence = 900000;
  evidence_ids = [];
  rationale = "";
}

abbrev request_for : ℕ → CompileRequest ℕ
request_for minimum = record {
  assessment = record {
    assessment_id = "a1";
    corridor_id = "north";
    confidence = 800000;
    state = open_degraded;
    missing_required_metrics = [];
    caveats = [];
    overall_risk = 450000;
    factors = factor_risk ice 600000 ∷ factor_risk port 200000 ∷ [];
  };
  objective = record {
    minimum_continuity = minimum;
    maximum_shortage_days = 7;
    maximum_recovery_days = 45;
    budget = 100000000;
    human_approval_required = false;
  };
  available_actions = second_ship ∷ icebreaker ∷ detour ∷ [];
}

abbrev plan_for : ℕ → CompiledPlan ℕ
plan_for minimum = plan_of (request_for minimum) (found (request_for minimum))

compiled : (minimum : ℕ) → compile 24 (request_for minimum) ≡ some (plan_for minimum)
unfolding compile
compiled minimum = refl

-- Both ships, in the order of their identifiers.
both_ships : (minimum : ℕ) → IsChoice (request_for minimum) (icebreaker ∷ second_ship ∷ [])
unfolding sorted
both_ships minimum = (
  Sublistᴰ.cons-cons refl (Sublistᴰ.cons (Sublistᴰ.cons-cons refl Sublistᴰ.slnil)),
  (refl, ((tt, tt), (((inl refl, tt), tt), tt))),
)

enough : (600000 <= continuity_of (request_for 600000) (icebreaker ∷ second_ship ∷ [])) ≡ true
unfolding project_risk
enough = refl

compile_cheapest_example :
    let r = request_for 600000 in
    let plan = plan_for 600000 in
    (plan.objective_met ≡ true)
    × IsChoice r plan.selected_actions
    × ((cost_of plan.selected_actions <= cost_of (icebreaker ∷ second_ship ∷ [])) ≡ true)
compile_cheapest_example =
    compile_cheapest micro-IsOrdered 24 (request_for 600000) (plan_for 600000)
      (icebreaker ∷ second_ship ∷ []) (compiled 600000) (both_ships 600000) enough

out_of_reach : (plan_for 990000).objective_met ≡ false
unfolding plan_of search project_risk sorted subsets_up_to
out_of_reach = refl

compile_most_continuity_example :
    let r = request_for 990000 in
    (continuity_of r (icebreaker ∷ second_ship ∷ [])
      <= continuity_of r (plan_for 990000).selected_actions)
    ≡ true
compile_most_continuity_example =
    compile_most_continuity micro-IsOrdered 24 (request_for 990000) (plan_for 990000)
      (icebreaker ∷ second_ship ∷ []) (compiled 990000) (both_ships 990000) out_of_reach

compile-IsFeasible_example : IsChoice (request_for 600000) (plan_for 600000).selected_actions
compile-IsFeasible_example =
    compile-IsFeasible micro-IsOrdered 24 (request_for 600000) (plan_for 600000) refl refl
      (compiled 600000)
