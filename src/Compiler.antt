-- ===== src/Compiler.antt =====
-- compiler.py: the exact search for the best set of mitigation actions. The random identifier of a
-- plan is left out. The proofs are in the modules below.
mod Actions
mod Risk
mod Subsets
mod Best
mod Feasible
mod Found
mod Plans
mod Examples
use continuityos.Prelude.{
  ℕ, zero, suc, String, str_eq, str_lt, List, [], ◌∷◌, ◌++◌, map, Bool, true, false, not, ◌&&◌,
  ◌||◌, Option, none, some, ltb, length, any, all, if◌then◌else◌,
}
use continuityos.Float.{Float, dec, ◌<=◌, ◌<<◌, minimum, maximum}
use Actions.{MitigationAction, CompileRequest}
use Risk.{project_risk}

pub record CompiledPlan (F : Type 0) : Type 0 where
  pub assessment_id : String
  pub selected_actions : List (MitigationAction F)
  pub total_cost : F
  pub projected_continuity : F
  pub projected_risk : F
  pub objective_met : Bool
  pub deterministic_solver : String
  pub approval_required : Bool
  pub rejected_reason : Option String

pub record Candidate (F : Type 0) : Type 0 where
  pub actions : List (MitigationAction F)
  pub cost : F
  pub continuity : F
  pub risk : F

-- itertools.combinations
unfoldable pub combinations : {A : Type 0} → List A → ℕ → List (List A)
combinations xs zero = [] ∷ []
combinations [] (suc n) = []
combinations (x ∷ xs) (suc n) = map (λ c. x ∷ c) (combinations xs n) ++ combinations xs (suc n)

-- The subsets with at most `count` elements, in the order of the two loops.
unfoldable pub subsets_up_to : {A : Type 0} → List A → ℕ → List (List A)
unfolding combinations
subsets_up_to xs zero = combinations xs zero
subsets_up_to xs (suc count) = subsets_up_to xs count ++ combinations xs (suc count)

-- `<` on two tuples of identifiers.
unfoldable pub ids_lt : List String → List String → Bool
ids_lt [] [] = false
ids_lt [] (b ∷ bs) = true
ids_lt (a ∷ rest) [] = false
ids_lt (a ∷ more) (b ∷ bs) = let rest = ids_lt more bs in if str_eq a b then rest else str_lt a b

module _ {F : Type 0} ⦃fl : Float F⦄ where
  abbrev pub ids_of : List (MitigationAction F) → List String
  ids_of subset = map (λ a. a.action_id) subset

  abbrev pub cost_of : List (MitigationAction F) → F
  cost_of subset = fl.sum (map (λ a. a.cost) subset)

  -- The two tests on an action of a subset with these identifiers.
  unfoldable pub fits : List String → MitigationAction F → Bool
  fits ids a =
      all (λ p. any (str_eq p) ids) a.prerequisites
      && not (any (λ p. any (str_eq p) ids) a.incompatible_with)

  abbrev pub candidate_of : List (MitigationAction F) → F → Candidate F
  candidate_of subset projected_risk = record {
    actions = subset;
    cost = cost_of subset;
    continuity = minimum (dec 1 0) (fl.sub (dec 1 0) projected_risk);
    risk = maximum (dec 0 0) projected_risk;
  }

  unfoldable pub evaluate : CompileRequest F → List (MitigationAction F) → Option (Candidate F)
  unfolding fits
  evaluate request subset =
      if request.objective.budget << cost_of subset
      then none
      else if all (fits (ids_of subset)) subset
      then some (candidate_of subset (project_risk request subset))
      else none

  -- `a == b` on floats
  abbrev pub equal : F → F → Bool
  equal a b = (a <= b) && (b <= a)

  -- `<` on the keys of two candidates: by cost, then by continuity downwards, then by identifiers;
  -- and with the first two swapped. A negated continuity is lower where the continuity is higher.
  unfoldable pub cost_first : Candidate F → Candidate F → Bool
  cost_first c b =
      if not (equal c.cost b.cost)
      then c.cost << b.cost
      else if not (equal c.continuity b.continuity)
      then b.continuity << c.continuity
      else ids_lt (ids_of c.actions) (ids_of b.actions)

  unfoldable pub continuity_first : Candidate F → Candidate F → Bool
  continuity_first c b =
      if not (equal c.continuity b.continuity)
      then b.continuity << c.continuity
      else if not (equal c.cost b.cost)
      then c.cost << b.cost
      else ids_lt (ids_of c.actions) (ids_of b.actions)

  unfoldable pub better : Candidate F → Candidate F → F → Bool
  unfolding cost_first continuity_first
  better candidate incumbent target =
      let candidate_meets = target <= candidate.continuity in
      let incumbent_meets = target <= incumbent.continuity in
      if candidate_meets
      then (if incumbent_meets then cost_first candidate incumbent else true)
      else (if incumbent_meets then false else continuity_first candidate incumbent)

  abbrev pub keep_better : F → Option (Candidate F) → Option (Candidate F) → Option (Candidate F)
  keep_better target best none = best
  keep_better target none (some candidate) = some candidate
  keep_better target (some best) (some candidate) =
      some (if better candidate best target then candidate else best)

  -- The body of the two loops, over the subsets in their order.
  unfoldable pub search :
      CompileRequest F
      → Option (Candidate F)
      → List (List (MitigationAction F))
      → Option (Candidate F)
  unfolding evaluate better
  search request best [] = best
  search request best (subset ∷ subsets) =
      search request
        (keep_better request.objective.minimum_continuity best (evaluate request subset)) subsets

  -- sorted(..., key=lambda item: item.action_id), which is stable
  unfoldable pub insert_action :
      MitigationAction F → List (MitigationAction F) → List (MitigationAction F)
  insert_action a [] = a ∷ []
  insert_action a (b ∷ bs) =
      let rest = insert_action a bs in
      if str_lt b.action_id a.action_id then b ∷ rest else a ∷ b ∷ bs

  unfoldable pub sorted : List (MitigationAction F) → List (MitigationAction F)
  unfolding insert_action
  sorted [] = []
  sorted (a ∷ rest) = insert_action a (sorted rest)

  unfoldable pub plan_of : CompileRequest F → Option (Candidate F) → CompiledPlan F
  plan_of request none = record {
    assessment_id = request.assessment.assessment_id;
    selected_actions = [];
    total_cost = dec 0 0;
    projected_continuity = maximum (dec 0 0) (fl.sub (dec 1 0) request.assessment.overall_risk);
    projected_risk = request.assessment.overall_risk;
    objective_met = false;
    deterministic_solver = "bounded-exact-v1";
    approval_required = request.objective.human_approval_required;
    rejected_reason = some "no feasible action set within budget and compatibility constraints";
  }
  plan_of request (some best) =
      let met = request.objective.minimum_continuity <= best.continuity in
      record {
        assessment_id = request.assessment.assessment_id;
        selected_actions = best.actions;
        total_cost = fl.round best.cost 2;
        projected_continuity = fl.round best.continuity 6;
        projected_risk = fl.round best.risk 6;
        objective_met = met;
        deterministic_solver = "bounded-exact-v1";
        approval_required =
            request.objective.human_approval_required
            || any (λ a. a.requires_human_approval) best.actions;
        rejected_reason =
            if met then none else some "objective not achievable with available actions";
      }

  -- `none` is the ValueError of too many actions.
  unfoldable pub compile : ℕ → CompileRequest F → Option (CompiledPlan F)
  unfolding search sorted subsets_up_to plan_of
  compile max_actions request =
      let actions = sorted request.available_actions in
      if ltb max_actions (length actions)
      then none
      else some (plan_of request (search request none (subsets_up_to actions (length actions))))
