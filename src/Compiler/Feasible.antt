-- ===== src/Compiler/Feasible.antt =====
-- The subsets of actions that compiler.py's `_evaluate` turns into candidates.
use continuityos.Prelude.{
  String, str_eq, List, true, false, some, ◌≡◌, ◌↔◌, arith, Any, All, any, any_iff, all_iff,
  none_iff, eq_iff,
}
use mathlib.Core.List.{Sublistᴰ}
use continuityos.Float.{Float, dec, ◌<<◌, minimum}
use continuityos.Compiler.Actions.{CompileRequest, MitigationAction}
use continuityos.Compiler.Risk.{project_risk}
use continuityos.Compiler.{Candidate, ids_of, cost_of, candidate_of, fits, evaluate, sorted}

among_iff : (p : String) (ids : List String) → (any (str_eq p) ids ≡ true) ↔ Any (λ i. p ≡ i) ids
among_iff p ids = any_iff (str_eq p) (λ i. p ≡ i) (λ i. eq_iff p i) ids

-- Every prerequisite of the action is among the identifiers, and nothing that it excludes.
abbrev pub Fits : {F : Type 0} → List String → MitigationAction F → Type 0
Fits ids a =
    All (λ p. Any (λ i. p ≡ i) ids) a.prerequisites
    × All (λ p. ¬ Any (λ i. p ≡ i) ids) a.incompatible_with

module _ {F : Type 0} ⦃fl : Float F⦄ where
  abbrev pub IsFeasible : CompileRequest F → List (MitigationAction F) → Type 0
  IsFeasible r s = ((r.objective.budget << cost_of s) ≡ false) × All (Fits (ids_of s)) s

  -- A feasible selection of the available actions, in the order of their identifiers.
  abbrev pub IsChoice : CompileRequest F → List (MitigationAction F) → Type 0
  IsChoice r s = Sublistᴰ s (sorted r.available_actions) × IsFeasible r s

  abbrev pub continuity_of : CompileRequest F → List (MitigationAction F) → F
  continuity_of r s = minimum (dec 1 0) (fl.sub (dec 1 0) (project_risk r s))

  fits_iff : (ids : List String) (a : MitigationAction F) → (fits ids a ≡ true) ↔ Fits ids a
  unfolding fits
  fits_iff ids a = (
    λ h. (
      (all_iff _ _ (λ p. among_iff p ids) a.prerequisites).0 (ground arith),
      (none_iff _ _ (λ p. among_iff p ids) a.incompatible_with).0 (ground arith),
    ),
    λ h. ground (
      arith,
      (all_iff _ _ (λ p. among_iff p ids) a.prerequisites).1 h.0,
      (none_iff _ _ (λ p. among_iff p ids) a.incompatible_with).1 h.1,
    ),
  )

  pub evaluate-feasible :
      (r : CompileRequest F) (s : List (MitigationAction F))
      → IsFeasible r s
      → evaluate r s ≡ some (candidate_of s (project_risk r s))
  unfolding evaluate
  evaluate-feasible r s h = ground (arith, h.0, (all_iff _ _ (fits_iff (ids_of s)) s).1 h.1)

  -- A candidate is of a feasible subset, and has its cost and continuity.
  pub evaluate-IsFeasible :
      (r : CompileRequest F) (s : List (MitigationAction F)) (b : Candidate F)
      → evaluate r s ≡ some b
      → IsFeasible r s × (candidate_of s (project_risk r s) ≡ b)
  unfolding evaluate
  evaluate-IsFeasible r s b h =
      ((ground arith, (all_iff _ _ (fits_iff (ids_of s)) s).0 (ground arith)), ground arith)
