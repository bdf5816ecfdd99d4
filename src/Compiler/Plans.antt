-- ===== src/Compiler/Plans.antt =====
-- What compiler.py's `compile` promises of a plan, against every selection of the actions.
use continuityos.Prelude.{
  [], ap, false, ℕ, List, true, none, some, ◌≡◌, ◌↔◌, ◌<◌, subst, arith, inl, inr, length,
  Option-cases,
}
use continuityos.Float.{◌<<◌, Float, IsOrdered, ◌<=◌}
use continuityos.Compiler.Actions.{CompileRequest, MitigationAction}
use continuityos.Compiler.Risk.{project_risk}
use continuityos.Compiler.Subsets.{Sublist_nil}
use continuityos.Compiler.Feasible.{IsChoice, continuity_of}
use continuityos.Compiler.Best.{Stands}
use continuityos.Compiler.Found.{
  not_better-missed, found, length-sorted, compile-found, found-IsChoice, found-Stands, not_better,
}
use continuityos.Compiler.{dec, Candidate, CompiledPlan, cost_of, candidate_of, plan_of, compile}

module _ {F : Type 0} ⦃fl : Float F⦄ where
  -- Compilation raises exactly when there are more actions than the limit.
  compile_raises_iff :
      (m : ℕ) (r : CompileRequest F) → (compile m r ≡ none) ↔ (m < length r.available_actions)
  unfolding compile
  compile_raises_iff m r = (
    λ h. ground (arith, length-sorted r.available_actions),
    λ h. ground (arith, length-sorted r.available_actions),
  )

module _ {F : Type 0} ⦃fl : Float F⦄ (ord : IsOrdered fl) where
  -- Where there is a choice the plan is of a candidate that the choice's candidate does not beat.
  planned :
      (m : ℕ) (r : CompileRequest F) (plan : CompiledPlan F) (s : List (MitigationAction F))
      → compile m r ≡ some plan
      → IsChoice r s
      → (b : Candidate F) × (plan_of r (some b) ≡ plan)
        × IsChoice r b.actions
        × (candidate_of b.actions (project_risk r b.actions) ≡ b)
        × Stands r.objective.minimum_continuity (candidate_of s (project_risk r s)) (some b)
  planned m r plan s h c = elim (Option-cases (found r)) [
    | inl e ↦ absurd (subst (Stands _ _) e (found-Stands ord r s c))
    | inr (b, e) ↦ (
      b,
      subst (λ o. plan_of r o ≡ plan) e (compile-found m r plan h),
      (found-IsChoice r b e).0,
      (found-IsChoice r b e).1,
      subst (Stands _ _) e (found-Stands ord r s c),
    )
  ]

  -- Where some feasible selection of the available actions reaches the minimum continuity, the plan
  -- meets its objective, is feasible itself, and costs no more than that selection.
  pub compile_cheapest :
      (m : ℕ) (r : CompileRequest F) (plan : CompiledPlan F) (s : List (MitigationAction F))
      → compile m r ≡ some plan
      → IsChoice r s
      → (r.objective.minimum_continuity <= continuity_of r s) ≡ true
      → (plan.objective_met ≡ true)
        × IsChoice r plan.selected_actions
        × ((cost_of plan.selected_actions <= cost_of s) ≡ true)
  unfolding plan_of
  compile_cheapest m r plan s h c k =
      let (b, p, q, e, st) = planned m r plan s h c in
      let n = not_better ord (candidate_of s (project_risk r s)) b _ st k in
      (ground (arith, n), subst (IsChoice r) (ap (λ x. x.selected_actions) p) q, ground (arith, n))

  -- Where the plan misses its objective, no feasible selection of the available actions keeps more
  -- continuity than the selected actions.
  pub compile_most_continuity :
      (m : ℕ) (r : CompileRequest F) (plan : CompiledPlan F) (s : List (MitigationAction F))
      → compile m r ≡ some plan
      → IsChoice r s
      → plan.objective_met ≡ false
      → (continuity_of r s <= continuity_of r plan.selected_actions) ≡ true
  unfolding plan_of
  compile_most_continuity m r plan s h c k =
      let (b, p, q, e, st) = planned m r plan s h c in
      ground (
        arith,
        not_better-missed ord (candidate_of s (project_risk r s)) b _ st
            (cc (ap (λ x. x.objective_met) p)),
      )

  -- With a positive budget the plan is never rejected as infeasible, since no action at all is a
  -- feasible selection: what is selected keeps to the budget, the prerequisites and the exclusions.
  pub compile-IsFeasible :
      (m : ℕ) (r : CompileRequest F) (plan : CompiledPlan F)
      → fl.sum [] ≡ dec 0 0
      → (dec 0 0 << r.objective.budget) ≡ true
      → compile m r ≡ some plan
      → IsChoice r plan.selected_actions
  unfolding plan_of
  compile-IsFeasible m r plan z pos h =
      let (b, p, q, e, st) = planned m r plan [] h (
        Sublist_nil _,
        (
          ground (
            arith,
            ord.lt-le (dec 0 0) r.objective.budget,
            ord.lt-le r.objective.budget (dec 0 0),
            ord.total (dec 0 0) r.objective.budget,
          ),
          tt,
        ),
      ) in
      subst (IsChoice r) (ap (λ x. x.selected_actions) p) q
