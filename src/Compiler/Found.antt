-- ===== src/Compiler/Found.antt =====
-- What the loops of compiler.py's `compile` find among the selections of the actions.
use continuityos.Prelude.{
  suc, ℕ, List, [], ◌∷◌, true, false, Option, none, some, ◌≡◌, refl, subst, arith, Any-map, Any-All,
  inl, inr, length,
}
use mathlib.Core.List.{Sublistᴰ}
use continuityos.Float.{Float, IsOrdered, ◌<=◌}
use continuityos.Compiler.Actions.{CompileRequest, MitigationAction}
use continuityos.Compiler.Risk.{project_risk}
use continuityos.Compiler.Subsets.{subsets_complete, subsets_sound}
use continuityos.Compiler.Feasible.{IsChoice, evaluate-feasible, evaluate-IsFeasible}
use continuityos.Compiler.Best.{Stands, search_best, search-origin}
use continuityos.Compiler.{
  Candidate, CompiledPlan, candidate_of, evaluate, better, cost_first, continuity_first, search,
  sorted, insert_action, subsets_up_to, plan_of, compile,
}

module _ {F : Type 0} ⦃fl : Float F⦄ where
  -- What the two loops find.
  abbrev pub found : CompileRequest F → Option (Candidate F)
  found r =
      let actions = sorted r.available_actions in
      search r none (subsets_up_to actions (length actions))

  length-insert_action :
      (a : MitigationAction F) (xs : List (MitigationAction F))
      → length (insert_action a xs) ≡ suc (length xs)
  unfolding insert_action
  length-insert_action a [] = refl
  length-insert_action a (b ∷ bs) = ground (arith, length-insert_action a bs)

  pub length-sorted : (xs : List (MitigationAction F)) → length (sorted xs) ≡ length xs
  unfolding sorted
  length-sorted [] = refl
  length-sorted (a ∷ rest) =
      ground (arith, length-insert_action a (sorted rest), length-sorted rest)

  pub compile-found :
      (m : ℕ) (r : CompileRequest F) (plan : CompiledPlan F)
      → compile m r ≡ some plan
      → plan_of r (found r) ≡ plan
  unfolding compile
  compile-found m r plan h = ground arith

  candidate-IsChoice :
      (r : CompileRequest F) (s : List (MitigationAction F)) (b : Candidate F)
      → evaluate r s ≡ some b
      → Sublistᴰ s (sorted r.available_actions)
      → IsChoice r b.actions × (candidate_of b.actions (project_risk r b.actions) ≡ b)
  candidate-IsChoice r s b e d =
      let f = evaluate-IsFeasible r s b e in
      subst (λ x. IsChoice r x.actions × (candidate_of x.actions (project_risk r x.actions) ≡ x))
        f.1 ((d, f.0), refl)

  pub found-IsChoice :
      (r : CompileRequest F) (b : Candidate F)
      → found r ≡ some b
      → IsChoice r b.actions × (candidate_of b.actions (project_risk r b.actions) ≡ b)
  found-IsChoice r b h =
      let actions = sorted r.available_actions in
      elim (search-origin r b (subsets_up_to actions (length actions)) none h) [
        | inl e ↦ absurd cc
        | inr a ↦
            Any-All _ _ _ (λ s e d. candidate-IsChoice r s b e d) _ a
              (subsets_sound actions (length actions))
      ]

  pub found-Stands :
      (ord : IsOrdered fl) (r : CompileRequest F) (s : List (MitigationAction F))
      → IsChoice r s
      → Stands r.objective.minimum_continuity (candidate_of s (project_risk r s)) (found r)
  found-Stands ord r s c = search_best ord r _ _ none (
      Any-map
        (λ s' e.
          subst (λ x. evaluate r x ≡ some (candidate_of s (project_risk r s))) e
            (evaluate-feasible r s c.1))
        _ (subsets_complete c.0))

module _ {F : Type 0} ⦃fl : Float F⦄ (ord : IsOrdered fl) where
  pub not_better :
      (c b : Candidate F) (t : F)
      → better c b t ≡ false
      → (t <= c.continuity) ≡ true
      → ((t <= b.continuity) ≡ true) × ((b.cost <= c.cost) ≡ true)
  unfolding better cost_first
  not_better c b t h m = (ground arith, grind (arith, ord.lt-le, ord.total))

  pub not_better-missed :
      (c b : Candidate F) (t : F)
      → better c b t ≡ false
      → (t <= b.continuity) ≡ false
      → (c.continuity <= b.continuity) ≡ true
  unfolding better continuity_first
  not_better-missed c b t h m = grind (arith, ord.lt-le, ord.total)
