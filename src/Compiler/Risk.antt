-- ===== src/Compiler/Risk.antt =====
-- compiler.py: the risk that a subset of actions is projected to leave.
use continuityos.Prelude.{true, List, [], ◌∷◌, map, same, any, if◌then◌else◌}
use continuityos.Float.{Float, dec, minimum, maximum}
use continuityos.Compiler.Actions.{
  CorridorFactor, ice, weather, traffic, port, communications, cyber, data_trust, commercial,
  geopolitical, escort, inventory, factor_discrete, FactorAssessment, MitigationAction,
  CompileRequest,
}

abbrev pub factor_weight : {F : Type 0} ⦃fl : Float F⦄ → CorridorFactor → F
factor_weight ice = dec 14 2
factor_weight weather = dec 8 2
factor_weight traffic = dec 6 2
factor_weight port = dec 12 2
factor_weight communications = dec 11 2
factor_weight cyber = dec 12 2
factor_weight data_trust = dec 10 2
factor_weight commercial = dec 9 2
factor_weight geopolitical = dec 7 2
factor_weight escort = dec 6 2
factor_weight inventory = dec 5 2

-- Entries of the dictionary `factor_risks`.
unfoldable pub set_risk :
    {F : Type 0} → CorridorFactor → F → List (CorridorFactor × F) → List (CorridorFactor × F)
unfolding same factor_discrete
set_risk f r [] = (f, r) ∷ []
set_risk f r ((g, s) ∷ rest) =
    if same factor_discrete f g then (g, r) ∷ rest else (g, s) ∷ set_risk f r rest

unfoldable pub factor_risks_of :
    {F : Type 0} → List (CorridorFactor × F) → List (FactorAssessment F) → List (CorridorFactor × F)
unfolding set_risk
factor_risks_of risks [] = risks
factor_risks_of risks (f ∷ fs) = factor_risks_of (set_risk f.factor f.risk risks) fs

module _ {F : Type 0} ⦃fl : Float F⦄ where
  -- 1.0 - min(0.95, reduction)
  abbrev pub remaining : F → F
  remaining reduction = fl.sub (dec 1 0) (minimum (dec 95 2) reduction)

  -- factor_risks[factor] *= ..., if the factor is there
  unfoldable pub reduce_factor :
      CorridorFactor → F → List (CorridorFactor × F) → List (CorridorFactor × F)
  unfolding same factor_discrete
  reduce_factor f reduction [] = []
  reduce_factor f reduction ((g, s) ∷ rest) =
      if same factor_discrete f g
      then (g, fl.mul s (remaining reduction)) ∷ rest
      else (g, s) ∷ reduce_factor f reduction rest

  unfoldable pub reduce_all :
      List (CorridorFactor × F) → List (CorridorFactor × F) → List (CorridorFactor × F)
  unfolding reduce_factor
  reduce_all risks [] = risks
  reduce_all risks ((f, reduction) ∷ more) = reduce_all (reduce_factor f reduction risks) more

  unfoldable pub reduce_by_actions :
      List (CorridorFactor × F) → List (MitigationAction F) → List (CorridorFactor × F)
  unfolding reduce_all
  reduce_by_actions risks [] = risks
  reduce_by_actions risks (a ∷ rest) = reduce_by_actions (reduce_all risks a.risk_reductions) rest

  abbrev pub weighted : List (CorridorFactor × F) → F
  weighted risks = fl.sum (map (λ e. fl.mul e.1 (factor_weight e.0)) risks)

  unfoldable pub projected_factor_risk :
      F → List (CorridorFactor × F) → List (MitigationAction F) → F
  unfolding reduce_by_actions
  projected_factor_risk overall_risk [] subset = overall_risk
  projected_factor_risk overall_risk (e ∷ es) subset =
      let weight_used = fl.sum (map (λ e. factor_weight e.0) (e ∷ es)) in
      let base_factor_risk = fl.div (weighted (e ∷ es)) weight_used in
      let non_factor_penalty = maximum (dec 0 0) (fl.sub overall_risk base_factor_risk) in
      let projected = fl.div (weighted (reduce_by_actions (e ∷ es) subset)) weight_used in
      minimum (dec 1 0) (fl.add projected non_factor_penalty)

  -- The loop over the actions without risk reductions.
  unfoldable pub apply_gains : F → List (MitigationAction F) → F
  apply_gains risk [] = risk
  apply_gains risk (a ∷ rest) =
      apply_gains
        (if any (λ e. true) a.risk_reductions
          then risk
          else fl.mul risk (remaining a.continuity_gain))
        rest

  unfoldable pub project_risk : CompileRequest F → List (MitigationAction F) → F
  unfolding projected_factor_risk apply_gains factor_risks_of
  project_risk request subset =
      let risks = factor_risks_of [] request.assessment.factors in
      let risk = projected_factor_risk request.assessment.overall_risk risks subset in
      maximum (dec 0 0) (minimum (dec 1 0) (apply_gains risk subset))
