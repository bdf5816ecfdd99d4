-- ===== src/Readiness.antt =====
-- readiness.py: the readiness rating of a theater. The texts of a limiting factor are its constructor with
-- the values that they show; the briefing and the random identifier are left out, and so is the policy
-- result, which the code does not read.
mod Rating
mod Examples
use continuityos.Prelude.{
  ℕ, String, List, [], ◌∷◌, ◌++◌, Bool, true, false, ◌&&◌, ◌||◌, Option, none, some, when,
  if◌then◌else◌,
}
use continuityos.Float.{Float, dec, ◌<=◌, ◌<<◌, minimum}
use continuityos.Domain.{
  CorridorState, open_corridor, open_degraded, open_capacity_constrained, open_but_uninsurable,
  open_but_no_carrier_capacity, open_but_navigation_untrusted, open_but_communications_degraded,
  functionally_closed, physically_closed,
}
use continuityos.Reconcile.{ReconciliationResult, ReconciliationStatus, fail, is_status}

pub data CLevelRating : Type 0 where
  c1_fully_mission_capable c2_substantially_capable c3_marginally_capable : CLevelRating
  c4_not_mission_capable c5_regeneration_underway : CLevelRating

pub data MissionLimitingFactor (F : Type 0) : Type 0 where
  corridor_closed corridor_degraded : CorridorState → MissionLimitingFactor F
  critical_inventory_depletion low_inventory_reserve : F → MissionLimitingFactor F
  policy_reconciliation_failure : ℕ → MissionLimitingFactor F

pub record ReadinessAssessment (F : Type 0) : Type 0 where
  pub unit_or_theater_id : String
  pub c_rating : CLevelRating
  pub overall_continuity_score : F
  pub inventory_readiness_score : F
  pub corridor_operational_score : F
  pub mission_limiting_factors : List (MissionLimitingFactor F)

abbrev pub is_closed : CorridorState → Bool
is_closed physically_closed = true
is_closed functionally_closed = true
is_closed _ = false

abbrev pub is_restricted : CorridorState → Bool
is_restricted open_but_uninsurable = true
is_restricted open_but_no_carrier_capacity = true
is_restricted open_but_navigation_untrusted = true
is_restricted open_but_communications_degraded = true
is_restricted _ = false

abbrev pub is_reduced : CorridorState → Bool
is_reduced open_degraded = true
is_reduced open_capacity_constrained = true
is_reduced _ = false

module _ {F : Type 0} ⦃fl : Float F⦄ where
  abbrev pub corridor_score : CorridorState → F
  corridor_score state =
      if is_closed state
      then dec 0 0
      else if is_restricted state
      then dec 50 2
      else if is_reduced state
      then dec 80 2
      else dec 1 0

  abbrev pub corridor_factors : CorridorState → List (MissionLimitingFactor F)
  corridor_factors state =
      if is_closed state
      then corridor_closed state ∷ []
      else when (is_restricted state) (corridor_degraded state)

  abbrev pub inventory_factors : F → List (MissionLimitingFactor F)
  inventory_factors days =
      if days << dec 7 0
      then critical_inventory_depletion days ∷ []
      else when (days << dec 20 0) (low_inventory_reserve days)

  abbrev pub is_failing : Option (ReconciliationResult F) → Bool
  is_failing none = false
  is_failing (some result) = is_status fail result.overall_status

  abbrev pub policy_factors : Option (ReconciliationResult F) → List (MissionLimitingFactor F)
  policy_factors none = []
  policy_factors (some result) =
      when (is_status fail result.overall_status) (policy_reconciliation_failure result.fail_count)

  -- The comparison `score == 0.0`.
  abbrev pub is_zero : F → Bool
  is_zero score = (score <= dec 0 0) && (dec 0 0 <= score)

  unfoldable pub rate : F → F → F → Bool → CLevelRating
  rate score days continuity failing =
      if is_zero score || ((days << dec 7 0) || (continuity << dec 65 2))
      then c4_not_mission_capable
      else if (score <= dec 50 2) || ((days << dec 20 0) || ((continuity << dec 80 2) || failing))
      then c3_marginally_capable
      else if (days << dec 30 0) || (continuity << dec 95 2)
      then c2_substantially_capable
      else c1_fully_mission_capable

  unfoldable pub evaluate_readiness :
      String → F → F → CorridorState → Option (ReconciliationResult F) → ReadinessAssessment F
  unfolding rate
  evaluate_readiness theater_id continuity days state reconciliation = record {
    unit_or_theater_id = theater_id;
    c_rating = rate (corridor_score state) days continuity (is_failing reconciliation);
    overall_continuity_score = fl.round continuity 4;
    inventory_readiness_score = fl.round (minimum (dec 1 0) (fl.div days (dec 300 1))) 4;
    corridor_operational_score = fl.round (corridor_score state) 4;
    mission_limiting_factors =
        corridor_factors state ++ (inventory_factors days ++ policy_factors reconciliation);
  }
