-- ===== src/Closure.antt =====
-- closure.py: the state that the layers of a resource's functional closure make. The
-- identifier and the time stamp of an assessment are left out. The proofs are in the modules below.
mod Layers
mod Ladder
mod Verdicts
mod Examples
use continuityos.Prelude.{
  ℕ, String, str_eq, List, [], ◌∷◌, ◌++◌, Bool, true, false, not, ◌&&◌, ◌||◌, ltb, any, when,
  if◌then◌else◌,
}
use continuityos.Float.{Float, dec, ◌<=◌, ◌<<◌, minimum}
use continuityos.Domain.{
  CorridorState, open_corridor, open_degraded, open_capacity_constrained, open_but_uninsurable,
  open_but_no_carrier_capacity, open_but_navigation_untrusted, open_but_communications_degraded,
  open_but_service_dependent, recovery_backlogged, functionally_closed, physically_closed,
  EffectiveCorridorState, open_physically, capacity_constrained, closed_physically, normal,
  backlog_active,
}
use continuityos.Domain
use Layers.{
  has_code, ClosureInput, ClosureLayer, LayerState, assess_commercial, assess_operational,
  assess_physical, assess_recovery, assess_trust, available, commercial_reasons, degraded,
  is_degraded, is_nonempty, is_unavailable, is_unknown, make_layer, operational_reasons,
  trust_reasons, unavailable, unknown,
}

module _ (F : Type 0) where
  pub record ClosureAssessment : Type 0 where
    pub resource_ref : String
    pub physical_state : ClosureLayer F
    pub operational_state : ClosureLayer F
    pub commercial_state : ClosureLayer F
    pub trust_state : ClosureLayer F
    pub recovery_state : ClosureLayer F
    pub effective_state : CorridorState
    pub reason_codes : List String
    pub confidence : F
    pub policy_violations : List String
    pub dependency_trace : List String
    pub evidence_refs : List String
    pub supporting_evidence : List String

-- `if reasons:`
module _ {F : Type 0} ⦃fl : Float F⦄ where
  unfoldable pub derive_effective_state :
      ClosureLayer F
      → ClosureLayer F
      → ClosureLayer F
      → ClosureLayer F
      → ClosureLayer F
      → CorridorState
  derive_effective_state physical operational commercial trust recovery =
      if is_unavailable physical.state
      then physically_closed
      else if is_unavailable operational.state
          || (is_unavailable commercial.state && is_unavailable trust.state)
      then functionally_closed
      else if has_code "uninsurable" commercial.reason_codes
      then open_but_uninsurable
      else if has_code "no_carrier_capacity" commercial.reason_codes
      then open_but_no_carrier_capacity
      else if has_code "navigation_untrusted" operational.reason_codes
      then open_but_navigation_untrusted
      else if has_code "communications_degraded" operational.reason_codes
      then open_but_communications_degraded
      else if has_code "service_dependent" operational.reason_codes
      then open_but_service_dependent
      else if has_code "recovery_backlogged" recovery.reason_codes
      then recovery_backlogged
      else if is_degraded physical.state
      then open_capacity_constrained
      else if is_degraded operational.state
          || (is_degraded commercial.state
              || (is_degraded trust.state || is_degraded recovery.state))
      then open_degraded
      else if is_unknown trust.state
      then Domain.unknown
      else open_corridor

  unfoldable pub assess_closure : ClosureInput F → ClosureAssessment F
  assess_closure inp =
      let physical = assess_physical inp in
      let operational = assess_operational inp in
      let commercial = assess_commercial inp in
      let trust = assess_trust inp in
      let recovery = assess_recovery inp in
      record {
        resource_ref = inp.resource_ref;
        physical_state = physical;
        operational_state = operational;
        commercial_state = commercial;
        trust_state = trust;
        recovery_state = recovery;
        effective_state = derive_effective_state physical operational commercial trust recovery;
        reason_codes =
            physical.reason_codes
            ++ (operational.reason_codes
                ++ (commercial.reason_codes ++ (trust.reason_codes ++ recovery.reason_codes)));
        confidence =
            fl.round
              (minimum
                (minimum
                  (minimum (minimum physical.confidence operational.confidence)
                    commercial.confidence)
                  trust.confidence)
                recovery.confidence)
              6;
        policy_violations = inp.policy_violations;
        dependency_trace = inp.dependency_trace;
        evidence_refs = inp.evidence_refs;
        supporting_evidence =
            physical.supporting_evidence
            ++ (operational.supporting_evidence
                ++ (commercial.supporting_evidence
                    ++ (trust.supporting_evidence
                        ++ (recovery.supporting_evidence ++ inp.evidence_refs))));
      }

  -- The method `ClosureAssessment.to_composite_state`; the fields that it leaves to their defaults
  -- are written out.
  unfoldable pub to_composite_state : ClosureAssessment F → EffectiveCorridorState F
  to_composite_state a = record {
    physical_state =
        if is_unavailable a.physical_state.state
        then closed_physically
        else if is_degraded a.physical_state.state
        then capacity_constrained
        else open_physically;
    operational_state = record {
      navigation =
          if has_code "navigation_untrusted" a.operational_state.reason_codes
          then "degraded"
          else if has_code "navigation_unavailable" a.operational_state.reason_codes
          then "unavailable"
          else "healthy";
      communications =
          if has_code "communications_degraded" a.operational_state.reason_codes
          then "degraded"
          else if has_code "communications_unavailable" a.operational_state.reason_codes
          then "unavailable"
          else "healthy";
      escort_service =
          if has_code "service_dependent" a.operational_state.reason_codes
          then "dependent"
          else "available";
      weather_clearance = "clear";
    };
    commercial_state = record {
      carrier_capacity =
          if has_code "no_carrier_capacity" a.commercial_state.reason_codes
          then "unavailable"
          else "available";
      insurance =
          if has_code "uninsurable" a.commercial_state.reason_codes
          then "uninsurable"
          else "available";
      commercial_viability = a.commercial_state.confidence;
    };
    digital_trust_state = record {
      navigation_integrity =
          if has_code "navigation_untrusted" a.operational_state.reason_codes
          then dec 3 1
          else dec 10 1;
      communications_integrity =
          if has_code "communications_degraded" a.operational_state.reason_codes
          then dec 4 1
          else dec 10 1;
      cyber_integrity = a.trust_state.confidence;
      data_integrity = a.trust_state.confidence;
    };
    recovery_state = record {
      phase =
          if has_code "recovery_backlogged" a.recovery_state.reason_codes
          then backlog_active
          else normal;
      is_backlog_active = has_code "recovery_backlogged" a.recovery_state.reason_codes;
      days_elapsed = 0;
      estimated_full_restoration_days = 0;
    };
    effective_state = a.effective_state;
    reason_codes = a.reason_codes;
  }
