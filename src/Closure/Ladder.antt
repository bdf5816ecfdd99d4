-- ===== src/Closure/Ladder.antt =====
-- The reason codes and the layers of closure.py, as conditions on its input.
use continuityos.Prelude.{
  refl, if◌then◌else◌, ◌++◌, ◌&&◌, true, false, List, when, String, ◌≡◌, Bool, not, ◌||◌, ltb,
  any-when, any-append, arith,
}
use continuityos.Float.{Float, dec, ◌<=◌, ◌<<◌}
use continuityos.Domain.{
  open_corridor, open_degraded, open_capacity_constrained, open_but_uninsurable,
  open_but_no_carrier_capacity, open_but_navigation_untrusted, open_but_communications_degraded,
  open_but_service_dependent, recovery_backlogged, functionally_closed, physically_closed,
}
use continuityos.Closure.Layers.{
  has_code, assess_recovery, assess_physical, is_degraded, is_unavailable, is_unknown,
  assess_commercial, assess_operational, assess_trust, is_nonempty, trust_reasons, ClosureInput,
  operational_reasons, commercial_reasons,
}
use continuityos.Closure.{derive_effective_state, CorridorState, assess_closure}

is_nonempty-when :
    (b : Bool) (x : String) (ys : List String)
    → is_nonempty (when b x ++ ys) ≡ (b || is_nonempty ys)
is_nonempty-when true x ys = refl
is_nonempty-when false x ys = refl

is_nonempty-when_last : (b : Bool) (x : String) → is_nonempty (when b x) ≡ b
is_nonempty-when_last true x = refl
is_nonempty-when_last false x = refl

module _ {F : Type 0} ⦃fl : Float F⦄ (inp : ClosureInput F) where
  -- The conditions that the reason codes stand for.
  abbrev pub no_route : Bool
  no_route = not inp.navigation_available || not inp.communications_available

  abbrev pub uninsurable : Bool
  uninsurable = not inp.insurance_available || (inp.insurance_coverage <= dec 1 1)

  abbrev pub no_carrier : Bool
  no_carrier = not inp.carrier_capacity_available || (inp.carrier_capacity_ratio <= dec 1 1)

  abbrev pub untrusted_data : Bool
  untrusted_data = (inp.data_integrity << dec 3 1) || (inp.observation_confidence << dec 3 1)

  abbrev pub weak_trust : Bool
  weak_trust =
      (inp.data_integrity << dec 5 1)
      || ((inp.observation_confidence << dec 5 1) || ltb inp.source_diversity 2)

  pub has_uninsurable : has_code "uninsurable" (commercial_reasons inp) ≡ uninsurable
  unfolding has_code commercial_reasons
  has_uninsurable = simp (any-append, any-when) (ground arith)

  pub has_no_carrier : has_code "no_carrier_capacity" (commercial_reasons inp) ≡ no_carrier
  unfolding has_code commercial_reasons
  has_no_carrier = simp (any-append, any-when) (ground arith)

  pub has_navigation_untrusted :
      has_code "navigation_untrusted" (operational_reasons inp) ≡ (inp.navigation_trust << dec 5 1)
  unfolding has_code operational_reasons
  has_navigation_untrusted = simp (any-append, any-when) (ground arith)

  pub has_communications_degraded :
      has_code "communications_degraded" (operational_reasons inp)
      ≡ (inp.communications_trust << dec 5 1)
  unfolding has_code operational_reasons
  has_communications_degraded = simp (any-append, any-when) (ground arith)

  has_service_dependent :
      has_code "service_dependent" (operational_reasons inp)
      ≡ (inp.escort_dependent && not inp.escort_available)
  unfolding has_code operational_reasons
  has_service_dependent = simp (any-append, any-when) (ground arith)

  pub has_navigation_unavailable :
      has_code "navigation_unavailable" (operational_reasons inp) ≡ not inp.navigation_available
  unfolding has_code operational_reasons
  has_navigation_unavailable = simp (any-append, any-when) (ground arith)

  pub has_communications_unavailable :
      has_code "communications_unavailable" (operational_reasons inp)
      ≡ not inp.communications_available
  unfolding has_code operational_reasons
  has_communications_unavailable = simp (any-append, any-when) (ground arith)

  -- Some reason is given against the operations, and against the commerce.
  abbrev pub operational_doubt : Bool
  operational_doubt =
      no_route
      || ((inp.navigation_trust << dec 5 1)
          || ((inp.communications_trust << dec 5 1)
              || (not inp.escort_available || not inp.weather_safe)))

  abbrev pub commercial_doubt : Bool
  commercial_doubt = uninsurable || (no_carrier || (inp.commercial_viability <= dec 2 1))

  operational_nonempty : is_nonempty (operational_reasons inp) ≡ operational_doubt
  unfolding operational_reasons
  operational_nonempty = simp (is_nonempty-when, is_nonempty-when_last) (ground arith)

  commercial_nonempty : is_nonempty (commercial_reasons inp) ≡ commercial_doubt
  unfolding commercial_reasons
  commercial_nonempty = simp (is_nonempty-when, is_nonempty-when_last) (ground arith)

  trust_nonempty : is_nonempty (trust_reasons inp) ≡ weak_trust
  unfolding trust_reasons
  trust_nonempty = simp (is_nonempty-when, is_nonempty-when_last) (ground arith)

  -- A layer carries its reasons whichever branch returns it.
  pub operational_codes : (assess_operational inp).reason_codes ≡ operational_reasons inp
  unfolding assess_operational
  operational_codes = ground arith

  pub commercial_codes : (assess_commercial inp).reason_codes ≡ commercial_reasons inp
  unfolding assess_commercial
  commercial_codes = ground arith

  -- The effective state, read off the input alone.
  unfoldable pub ladder : CorridorState
  ladder =
      if not inp.physically_accessible
      then physically_closed
      else if no_route || (uninsurable && (no_carrier && untrusted_data))
      then functionally_closed
      else if uninsurable
      then open_but_uninsurable
      else if no_carrier
      then open_but_no_carrier_capacity
      else if inp.navigation_trust << dec 5 1
      then open_but_navigation_untrusted
      else if inp.communications_trust << dec 5 1
      then open_but_communications_degraded
      else if inp.escort_dependent && not inp.escort_available
      then open_but_service_dependent
      else if inp.recovery_backlog_active
      then recovery_backlogged
      else if inp.physical_capacity_ratio <= dec 2 1
      then open_capacity_constrained
      else if not inp.escort_available
          || (not inp.weather_safe
              || ((inp.commercial_viability <= dec 2 1) || (not untrusted_data && weak_trust)))
      then open_degraded
      else open_corridor

  operational_unavailable : is_unavailable (assess_operational inp).state ≡ no_route
  unfolding assess_operational
  operational_unavailable = ground arith

  operational_degraded :
      is_degraded (assess_operational inp).state ≡ (not no_route && operational_doubt)
  unfolding assess_operational
  operational_degraded = ground (arith, operational_nonempty)

  commercial_unavailable :
      is_unavailable (assess_commercial inp).state ≡ (uninsurable && no_carrier)
  unfolding assess_commercial
  commercial_unavailable = ground (arith, has_uninsurable, has_no_carrier)

  commercial_degraded :
      is_degraded (assess_commercial inp).state
      ≡ (not (uninsurable && no_carrier) && commercial_doubt)
  unfolding assess_commercial
  commercial_degraded = ground (arith, has_uninsurable, has_no_carrier, commercial_nonempty)

  trust_unavailable : is_unavailable (assess_trust inp).state ≡ untrusted_data
  unfolding assess_trust
  trust_unavailable = ground arith

  trust_degraded : is_degraded (assess_trust inp).state ≡ (not untrusted_data && weak_trust)
  unfolding assess_trust
  trust_degraded = ground (arith, trust_nonempty)

  trust_known : is_unknown (assess_trust inp).state ≡ false
  unfolding assess_trust
  trust_known = ground arith

  pub assess_closure-ladder : (assess_closure inp).effective_state ≡ ladder
  unfolding assess_closure derive_effective_state assess_physical assess_recovery ladder has_code
  assess_closure-ladder =
      rw (operational_codes, commercial_codes)
        (ground (
          arith, operational_unavailable, operational_degraded, commercial_unavailable,
          commercial_degraded, trust_unavailable, trust_degraded, trust_known, has_uninsurable,
          has_no_carrier, has_navigation_untrusted, has_communications_degraded,
          has_service_dependent,
        ))
