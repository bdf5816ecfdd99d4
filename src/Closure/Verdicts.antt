-- ===== src/Closure/Verdicts.antt =====
-- What an assessment of closure.py says of the resource, and what its composite state keeps of it.
use continuityos.Prelude.{not, if◌then◌else◌, ◌⊎◌, refl, ◌↔◌, ◌≢◌, arith, false, true, ◌≡◌}
use continuityos.Float.{Float, IsOrdered, dec, ◌<=◌, ◌<<◌, minimum}
use continuityos.Domain
use continuityos.Domain.{
  closed_physically, capacity_constrained, open_physically, CorridorState, open_corridor,
  open_degraded, open_but_uninsurable, functionally_closed, physically_closed,
  EffectiveCorridorState,
}
use continuityos.Closure.Layers.{
  has_code, ClosureInput, assess_physical, assess_operational, assess_commercial, assess_trust,
  assess_recovery,
}
use continuityos.Closure.{to_composite_state, assess_closure}
use continuityos.Closure.Ladder.{
  no_route, uninsurable, no_carrier, untrusted_data, weak_trust, ladder, assess_closure-ladder,
  operational_codes, commercial_codes, has_uninsurable, has_no_carrier, has_navigation_untrusted,
  has_navigation_unavailable, has_communications_degraded, has_communications_unavailable,
}

-- Every condition but those on the trust in the data is met.
module _ {F : Type 0} ⦃fl : Float F⦄ where
  pub record IsNominal (inp : ClosureInput F) : Type 0 where
    pub accessible : inp.physically_accessible ≡ true
    pub capacity : (inp.physical_capacity_ratio <= dec 2 1) ≡ false
    pub route : no_route inp ≡ false
    pub navigation : (inp.navigation_trust << dec 5 1) ≡ false
    pub communications : (inp.communications_trust << dec 5 1) ≡ false
    pub escort : inp.escort_available ≡ true
    pub weather : inp.weather_safe ≡ true
    pub insured : uninsurable inp ≡ false
    pub carried : no_carrier inp ≡ false
    pub viable : (inp.commercial_viability <= dec 2 1) ≡ false
    pub no_backlog : inp.recovery_backlog_active ≡ false

  -- There is no way in, or insurance, carriers and data all fail together.
  abbrev pub IsFunctionallyClosed : ClosureInput F → Type 0
  IsFunctionallyClosed inp =
      (inp.navigation_available ≡ false)
      ⊎ ((inp.communications_available ≡ false)
          ⊎ ((uninsurable inp ≡ true) × (no_carrier inp ≡ true) × (untrusted_data inp ≡ true)))

  -- A resource is assessed as open exactly when every physical, operational, commercial and recovery
  -- condition is met and the data is either trusted or below the lower trust threshold.
  pub open_iff :
      (inp : ClosureInput F)
      → ((assess_closure inp).effective_state ≡ open_corridor)
        ↔ (IsNominal inp × ((weak_trust inp ≡ false) ⊎ (untrusted_data inp ≡ true)))
  unfolding ladder
  open_iff inp = (
    λ h. ground (arith, assess_closure-ladder inp),
    λ h. ground (arith, assess_closure-ladder inp),
  )

  -- A resource is physically closed exactly when it is not accessible; functionally closed exactly when
  -- it is accessible and either navigation or communications are unavailable, or its insurance and its
  -- carriers are each unavailable or at a tenth or less and its data is below the lower trust threshold;
  -- and open but uninsurable exactly when it is accessible, not functionally closed, and its insurance is
  -- unavailable or at a tenth or less.
  pub closed_iff :
      (inp : ClosureInput F)
      → let state = (assess_closure inp).effective_state in
        ((state ≡ physically_closed) ↔ (inp.physically_accessible ≡ false))
        × ((state ≡ functionally_closed)
            ↔ ((inp.physically_accessible ≡ true) × IsFunctionallyClosed inp))
        × ((state ≡ open_but_uninsurable) ↔ (
            (inp.physically_accessible ≡ true)
            × (uninsurable inp ≡ true)
            × (¬ IsFunctionallyClosed inp)))
  unfolding ladder
  closed_iff inp = (
    (
      λ h. ground (arith, assess_closure-ladder inp),
      λ h. ground (arith, assess_closure-ladder inp),
    ),
    (
      λ h. ground (arith, assess_closure-ladder inp),
      λ h. ground (arith, assess_closure-ladder inp),
    ),
    (
      λ h. ground (arith, assess_closure-ladder inp),
      λ h. ground (arith, assess_closure-ladder inp),
    ),
  )

  -- Where everything else is nominal, data below the lower trust threshold leaves the resource open;
  -- only data between the two thresholds, or too few sources, makes it degraded.
  less_trust_is_open :
      (inp : ClosureInput F)
      → IsNominal inp
      → (assess_closure inp).effective_state ≡ (
          if untrusted_data inp
          then open_corridor
          else if weak_trust inp
          then open_degraded
          else open_corridor)
  unfolding ladder
  less_trust_is_open inp n = ground (arith, assess_closure-ladder inp)

  -- No input is assessed as unknown.
  never_unknown : (inp : ClosureInput F) → (assess_closure inp).effective_state ≢ Domain.unknown
  unfolding ladder
  never_unknown inp h = ground (arith, assess_closure-ladder inp)

  minimum_bounds :
      IsOrdered fl → (a b : F) → ((minimum a b <= a) ≡ true) × ((minimum a b <= b) ≡ true)
  minimum_bounds o a b = ground (arith, o.lt-le b a, o.total a b, o.refl a, o.refl b)

  -- The confidence of an assessment is the rounding of a number that is at most the confidence of
  -- each of the five layers.
  confidence_bounds :
      IsOrdered fl
      → (inp : ClosureInput F)
      → let a = assess_closure inp in
        (c : F) × (a.confidence ≡ fl.round c 6)
        × ((c <= a.physical_state.confidence) ≡ true)
        × ((c <= a.operational_state.confidence) ≡ true)
        × ((c <= a.commercial_state.confidence) ≡ true)
        × ((c <= a.trust_state.confidence) ≡ true)
        × ((c <= a.recovery_state.confidence) ≡ true)
  unfolding assess_closure
  confidence_bounds o inp =
      let p = (assess_physical inp).confidence in
      let q = (assess_operational inp).confidence in
      let r = (assess_commercial inp).confidence in
      let s = (assess_trust inp).confidence in
      let t = (assess_recovery inp).confidence in
      let pq = minimum p q in
      let pqr = minimum pq r in
      let pqrs = minimum pqr s in
      let c = minimum pqrs t in
      let b1 = minimum_bounds o p q in
      let b2 = minimum_bounds o pq r in
      let b3 = minimum_bounds o pqr s in
      let b4 = minimum_bounds o pqrs t in
      let to3 = o.trans c pqrs pqr b4.0 b3.0 in
      let to2 = o.trans c pqr pq to3 b2.0 in
      (
        c,
        refl,
        o.trans c pq p to2 b1.0,
        o.trans c pq q to2 b1.1,
        o.trans c pqr r to3 b2.1,
        o.trans c pqrs s b4.0 b3.1,
        b4.1,
      )

  physical_composite :
      (inp : ClosureInput F)
      → (to_composite_state (assess_closure inp)).physical_state ≡ (
          if not inp.physically_accessible
          then closed_physically
          else if inp.physical_capacity_ratio <= dec 2 1
          then capacity_constrained
          else open_physically)
  unfolding to_composite_state assess_closure assess_physical
  physical_composite inp = ground arith

  recovery_composite :
      (inp : ClosureInput F)
      → (to_composite_state (assess_closure inp)).recovery_state.is_backlog_active
        ≡ inp.recovery_backlog_active
  unfolding to_composite_state assess_closure assess_recovery has_code
  recovery_composite inp = ground arith

  -- The composite state of an assessment, by the input: the physical state by access and capacity;
  -- navigation and communications are `degraded` when untrusted, even where they are not there at
  -- all; insurance and carriers by the commercial conditions; the recovery phase by the backlog; and
  -- the effective state is the ladder's.
  to_composite_state-inputs :
      (inp : ClosureInput F)
      → let c = to_composite_state (assess_closure inp) in
        (c.physical_state ≡ (
          if not inp.physically_accessible
          then closed_physically
          else if inp.physical_capacity_ratio <= dec 2 1
          then capacity_constrained
          else open_physically))
        × (c.operational_state.navigation ≡ (
            if inp.navigation_trust << dec 5 1
            then "degraded"
            else if inp.navigation_available
            then "healthy"
            else "unavailable"))
        × (c.operational_state.communications ≡ (
            if inp.communications_trust << dec 5 1
            then "degraded"
            else if inp.communications_available
            then "healthy"
            else "unavailable"))
        × (c.commercial_state.insurance ≡ (if uninsurable inp then "uninsurable" else "available"))
        × (c.commercial_state.carrier_capacity
            ≡ (if no_carrier inp then "unavailable" else "available"))
        × (c.recovery_state.is_backlog_active ≡ inp.recovery_backlog_active)
        × (c.effective_state ≡ ladder inp)
  unfolding to_composite_state assess_closure
  to_composite_state-inputs inp = (
    physical_composite inp,
    rw (operational_codes inp, has_navigation_untrusted inp, has_navigation_unavailable inp)
        (ground arith),
    rw (operational_codes inp, has_communications_degraded inp, has_communications_unavailable inp)
        (ground arith),
    rw (commercial_codes inp, has_uninsurable inp),
    rw (commercial_codes inp, has_no_carrier inp),
    recovery_composite inp,
    assess_closure-ladder inp,
  )
