-- ===== src/Closure/Layers.antt =====
-- closure.py: the five layers of a closure and what each of them is assessed as.
use continuityos.Prelude.{
  ℕ, String, str_eq, List, [], ◌∷◌, ◌++◌, Bool, true, false, not, ◌&&◌, ◌||◌, ltb, any, when,
  if◌then◌else◌,
}
use continuityos.Float.{Float, dec, ◌<=◌, ◌<<◌}

pub data LayerState : Type 0 where
  available degraded unavailable unknown : LayerState

abbrev pub is_degraded : LayerState → Bool
is_degraded degraded = true
is_degraded _ = false

abbrev pub is_unavailable : LayerState → Bool
is_unavailable unavailable = true
is_unavailable _ = false

abbrev pub is_unknown : LayerState → Bool
is_unknown unknown = true
is_unknown _ = false

module _ (F : Type 0) where
  pub record ClosureLayer : Type 0 where
    pub layer : String
    pub state : LayerState
    pub confidence : F
    pub reason_codes : List String
    pub supporting_evidence : List String

  pub record ClosureInput : Type 0 where
    pub resource_ref : String
    pub physically_accessible : Bool
    pub physical_capacity_ratio : F
    pub navigation_available : Bool
    pub navigation_trust : F
    pub communications_available : Bool
    pub communications_trust : F
    pub escort_available : Bool
    pub escort_dependent : Bool
    pub weather_safe : Bool
    pub insurance_available : Bool
    pub insurance_coverage : F
    pub carrier_capacity_available : Bool
    pub carrier_capacity_ratio : F
    pub commercial_viability : F
    pub data_integrity : F
    pub observation_confidence : F
    pub source_diversity : ℕ
    pub recovery_backlog_active : Bool
    pub policy_violations : List String
    pub dependency_trace : List String
    pub evidence_refs : List String

-- `code in reasons`
unfoldable pub has_code : String → List String → Bool
has_code code reasons = any (λ r. str_eq r code) reasons

abbrev pub is_nonempty : List String → Bool
is_nonempty [] = false
is_nonempty (r ∷ rs) = true

module _ {F : Type 0} ⦃fl : Float F⦄ where
  pub make_layer : String → LayerState → F → List String → ClosureLayer F
  make_layer name state confidence reasons = record {
    layer = name;
    state = state;
    confidence = confidence;
    reason_codes = reasons;
    supporting_evidence = [];
  }

  unfoldable pub assess_physical : ClosureInput F → ClosureLayer F
  unfolding make_layer
  assess_physical inp =
      if not inp.physically_accessible
      then make_layer "physical" unavailable (dec 95 2) ("physically_inaccessible" ∷ [])
      else if inp.physical_capacity_ratio <= dec 2 1
      then make_layer "physical" degraded (dec 85 2) ("physical_capacity_severely_constrained" ∷ [])
      else make_layer "physical" available (dec 9 1) []

  unfoldable pub operational_reasons : ClosureInput F → List String
  operational_reasons inp =
      when (not inp.navigation_available) "navigation_unavailable"
      ++ (when (inp.navigation_trust << dec 5 1) "navigation_untrusted"
          ++ (when (not inp.communications_available) "communications_unavailable"
              ++ (when (inp.communications_trust << dec 5 1) "communications_degraded"
                  ++ (when (not inp.escort_available) "escort_unavailable"
                      ++ (when (inp.escort_dependent && not inp.escort_available)
                            "service_dependent"
                          ++ when (not inp.weather_safe) "weather_unsafe")))))

  unfoldable pub assess_operational : ClosureInput F → ClosureLayer F
  unfolding make_layer
  assess_operational inp =
      let reasons = operational_reasons inp in
      if not inp.navigation_available || not inp.communications_available
      then make_layer "operational" unavailable (dec 9 1) reasons
      else if is_nonempty reasons
      then make_layer "operational" degraded (dec 8 1) reasons
      else make_layer "operational" available (dec 9 1) []

  unfoldable pub commercial_reasons : ClosureInput F → List String
  commercial_reasons inp =
      when (not inp.insurance_available || (inp.insurance_coverage <= dec 1 1)) "uninsurable"
      ++ (when (not inp.carrier_capacity_available || (inp.carrier_capacity_ratio <= dec 1 1))
            "no_carrier_capacity"
          ++ when (inp.commercial_viability <= dec 2 1) "commercially_unviable")

  unfoldable pub assess_commercial : ClosureInput F → ClosureLayer F
  unfolding make_layer
  assess_commercial inp =
      let reasons = commercial_reasons inp in
      if has_code "uninsurable" reasons && has_code "no_carrier_capacity" reasons
      then make_layer "commercial" unavailable (dec 85 2) reasons
      else if is_nonempty reasons
      then make_layer "commercial" degraded (dec 8 1) reasons
      else make_layer "commercial" available (dec 85 2) []

  unfoldable pub trust_reasons : ClosureInput F → List String
  trust_reasons inp =
      when (inp.data_integrity << dec 5 1) "data_integrity_low"
      ++ (when (inp.observation_confidence << dec 5 1) "observation_confidence_low"
          ++ when (ltb inp.source_diversity 2) "insufficient_source_diversity")

  unfoldable pub assess_trust : ClosureInput F → ClosureLayer F
  unfolding make_layer
  assess_trust inp =
      let reasons = trust_reasons inp in
      if (inp.data_integrity << dec 3 1) || (inp.observation_confidence << dec 3 1)
      then make_layer "trust" unavailable (dec 7 1) reasons
      else if is_nonempty reasons
      then make_layer "trust" degraded (dec 75 2) reasons
      else make_layer "trust" available (dec 85 2) []

  unfoldable pub assess_recovery : ClosureInput F → ClosureLayer F
  unfolding make_layer
  assess_recovery inp =
      if inp.recovery_backlog_active
      then make_layer "recovery" degraded (dec 85 2) ("recovery_backlogged" ∷ [])
      else make_layer "recovery" available (dec 95 2) []
  -- Every caller passes the recovery layer, so its test against `None` always passes.
