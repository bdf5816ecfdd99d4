-- ===== src/Reconcile.antt =====
-- reconcile.py: the declared state against the observed one. A check keeps the numbers that its
-- texts show; the identifier, the time and the summary line of a result are left out. The proofs
-- are in the modules below.
mod Severity
mod Compliance
mod Examples
use continuityos.Prelude.{
  ◌+◌, ℕ, ℤ, pos, ◌-ℤ◌, leb_ℤ, ltb_ℤ, String, str_append, str_eq, List, [], ◌∷◌, ◌++◌, Bool, true,
  false, Option, none, some, ltb, if◌then◌else◌,
}
use continuityos.Float.{Float, dec, ◌<=◌, ◌<<◌}

pub data ReconciliationStatus : Type 0 where
  compliant drift degraded fail unknown : ReconciliationStatus

-- A number in a check's texts: a count, or a measure in a unit.
pub data Quantity (F : Type 0) : Type 0 where
  whole : ℤ → Quantity F
  measure : F → String → Quantity F

module _ (F : Type 0) where
  pub record ReconciliationCheck : Type 0 where
    pub check_id : String
    pub description : String
    pub desired : Quantity F
    pub observed : Option (Quantity F)
    pub status : ReconciliationStatus
    pub deficit : Option (Quantity F)
    pub evidence_ids : List String

  pub record DesiredState : Type 0 where
    pub satcom_provider_count : Option ℤ
    pub fuel_reserve_days : Option F
    pub medical_reserve_days : Option F
    pub minimum_routes : Option ℤ
    pub minimum_continuity : Option F
    pub navigation_source_count : Option ℤ
    pub observation_source_count : Option ℤ
    pub minimum_trust_score : Option F
    pub custom_checks : List (String × F)

  pub record ActualState : Type 0 where
    pub satcom_provider_count : Option ℤ
    pub fuel_reserve_days : Option F
    pub medical_reserve_days : Option F
    pub route_count : Option ℤ
    pub overall_continuity : Option F
    pub navigation_source_count : Option ℤ
    pub observation_source_count : Option ℤ
    pub trust_scores : List (String × F)
    pub custom_values : List (String × F)

pub record ReconciliationResult (F : Type 0) : Type 0 where
  pub overall_status : ReconciliationStatus
  pub checks : List (ReconciliationCheck F)
  pub compliant_count : ℕ
  pub drift_count : ℕ
  pub degraded_count : ℕ
  pub fail_count : ℕ
  pub unknown_count : ℕ

-- `d.get(key)` of a dict, its items in a list.
unfoldable pub lookup : {V : Type 0} → String → List (String × V) → Option V
lookup key [] = none
lookup key ((k, v) ∷ d) = if str_eq k key then some v else lookup key d

abbrev pub is_status : ReconciliationStatus → ReconciliationStatus → Bool
is_status compliant compliant = true
is_status drift drift = true
is_status degraded degraded = true
is_status fail fail = true
is_status unknown unknown = true
is_status _ _ = false

-- `statuses.count(status)`
unfoldable pub count_status : {F : Type 0} → ReconciliationStatus → List (ReconciliationCheck F) → ℕ
count_status s [] = 0
count_status s (c ∷ cs) =
    let rest = count_status s cs in if is_status c.status s then rest + 1 else rest

-- The overall status, by the counts.
abbrev pub overall : ℕ → ℕ → ℕ → ℕ → ReconciliationStatus
overall fails degradeds drifts unknowns =
    if ltb 0 fails
    then fail
    else if ltb 0 degradeds
    then degraded
    else if ltb 0 drifts
    then drift
    else if ltb 0 unknowns
    then unknown
    else compliant

module _ {F : Type 0} ⦃fl : Float F⦄ where
  shortfall_status : F → ReconciliationStatus
  shortfall_status ratio =
      if dec 8 1 <= ratio then drift else if dec 5 1 <= ratio then degraded else fail

  unfoldable pub compare_int : String → String → ℤ → Option ℤ → ReconciliationCheck F
  unfolding shortfall_status
  compare_int check_id description desired none = record {
    check_id = check_id;
    description = description;
    desired = whole desired;
    observed = none;
    status = unknown;
    deficit = none;
    evidence_ids = [];
  }
  compare_int check_id description desired (some observed) =
      if leb_ℤ desired observed
      then record {
        check_id = check_id;
        description = description;
        desired = whole desired;
        observed = some (whole observed);
        status = compliant;
        deficit = none;
        evidence_ids = [];
      }
      else record {
        check_id = check_id;
        description = description;
        desired = whole desired;
        observed = some (whole observed);
        status = shortfall_status (
            if ltb_ℤ (pos 0) desired
            then fl.div (fl.of_int observed) (fl.of_int desired)
            else dec 0 1);
        deficit = some (whole (desired -ℤ observed));
        evidence_ids = [];
      }

  unfoldable pub compare_float : String → String → F → Option F → String → ReconciliationCheck F
  unfolding shortfall_status
  compare_float check_id description desired none unit = record {
    check_id = check_id;
    description = description;
    desired = measure desired unit;
    observed = none;
    status = unknown;
    deficit = none;
    evidence_ids = [];
  }
  compare_float check_id description desired (some observed) unit =
      if desired <= observed
      then record {
        check_id = check_id;
        description = description;
        desired = measure desired unit;
        observed = some (measure observed unit);
        status = compliant;
        deficit = none;
        evidence_ids = [];
      }
      else record {
        check_id = check_id;
        description = description;
        desired = measure desired unit;
        observed = some (measure observed unit);
        status = shortfall_status (if dec 0 1 << desired then fl.div observed desired else dec 0 1);
        deficit = some (measure (fl.sub desired observed) unit);
        evidence_ids = [];
      }

  -- A check is appended only if its requirement is declared.
  abbrev pub check_int : String → String → Option ℤ → Option ℤ → List (ReconciliationCheck F)
  check_int check_id description none observed = []
  check_int check_id description (some desired) observed =
      compare_int check_id description desired observed ∷ []

  abbrev pub check_float :
      String → String → Option F → Option F → String → List (ReconciliationCheck F)
  check_float check_id description none observed unit = []
  check_float check_id description (some desired) observed unit =
      compare_float check_id description desired observed unit ∷ []

  unfoldable pub check_custom : List (String × F) → List (String × F) → List (ReconciliationCheck F)
  check_custom [] values = []
  check_custom ((key, desired) ∷ rest) values =
      compare_float key (str_append "Custom check: " key) desired (lookup key values) ""
      ∷ check_custom rest values

  unfoldable pub checks_of : DesiredState F → ActualState F → List (ReconciliationCheck F)
  checks_of desired actual =
      check_int "SATCOM_PROVIDER_COUNT" "SATCOM providers must meet redundancy requirement"
        desired.satcom_provider_count actual.satcom_provider_count
      ++ (check_float "FUEL_RESERVE" "Fuel reserve must meet minimum days" desired.fuel_reserve_days
            actual.fuel_reserve_days "days"
          ++ (check_float "MEDICAL_RESERVE" "Medical reserve must meet minimum days"
                desired.medical_reserve_days actual.medical_reserve_days "days"
              ++ (check_int "ROUTE_COUNT" "Independent routes must meet minimum"
                    desired.minimum_routes actual.route_count
                  ++ (check_float "OVERALL_CONTINUITY" "Overall continuity must meet target"
                        desired.minimum_continuity actual.overall_continuity "ratio"
                      ++ (check_int "NAVIGATION_SOURCE_COUNT" "Navigation sources must meet minimum"
                            desired.navigation_source_count actual.navigation_source_count
                          ++ (check_int "OBSERVATION_SOURCE_COUNT"
                                "Observation sources must meet minimum"
                                desired.observation_source_count actual.observation_source_count
                              ++ check_custom desired.custom_checks actual.custom_values))))))

  unfoldable pub reconcile : DesiredState F → ActualState F → ReconciliationResult F
  reconcile desired actual =
      let checks = checks_of desired actual in
      record {
        overall_status =
            overall (count_status fail checks) (count_status degraded checks)
              (count_status drift checks) (count_status unknown checks);
        checks = checks;
        compliant_count = count_status compliant checks;
        drift_count = count_status drift checks;
        degraded_count = count_status degraded checks;
        fail_count = count_status fail checks;
        unknown_count = count_status unknown checks;
      }
