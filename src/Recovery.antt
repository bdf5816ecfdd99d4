-- ===== src/Recovery.antt =====
-- recovery.py: the timeline from an incident to full restoration. Durations and the days since the
-- incident are natural numbers. The identifier of a timeline and its summary line are left out, and
-- `bottleneck` is the pair that its text shows. The proofs are in the modules below.
mod Timeline
mod Health
mod Examples
use Prim.Native.Nat.{max}
use continuityos.Prelude.{
  pos, ℕ, zero, ◌+◌, ◌-◌, String, List, [], ◌∷◌, Bool, true, false, not, ◌&&◌, ◌||◌, ltb, leb,
  if◌then◌else◌,
}
use continuityos.Float.{Float, dec, minimum}

pub data RecoveryPhase : Type 0 where
  t0_incident t1_physical_reopening t2_commercial_normalization : RecoveryPhase
  t3_logistics_normalization t4_inventory_replenishment t5_full_restoration : RecoveryPhase

pub record RecoveryMilestone (F : Type 0) : Type 0 where
  pub phase : RecoveryPhase
  pub description : String
  pub estimated_days : ℕ
  pub dependencies : List String
  pub confidence : F

pub record RecoveryProfile : Type 0 where
  pub resource_ref : String
  pub incident_description : String
  pub physical_reopening_days : ℕ
  pub communications_restoration_days : ℕ
  pub port_backlog_days : ℕ
  pub vessel_repositioning_days : ℕ
  pub crew_availability_days : ℕ
  pub carrier_return_days : ℕ
  pub insurance_normalization_days : ℕ
  pub supplier_restart_days : ℕ
  pub inventory_replenishment_days : ℕ
  pub equipment_availability_days : ℕ
  pub warehouse_recovery_days : ℕ
  pub production_restart_days : ℕ

pub record RecoveryTimeline (F : Type 0) : Type 0 where
  pub resource_ref : String
  pub incident_description : String
  pub milestones : List (RecoveryMilestone F)
  pub total_recovery_days : ℕ
  pub current_phase : RecoveryPhase
  pub recovery_progress : F
  pub bottleneck : RecoveryPhase × ℕ
  pub is_healthy : Bool
  pub reopened_but_not_healthy : Bool
  pub independent_factors : List (String × ℕ)

-- The days at which the phases end.
abbrev pub t1_days : RecoveryProfile → ℕ
t1_days profile = profile.physical_reopening_days

abbrev pub t2_days : RecoveryProfile → ℕ
t2_days profile =
    t1_days profile + max profile.insurance_normalization_days profile.carrier_return_days

abbrev pub t3_days : RecoveryProfile → ℕ
t3_days profile =
    t2_days profile
    + max
        (max (max profile.vessel_repositioning_days profile.port_backlog_days)
          profile.crew_availability_days)
        profile.equipment_availability_days

abbrev pub t4_days : RecoveryProfile → ℕ
t4_days profile =
    t3_days profile
    + max
        (max (max profile.inventory_replenishment_days profile.warehouse_recovery_days)
          profile.supplier_restart_days)
        profile.production_restart_days

abbrev pub t5_days : RecoveryProfile → ℕ
t5_days profile = t4_days profile + 7

abbrev pub is_full_restoration : RecoveryPhase → Bool
is_full_restoration t5_full_restoration = true
is_full_restoration _ = false

-- `max(pairs, key=...)`: the first pair with the largest number.
unfoldable pub longest : RecoveryPhase × ℕ → List (RecoveryPhase × ℕ) → RecoveryPhase × ℕ
longest best [] = best
longest best (p ∷ ps) = longest (if ltb best.1 p.1 then p else best) ps

abbrev pub phase_durations : RecoveryProfile → List (RecoveryPhase × ℕ)
phase_durations profile =
    (t2_commercial_normalization, t2_days profile - t1_days profile)
    ∷ (t3_logistics_normalization, t3_days profile - t2_days profile)
    ∷ (t4_inventory_replenishment, t4_days profile - t3_days profile)
    ∷ []

abbrev independent_factors : RecoveryProfile → List (String × ℕ)
independent_factors p =
    ("physical_reopening_days", p.physical_reopening_days)
    ∷ ("communications_restoration_days", p.communications_restoration_days)
    ∷ ("insurance_normalization_days", p.insurance_normalization_days)
    ∷ ("carrier_return_days", p.carrier_return_days)
    ∷ ("port_backlog_days", p.port_backlog_days)
    ∷ ("vessel_repositioning_days", p.vessel_repositioning_days)
    ∷ ("crew_availability_days", p.crew_availability_days)
    ∷ ("supplier_restart_days", p.supplier_restart_days)
    ∷ ("warehouse_recovery_days", p.warehouse_recovery_days)
    ∷ ("inventory_replenishment_days", p.inventory_replenishment_days)
    ∷ ("production_restart_days", p.production_restart_days)
    ∷ []

module _ {F : Type 0} ⦃fl : Float F⦄ where
  unfoldable pub milestones_of : RecoveryProfile → List (RecoveryMilestone F)
  milestones_of profile =
      record {
        phase = t0_incident;
        description = profile.incident_description;
        estimated_days = 0;
        dependencies = [];
        confidence = dec 10 1;
      }
      ∷ record {
        phase = t1_physical_reopening;
        description = "Physical infrastructure reopened or restored";
        estimated_days = t1_days profile;
        dependencies = "physical_access" ∷ "safety_clearance" ∷ [];
        confidence = dec 8 1;
      }
      ∷ record {
        phase = t2_commercial_normalization;
        description = "Insurance coverage restored, carriers return to service";
        estimated_days = t2_days profile;
        dependencies = "insurance_underwriting" ∷ "carrier_contracts" ∷ "market_confidence" ∷ [];
        confidence = dec 6 1;
      }
      ∷ record {
        phase = t3_logistics_normalization;
        description = "Vessels repositioned, crew sourced, port backlog cleared, schedules resume";
        estimated_days = t3_days profile;
        dependencies =
            "vessel_repositioning" ∷ "crew_availability" ∷ "port_backlog_clearance"
            ∷ "schedule_normalization" ∷ "equipment_restoration" ∷ [];
        confidence = dec 5 1;
      }
      ∷ record {
        phase = t4_inventory_replenishment;
        description =
            "Strategic reserves rebuilt to policy-required levels and suppliers restarted";
        estimated_days = t4_days profile;
        dependencies =
            "supply_flow" ∷ "supplier_restart" ∷ "warehouse_capacity" ∷ "production_capacity" ∷ [];
        confidence = dec 4 1;
      }
      ∷ record {
        phase = t5_full_restoration;
        description = "All resilience policies met, full operational confidence restored";
        estimated_days = t5_days profile;
        dependencies = "policy_compliance" ∷ "operational_confidence" ∷ [];
        confidence = dec 35 2;
      }
      ∷ []

  -- The loop over the milestones: the last one that the days have reached.
  unfoldable pub phase_reached : ℕ → RecoveryPhase → List (RecoveryMilestone F) → RecoveryPhase
  phase_reached days current [] = current
  phase_reached days current (ms ∷ rest) =
      phase_reached days (if leb ms.estimated_days days then ms.phase else current) rest

  unfoldable pub model_recovery : RecoveryProfile → ℕ → RecoveryTimeline F
  unfolding milestones_of phase_reached longest
  model_recovery profile days_since_incident =
      let milestones = milestones_of profile in
      let total_days = t5_days profile in
      let current = phase_reached days_since_incident t0_incident milestones in
      let healthy = is_full_restoration current || leb total_days days_since_incident in
      record {
        resource_ref = profile.resource_ref;
        incident_description = profile.incident_description;
        milestones = milestones;
        total_recovery_days = total_days;
        current_phase = current;
        recovery_progress =
            fl.round
              (if ltb 0 total_days
                then minimum (dec 10 1)
                    (fl.div (fl.of_int (pos days_since_incident)) (fl.of_int (pos total_days)))
                else dec 0 1)
              6;
        bottleneck = longest (t1_physical_reopening, t1_days profile) (phase_durations profile);
        is_healthy = healthy;
        reopened_but_not_healthy = leb (t1_days profile) days_since_incident && not healthy;
        independent_factors = independent_factors profile;
      }
