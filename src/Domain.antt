-- ===== src/Domain.antt =====
-- domain.py: the enumerations that several components share, and a position.
use continuityos.Prelude.{ℕ, String, Bool, List}

pub data DataClassification : Type 0 where
  public internal unclassified protected_a protected_b protected_c : DataClassification
  restricted confidential secret top_secret cosmic_top_secret : DataClassification

pub data CorridorState : Type 0 where
  open_corridor open_degraded open_capacity_constrained open_but_uninsurable : CorridorState
  open_but_no_carrier_capacity open_but_navigation_untrusted : CorridorState
  open_but_communications_degraded open_but_service_dependent : CorridorState
  recovery_backlogged functionally_closed physically_closed unknown : CorridorState

pub data PhysicalStateEnum : Type 0 where
  open_physically capacity_constrained closed_physically unknown_physically : PhysicalStateEnum

pub data RecoveryStateEnum : Type 0 where
  normal incident_t0 physical_reopened_t1 commercial_normalized_t2 : RecoveryStateEnum
  logistics_normalized_t3 inventory_replenished_t4 full_restoration_t5 : RecoveryStateEnum
  backlog_active : RecoveryStateEnum

pub record OperationalState : Type 0 where
  pub navigation : String
  pub communications : String
  pub escort_service : String
  pub weather_clearance : String

module _ (F : Type 0) where
  pub record CommercialState : Type 0 where
    pub carrier_capacity : String
    pub insurance : String
    pub commercial_viability : F

  pub record DigitalTrustState : Type 0 where
    pub navigation_integrity : F
    pub communications_integrity : F
    pub cyber_integrity : F
    pub data_integrity : F

pub record RecoveryState : Type 0 where
  pub phase : RecoveryStateEnum
  pub is_backlog_active : Bool
  pub days_elapsed : ℕ
  pub estimated_full_restoration_days : ℕ

pub record EffectiveCorridorState (F : Type 0) : Type 0 where
  pub physical_state : PhysicalStateEnum
  pub operational_state : OperationalState
  pub commercial_state : CommercialState F
  pub digital_trust_state : DigitalTrustState F
  pub recovery_state : RecoveryState
  pub effective_state : CorridorState
  pub reason_codes : List String

-- The property `DataClassification.level`.
unfoldable pub level : DataClassification → ℕ
level public = 0
level unclassified = 0
level internal = 1
level protected_a = 1
level protected_b = 2
level restricted = 2
level protected_c = 3
level confidential = 3
level secret = 4
level top_secret = 5
level cosmic_top_secret = 6

pub record GeoPoint (F : Type 0) : Type 0 where
  pub latitude : F
  pub longitude : F
