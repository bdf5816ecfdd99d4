-- ===== src/Recovery/Examples.antt =====
-- A port that recovers as recovery.py models it.
use continuityos.Prelude.{ℕ, [], ◌∷◌, ◌≤◌, ◌<◌, ◌≡◌, ◌↔◌, true, arith}
use continuityos.Float.Micro.{micro}
use continuityos.Recovery.{RecoveryProfile, t0_incident, model_recovery}
use continuityos.Recovery.Timeline.{Awaits, phase_factors, last_day, IsValid, milestones-Awaits}
use continuityos.Recovery.Health.{health_exact}

abbrev port : RecoveryProfile
port = record {
  resource_ref = "port/halifax";
  incident_description = "storm surge";
  physical_reopening_days = 5;
  communications_restoration_days = 3;
  port_backlog_days = 7;
  vessel_repositioning_days = 14;
  crew_availability_days = 14;
  carrier_return_days = 21;
  insurance_normalization_days = 30;
  supplier_restart_days = 21;
  inventory_replenishment_days = 45;
  equipment_availability_days = 10;
  warehouse_recovery_days = 14;
  production_restart_days = 21;
}

milestones-Awaits_example :
    Awaits 0 ((t0_incident, 0 ∷ []) ∷ phase_factors port) (model_recovery {F = ℕ} port 6).milestones
    × (last_day 0 (model_recovery {F = ℕ} port 6).milestones
        ≡ (model_recovery {F = ℕ} port 6).total_recovery_days)
milestones-Awaits_example = milestones-Awaits ℕ port 6

port-IsValid : IsValid port
port-IsValid = omega arith

health_exact_example :
    (((model_recovery {F = ℕ} port 6).is_healthy ≡ true)
      ↔ ((model_recovery {F = ℕ} port 6).total_recovery_days ≤ 6))
    × (((model_recovery {F = ℕ} port 6).reopened_but_not_healthy ≡ true)
        ↔ ((5 ≤ 6) × (6 < (model_recovery {F = ℕ} port 6).total_recovery_days)))
    × (12 ≤ (model_recovery {F = ℕ} port 6).total_recovery_days)
health_exact_example = health_exact ℕ port 6
