-- ===== src/Recovery/Health.antt =====
-- The phase and the health that recovery.py reports on a day.
use continuityos.Prelude.{arith, refl, ◌+◌, ℕ, ◌≤◌, ◌<◌, ◌≡◌, ◌↔◌, true, leb, if◌then◌else◌}
use continuityos.Float.{Float}
use continuityos.Recovery.{
  RecoveryProfile, RecoveryPhase, t0_incident, t1_physical_reopening, t2_commercial_normalization,
  t3_logistics_normalization, t4_inventory_replenishment, t5_full_restoration, t1_days, t2_days,
  t3_days, t4_days, t5_days, model_recovery,
}

-- The last phase whose day has come.
unfoldable pub phase_on : RecoveryProfile → ℕ → RecoveryPhase
phase_on p d =
    if leb (t5_days p) d
    then t5_full_restoration
    else if leb (t4_days p) d
    then t4_inventory_replenishment
    else if leb (t3_days p) d
    then t3_logistics_normalization
    else if leb (t2_days p) d
    then t2_commercial_normalization
    else if leb (t1_days p) d
    then t1_physical_reopening
    else t0_incident

module _ (F : Type 0) ⦃fl : Float F⦄ where
  -- The current phase is the last one whose day has come.
  current_phase-phase_on :
      (p : RecoveryProfile) (d : ℕ) → (model_recovery {F = F} p d).current_phase ≡ phase_on p d
  unfolding model_recovery phase_on
  current_phase-phase_on p d = ground arith

  -- A resource is healthy exactly from the last day of its recovery on; from its reopening until
  -- then it is reopened but not healthy, for a week at least.
  pub health_exact :
      (p : RecoveryProfile) (d : ℕ)
      → let t = model_recovery {F = F} p d in
        ((t.is_healthy ≡ true) ↔ (t.total_recovery_days ≤ d))
        × ((t.reopened_but_not_healthy ≡ true)
            ↔ ((p.physical_reopening_days ≤ d) × (d < t.total_recovery_days)))
        × (p.physical_reopening_days + 7 ≤ t.total_recovery_days)
  unfolding model_recovery
  health_exact p d =
      ((λ h. ground arith, λ h. ground arith), (λ h. ground arith, λ h. ground arith), omega arith)

  -- The recovery of communications, however long, moves neither the milestones nor the phase, the
  -- health or the progress.
  communications_ignored :
      (p : RecoveryProfile) (d days : ℕ)
      → let q = record p { communications_restoration_days = days } in
        ((model_recovery {F = F} q d).milestones ≡ (model_recovery {F = F} p d).milestones)
        × ((model_recovery {F = F} q d).current_phase ≡ (model_recovery {F = F} p d).current_phase)
        × ((model_recovery {F = F} q d).is_healthy ≡ (model_recovery {F = F} p d).is_healthy)
        × ((model_recovery {F = F} q d).recovery_progress
            ≡ (model_recovery {F = F} p d).recovery_progress)
  unfolding model_recovery
  communications_ignored p d days = (refl, refl, refl, refl)
