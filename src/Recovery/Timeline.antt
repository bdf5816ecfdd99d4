-- ===== src/Recovery/Timeline.antt =====
-- The order and the size of a recovery timeline of recovery.py.
use continuityos.Prelude.{
  ltb→lt, if◌then◌else◌, ap, sym, refl, inr, ltb, Bool-cases, inl, All, Any, arith, ℕ, ◌+◌, ◌≤◌,
  ◌⊎◌, List, [], ◌∷◌, ◌≡◌,
}
use continuityos.Float.{Float}
use Prim.Native.Nat.{max}
use native.Mathlib.Decide.{dec_lt}
use continuityos.Recovery.{
  t5_full_restoration, t4_inventory_replenishment, t3_logistics_normalization,
  t2_commercial_normalization, t1_physical_reopening, t0_incident, RecoveryMilestone,
  RecoveryProfile, RecoveryPhase, t1_days, t2_days, t3_days, t4_days, model_recovery, longest,
  phase_durations,
}

-- The ranges that `RecoveryProfile` declares for its fields.
pub record IsValid (p : RecoveryProfile) : Type 0 where
  pub physical_reopening : p.physical_reopening_days ≤ 365
  pub port_backlog : p.port_backlog_days ≤ 365
  pub vessel_repositioning : p.vessel_repositioning_days ≤ 365
  pub crew_availability : p.crew_availability_days ≤ 365
  pub carrier_return : p.carrier_return_days ≤ 365
  pub insurance_normalization : p.insurance_normalization_days ≤ 365
  pub supplier_restart : p.supplier_restart_days ≤ 365
  pub inventory_replenishment : p.inventory_replenishment_days ≤ 365
  pub equipment_availability : p.equipment_availability_days ≤ 365
  pub warehouse_recovery : p.warehouse_recovery_days ≤ 365
  pub production_restart : p.production_restart_days ≤ 365

-- A phase that starts on one day ends on another when its slowest factor is done.
abbrev pub IsSlowest : ℕ → List ℕ → ℕ → Type 0
IsSlowest from factors day = All (λ f. from + f ≤ day) factors × Any (λ f. day ≡ from + f) factors

-- The milestones end these phases one after the other, each with its slowest factor.
abbrev pub Awaits :
    {F : Type 0} → ℕ → List (RecoveryPhase × List ℕ) → List (RecoveryMilestone F) → Type 0
Awaits from [] [] = Unit
Awaits from ((ph, factors) ∷ stages) (ms ∷ rest) =
    (ms.phase ≡ ph)
    × IsSlowest from factors ms.estimated_days
    × Awaits ms.estimated_days stages rest
Awaits from _ _ = ⊥

-- The phases after the incident with the durations that each of them waits for.
abbrev pub phase_factors : RecoveryProfile → List (RecoveryPhase × List ℕ)
phase_factors p =
    (t1_physical_reopening, p.physical_reopening_days ∷ [])
    ∷ (t2_commercial_normalization, p.insurance_normalization_days ∷ p.carrier_return_days ∷ [])
    ∷ (
      t3_logistics_normalization,
      p.vessel_repositioning_days ∷ p.port_backlog_days ∷ p.crew_availability_days
          ∷ p.equipment_availability_days ∷ [],
    )
    ∷ (
      t4_inventory_replenishment,
      p.inventory_replenishment_days ∷ p.warehouse_recovery_days ∷ p.supplier_restart_days
          ∷ p.production_restart_days ∷ [],
    )
    ∷ (t5_full_restoration, 7 ∷ [])
    ∷ []

max-cases : (a b : ℕ) → ((max a b ≡ a) × (b ≤ a)) ⊎ ((max a b ≡ b) × (a ≤ b))
max-cases a b = elim (dec_lt a b) [
  | yes h ↦ inr (omega arith, omega arith)
  | no h ↦ inl (omega arith, omega arith)
]

IsSlowest-one : (from a : ℕ) → IsSlowest from (a ∷ []) (from + a)
IsSlowest-one from a = ((omega arith, tt), inl refl)

IsSlowest-two : (from a b : ℕ) → IsSlowest from (a ∷ b ∷ []) (from + max a b)
IsSlowest-two from a b = elim (max-cases a b) [
  | inl (e, le) ↦ ((omega (arith, e), (omega (arith, e), tt)), inl (omega (arith, e)))
  | inr (e, le) ↦ ((omega (arith, e), (omega (arith, e), tt)), inr (inl (omega (arith, e))))
]

-- One factor more.
IsSlowest-max :
    (from a b x : ℕ)
    → IsSlowest from (a ∷ b ∷ []) (from + max a b)
    → IsSlowest from (a ∷ b ∷ x ∷ []) (from + max (max a b) x)
IsSlowest-max from a b x ((p, (q, _)), m) = elim (max-cases (max a b) x) [
  | inl (e, le) ↦ (
    (omega (arith, e, p), (omega (arith, e, q), (omega (arith, e), tt))),
    elim m [
      | inl h ↦ inl (omega (arith, e, h))
      | inr (inl h) ↦ inr (inl (omega (arith, e, h)))
      | inr (inr h) ↦ absurd h
    ],
  )
  | inr (e, le) ↦ (
    (omega (arith, e, p), (omega (arith, e, q), (omega (arith, e), tt))),
    inr (inr (inl (omega (arith, e)))),
  )
]

IsSlowest-four :
    (from a b x y : ℕ) → IsSlowest from (a ∷ b ∷ x ∷ y ∷ []) (from + max (max (max a b) x) y)
IsSlowest-four from a b x y =
    let ((p, (q, (r, _))), m) = IsSlowest-max from a b x (IsSlowest-two from a b) in
    elim (max-cases (max (max a b) x) y) [
      | inl (e, le) ↦ (
        (omega (arith, e, p), (omega (arith, e, q), (omega (arith, e, r), (omega (arith, e), tt)))),
        elim m [
          | inl h ↦ inl (omega (arith, e, h))
          | inr (inl h) ↦ inr (inl (omega (arith, e, h)))
          | inr (inr (inl h)) ↦ inr (inr (inl (omega (arith, e, h))))
          | inr (inr (inr h)) ↦ absurd h
        ],
      )
      | inr (e, le) ↦ (
        (omega (arith, e, p), (omega (arith, e, q), (omega (arith, e, r), (omega (arith, e), tt)))),
        inr (inr (inr (inl (omega (arith, e))))),
      )
    ]

abbrev pub last_day : {F : Type 0} → ℕ → List (RecoveryMilestone F) → ℕ
last_day day [] = day
last_day day (ms ∷ rest) = last_day ms.estimated_days rest

Any-skip :
    {A : Type 0} (P : A → Type 0) (x y : A) (xs : List A) → Any P (x ∷ xs) → Any P (x ∷ y ∷ xs)
Any-skip P x y xs (inl h) = inl h
Any-skip P x y xs (inr h) = inr (inr h)

-- The longest pair is one of the pairs, and no pair is longer.
longest_lem :
    (best r : RecoveryPhase × ℕ) (ps : List (RecoveryPhase × ℕ))
    → longest best ps ≡ r
    → Any (λ q. r ≡ q) (best ∷ ps) × All (λ q. q.1 ≤ r.1) (best ∷ ps)
unfolding longest
longest_lem best r [] h = (inl (sym h), (omega (arith, ap (λ (q : RecoveryPhase × ℕ). q.1) h), tt))
longest_lem best r (p ∷ ps) h = elim (Bool-cases (ltb best.1 p.1)) [
  | inl e ↦
      let ih = longest_lem p r ps (rw (e, if◌then◌else◌) at h) in
      (inr ih.0, (omega (arith, ih.1.0, ltb→lt best.1 p.1 e), ih.1))
  | inr e ↦
      let ih = longest_lem best r ps (rw (e, if◌then◌else◌) at h) in
      (Any-skip _ best p ps ih.0, (ih.1.0, (ground (arith, ih.1.0), ih.1.1)))
]

module _ (F : Type 0) ⦃fl : Float F⦄ where
  -- The first milestone of a timeline is the incident on day 0; each later one ends its phase on the
  -- day that the slowest factor of the phase takes, counted from the milestone before, no factor of
  -- the phase taking longer; and the last, a week after the one before it, is the full recovery.
  pub milestones-Awaits :
      (p : RecoveryProfile) (d : ℕ)
      → Awaits 0 ((t0_incident, 0 ∷ []) ∷ phase_factors p) (model_recovery {F = F} p d).milestones
        × (last_day 0 (model_recovery {F = F} p d).milestones
            ≡ (model_recovery {F = F} p d).total_recovery_days)
  unfolding model_recovery
  milestones-Awaits p d = (
    (
      refl,
      ((omega arith, tt), inl (omega arith)),
      (
        refl,
        ((omega arith, tt), inl (omega arith)),
        (
          refl,
          IsSlowest-two (t1_days p) p.insurance_normalization_days p.carrier_return_days,
          (
            refl,
            IsSlowest-four (t2_days p) p.vessel_repositioning_days p.port_backlog_days
                p.crew_availability_days p.equipment_availability_days,
            (
              refl,
              IsSlowest-four (t3_days p) p.inventory_replenishment_days p.warehouse_recovery_days
                  p.supplier_restart_days p.production_restart_days,
              (refl, IsSlowest-one (t4_days p) 7, tt),
            ),
          ),
        ),
      ),
    ),
    refl,
  )

  -- With the profile's fields in their declared ranges every milestone lies within 1467 days, so the
  -- bound of 3650 days on a milestone's field is never met.
  milestones_bounded :
      (p : RecoveryProfile) (d : ℕ)
      → IsValid p
      → All (λ ms. ms.estimated_days ≤ 1467) (model_recovery {F = F} p d).milestones
        × ((model_recovery {F = F} p d).total_recovery_days ≤ 1467)
  unfolding model_recovery
  milestones_bounded p d v = (omega arith, omega arith)

  -- The bottleneck is one of the four phase transitions, and none of them takes longer.
  bottleneck_longest :
      (p : RecoveryProfile) (d : ℕ)
      → let b = (model_recovery {F = F} p d).bottleneck in
        Any (λ q. b ≡ q) ((t1_physical_reopening, t1_days p) ∷ phase_durations p)
        × All (λ q. q.1 ≤ b.1) ((t1_physical_reopening, t1_days p) ∷ phase_durations p)
  unfolding model_recovery
  bottleneck_longest p d = longest_lem (t1_physical_reopening, t1_days p) _ (phase_durations p) refl
