-- ===== src/Reconcile/Severity.antt =====
-- The overall status of reconcile.py against the statuses of its checks.
use continuityos.Prelude.{
  ℕ, ◌+◌, ◌≤◌, ◌<◌, ◌≡◌, ◌⊎◌, inl, inr, refl, List, [], ◌∷◌, Any, All, length, arith,
}
use continuityos.Float.{Float}
use continuityos.Reconcile.{
  ReconciliationStatus, compliant, drift, degraded, fail, unknown, ReconciliationCheck,
  DesiredState, ActualState, count_status, overall, checks_of, reconcile,
}

-- How bad a status is.
abbrev pub rank : ReconciliationStatus → ℕ
rank compliant = 0
rank unknown = 1
rank drift = 2
rank degraded = 3
rank fail = 4

module _ {F : Type 0} where
  -- Every check has one of the five statuses.
  count_total :
      (cs : List (ReconciliationCheck F))
      → count_status compliant cs
          + count_status drift cs
          + count_status degraded cs
          + count_status fail cs
          + count_status unknown cs
        ≡ length cs
  unfolding count_status
  count_total [] = omega arith
  count_total (c ∷ cs) = ground (arith, count_total cs)

  -- A status is counted if some check has it.
  count-Any :
      (s : ReconciliationStatus) (cs : List (ReconciliationCheck F))
      → 0 < count_status s cs
      → Any (λ c. c.status ≡ s) cs
  unfolding count_status
  count-Any s [] h = absurd (omega arith)
  count-Any s (c ∷ cs) h = ground (arith, count-Any s cs)

  count-All :
      (n : ℕ) (cs : List (ReconciliationCheck F))
      → ((s : ReconciliationStatus) → n < rank s → count_status s cs ≡ 0)
      → All (λ c. rank c.status ≤ n) cs
  unfolding count_status
  count-All n [] h = tt
  count-All n (c ∷ cs) h =
      (ground (arith, h c.status), count-All n cs (λ s lt. ground (arith, h s lt)))

  -- The status that the code takes from the counts of a list.
  overall_of : List (ReconciliationCheck F) → ReconciliationStatus
  overall_of cs =
      overall (count_status fail cs) (count_status degraded cs) (count_status drift cs)
        (count_status unknown cs)

  overall_of-max :
      (cs : List (ReconciliationCheck F)) (s : ReconciliationStatus)
      → rank (overall_of cs) < rank s
      → count_status s cs ≡ 0
  unfolding overall_of
  overall_of-max cs compliant h = absurd (omega arith)
  overall_of-max cs unknown h = ground arith
  overall_of-max cs drift h = ground arith
  overall_of-max cs degraded h = ground arith
  overall_of-max cs fail h = ground arith

  overall_of-Any :
      (cs : List (ReconciliationCheck F)) (o : ReconciliationStatus)
      → overall_of cs ≡ o
      → (o ≡ compliant) ⊎ Any (λ c. c.status ≡ o) cs
  unfolding overall_of
  overall_of-Any cs compliant e = inl refl
  overall_of-Any cs unknown e = inr (count-Any unknown cs (ground arith))
  overall_of-Any cs drift e = inr (count-Any drift cs (ground arith))
  overall_of-Any cs degraded e = inr (count-Any degraded cs (ground arith))
  overall_of-Any cs fail e = inr (count-Any fail cs (ground arith))

module _ {F : Type 0} ⦃fl : Float F⦄ where
  -- The overall status is the worst of the checks': no check is worse, and it is compliant or the
  -- status of some check; and the five counts add up to the number of checks.
  pub reconcile_worst :
      (desired : DesiredState F) (actual : ActualState F)
      → let r = reconcile desired actual in
        All (λ c. rank c.status ≤ rank r.overall_status) r.checks
        × ((r.overall_status ≡ compliant) ⊎ Any (λ c. c.status ≡ r.overall_status) r.checks)
        × (r.compliant_count + r.drift_count + r.degraded_count + r.fail_count + r.unknown_count
            ≡ length r.checks)
  unfolding reconcile
  reconcile_worst desired actual =
      unfold overall_of in
      let cs = checks_of desired actual in
      (
        count-All (rank (overall_of cs)) cs (overall_of-max cs),
        overall_of-Any cs (overall_of cs) refl,
        count_total cs,
      )
