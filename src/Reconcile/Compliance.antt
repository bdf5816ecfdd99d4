-- ===== src/Reconcile/Compliance.antt =====
-- What a compliant result of reconcile.py means for the requirements that were declared.
use continuityos.Prelude.{
  ◌≤◌, All-append, All-map, Any-All, inl, inr, sym, ap, ◌∙◌, true, ℤ, ◌≤ℤ◌, String, ◌≡◌, ◌↔◌, refl,
  Option, none, some, List, [], ◌∷◌, All, arith,
}
use continuityos.Float.{Float, ◌<=◌}
use continuityos.Reconcile.{
  compliant, ReconciliationCheck, DesiredState, ActualState, lookup, check_int, check_float,
  compare_int, compare_float, check_custom, checks_of, reconcile,
}
use continuityos.Reconcile.Severity.{rank, reconcile_worst}

-- A declared number of things was observed, and is reached; a declared measure likewise.
abbrev pub MetInt : Option ℤ → Option ℤ → Type 0
MetInt none observed = Unit
MetInt (some desired) none = ⊥
MetInt (some desired) (some observed) = desired ≤ℤ observed

module _ {F : Type 0} ⦃fl : Float F⦄ where
  abbrev pub MetFloat : Option F → Option F → Type 0
  MetFloat none observed = Unit
  MetFloat (some desired) none = ⊥
  MetFloat (some desired) (some observed) = (desired <= observed) ≡ true

  abbrev pub MetCustom : List (String × F) → List (String × F) → Type 0
  MetCustom [] values = Unit
  MetCustom ((key, desired) ∷ rest) values =
      MetFloat (some desired) (lookup key values) × MetCustom rest values

  abbrev pub Compliant : List (ReconciliationCheck F) → Type 0
  Compliant = All (λ c. c.status ≡ compliant)

  -- Every requirement that reconcile.py checks is met.
  pub record IsMet (d : DesiredState F) (a : ActualState F) : Type 0 where
    pub satcom : MetInt d.satcom_provider_count a.satcom_provider_count
    pub fuel : MetFloat d.fuel_reserve_days a.fuel_reserve_days
    pub medical : MetFloat d.medical_reserve_days a.medical_reserve_days
    pub routes : MetInt d.minimum_routes a.route_count
    pub continuity : MetFloat d.minimum_continuity a.overall_continuity
    pub navigation : MetInt d.navigation_source_count a.navigation_source_count
    pub observation : MetInt d.observation_source_count a.observation_source_count
    pub custom : MetCustom d.custom_checks a.custom_values

  compare_float_iff :
      (i t u : String) (d : F) (o : Option F)
      → ((compare_float i t d o u).status ≡ compliant) ↔ MetFloat (some d) o
  unfolding compare_float
  compare_float_iff i t u d none = (λ h. ground arith, λ h. absurd h)
  compare_float_iff i t u d (some o) = (λ h. ground arith, λ h. ground arith)

  check_float_iff :
      (i t u : String) (d o : Option F) → Compliant (check_float i t d o u) ↔ MetFloat d o
  check_float_iff i t u none o = (λ h. tt, λ h. tt)
  check_float_iff i t u (some d) o =
      (λ h. (compare_float_iff i t u d o).0 h.0, λ h. ((compare_float_iff i t u d o).1 h, tt))

  check_custom_iff : (d a : List (String × F)) → Compliant (check_custom d a) ↔ MetCustom d a
  unfolding check_custom
  check_custom_iff [] a = (λ h. tt, λ h. tt)
  check_custom_iff ((k, d) ∷ rest) a = (
    λ h. ((compare_float_iff _ _ _ d (lookup k a)).0 h.0, (check_custom_iff rest a).0 h.1),
    λ h. ((compare_float_iff _ _ _ d (lookup k a)).1 h.0, (check_custom_iff rest a).1 h.1),
  )

module _ (F : Type 0) ⦃fl : Float F⦄ where
  check_int_iff :
      (i t : String) (d o : Option ℤ) → Compliant (check_int {F = F} i t d o) ↔ MetInt d o
  unfolding compare_int
  check_int_iff i t none o = (λ h. tt, λ h. tt)
  check_int_iff i t (some d) none = (λ h. ground arith, λ h. absurd h)
  check_int_iff i t (some d) (some o) = (λ h. ground arith, λ h. ground arith)

rank_zero : {F : Type 0} (c : ReconciliationCheck F) → rank c.status ≤ 0 → c.status ≡ compliant
rank_zero c h = ground arith

module _ {F : Type 0} ⦃fl : Float F⦄ where
  overall_compliant :
      (d : DesiredState F) (a : ActualState F)
      → ((reconcile d a).overall_status ≡ compliant) ↔ Compliant (checks_of d a)
  unfolding reconcile
  overall_compliant d a =
      let w = reconcile_worst d a in
      (
        λ h. All-map (λ c le. rank_zero c (omega (arith, le, ap rank h))) (checks_of d a) w.0,
        λ h. elim w.1 [
          | inl e ↦ e
          | inr any ↦ Any-All _ _ _ (λ c p q. sym p ∙ q) (checks_of d a) any h
        ],
      )

  checks_IsMet : (d : DesiredState F) (a : ActualState F) → Compliant (checks_of d a) → IsMet d a
  unfolding checks_of
  checks_IsMet d a h0 =
      let r0 = (All-append _ _ _).0 h0 in
      let r1 = (All-append _ _ _).0 r0.1 in
      let r2 = (All-append _ _ _).0 r1.1 in
      let r3 = (All-append _ _ _).0 r2.1 in
      let r4 = (All-append _ _ _).0 r3.1 in
      let r5 = (All-append _ _ _).0 r4.1 in
      let r6 = (All-append _ _ _).0 r5.1 in
      record {
        satcom = (check_int_iff F _ _ d.satcom_provider_count a.satcom_provider_count).0 r0.0;
        fuel = (check_float_iff _ _ _ d.fuel_reserve_days a.fuel_reserve_days).0 r1.0;
        medical = (check_float_iff _ _ _ d.medical_reserve_days a.medical_reserve_days).0 r2.0;
        routes = (check_int_iff F _ _ d.minimum_routes a.route_count).0 r3.0;
        continuity = (check_float_iff _ _ _ d.minimum_continuity a.overall_continuity).0 r4.0;
        navigation =
            (check_int_iff F _ _ d.navigation_source_count a.navigation_source_count).0 r5.0;
        observation =
            (check_int_iff F _ _ d.observation_source_count a.observation_source_count).0 r6.0;
        custom = (check_custom_iff d.custom_checks a.custom_values).0 r6.1;
      }

  IsMet-checks : (d : DesiredState F) (a : ActualState F) → IsMet d a → Compliant (checks_of d a)
  unfolding checks_of
  IsMet-checks d a m = (All-append _ _ _).1 (
    (check_int_iff F _ _ _ _).1 m.satcom,
    (All-append _ _ _).1 (
      (check_float_iff _ _ _ _ _).1 m.fuel,
      (All-append _ _ _).1 (
        (check_float_iff _ _ _ _ _).1 m.medical,
        (All-append _ _ _).1 (
          (check_int_iff F _ _ _ _).1 m.routes,
          (All-append _ _ _).1 (
            (check_float_iff _ _ _ _ _).1 m.continuity,
            (All-append _ _ _).1 (
              (check_int_iff F _ _ _ _).1 m.navigation,
              (All-append _ _ _).1
                  ((check_int_iff F _ _ _ _).1 m.observation, (check_custom_iff _ _).1 m.custom),
            ),
          ),
        ),
      ),
    ),
  )

  -- A result is compliant exactly when every requirement that is declared, but the trust score, was
  -- observed and is met.
  pub reconcile-IsMet :
      (d : DesiredState F) (a : ActualState F)
      → ((reconcile d a).overall_status ≡ compliant) ↔ IsMet d a
  reconcile-IsMet d a = (
    λ h. checks_IsMet d a ((overall_compliant d a).0 h),
    λ m. (overall_compliant d a).1 (IsMet-checks d a m),
  )

  -- A required trust score changes nothing in the result, whatever trust was observed.
  trust_score_unchecked :
      (d : DesiredState F) (a : ActualState F) (score : Option F) (scores : List (String × F))
      → reconcile (record d { minimum_trust_score = score }) (record a { trust_scores = scores })
        ≡ reconcile d a
  unfolding reconcile checks_of
  trust_score_unchecked d a score scores = refl
