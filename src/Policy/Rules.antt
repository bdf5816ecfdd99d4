-- ===== src/Policy/Rules.antt =====
-- What a rule of policy.py asks of the observed state.
use continuityos.Prelude.{
  ℤ, ◌≤ℤ◌, String, ◌≡◌, ◌↔◌, refl, Bool, true, false, Option, none, some, List, [], ◌∷◌, All, arith,
}
use continuityos.Float.{Float, dec, ◌<=◌, ◌<<◌}
use continuityos.Reconcile.{lookup}
use continuityos.Policy.{
  check_assertion, check_continuity, check_providers, check_reserves, check_routes, check_trust,
  short_providers, PolicyAssertion, ObservedState, ◌<|>◌, or_zero, short_reserves, short_trust,
  short_dimension, short_dimensions, missing_dimension, missing_dimensions,
}

-- A minimum that is declared wants a reading, and every reading at the minimum or above.
abbrev pub AtLeastInt : Option ℤ → List (String × ℤ) → Type 0
AtLeastInt none counts = Unit
AtLeastInt (some minimum) [] = ⊥
AtLeastInt (some minimum) (c ∷ counts) = All (λ c. minimum ≤ℤ c.1) (c ∷ counts)

abbrev pub Reaches : Option ℤ → ℤ → Type 0
Reaches none count = Unit
Reaches (some minimum) count = minimum ≤ℤ count

module _ {F : Type 0} ⦃fl : Float F⦄ where
  abbrev pub AtLeastDays : Option ℤ → List (String × F) → Type 0
  AtLeastDays none days = Unit
  AtLeastDays (some minimum) [] = ⊥
  AtLeastDays (some minimum) (d ∷ days) = All (λ d. (d.1 << fl.of_int minimum) ≡ false) (d ∷ days)

  abbrev pub NotBelow : Option F → F → Type 0
  NotBelow none value = Unit
  NotBelow (some minimum) value = (value << minimum) ≡ false

  abbrev pub AtLeastScore : Option F → List (String × F) → Type 0
  AtLeastScore none scores = Unit
  AtLeastScore (some minimum) [] = ⊥
  AtLeastScore (some minimum) (s ∷ scores) = All (λ s. (s.1 << minimum) ≡ false) (s ∷ scores)

  -- A dimension's reading, if there is one, is not below the threshold.
  abbrev pub ReadingNotBelow : F → Option F → Type 0
  ReadingNotBelow minimum none = Unit
  ReadingNotBelow minimum (some value) = (value << minimum) ≡ false

  -- What the assertion asks, but for its bound on the concentration on a single dependency.
  pub record IsMetButConcentration (a : PolicyAssertion F) (s : ObservedState F) : Type 0 where
    pub providers : AtLeastInt a.minimum_providers s.provider_counts
    pub reserves : AtLeastDays a.minimum_reserve_days s.reserve_days
    pub routes : Reaches a.minimum_independent_routes s.independent_route_count
    pub continuity : NotBelow a.minimum_continuity s.overall_continuity
    pub trust : AtLeastScore a.minimum_trust_score s.trust_scores
    pub thresholds :
        All
          (λ t. All (λ d. ReadingNotBelow t.1 (lookup t.0 d.1)) s.dimensional_trust_scores)
          a.trust_dimension_thresholds
    pub required :
        All
          (λ r.
            r.1 ≡ true
            → All (λ d. (or_zero (lookup r.0 d.1) <= dec 0 1) ≡ false) s.dimensional_trust_scores)
          a.trust_dimension_required

or_else-none : {A : Type 0} (a b : Option A) → ((a <|> b) ≡ none) ↔ ((a ≡ none) × (b ≡ none))
or_else-none none b = (λ h. (refl, h), λ h. h.1)
or_else-none (some a) b = (λ h. cc, λ h. cc)

module _ {F : Type 0} ⦃fl : Float F⦄ where
  short_reserves_iff :
      (m : ℤ) (ds : List (String × F))
      → (short_reserves m ds ≡ none) ↔ All (λ d. (d.1 << fl.of_int m) ≡ false) ds
  unfolding short_reserves
  short_reserves_iff m [] = (λ h. tt, λ h. refl)
  short_reserves_iff m (d ∷ ds) = (
    λ h. ground (arith, (short_reserves_iff m ds).0),
    λ h. ground (arith, (short_reserves_iff m ds).1),
  )

  short_trust_iff :
      (m : F) (ds : List (String × F))
      → (short_trust m ds ≡ none) ↔ All (λ d. (d.1 << m) ≡ false) ds
  unfolding short_trust
  short_trust_iff m [] = (λ h. tt, λ h. refl)
  short_trust_iff m (d ∷ ds) =
      (λ h. ground (arith, (short_trust_iff m ds).0), λ h. ground (arith, (short_trust_iff m ds).1))

  short_dimension_iff :
      (dim : String) (m : F) (ds : List (String × List (String × F)))
      → (short_dimension dim m ds ≡ none) ↔ All (λ d. ReadingNotBelow m (lookup dim d.1)) ds
  unfolding short_dimension
  short_dimension_iff dim m [] = (λ h. tt, λ h. refl)
  short_dimension_iff dim m ((dep, dims) ∷ ds) = (
    λ h. ground (arith, (short_dimension_iff dim m ds).0),
    λ h. ground (arith, (short_dimension_iff dim m ds).1),
  )

  missing_dimension_iff :
      (dim : String) (ds : List (String × List (String × F)))
      → (missing_dimension dim ds ≡ none)
        ↔ All (λ d. (or_zero (lookup dim d.1) <= dec 0 1) ≡ false) ds
  unfolding missing_dimension
  missing_dimension_iff dim [] = (λ h. tt, λ h. refl)
  missing_dimension_iff dim ((dep, dims) ∷ ds) = (
    λ h. ground (arith, (missing_dimension_iff dim ds).0),
    λ h. ground (arith, (missing_dimension_iff dim ds).1),
  )

  short_dimensions_iff :
      (ts : List (String × F)) (ds : List (String × List (String × F)))
      → (short_dimensions ts ds ≡ none)
        ↔ All (λ t. All (λ d. ReadingNotBelow t.1 (lookup t.0 d.1)) ds) ts
  unfolding short_dimensions
  short_dimensions_iff [] ds = (λ h. tt, λ h. refl)
  short_dimensions_iff ((dim, m) ∷ ts) ds = (
    λ h.
        let r = (or_else-none _ _).0 h in
        ((short_dimension_iff dim m ds).0 r.0, (short_dimensions_iff ts ds).0 r.1),
    λ h.
        (or_else-none _ _).1
          ((short_dimension_iff dim m ds).1 h.0, (short_dimensions_iff ts ds).1 h.1),
  )

  missing_dimensions_iff :
      (rs : List (String × Bool)) (ds : List (String × List (String × F)))
      → (missing_dimensions rs ds ≡ none)
        ↔ All (λ r. r.1 ≡ true → All (λ d. (or_zero (lookup r.0 d.1) <= dec 0 1) ≡ false) ds) rs
  unfolding missing_dimensions
  missing_dimensions_iff [] ds = (λ h. tt, λ h. refl)
  missing_dimensions_iff ((dim, true) ∷ rs) ds = (
    λ h.
        let r = (or_else-none _ _).0 h in
        (λ _. (missing_dimension_iff dim ds).0 r.0, (missing_dimensions_iff rs ds).0 r.1),
    λ h.
        (or_else-none _ _).1
          ((missing_dimension_iff dim ds).1 (h.0 refl), (missing_dimensions_iff rs ds).1 h.1),
  )
  missing_dimensions_iff ((dim, false) ∷ rs) ds = (
    λ h. (λ e. cc, (missing_dimensions_iff rs ds).0 h),
    λ h. (missing_dimensions_iff rs ds).1 h.1,
  )

module _ (F : Type 0) ⦃fl : Float F⦄ where
  short_providers_iff :
      (m : ℤ) (cs : List (String × ℤ))
      → (short_providers {F = F} m cs ≡ none) ↔ All (λ c. m ≤ℤ c.1) cs
  unfolding short_providers
  short_providers_iff m [] = (λ h. tt, λ h. refl)
  short_providers_iff m (c ∷ cs) = (
    λ h. ground (arith, (short_providers_iff m cs).0),
    λ h. ground (arith, (short_providers_iff m cs).1),
  )

  check_providers_iff :
      (m : Option ℤ) (cs : List (String × ℤ))
      → (check_providers {F = F} m cs ≡ none) ↔ AtLeastInt m cs
  unfolding check_providers
  check_providers_iff none cs = (λ h. tt, λ h. refl)
  check_providers_iff (some m) [] = (λ h. cc, λ h. absurd h)
  check_providers_iff (some m) (c ∷ cs) = short_providers_iff m (c ∷ cs)

  check_reserves_iff :
      (m : Option ℤ) (ds : List (String × F)) → (check_reserves m ds ≡ none) ↔ AtLeastDays m ds
  unfolding check_reserves
  check_reserves_iff none ds = (λ h. tt, λ h. refl)
  check_reserves_iff (some m) [] = (λ h. cc, λ h. absurd h)
  check_reserves_iff (some m) (d ∷ ds) = short_reserves_iff m (d ∷ ds)

  check_routes_iff : (m : Option ℤ) (n : ℤ) → (check_routes {F = F} m n ≡ none) ↔ Reaches m n
  unfolding check_routes
  check_routes_iff none n = (λ h. tt, λ h. refl)
  check_routes_iff (some m) n = (λ h. ground arith, λ h. ground arith)

  check_continuity_iff : (m : Option F) (v : F) → (check_continuity m v ≡ none) ↔ NotBelow m v
  unfolding check_continuity
  check_continuity_iff none v = (λ h. tt, λ h. refl)
  check_continuity_iff (some m) v = (λ h. ground arith, λ h. ground arith)

  check_trust_iff :
      (m : Option F) (ss : List (String × F)) → (check_trust m ss ≡ none) ↔ AtLeastScore m ss
  unfolding check_trust
  check_trust_iff none ss = (λ h. tt, λ h. refl)
  check_trust_iff (some m) [] = (λ h. cc, λ h. absurd h)
  check_trust_iff (some m) (s ∷ ss) = short_trust_iff m (s ∷ ss)

module _ {F : Type 0} ⦃fl : Float F⦄ where
  -- No block of the check returns a violation exactly when everything that the assertion asks holds, but
  -- for its bound on the concentration on a single dependency, which no block reads.
  pub check_assertion-IsMetButConcentration :
      (a : PolicyAssertion F) (s : ObservedState F)
      → (check_assertion a s ≡ none) ↔ IsMetButConcentration a s
  unfolding check_assertion
  check_assertion-IsMetButConcentration a s = (
    λ h0.
        let r0 = (or_else-none _ _).0 h0 in
        let r1 = (or_else-none _ _).0 r0.1 in
        let r2 = (or_else-none _ _).0 r1.1 in
        let r3 = (or_else-none _ _).0 r2.1 in
        let r4 = (or_else-none _ _).0 r3.1 in
        let r5 = (or_else-none _ _).0 r4.1 in
        record {
          providers = (check_providers_iff F _ _).0 r0.0;
          reserves = (check_reserves_iff F _ _).0 r1.0;
          routes = (check_routes_iff F _ _).0 r2.0;
          continuity = (check_continuity_iff F _ _).0 r3.0;
          trust = (check_trust_iff F _ _).0 r4.0;
          thresholds = (short_dimensions_iff _ _).0 r5.0;
          required = (missing_dimensions_iff _ _).0 r5.1;
        },
    λ m. (or_else-none _ _).1 (
      (check_providers_iff F _ _).1 m.providers,
      (or_else-none _ _).1 (
        (check_reserves_iff F _ _).1 m.reserves,
        (or_else-none _ _).1 (
          (check_routes_iff F _ _).1 m.routes,
          (or_else-none _ _).1 (
            (check_continuity_iff F _ _).1 m.continuity,
            (or_else-none _ _).1 (
              (check_trust_iff F _ _).1 m.trust,
              (or_else-none _ _).1 (
                (short_dimensions_iff _ _).1 m.thresholds,
                (missing_dimensions_iff _ _).1 m.required,
              ),
            ),
          ),
        ),
      ),
    ),
  )
