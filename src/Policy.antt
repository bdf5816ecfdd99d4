-- ===== src/Policy.antt =====
-- policy.py: the rules of a continuity policy against an observed state. A violation keeps the
-- numbers that its texts show; the identifier and the time of an evaluation are left out. The
-- proofs are in the modules below.
mod Rules
mod Evaluation
mod Examples
use continuityos.Prelude.{
  ℕ, zero, suc, ◌+◌, ℤ, ◌-ℤ◌, ltb_ℤ, String, List, [], ◌∷◌, Bool, true, false, Option, none, some,
  length, if◌then◌else◌,
}
use continuityos.Float.{Float, dec, ◌<=◌, ◌<<◌}
use continuityos.Reconcile.{lookup}

pub record PolicyAssertion (F : Type 0) : Type 0 where
  pub minimum_providers : Option ℤ
  pub minimum_reserve_days : Option ℤ
  pub minimum_independent_routes : Option ℤ
  pub minimum_continuity : Option F
  pub maximum_single_dependency_concentration : Option F
  pub minimum_trust_score : Option F
  pub trust_dimension_thresholds : List (String × F)
  pub trust_dimension_required : List (String × Bool)

module _ (F : Type 0) where
  pub record PolicyRule : Type 0 where
    pub rule_id : String
    pub description : String
    pub assertion : PolicyAssertion F
    pub severity : String

  pub record ObservedState : Type 0 where
    pub provider_counts : List (String × ℤ)
    pub reserve_days : List (String × F)
    pub independent_route_count : ℤ
    pub overall_continuity : F
    pub dependency_concentration : List (String × F)
    pub trust_scores : List (String × F)
    pub dimensional_trust_scores : List (String × List (String × F))

  -- What the texts `expected`, `observed` and `deficit` of a violation show.
  pub data Breach : Type 0 where
    providers_missing : ℤ → Breach
    providers_short : ℤ → String → ℤ → ℤ → Breach
    reserve_missing : ℤ → Breach
    reserve_short : ℤ → String → F → F → Breach
    routes_short : ℤ → ℤ → ℤ → Breach
    continuity_short : F → F → F → Breach
    trust_missing : F → Breach
    trust_short : F → String → F → F → Breach
    dimension_short : F → String → String → F → F → Breach
    dimension_unavailable : String → String → Breach

module _ (F : Type 0) where
  pub record ContinuityPolicy : Type 0 where
    pub policy_id : String
    pub version : String
    pub rules : List (PolicyRule F)

  pub record PolicyViolation : Type 0 where
    pub rule_id : String
    pub description : String
    pub severity : String
    pub breach : Breach F

pub record PolicyEvaluation (F : Type 0) : Type 0 where
  pub policy_id : String
  pub policy_version : String
  pub compliant : Bool
  pub violations : List (PolicyViolation F)
  pub rules_evaluated : ℕ
  pub rules_passed : ℕ

-- The first check that returns, as by an early `return`.
infixr 20 ◌<|>◌
abbrev pub ◌<|>◌ : {A : Type 0} → Option A → Option A → Option A
some a <|> later = some a
none <|> later = later

abbrev pub or_zero : {F : Type 0} ⦃fl : Float F⦄ → Option F → F
or_zero none = dec 0 1
or_zero (some v) = v

module _ {F : Type 0} ⦃fl : Float F⦄ where
  -- The loops over the items of the state's dicts.
  unfoldable pub short_providers : ℤ → List (String × ℤ) → Option (Breach F)
  short_providers minimum [] = none
  short_providers minimum ((category, count) ∷ rest) =
      if ltb_ℤ count minimum
      then some (providers_short minimum category count (minimum -ℤ count))
      else short_providers minimum rest

  unfoldable pub short_reserves : ℤ → List (String × F) → Option (Breach F)
  short_reserves minimum [] = none
  short_reserves minimum ((resource, days) ∷ rest) =
      if days << fl.of_int minimum
      then some (reserve_short minimum resource days (fl.sub (fl.of_int minimum) days))
      else short_reserves minimum rest

  unfoldable pub short_trust : F → List (String × F) → Option (Breach F)
  short_trust minimum [] = none
  short_trust minimum ((dep, score) ∷ rest) =
      if score << minimum
      then some (trust_short minimum dep score (fl.sub minimum score))
      else short_trust minimum rest

  unfoldable pub short_dimension :
      String → F → List (String × List (String × F)) → Option (Breach F)
  short_dimension dim min_val [] = none
  short_dimension dim min_val ((dep, dims) ∷ rest) = elim (lookup dim dims) [
    | none ↦ short_dimension dim min_val rest
    | some actual_val ↦
        if actual_val << min_val
        then some (dimension_short min_val dim dep actual_val (fl.sub min_val actual_val))
        else short_dimension dim min_val rest
  ]

  unfoldable pub short_dimensions :
      List (String × F) → List (String × List (String × F)) → Option (Breach F)
  short_dimensions [] scores = none
  short_dimensions ((dim, min_val) ∷ rest) scores =
      short_dimension dim min_val scores <|> short_dimensions rest scores

  unfoldable pub missing_dimension : String → List (String × List (String × F)) → Option (Breach F)
  missing_dimension dim [] = none
  missing_dimension dim ((dep, dims) ∷ rest) =
      if or_zero (lookup dim dims) <= dec 0 1
      then some (dimension_unavailable dim dep)
      else missing_dimension dim rest

  unfoldable pub missing_dimensions :
      List (String × Bool) → List (String × List (String × F)) → Option (Breach F)
  missing_dimensions [] scores = none
  missing_dimensions ((dim, required) ∷ rest) scores =
      (if required then missing_dimension dim scores else none) <|> missing_dimensions rest scores

  -- The blocks of `_check_rule`, in the code's order.
  unfoldable pub check_providers : Option ℤ → List (String × ℤ) → Option (Breach F)
  check_providers none counts = none
  check_providers (some minimum) [] = some (providers_missing minimum)
  check_providers (some minimum) (c ∷ counts) = short_providers minimum (c ∷ counts)

  unfoldable pub check_reserves : Option ℤ → List (String × F) → Option (Breach F)
  check_reserves none reserves = none
  check_reserves (some minimum) [] = some (reserve_missing minimum)
  check_reserves (some minimum) (r ∷ reserves) = short_reserves minimum (r ∷ reserves)

  unfoldable pub check_routes : Option ℤ → ℤ → Option (Breach F)
  check_routes none count = none
  check_routes (some minimum) count =
      if ltb_ℤ count minimum then some (routes_short minimum count (minimum -ℤ count)) else none

  unfoldable pub check_continuity : Option F → F → Option (Breach F)
  check_continuity none continuity = none
  check_continuity (some minimum) continuity =
      if continuity << minimum
      then some (continuity_short minimum continuity (fl.sub minimum continuity))
      else none

  unfoldable pub check_trust : Option F → List (String × F) → Option (Breach F)
  check_trust none scores = none
  check_trust (some minimum) [] = some (trust_missing minimum)
  check_trust (some minimum) (s ∷ scores) = short_trust minimum (s ∷ scores)

  unfoldable pub check_assertion : PolicyAssertion F → ObservedState F → Option (Breach F)
  check_assertion a s =
      check_providers a.minimum_providers s.provider_counts
      <|> check_reserves a.minimum_reserve_days s.reserve_days
      <|> check_routes a.minimum_independent_routes s.independent_route_count
      <|> check_continuity a.minimum_continuity s.overall_continuity
      <|> check_trust a.minimum_trust_score s.trust_scores
      <|> short_dimensions a.trust_dimension_thresholds s.dimensional_trust_scores
      <|> missing_dimensions a.trust_dimension_required s.dimensional_trust_scores

  abbrev pub violation_of : PolicyRule F → Option (Breach F) → Option (PolicyViolation F)
  violation_of rule none = none
  violation_of rule (some b) = some (record {
    rule_id = rule.rule_id;
    description = rule.description;
    severity = rule.severity;
    breach = b;
  })

  unfoldable pub check_rule : PolicyRule F → ObservedState F → Option (PolicyViolation F)
  check_rule rule state = violation_of rule (check_assertion rule.assertion state)

  -- The loop over the rules: the violations in the order of the rules, and how many passed.
  abbrev pub tally :
      Option (PolicyViolation F) → List (PolicyViolation F) × ℕ → List (PolicyViolation F) × ℕ
  tally (some v) (violations, passed) = (v ∷ violations, passed)
  tally none (violations, passed) = (violations, passed + 1)

  unfoldable pub check_rules : List (PolicyRule F) → ObservedState F → List (PolicyViolation F) × ℕ
  check_rules [] state = ([], 0)
  check_rules (rule ∷ rules) state = tally (check_rule rule state) (check_rules rules state)

  abbrev pub is_empty : List (PolicyViolation F) → Bool
  is_empty [] = true
  is_empty (v ∷ vs) = false

  unfoldable pub evaluate_policy : ContinuityPolicy F → ObservedState F → PolicyEvaluation F
  evaluate_policy policy state =
      let (violations, rules_passed) = check_rules policy.rules state in
      record {
        policy_id = policy.policy_id;
        policy_version = policy.version;
        compliant = is_empty violations;
        violations = violations;
        rules_evaluated = length policy.rules;
        rules_passed = rules_passed;
      }
