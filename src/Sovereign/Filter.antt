-- ===== src/Sovereign/Filter.antt =====
-- sovereign.py: who is sent a payload, and what of it.
use continuityos.Prelude.{
  ◌≤◌, String, str_eq, eq_iff, List, [], ◌∷◌, true, false, not, ◌&&◌, ◌||◌, none, ◌≡◌, ◌⊎◌, ◌↔◌,
  inl, inr, refl, sym, ap, arith, all, map, Bool-cases, Option-cases, if◌then◌else◌,
}
use continuityos.Domain.{DataClassification, level}
use continuityos.Sovereign.{
  SecurityLabel, contains, is_empty, five_eyes_nations, sensitive_keys, is_authorized, lookup, pop,
  sanitize, filter_payload, CrossDomainTransferResult,
}
use continuityos.Sovereign.Guards.{
  guards-pass, pass-guards, not_below, at_least, not_empty, is_not_empty, implies, implies_not,
  either, either_not, swap, contrary, denied, granted,
}

-- What a label asks of a receiver.
pub record MayReceive (upper : String → String) (label : SecurityLabel)
    (clearance : DataClassification) (nation : String) (compartments : List String) : Type 0 where
  pub cleared : level label.classification ≤ level clearance
  pub read_in : all (λ c. contains c compartments) label.compartments ≡ true
  pub canadian :
      (contains "CANADIAN_EYES_ONLY" (map upper label.dissemination_controls)
          || contains "CEO" (map upper label.dissemination_controls))
        ≡ true
      → nation ≡ "CAN"
  pub five_eyes :
      (contains "CAN_US_FVEY" (map upper label.dissemination_controls)
          || contains "REL_TO_FVEY" (map upper label.dissemination_controls))
        ≡ true
      → contains nation five_eyes_nations ≡ true
  pub no_foreigner :
      contains "NOFORN" (map upper label.dissemination_controls) ≡ true
      → nation ≡ label.owner_nation
  pub canada_or_owner :
      contains "REL_TO_CAN" (map upper label.dissemination_controls) ≡ true
      → (nation ≡ "CAN") ⊎ (nation ≡ label.owner_nation)
  pub releasable :
      is_empty label.releasable_to ≡ false
      → (contains nation label.releasable_to ≡ true) ⊎ (nation ≡ label.owner_nation)

module _ {V : Type 0} where
  lookup-pop :
      (key k : String) (payload : List (String × V))
      → lookup key (pop k payload) ≡ (if str_eq key k then none else lookup key payload)
  unfolding lookup pop
  lookup-pop key k [] = ground arith
  lookup-pop key k ((k', v) ∷ rest) = grind (arith, lookup-pop key k rest, eq_iff)

  lookup-sanitize :
      (key : String) (keys : List String) (payload : List (String × V))
      → lookup key (sanitize keys payload).1
        ≡ (if contains key keys then none else lookup key payload)
  unfolding sanitize contains
  lookup-sanitize key [] payload = refl
  lookup-sanitize key (k ∷ keys) payload = elim (Option-cases (lookup k payload)) [
    | inl n ↦ grind (arith, lookup-sanitize key keys payload, eq_iff key k)
    | inr (v, s) ↦ grind (arith, lookup-sanitize key keys (pop k payload), lookup-pop key k payload)
  ]

lookup-nil : {V : Type 0} (key : String) → lookup {V = V} key [] ≡ none
unfolding lookup
lookup-nil key = refl

module _ (upper : String → String) (label : SecurityLabel) (clearance : DataClassification)
    (nation : String) (compartments : List String) where
  is_authorized-MayReceive :
      is_authorized upper label clearance nation compartments ≡ true
      → MayReceive upper label clearance nation compartments
  unfolding is_authorized
  is_authorized-MayReceive h =
      let (a, b, c, d, e, f, g) = guards-pass _ _ _ _ _ _ _ h in
      record {
        cleared = not_below (level clearance) (level label.classification) a;
        read_in = b;
        canadian = λ k. (eq_iff nation "CAN").0 (implies _ _ c k);
        five_eyes = implies _ _ d;
        no_foreigner = λ k. (eq_iff nation label.owner_nation).0 (implies _ _ e k);
        canada_or_owner = λ k. elim (either _ _ _ f k) [
          | inl l ↦ inl ((eq_iff nation "CAN").0 l)
          | inr r ↦ inr ((eq_iff nation label.owner_nation).0 r)
        ];
        releasable = λ k. elim (either _ _ _ g (not_empty k)) [
          | inl l ↦ inl l
          | inr r ↦ inr ((eq_iff nation label.owner_nation).0 r)
        ];
      }

  MayReceive-is_authorized :
      MayReceive upper label clearance nation compartments
      → is_authorized upper label clearance nation compartments ≡ true
  unfolding is_authorized
  MayReceive-is_authorized m =
      pass-guards _ _ _ _ _ _ _ (at_least (level clearance) (level label.classification) m.cleared)
        m.read_in (implies_not _ _ (λ k. (eq_iff nation "CAN").1 (m.canadian k)))
        (implies_not _ _ m.five_eyes)
        (implies_not _ _ (λ k. (eq_iff nation label.owner_nation).1 (m.no_foreigner k)))
        (either_not _ _ _ (λ k. elim (m.canada_or_owner k) [
          | inl l ↦ inl ((eq_iff nation "CAN").1 l)
          | inr r ↦ inr ((eq_iff nation label.owner_nation).1 r)
        ]))
        (either_not _ _ _ (λ k. elim (m.releasable (is_not_empty _ k)) [
          | inl l ↦ inl l
          | inr r ↦ inr ((eq_iff nation label.owner_nation).1 r)
        ]))

  module _ {V : Type 0} (payload : List (String × V)) where
    -- The filter's first guard is one of the label's.
    filter_payload-denied :
        is_authorized upper label clearance nation compartments ≡ false
        → let result = filter_payload upper payload label clearance nation compartments in
          (result.allowed ≡ false) × (result.sanitized_payload ≡ [])
    unfolding filter_payload
    filter_payload-denied h = (
      denied (λ (r : CrossDomainTransferResult V). r.allowed) _ _ _ _ _ false h refl refl,
      denied (λ (r : CrossDomainTransferResult V). r.sanitized_payload) _ _ _ _ _ [] h refl refl,
    )

    filter_payload-granted :
        is_authorized upper label clearance nation compartments ≡ true
        → let result = filter_payload upper payload label clearance nation compartments in
          (result.allowed ≡ true) × (result.sanitized_payload ≡ (sanitize sensitive_keys payload).1)
    unfolding filter_payload
    filter_payload-granted h =
        let m = is_authorized-MayReceive h in
        let l = at_least (level clearance) (level label.classification) m.cleared in
        let g = granted {A = CrossDomainTransferResult V} _ _ _ _ _ l h in
        (
          ap (λ (r : CrossDomainTransferResult V). r.allowed) (sym g),
          ap (λ (r : CrossDomainTransferResult V). r.sanitized_payload) (sym g),
        )

    -- A payload is sent on exactly if the receiver may receive what has its label, and then with each of
    -- its keys as it was, but for the five sensitive ones, of which none is left. A receiver who may not
    -- gets nothing of it.
    pub filter_payload-MayReceive :
        let result = filter_payload upper payload label clearance nation compartments in
        ((result.allowed ≡ true) ↔ MayReceive upper label clearance nation compartments)
        × ((key : String)
            → lookup key result.sanitized_payload ≡ (
                if result.allowed && not (contains key sensitive_keys)
                then lookup key payload
                else none))
    filter_payload-MayReceive =
        elim (Bool-cases (is_authorized upper label clearance nation compartments)) [
          | inl h ↦
              let (a, p) = filter_payload-granted h in
              (
                (λ k. is_authorized-MayReceive h, λ m. a),
                λ key.
                    rw (a, p, lookup-sanitize key sensitive_keys payload)
                      (swap (contains key sensitive_keys) none (lookup key payload)),
              )
          | inr h ↦
              let (a, p) = filter_payload-denied h in
              (
                (
                  λ k. absurd (contrary _ a k),
                  λ m. absurd (contrary _ h (MayReceive-is_authorized m)),
                ),
                λ key. rw (a, p) (lookup-nil key),
              )
        ]
