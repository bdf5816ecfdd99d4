-- ===== src/SnapshotCache/Matches.antt =====
-- What `latest` of sources/cache.py takes into account: the metadata files that match, and no others.
use continuityos.Prelude.{
  some_injective, String, [], ◌∷◌, true, false, ◌&&◌, Option, none, some, ◌≡◌, ◌↔◌, inl, inr, refl,
  ap, sym, subst, ◌∙◌, arith, Bool-cases, Option-cases, eq_iff, Any, Any-append,
}
use continuityos.Float.{Float, ◌<<◌}
use continuityos.SnapshotCache.{
  SnapshotMetadata, Files, Runtime, is_recent, has_url, is_metadata_of, candidate, candidates,
}
use continuityos.SnapshotCache.FileName.{metadata_json}
use continuityos.SnapshotCache.Immutable.{same_name-eq}

abbrev pub UrlIs : Option String → SnapshotMetadata → Type 0
UrlIs none m = Unit
UrlIs (some url) m = m.url ≡ url

has_url_iff : (url : Option String) (m : SnapshotMetadata) → (has_url url m ≡ true) ↔ UrlIs url m
has_url_iff none m = (λ h. tt, λ h. refl)
has_url_iff (some x) m = eq_iff m.url x

module _ {F : Type 0} ⦃fl : Float F⦄ where
  -- An age that the limit, if there is one, is not below.
  abbrev pub IsFresh : Option F → F → Type 0
  IsFresh none age = Unit
  IsFresh (some max_age_hours) age = (max_age_hours << age) ≡ false

  is_recent_iff : (limit : Option F) (age : F) → (is_recent limit age ≡ true) ↔ IsFresh limit age
  is_recent_iff none age = (λ h. tt, λ h. refl)
  is_recent_iff (some x) age = (λ h. ground arith, λ h. ground arith)

  module _ (rt : Runtime F) where
    -- The text is that of the metadata, with the URL, and with a timestamp of an age within the limit.
    abbrev pub Matches : Option String → Option F → String → SnapshotMetadata → Type 0
    Matches url max_age text m =
        (rt.loads text ≡ some m)
        × UrlIs url m
        × ((age : F) × (rt.age_hours m.retrieved_at ≡ some age) × IsFresh max_age age)

    -- One of the files is a metadata file of the source that matches.
    abbrev pub IsMatch : String → Option String → Option F → Files → SnapshotMetadata → Type 0
    IsMatch source url max_age files m =
        Any (λ e. (e.0.name ≡ metadata_json) × (e.0.source_id ≡ source) × Matches url max_age e.1 m)
          files

    candidate_iff :
        (url : Option String) (max_age : Option F) (text : String) (m : SnapshotMetadata)
        → Any (λ c. m ≡ c) (candidate rt url max_age text) ↔ Matches url max_age text m
    candidate_iff url max_age text m = elim (Option-cases (rt.loads text)) [
      | inl p ↦
          let none_left : candidate rt url max_age text ≡ [] = cc in
          rw none_left (λ h. absurd h, λ h. absurd (cc (h.0)))
      | inr (k, p) ↦ elim (Option-cases (rt.age_hours k.retrieved_at)) [
        | inl q ↦
            let none_left : candidate rt url max_age text ≡ [] = cc in
            rw none_left (
              λ h. absurd h,
              λ h.
                  let (age, dated, _) = h.2 in
                  let same : k ≡ m = some_injective (sym p ∙ h.0) in absurd (cc (same, dated)),
            )
        | inr (a, q) ↦ elim (Bool-cases (has_url url k && is_recent max_age a)) [
          | inl r ↦
              let u : has_url url k ≡ true = ground arith in
              let f : is_recent max_age a ≡ true = ground arith in
              let one : candidate rt url max_age text ≡ k ∷ [] = cc in
              rw one (
                λ h. elim h [
                  | inl e ↦ (
                    p ∙ ap some (sym e),
                    subst (UrlIs url) (sym e) ((has_url_iff url k).0 u),
                    (
                      a,
                      ap (λ (x : SnapshotMetadata). rt.age_hours x.retrieved_at) e ∙ q,
                      (is_recent_iff max_age a).0 f,
                    ),
                  )
                  | inr bad ↦ absurd bad
                ],
                λ h. inl (some_injective (sym h.0 ∙ p)),
              )
          | inr r ↦
              let none_left : candidate rt url max_age text ≡ [] = cc in
              rw none_left (
                λ h. absurd h,
                λ h.
                    let same : k ≡ m = some_injective (sym p ∙ h.0) in
                    let (age, dated, fresh) = h.2 in
                    let u = (has_url_iff url k).1 (subst (UrlIs url) (sym same) h.1) in
                    let same_age : a ≡ age = some_injective (
                      sym q
                      ∙ ap (λ (x : SnapshotMetadata). rt.age_hours x.retrieved_at) same
                      ∙ dated) in
                    let f =
                      (is_recent_iff max_age a).1 (subst (IsFresh max_age) (sym same_age) fresh) in
                    absurd (ground (arith, u, f)),
              )
        ]
      ]
    ]

    -- The candidates are the snapshots that match.
    pub candidates_iff :
        (source : String) (url : Option String) (max_age : Option F) (files : Files)
        (m : SnapshotMetadata)
        → Any (λ c. m ≡ c) (candidates rt source url max_age files)
          ↔ IsMatch source url max_age files m
    unfolding candidates
    candidates_iff source url max_age [] m = (λ h. h, λ h. h)
    candidates_iff source url max_age ((l, text) ∷ files) m =
        let later = candidates_iff source url max_age files m in
        elim (Bool-cases (is_metadata_of source l)) [
          | inl hit ↦
              let name : l.name ≡ metadata_json =
                same_name-eq l.name metadata_json (ground arith) in
              let from : l.source_id ≡ source = (eq_iff l.source_id source).0 (ground arith) in
              let both =
                Any-append (λ c. m ≡ c) (candidate rt url max_age text)
                  (candidates rt source url max_age files) in
              rw hit (
                λ h. elim (both.0 h) [
                  | inl c ↦ inl (name, from, (candidate_iff url max_age text m).0 c)
                  | inr c ↦ inr (later.0 c)
                ],
                λ h. elim h [
                  | inl c ↦ both.1 (inl ((candidate_iff url max_age text m).1 c.2))
                  | inr c ↦ both.1 (inr (later.1 c))
                ],
              )
          | inr miss ↦ rw miss (
            λ h. inr (later.0 h),
            λ h. elim h [
              | inl c ↦ absurd (ground (arith, c.0, (eq_iff l.source_id source).1 c.1))
              | inr c ↦ later.1 c
            ],
          )
        ]
