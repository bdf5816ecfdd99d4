-- ===== src/SnapshotCache/Served.antt =====
-- What `latest` of sources/cache.py answers on a cache that only the stores have written: it does not
-- raise.
use continuityos.Prelude.{
  some_injective, String, str_lt, List, [], ◌∷◌, true, false, ◌&&◌, Option, none, some, ◌≡◌, ◌⊎◌,
  inl, inr, refl, ap, sym, subst, ◌∙◌, arith, Bool-cases, Option-cases, eq_iff, All, Any,
  All-append,
}
use continuityos.Float.{Float}
use continuityos.SnapshotCache.{
  SnapshotMetadata, Files, Runtime, read, is_recent, has_url, is_metadata_of, newest, candidate,
  candidates, latest,
}
use continuityos.SnapshotCache.FileName.{metadata_json}
use continuityos.SnapshotCache.Sound.{IsFine, Steps-IsSound}
use continuityos.SnapshotCache.Matches.{IsMatch, candidates_iff}
use continuityos.SnapshotCache.Newest.{newest-max, newest-All}
use continuityos.SnapshotCache.Immutable.{same_name-eq, Steps}

-- What all elements have, each of them has.
All-Any :
    (P : SnapshotMetadata → Type 0) (c : SnapshotMetadata) (ms : List SnapshotMetadata)
    → All P ms
    → Any (λ x. c ≡ x) ms
    → P c
All-Any P c [] h k = absurd k
All-Any P c (m ∷ ms) (h, hs) (inl e) = subst P (sym e) h
All-Any P c (m ∷ ms) (h, hs) (inr k) = All-Any P c ms hs k

module _ {F : Type 0} (rt : Runtime F) where
  -- a snapshot that `read` finds, with its own digest
  pub record IsReadable (files : Files) (source : String) (url : Option String)
      (m : SnapshotMetadata) : Type 0 where
    pub body : String
    pub found : read rt m.source_id m.content_sha256 files ≡ some (m, body)
    pub digest : rt.hexdigest body ≡ m.content_sha256
    pub source_id : m.source_id ≡ source
    pub matches : has_url url m ≡ true

  module _ (json : (m : SnapshotMetadata) → rt.loads (rt.dumps m) ≡ some m) where
    read-IsFine :
        (files : Files) (source sha c : String)
        → IsFine rt files metadata_json source sha c
        → (m : SnapshotMetadata) × (body : String) × (rt.loads c ≡ some m)
          × (m.source_id ≡ source)
          × (read rt m.source_id m.content_sha256 files ≡ some (m, body))
          × (rt.hexdigest body ≡ m.content_sha256)
    unfolding read
    read-IsFine files source sha c (there, (m, text, s, d), (body, bytes, digest)) = (
      m,
      body,
      ap rt.loads text ∙ json m,
      s,
      cc (there, bytes, text, json m, (eq_iff (rt.hexdigest body) sha).1 digest, s, d),
      digest ∙ sym d,
    )

    module _ ⦃fl : Float F⦄ where
      candidate-cases :
          (url : Option String) (age : Option F) (c : String)
          → (candidate rt url age c ≡ [])
            ⊎ ((m : SnapshotMetadata) × (rt.loads c ≡ some m)
                × (has_url url m ≡ true)
                × (candidate rt url age c ≡ m ∷ []))
      candidate-cases url age c = elim (Option-cases (rt.loads c)) [
        | inl p ↦ inl (cc)
        | inr (m, p) ↦ elim (Option-cases (rt.age_hours m.retrieved_at)) [
          | inl q ↦ inl (cc)
          | inr (a, q) ↦ elim (Bool-cases (has_url url m && is_recent age a)) [
            | inl r ↦ inr (m, p, ground arith, cc)
            | inr r ↦ inl (cc)
          ]
        ]
      ]

      candidate-IsReadable :
          (files : Files) (source sha c : String) (url : Option String) (age : Option F)
          → IsFine rt files metadata_json source sha c
          → All (IsReadable files source url) (candidate rt url age c)
      candidate-IsReadable files source sha c url age fine =
          let (m, body, loaded, from, found, digest) = read-IsFine files source sha c fine in
          elim (candidate-cases url age c) [
            | inl e ↦ subst (All (IsReadable files source url)) (sym e) tt
            | inr (k, p, q, e) ↦
                let same : m ≡ k = some_injective (sym loaded ∙ p) in
                subst (All (IsReadable files source url)) (sym e) (
                  subst (IsReadable files source url) same (record {
                    body = body;
                    found = found;
                    digest = digest;
                    source_id = from;
                    matches = ap (has_url url) same ∙ q;
                  }),
                  tt,
                )
          ]

      candidates-IsReadable :
          (files some_files : Files) (source : String) (url : Option String) (age : Option F)
          → All (λ e. IsFine rt files e.0.name e.0.source_id e.0.sha256 e.1) some_files
          → All (IsReadable files source url) (candidates rt source url age some_files)
      unfolding candidates
      candidates-IsReadable files [] source url age h = tt
      candidates-IsReadable files ((l, c) ∷ rest) source url age (h, hs) =
          let later = candidates-IsReadable files rest source url age hs in
          elim (Bool-cases (is_metadata_of source l)) [
            | inl hit ↦
                let name : l.name ≡ metadata_json =
                  same_name-eq l.name metadata_json (ground arith) in
                let fine = subst (λ n. IsFine rt files n l.source_id l.sha256 c) name h in
                let from : l.source_id ≡ source = (eq_iff l.source_id source).0 (ground arith) in
                let first =
                  subst (λ s. All (IsReadable files s url) (candidate rt url age c)) from
                    (candidate-IsReadable files l.source_id l.sha256 c url age fine) in
                subst (All (IsReadable files source url)) (cc) (
                  (All-append (IsReadable files source url) (candidate rt url age c) _).1
                    (first, later))
            | inr miss ↦ subst (All (IsReadable files source url)) (cc) later
          ]

      candidates-IsMatch :
          (source : String) (url : Option String) (age : Option F) (files : Files)
          (ms : List SnapshotMetadata)
          → ((m : SnapshotMetadata)
              → Any (λ c. m ≡ c) ms
              → Any (λ c. m ≡ c) (candidates rt source url age files))
          → All (IsMatch rt source url age files) ms
      candidates-IsMatch source url age files [] sub = tt
      candidates-IsMatch source url age files (m ∷ ms) sub = (
        (candidates_iff rt source url age files m).0 (sub m (inl refl)),
        candidates-IsMatch source url age files ms (λ x h. sub x (inr h)),
      )

      -- If the JSON functions bring each record back: after any stores, finished or cut off, `latest`
      -- does not raise. It answers `None` when no metadata file of the source matches: has the URL, if
      -- one is given, and a timestamp of an age within the limit, if one is given. Otherwise it answers a
      -- snapshot that matches, with the bytes of its digest, and no snapshot that matches is newer.
      pub latest-IsReadable :
          (files : Files)
          → Steps rt [] files
          → (source : String) (url : Option String) (age : Option F)
          → (((m : SnapshotMetadata) → ¬ (IsMatch rt source url age files m))
              × (latest rt source url age files ≡ some none))
            ⊎ ((m : SnapshotMetadata) × IsMatch rt source url age files m
                × (r : IsReadable files source url m) × (latest rt source url age files
                    ≡ some (some (m, r.body)))
                × ((c : SnapshotMetadata)
                    → IsMatch rt source url age files c
                    → str_lt m.retrieved_at c.retrieved_at ≡ false))
      unfolding latest
      latest-IsReadable files steps source url age =
          go (candidates rt source url age files) refl
            (candidates-IsReadable files files source url age (Steps-IsSound rt [] files steps tt))
        where
          go :
              (ms : List SnapshotMetadata)
              → candidates rt source url age files ≡ ms
              → All (IsReadable files source url) ms
              → (((m : SnapshotMetadata) → ¬ (IsMatch rt source url age files m))
                  × (latest rt source url age files ≡ some none))
                ⊎ ((m : SnapshotMetadata) × IsMatch rt source url age files m
                    × (r : IsReadable files source url m) × (latest rt source url age files
                        ≡ some (some (m, r.body)))
                    × ((c : SnapshotMetadata)
                        → IsMatch rt source url age files c
                        → str_lt m.retrieved_at c.retrieved_at ≡ false))
          go [] e h = inl (
            λ m is.
                subst (λ ms. Any (λ c. m ≡ c) ms) e
                  ((candidates_iff rt source url age files m).1 is),
            cc,
          )
          go (m ∷ later) e (h, hs) =
              let r = newest-All (IsReadable files source url) m later h hs in
              let matching =
                candidates-IsMatch source url age files (m ∷ later)
                  (λ x k. subst (λ ms. Any (λ c. x ≡ c) ms) (sym e) k) in
              inr (
                newest m later,
                newest-All (IsMatch rt source url age files) m later matching.0 matching.1,
                r,
                cc (e, r.found),
                λ c is. All-Any _ c (m ∷ later) (newest-max m later) (
                    subst (λ ms. Any (λ x. c ≡ x) ms) e
                      ((candidates_iff rt source url age files c).1 is)),
              )
