-- ===== src/SnapshotCache/Collisions.antt =====
-- When `store` raises. The metadata names the time of the fetch, so the same bytes that are stored a
-- second time are a collision.
use continuityos.Prelude.{
  String, str_eq, List, [], ◌∷◌, none, some, ℕ, ◌≡◌, ◌≢◌, ◌↔◌, inl, inr, refl, ap, sym, subst, ◌∙◌,
  Bool-cases, Option-cases, eq_iff, ne_of_str_eq, All, some_injective,
}
use continuityos.SnapshotCache.{
  SnapshotMetadata, Location, Files, Runtime, same_location, content_at, payload_path,
  metadata_path, atomic_write, metadata_for, store_snapshot, store,
}
use continuityos.SnapshotCache.Immutable.{
  atomic_write-keeps, same_location-eq, content_at-there, atomic_write-cases, atomic_write-content,
  Steps, Steps-keeps, store_snapshot-cases,
}
use continuityos.SnapshotCache.Sound.{IsFine, Steps-IsSound}

atomic_write-none :
    (l : Location) (c : String) (files : Files)
    → (atomic_write l c files ≡ none) ↔ ((d : String) × (content_at l files ≡ some d) × (d ≢ c))
unfolding atomic_write
atomic_write-none l c files = (
  λ e. elim (Option-cases (content_at l files)) [
    | inl p ↦ absurd (cc)
    | inr (d, p) ↦ elim (Bool-cases (str_eq d c)) [
      | inl q ↦ absurd (cc)
      | inr q ↦ (d, p, ne_of_str_eq d c q)
    ]
  ],
  λ (d, p, ne). elim (Bool-cases (str_eq d c)) [
    | inl q ↦ absurd (ne ((eq_iff d c).0 q))
    | inr q ↦ cc
  ],
)

module _ {F : Type 0} (rt : Runtime F) where
  payload-hexdigest :
      (files some_files : Files)
      → All (λ e. IsFine rt files e.0.name e.0.source_id e.0.sha256 e.1) some_files
      → (source sha c : String) → content_at (payload_path source sha) some_files ≡ some c
      → rt.hexdigest c ≡ sha
  unfolding content_at
  payload-hexdigest files [] h source sha c e = absurd (cc)
  payload-hexdigest files ((l, d) ∷ more) (h, hs) source sha c e =
      elim (Bool-cases (same_location (payload_path source sha) l)) [
        | inl hit ↦
            let at = same_location-eq (payload_path source sha) l hit in
            let fine = subst (λ k. IsFine rt files k.name k.source_id k.sha256 d) (sym at) h in
            let bytes : d ≡ c = cc in ap rt.hexdigest (sym bytes) ∙ fine
        | inr miss ↦ payload-hexdigest files more hs source sha c (cc)
      ]

  -- a directory with another metadata record
  store_snapshot-collides :
      (m : SnapshotMetadata) (body text : String) (files : Files)
      → content_at (metadata_path m.source_id m.content_sha256) files ≡ some text
      → text ≢ rt.dumps m
      → (store_snapshot rt m body files).0 ≡ none
  store_snapshot-collides m body text files at ne = elim (store_snapshot-cases rt m body files) [
    | inl (u, e) ↦ ap (λ r. r.0) e
    | inr (mid, p, inl (u, e)) ↦ ap (λ r. r.0) e
    | inr (mid, p, inr (end, q, e)) ↦
        let kept =
          atomic_write-keeps _ _ _ text mid end q (atomic_write-keeps _ _ _ text files mid p at) in
        absurd (ne (some_injective (sym kept ∙ atomic_write-content _ _ mid end q)))
  ]

  -- the payload's write leaves the metadata file as it is
  content_at-metadata :
      (source sha c : String) (files mid : Files)
      → atomic_write (payload_path source sha) c files ≡ some mid
      → content_at (metadata_path source sha) mid ≡ content_at (metadata_path source sha) files
  unfolding same_location
  content_at-metadata source sha c files mid e =
      elim (atomic_write-cases (payload_path source sha) c files mid e) [
        | inl (p, q) ↦ ap (content_at (metadata_path source sha)) q
        | inr (p, q) ↦
            ap (content_at (metadata_path source sha)) q
            ∙ content_at-there (payload_path source sha) (metadata_path source sha) c files refl
      ]

  -- On a cache that only stores have written, and for a body whose digest no other bytes have, a
  -- store raises exactly when its directory already holds another metadata record.
  pub store-none_iff :
      (files : Files)
      → Steps rt [] files
      → (now source url body : String) (headers : List (String × String)) (status : ℕ)
      → ((b : String) → rt.hexdigest b ≡ rt.hexdigest body → b ≡ body)
      → ((store rt now source url body headers status files).0 ≡ none) ↔ (
          (text : String) × (content_at (metadata_path source (rt.hexdigest body)) files
            ≡ some text)
          × (text ≢ rt.dumps (metadata_for rt now source url body headers status)))
  unfolding store
  store-none_iff files steps now source url body headers status unique =
      let m = metadata_for rt now source url body headers status in
      (
        λ e. elim (store_snapshot-cases rt m body files) [
          | inl (p, r) ↦
              let (d, at, ne) = (atomic_write-none _ body files).0 p in
              let sound = Steps-IsSound rt [] files steps tt in
              absurd (ne (unique d (payload-hexdigest files files sound source _ d at)))
          | inr (mid, p, inl (q, r)) ↦
              let (text, at, ne) = (atomic_write-none _ (rt.dumps m) mid).0 q in
              (text, sym (content_at-metadata source _ body files mid p) ∙ at, ne)
          | inr (mid, p, inr (end, q, r)) ↦ absurd (cc)
        ],
        λ (text, at, ne). store_snapshot-collides m body text files at ne,
      )

  -- If the JSON functions bring each record back, bytes that a store has kept cannot be stored again
  -- for their source at another time, whatever was stored in between.
  pub store-again :
      ((m : SnapshotMetadata) → rt.loads (rt.dumps m) ≡ some m)
      → (now source url body : String) (headers : List (String × String)) (status : ℕ)
        (m : SnapshotMetadata) (a b c : Files)
      → store rt now source url body headers status a ≡ (some m, b)
      → Steps rt b c
      → (again url' : String) (headers' : List (String × String)) (status' : ℕ) → now ≢ again
      → (store rt again source url' body headers' status' c).0 ≡ none
  unfolding store
  store-again json now source url body headers status m a b c e steps again url' headers' status'
        ne =
      elim (store_snapshot-cases rt (metadata_for rt now source url body headers status) body a) [
        | inl (u, p) ↦ absurd (cc)
        | inr (mid, p, inl (u, q)) ↦ absurd (cc)
        | inr (mid, p, inr (end, q, r)) ↦
            let written : end ≡ b = ap (λ x. x.1) (sym r ∙ e) in
            let at =
              Steps-keeps rt b c steps _ _
                (ap (content_at _) (sym written) ∙ atomic_write-content _ _ mid end q) in
            store_snapshot-collides _ body _ c at (λ same. ne (
              ap (λ x. x.retrieved_at) (some_injective (sym (json _) ∙ ap rt.loads same ∙ json _))))
      ]
