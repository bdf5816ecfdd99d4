-- ===== src/SnapshotCache/Immutable.antt =====
-- A file of the cache never changes: the writes only add files. What `store` has kept is read back
-- after any later stores, finished or not.
use continuityos.Prelude.{
  some_injective, String, str_eq, List, ◌∷◌, true, false, ◌&&◌, none, some, ℕ, ◌≡◌, ◌⊎◌, inl, inr,
  refl, ap, sym, ◌∙◌, arith, Bool-cases, Option-cases, eq_iff,
}
use continuityos.SnapshotCache.{
  SnapshotMetadata, FileName, Location, Files, Runtime, same_name, same_location, content_at,
  payload_path, metadata_path, atomic_write, metadata_for, store_snapshot, store, read,
}
use continuityos.SnapshotCache.FileName.{payload_bin, metadata_json}

pub str_eq_refl : (s : String) → str_eq s s ≡ true
str_eq_refl s = (eq_iff s s).1 refl

pub same_name-eq : (a b : FileName) → same_name a b ≡ true → a ≡ b
same_name-eq payload_bin payload_bin h = refl
same_name-eq metadata_json metadata_json h = refl
same_name-eq payload_bin metadata_json h = absurd (cc)
same_name-eq metadata_json payload_bin h = absurd (cc)

pub same_location-eq : (a b : Location) → same_location a b ≡ true → a ≡ b
unfolding same_location
same_location-eq a b h =
    let name = same_name-eq a.name b.name (ground arith) in
    let source : a.source_id ≡ b.source_id = ground (arith, eq_iff a.source_id b.source_id) in
    let sha : a.sha256 ≡ b.sha256 = ground (arith, eq_iff a.sha256 b.sha256) in
    λ i. record { source_id = source i; sha256 = sha i; name = name i }

same_location_refl : (a : Location) → same_location a a ≡ true
unfolding same_location
same_location_refl a = go a.name
  where
    go :
        (n : FileName)
        → (same_name n n && (str_eq a.source_id a.source_id && str_eq a.sha256 a.sha256)) ≡ true
    go payload_bin = ground (arith, eq_iff a.source_id a.source_id, eq_iff a.sha256 a.sha256)
    go metadata_json = ground (arith, eq_iff a.source_id a.source_id, eq_iff a.sha256 a.sha256)

pub content_at-here :
    (l : Location) (c : String) (files : Files) → content_at l ((l, c) ∷ files) ≡ some c
unfolding content_at
content_at-here l c files = simp (same_location_refl l) refl

pub content_at-there :
    (l k : Location) (c : String) (files : Files)
    → same_location k l ≡ false
    → content_at k ((l, c) ∷ files) ≡ content_at k files
unfolding content_at
content_at-there l k c files h = simp h refl

-- The file was there with these bytes, or it was missing and is added.
pub atomic_write-cases :
    (l : Location) (c : String) (files files' : Files)
    → atomic_write l c files ≡ some files'
    → ((content_at l files ≡ some c) × (files' ≡ files))
      ⊎ ((content_at l files ≡ none) × (files' ≡ (l, c) ∷ files))
unfolding atomic_write
atomic_write-cases l c files files' e = elim (Option-cases (content_at l files)) [
  | inl p ↦ inr (p, cc)
  | inr (old, p) ↦ elim (Bool-cases (str_eq old c)) [
    | inl q ↦ inl (p ∙ ap some ((eq_iff old c).0 q), cc)
    | inr q ↦ absurd (cc)
  ]
]

pub atomic_write-content :
    (l : Location) (c : String) (files files' : Files)
    → atomic_write l c files ≡ some files'
    → content_at l files' ≡ some c
atomic_write-content l c files files' e = elim (atomic_write-cases l c files files' e) [
  | inl (p, q) ↦ ap (content_at l) q ∙ p
  | inr (p, q) ↦ ap (content_at l) q ∙ content_at-here l c files
]

pub atomic_write-keeps :
    (l k : Location) (c d : String) (files files' : Files)
    → atomic_write l c files ≡ some files'
    → content_at k files ≡ some d
    → content_at k files' ≡ some d
atomic_write-keeps l k c d files files' e h = elim (atomic_write-cases l c files files' e) [
  | inl (p, q) ↦ ap (content_at k) q ∙ h
  | inr (p, q) ↦ elim (Bool-cases (same_location k l)) [
    | inl same ↦ absurd (cc (same_location-eq k l same))
    | inr other ↦ ap (content_at k) q ∙ content_at-there l k c files other ∙ h
  ]
]

module _ {F : Type 0} (rt : Runtime F) where
  -- What a process does to the cache: a whole `store`, or one that is cut off after its first write.
  pub data Step : Files → Files → Type 0 where
    stored :
        {files : Files} (now source url body : String) (headers : List (String × String))
        (status : ℕ)
        → Step files (store rt now source url body headers status files).1
    interrupted :
        {files files' : Files} (source body : String)
        → atomic_write (payload_path source (rt.hexdigest body)) body files ≡ some files'
        → Step files files'

  pub data Steps : Files → Files → Type 0 where
    stop : {files : Files} → Steps files files
    next : {a b c : Files} → Step a b → Steps b c → Steps a c

  pub store_snapshot-cases :
      (m : SnapshotMetadata) (body : String) (files : Files)
      → ((atomic_write (payload_path m.source_id m.content_sha256) body files ≡ none)
          × (store_snapshot rt m body files ≡ (none, files)))
        ⊎ ((mid : Files) × (atomic_write (payload_path m.source_id m.content_sha256) body files
              ≡ some mid)
            × (((atomic_write (metadata_path m.source_id m.content_sha256) (rt.dumps m) mid ≡ none)
                  × (store_snapshot rt m body files ≡ (none, mid)))
                ⊎ ((end : Files) × (atomic_write
                        (metadata_path m.source_id m.content_sha256)
                        (rt.dumps m)
                        mid
                      ≡ some end)
                    × (store_snapshot rt m body files ≡ (some m, end)))))
  unfolding store_snapshot
  store_snapshot-cases m body files =
      elim (Option-cases (atomic_write (payload_path m.source_id m.content_sha256) body files)) [
        | inl p ↦ inl (p, cc)
        | inr (mid, p) ↦
            elim (Option-cases
              (atomic_write (metadata_path m.source_id m.content_sha256) (rt.dumps m) mid)) [
                | inl q ↦ inr (mid, p, inl (q, cc))
                | inr (end, q) ↦ inr (mid, p, inr (end, q, cc))
              ]
      ]

  store_snapshot-keeps :
      (m : SnapshotMetadata) (body : String) (files : Files) (k : Location) (d : String)
      → content_at k files ≡ some d
      → content_at k (store_snapshot rt m body files).1 ≡ some d
  store_snapshot-keeps m body files k d h = elim (store_snapshot-cases m body files) [
    | inl (u, e) ↦ ap (λ r. content_at k r.1) e ∙ h
    | inr (mid, p, inl (u, e)) ↦
        ap (λ r. content_at k r.1) e ∙ atomic_write-keeps _ k _ d files mid p h
    | inr (mid, p, inr (end, q, e)) ↦
        ap (λ r. content_at k r.1) e
        ∙ atomic_write-keeps _ k _ d mid end q (atomic_write-keeps _ k _ d files mid p h)
  ]

  Step-keeps :
      (a b : Files)
      → Step a b
      → (k : Location) (d : String) → content_at k a ≡ some d
      → content_at k b ≡ some d
  unfolding store
  Step-keeps a _ (stored now source url body headers status) k d h =
      store_snapshot-keeps (metadata_for rt now source url body headers status) body a k d h
  Step-keeps a b (interrupted source body e) k d h = atomic_write-keeps _ k _ d a b e h

  pub Steps-keeps :
      (a b : Files)
      → Steps a b
      → (k : Location) (d : String) → content_at k a ≡ some d
      → content_at k b ≡ some d
  Steps-keeps a _ stop k d h = h
  Steps-keeps a c (next {b = b} s rest) k d h = Steps-keeps b c rest k d (Step-keeps a b s k d h)

  -- What a store has returned is read back with its bytes, whatever is stored later and whichever
  -- stores are cut off, if the JSON functions bring each record back.
  pub read-store :
      ((m : SnapshotMetadata) → rt.loads (rt.dumps m) ≡ some m)
      → (now source url body : String) (headers : List (String × String)) (status : ℕ)
        (m : SnapshotMetadata) (a b c : Files)
      → store rt now source url body headers status a ≡ (some m, b)
      → Steps b c
      → read rt source (rt.hexdigest body) c ≡ some (m, body)
  unfolding store read
  read-store json now source url body headers status m a b c e steps =
      elim (store_snapshot-cases (metadata_for rt now source url body headers status) body a) [
        | inl (u, p) ↦ absurd (cc)
        | inr (mid, first, inl (u, p)) ↦ absurd (cc)
        | inr (mid, first, inr (end, second, p)) ↦
            let pair = sym p ∙ e in
            let written = ap (λ r. r.1) pair in
            let meta = some_injective (ap (λ r. r.0) pair) in
            let text =
              Steps-keeps b c steps _ _
                (ap (content_at _) (sym written) ∙ atomic_write-content _ _ mid end second) in
            let bytes = Steps-keeps b c steps _ _ (
              ap (content_at _) (sym written)
              ∙ atomic_write-keeps _ _ _ _ mid end second (atomic_write-content _ _ a mid first)) in
            cc (
              text,
              bytes,
              json (metadata_for rt now source url body headers status),
              str_eq_refl (rt.hexdigest body),
              meta,
            )
      ]
