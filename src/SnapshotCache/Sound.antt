-- ===== src/SnapshotCache/Sound.antt =====
-- A cache of sources/cache.py that only the stores have written is sound: each payload has its
-- directory's digest, and beside each metadata file lies its payload.
use continuityos.Prelude.{String, some, ◌≡◌, inl, inr, refl, ap, sym, subst, All, All-map}
use continuityos.SnapshotCache.{
  SnapshotMetadata, FileName, Location, Files, Runtime, content_at, payload_path, metadata_path,
  atomic_write, metadata_for, store,
}
use continuityos.SnapshotCache.FileName.{payload_bin, metadata_json}
use continuityos.SnapshotCache.Immutable.Step.{stored, interrupted}
use continuityos.SnapshotCache.Immutable.Steps.{stop, next}
use continuityos.SnapshotCache.Immutable.{
  atomic_write-cases, atomic_write-content, atomic_write-keeps, Step, Steps, store_snapshot-cases,
}

module _ {F : Type 0} (rt : Runtime F) where
  -- What holds of a file with these bytes, among all the files.
  abbrev pub IsFine : Files → FileName → String → String → String → Type 0
  IsFine files payload_bin source sha c = rt.hexdigest c ≡ sha
  IsFine files metadata_json source sha c =
      (content_at (metadata_path source sha) files ≡ some c)
      × ((m : SnapshotMetadata) × (c ≡ rt.dumps m)
          × (m.source_id ≡ source)
          × (m.content_sha256 ≡ sha))
      × ((body : String) × (content_at (payload_path source sha) files ≡ some body)
          × (rt.hexdigest body ≡ sha))

  abbrev pub IsSound : Files → Type 0
  IsSound files = All (λ e. IsFine files e.0.name e.0.source_id e.0.sha256 e.1) files

  IsFine-keeps :
      (a b : Files)
      → ((k : Location) (d : String) → content_at k a ≡ some d → content_at k b ≡ some d)
      → (n : FileName) (source sha c : String) → IsFine a n source sha c
      → IsFine b n source sha c
  IsFine-keeps a b keeps payload_bin source sha c h = h
  IsFine-keeps a b keeps metadata_json source sha c (there, meta, (body, bytes, digest)) =
      (keeps _ c there, meta, (body, keeps _ body bytes, digest))

  atomic_write-IsSound :
      (l : Location) (c : String) (a b : Files)
      → atomic_write l c a ≡ some b
      → IsSound a
      → IsFine b l.name l.source_id l.sha256 c
      → IsSound b
  atomic_write-IsSound l c a b w sound fine = elim (atomic_write-cases l c a b w) [
    | inl (p, q) ↦ subst IsSound (sym q) sound
    | inr (p, q) ↦
        subst (λ files. All (λ e. IsFine b e.0.name e.0.source_id e.0.sha256 e.1) files) (sym q)
          (
            fine,
            All-map
                (λ e.
                  IsFine-keeps a b (λ k d. atomic_write-keeps l k c d a b w) e.0.name e.0.source_id
                    e.0.sha256 e.1)
                a sound,
          )
  ]

  Step-IsSound : (a b : Files) → Step rt a b → IsSound a → IsSound b
  unfolding store
  Step-IsSound a b (interrupted source body e) sound = atomic_write-IsSound _ body a b e sound refl
  Step-IsSound a _ (stored now source url body headers status) sound =
      let m = metadata_for rt now source url body headers status in
      elim (store_snapshot-cases rt m body a) [
        | inl (u, e) ↦ subst IsSound (sym (ap (λ r. r.1) e)) sound
        | inr (mid, p, inl (u, e)) ↦
            subst IsSound (sym (ap (λ r. r.1) e)) (atomic_write-IsSound _ body a mid p sound refl)
        | inr (mid, p, inr (end, q, e)) ↦ subst IsSound (sym (ap (λ r. r.1) e)) (
            atomic_write-IsSound _ (rt.dumps m) mid end q
              (atomic_write-IsSound _ body a mid p sound refl)
              (
                atomic_write-content _ _ mid end q,
                (m, refl, refl, refl),
                (
                  body,
                  atomic_write-keeps _ _ _ body mid end q (atomic_write-content _ body a mid p),
                  refl,
                ),
              ))
      ]

  pub Steps-IsSound : (a b : Files) → Steps rt a b → IsSound a → IsSound b
  Steps-IsSound a _ stop sound = sound
  Steps-IsSound a c (next {b = b} s rest) sound = Steps-IsSound b c rest (Step-IsSound a b s sound)
