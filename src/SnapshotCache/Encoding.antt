-- ===== src/SnapshotCache/Encoding.antt =====
-- A text for each metadata record, for the examples: every character of a field behind an `x`, a dot at
-- its end. What is written comes back.
use Prim.Native.String.{[], ◌∷◌}
use Prim.Native.Char.{code}
use continuityos.Prelude.{
  ap, ℕ, zero, suc, String, Bool, true, false, Option, none, some, ◌≡◌, refl, ◌==◌, if◌then◌else◌,
}
use continuityos.Struct.{◌>>=◌}
use continuityos.SnapshotCache.{SnapshotMetadata}

abbrev put : String → String → String
put [] rest = "." ∷ rest
put (c ∷ s) rest = "x" ∷ c ∷ put s rest

-- whether the next character belongs to the field, after its mark
abbrev get : Bool → String → Option (String × String)
get marked [] = none
get true (c ∷ t) = get false t >>= λ (s, rest). some (c ∷ s, rest)
get false (c ∷ t) = let later = get true t in if code c == 46 then some ([], t) else later

get-put : (s rest : String) → get false (put s rest) ≡ some (s, rest)
get-put [] rest = refl
get-put (c ∷ s) rest = ap (λ r. r >>= λ (t, more). some (c ∷ t, more)) (get-put s rest)

abbrev put_opt : Option String → String → String
put_opt none rest = "." ∷ rest
put_opt (some s) rest = "x" ∷ put s rest

abbrev get_opt : String → Option (Option String × String)
get_opt [] = none
get_opt (c ∷ t) =
    if code c == 46 then some (none, t) else (get false t >>= λ (s, rest). some (some s, rest))

get_opt-put_opt : (o : Option String) (rest : String) → get_opt (put_opt o rest) ≡ some (o, rest)
get_opt-put_opt none rest = refl
get_opt-put_opt (some s) rest = ap (λ r. r >>= λ (t, more). some (some t, more)) (get-put s rest)

abbrev put_nat : ℕ → String → String
put_nat zero rest = "." ∷ rest
put_nat (suc n) rest = "x" ∷ put_nat n rest

abbrev get_nat : String → Option (ℕ × String)
get_nat [] = none
get_nat (c ∷ t) =
    let later = get_nat t in
    if code c == 46 then some (zero, t) else (later >>= λ (n, rest). some (suc n, rest))

get_nat-put_nat : (n : ℕ) (rest : String) → get_nat (put_nat n rest) ≡ some (n, rest)
get_nat-put_nat zero rest = refl
get_nat-put_nat (suc n) rest =
    ap (λ r. r >>= λ (k, more). some (suc k, more)) (get_nat-put_nat n rest)

unfoldable pub write : SnapshotMetadata → String
write m = put m.snapshot_id (
    put m.source_id (
      put m.url (
        put m.retrieved_at (
          put m.content_sha256 (
            put_opt m.content_type
              (put_opt m.etag (put_opt m.last_modified (put_nat m.status_code []))))))))

unfoldable pub parse : String → Option SnapshotMetadata
parse t = do
  (id, t1) ← get false t
  (source, t2) ← get false t1
  (url, t3) ← get false t2
  (at, t4) ← get false t3
  (sha, t5) ← get false t4
  (kind, t6) ← get_opt t5
  (etag, t7) ← get_opt t6
  (modified, t8) ← get_opt t7
  (status, t9) ← get_nat t8
  some (record {
    snapshot_id = id;
    source_id = source;
    url = url;
    retrieved_at = at;
    content_sha256 = sha;
    content_type = kind;
    etag = etag;
    last_modified = modified;
    status_code = status;
  })

pub parse-write : (m : SnapshotMetadata) → parse (write m) ≡ some m
unfolding parse write
parse-write m = simp (get-put, get_opt-put_opt, get_nat-put_nat) refl
