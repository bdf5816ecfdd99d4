-- ===== src/SnapshotCache/Examples.antt =====
-- A cache with one fetched file, in which bytes are their own digest.
use continuityos.Prelude.{
  ne_of_str_eq, String, [], ◌∷◌, none, some, ℕ, ◌≡◌, ◌≢◌, ◌⊎◌, refl, str_lt, false,
}
use continuityos.Float.Micro.{micro}
use continuityos.SnapshotCache.{
  FileName, SnapshotMetadata, Files, Runtime, metadata_for, store, store_snapshot, atomic_write,
  read, latest, content_at, same_location, metadata_path, candidates, fetch,
}
use continuityos.SnapshotCache.Immutable.{Steps, read-store}
use continuityos.SnapshotCache.Immutable.Step.{stored, interrupted}
use continuityos.SnapshotCache.Immutable.Steps.{stop, next}
use continuityos.SnapshotCache.Matches.{IsMatch}
use continuityos.SnapshotCache.Served.{IsReadable, latest-IsReadable}
use continuityos.SnapshotCache.Collisions.{store-none_iff, store-again}
use continuityos.SnapshotCache.Encoding.{write, parse, parse-write}

abbrev runtime : Runtime ℕ
runtime = record {
  hexdigest = λ body. body;
  dumps = write;
  loads = parse;
  age_hours = λ t. some 2000000;
}

abbrev morning : SnapshotMetadata
morning = metadata_for runtime "2026-01-01T08" "eia" "https://e" "a1" [] 200

abbrev kept : Files
kept = (store runtime "2026-01-01T08" "eia" "https://e" "a1" [] 200 []).1

store_test : store runtime "2026-01-01T08" "eia" "https://e" "a1" [] 200 [] ≡ (some morning, kept)
unfolding store store_snapshot atomic_write content_at same_location write
store_test = refl

kept-Steps : Steps runtime [] kept
kept-Steps = next (stored "2026-01-01T08" "eia" "https://e" "a1" [] 200) stop

-- a second file, of which only the payload is written
abbrev cut : Files
cut = (record { source_id = "eia"; sha256 = "b2"; name = FileName.payload_bin }, "b2") ∷ kept

cut-Steps : Steps runtime kept cut
unfolding atomic_write content_at same_location store store_snapshot
cut-Steps = next (interrupted "eia" "b2" refl) stop

read-store_example : read runtime "eia" "a1" cut ≡ some (morning, "a1")
read-store_example =
    read-store runtime parse-write "2026-01-01T08" "eia" "https://e" "a1" [] 200 morning [] kept cut
      store_test cut-Steps

latest-IsReadable_example :
    (((m : SnapshotMetadata) → ¬ (IsMatch runtime "eia" none (some 3000000) kept m))
      × (latest runtime "eia" none (some 3000000) kept ≡ some none))
    ⊎ ((m : SnapshotMetadata) × IsMatch runtime "eia" none (some 3000000) kept m
        × (r : IsReadable runtime kept "eia" none m) × (latest runtime "eia" none
              (some 3000000)
              kept
            ≡ some (some (m, r.body)))
        × ((c : SnapshotMetadata)
            → IsMatch runtime "eia" none (some 3000000) kept c
            → str_lt m.retrieved_at c.retrieved_at ≡ false))
latest-IsReadable_example =
    latest-IsReadable runtime parse-write kept kept-Steps "eia" none (some 3000000)

latest_test : latest runtime "eia" none (some 3000000) kept ≡ some (some (morning, "a1"))
unfolding latest candidates read store store_snapshot atomic_write content_at same_location write
    parse
latest_test = refl

stale_test : latest runtime "eia" none (some 1000000) kept ≡ some none
unfolding latest candidates read store store_snapshot atomic_write content_at same_location write
    parse
stale_test = refl

offline_test : fetch runtime (λ u. none) "2026-01-01T09" "eia" "https://e" false kept ≡ (none, kept)
unfolding fetch
offline_test = refl

second_test : (store runtime "2026-01-01T09" "eia" "https://e" "a1" [] 200 kept).0 ≡ none
unfolding store store_snapshot atomic_write content_at same_location write
second_test = refl

abbrev eight : String
eight = "2026-01-01T08"

abbrev nine : String
nine = "2026-01-01T09"

times-differ : eight ≢ nine
times-differ = ne_of_str_eq eight nine refl

store-none_iff_example :
    (text : String) × (content_at (metadata_path "eia" "a1") kept ≡ some text)
    × (text ≢ write (metadata_for runtime "2026-01-01T09" "eia" "https://e" "a1" [] 200))
store-none_iff_example =
    (store-none_iff runtime kept kept-Steps "2026-01-01T09" "eia" "https://e" "a1" [] 200
        (λ b e. e)).0
      second_test

store-again_example : (store runtime "2026-01-01T09" "eia" "https://e" "a1" [] 200 cut).0 ≡ none
store-again_example =
    store-again runtime parse-write "2026-01-01T08" "eia" "https://e" "a1" [] 200 morning [] kept
      cut store_test cut-Steps "2026-01-01T09" "https://e" [] 200 times-differ
