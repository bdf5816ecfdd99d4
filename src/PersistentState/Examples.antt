-- ===== src/PersistentState/Examples.antt =====
-- A store that state.py keeps, through claims and saves.
use continuityos.Prelude.{
  ℤ, pos, ◌≡◌, refl, true, false, Option, none, some, [], ◌∷◌, arith, ne_of_str_eq,
}
use continuityos.PersistentState.Values.{Json, integer, text, get, put}
use continuityos.PersistentState.{
  absent, ok, err, os_error, written, not_replaced, not_synced, joined_key, idempotency_conflict,
  claim_sequence, save_idempotent, get_idempotent,
}
use continuityos.PersistentState.Replay.{claim, save, store, run_calls, claimed_never_again}
use continuityos.PersistentState.Idempotency.{reused_key_conflicts}

-- `int` on the numbers that the store itself writes.
abbrev to_int : Json → Option ℤ
to_int (integer n) = some n
to_int _ = none

claimed : (claim_sequence to_int written "north" "buoy" (pos 7) absent).0 ≡ ok true
unfolding claim_sequence get put
claimed = refl

claimed_never_again_example :
    let after =
      run_calls to_int
        (claim written "north" "buoy" (pos 9) ∷ store written "watch" "k" (text "v") ∷ [])
        (claim_sequence to_int written "north" "buoy" (pos 7) absent).1 in
    claim_sequence to_int written "north" "buoy" (pos 7) after ≡ (ok false, after)
claimed_never_again_example =
    claimed_never_again to_int (λ n. refl) written written "north" "buoy" (pos 7) (pos 7) absent
      (claim written "north" "buoy" (pos 9) ∷ store written "watch" "k" (text "v") ∷ []) claimed
      (tt, (ne_of_str_eq "watch" "telemetry_sequences" refl, tt)) (omega arith)

saved : (save_idempotent written "plan" "k1" "f1" "r1" absent).0 ≡ ok tt
unfolding save_idempotent get put
saved = refl

reused_key_conflicts_example :
    let after =
      run_calls to_int
        (save written "plan" "k2" "f2" "r2" ∷ [])
        (save_idempotent written "plan" "k1" "f1" "r1" absent).1 in
    (get_idempotent "plan" "k1" "f3" after ≡ err idempotency_conflict)
    × (save_idempotent written "plan" "k1" "f3" "r3" after ≡ (err idempotency_conflict, after))
reused_key_conflicts_example =
    reused_key_conflicts to_int written written "plan" "k1" "f1" "f3" "r1" "r3" absent
      (save written "plan" "k2" "f2" "r2" ∷ []) saved (tt, tt) (ne_of_str_eq "f3" "f1" refl)

disk_full :
    claim_sequence to_int not_replaced "north" "buoy" (pos 7) absent ≡ (err os_error, absent)
unfolding claim_sequence get
disk_full = refl

-- The number is taken although the claim raised.
directory_lost :
    let (answer, after) = claim_sequence to_int not_synced "north" "buoy" (pos 7) absent in
    (answer ≡ err os_error)
    × ((claim_sequence to_int written "north" "buoy" (pos 7) after).0 ≡ ok false)
unfolding claim_sequence get put joined_key
directory_lost = (refl, refl)
