-- ===== src/PersistentState/Idempotency.antt =====
-- The idempotency records of state.py: what is saved under a key is what a retry is answered.
use continuityos.Prelude.{String, ℤ, eq_iff, ◌≡◌, ◌≢◌, Option, some, All, List, [], ◌∷◌, arith}
use continuityos.PersistentState.Values.{Json, text, object, get, get-put}
use continuityos.PersistentState.{
  File, WriteOutcome, absent, holds, ok, err, section_of, joined_key, get_idempotent,
  save_idempotent, set_value, claim_sequence, idempotency_conflict,
}
use continuityos.PersistentState.Replay.{Call, claim, save, store, apply_call, run_calls}

-- The record under a key has the fingerprint.
abbrev HasFingerprint : String → Option Json → Type 0
HasFingerprint p (some (object record_fields)) = get record_fields "fingerprint" ≡ some (text p)
HasFingerprint p _ = ⊥

abbrev InRecords : String → String → Json → Type 0
InRecords k p (object records) = HasFingerprint p (get records k)
InRecords k p _ = ⊥

abbrev pub Recorded : String → String → File → Type 0
Recorded k p (holds (object state)) = InRecords k p (section_of state "idempotency")
Recorded k p _ = ⊥

-- A response that was saved is what a retry with the same fingerprint is answered.
pub get-save :
    (w : WriteOutcome) (n k p r : String) (f : File)
    → (save_idempotent w n k p r f).0 ≡ ok tt
    → get_idempotent n k p (save_idempotent w n k p r f).1 ≡ ok (some r)
unfolding save_idempotent get_idempotent
get-save w n k p r (holds (object state)) h = grind (arith, get-put, eq_iff)
get-save w n k p r absent h = grind (arith, get-put, eq_iff)
get-save w n k p r _ h = cc

save-Recorded :
    (w : WriteOutcome) (n k p r : String) (f : File)
    → (save_idempotent w n k p r f).0 ≡ ok tt
    → Recorded (joined_key n k) p (save_idempotent w n k p r f).1
unfolding save_idempotent
save-Recorded w n k p r (holds (object state)) h = grind (arith, get-put, eq_iff)
save-Recorded w n k p r absent h = grind (arith, get-put, eq_iff)
save-Recorded w n k p r _ h = cc

-- A key that is recorded with another fingerprint is refused, for a read and for a save.
Recorded-conflict :
    (w : WriteOutcome) (n k p q r : String) (f : File)
    → Recorded (joined_key n k) p f
    → q ≢ p
    → (get_idempotent n k q f ≡ err idempotency_conflict)
      × (save_idempotent w n k q r f ≡ (err idempotency_conflict, f))
unfolding save_idempotent get_idempotent
Recorded-conflict w n k p q r (holds (object state)) m ne =
    (grind (arith, eq_iff p q), grind (arith, eq_iff p q))
Recorded-conflict w n k p q r _ m ne = absurd m

-- No caller stores a value of its own among the idempotency records.
abbrev pub LeavesRecords : Call → Type 0
LeavesRecords (store w namespace key value) = namespace ≢ "idempotency"
LeavesRecords _ = Unit

claim-keeps-Recorded :
    (to_int : Json → Option ℤ) (w : WriteOutcome) (t a k p : String) (s : ℤ) (f : File)
    → Recorded k p f
    → Recorded k p (claim_sequence to_int w t a s f).1
unfolding claim_sequence
claim-keeps-Recorded to_int w t a k p s (holds (object state)) m = grind (arith, get-put, eq_iff)
claim-keeps-Recorded to_int w t a k p s _ m = absurd m

save-keeps-Recorded :
    (w : WriteOutcome) (n j q r k p : String) (f : File)
    → Recorded k p f
    → Recorded k p (save_idempotent w n j q r f).1
unfolding save_idempotent
save-keeps-Recorded w n j q r k p (holds (object state)) m = grind (arith, get-put, eq_iff)
save-keeps-Recorded w n j q r k p _ m = absurd m

store-keeps-Recorded :
    (w : WriteOutcome) (n j k p : String) (v : Json) (f : File)
    → n ≢ "idempotency"
    → Recorded k p f
    → Recorded k p (set_value w n j v f).1
unfolding set_value
store-keeps-Recorded w n j k p v (holds (object state)) ne m = grind (arith, get-put, eq_iff)
store-keeps-Recorded w n j k p v _ ne m = absurd m

module _ (to_int : Json → Option ℤ) where
  run-keeps-Recorded :
      (cs : List Call) (k p : String) (f : File)
      → All LeavesRecords cs
      → Recorded k p f
      → Recorded k p (run_calls to_int cs f)
  unfolding run_calls apply_call
  run-keeps-Recorded [] k p f l m = m
  run-keeps-Recorded (claim w t a s ∷ cs) k p f (l, ls) m =
      run-keeps-Recorded cs k p _ ls (claim-keeps-Recorded to_int w t a k p s f m)
  run-keeps-Recorded (save w n j q r ∷ cs) k p f (l, ls) m =
      run-keeps-Recorded cs k p _ ls (save-keeps-Recorded w n j q r k p f m)
  run-keeps-Recorded (store w n j v ∷ cs) k p f (l, ls) m =
      run-keeps-Recorded cs k p _ ls (store-keeps-Recorded w n j k p v f l m)

  -- Once a response is saved under a key, a read and a save of that key with another fingerprint are
  -- conflicts that leave the file alone, however many claims, saves and stores ran in between, if
  -- none of them stored a value in the records' own namespace.
  pub reused_key_conflicts :
      (w w' : WriteOutcome) (n k p q r r' : String) (f : File) (cs : List Call)
      → (save_idempotent w n k p r f).0 ≡ ok tt
      → All LeavesRecords cs
      → q ≢ p
      → let after = run_calls to_int cs (save_idempotent w n k p r f).1 in
        (get_idempotent n k q after ≡ err idempotency_conflict)
        × (save_idempotent w' n k q r' after ≡ (err idempotency_conflict, after))
  reused_key_conflicts w w' n k p q r r' f cs h ls ne =
      Recorded-conflict w' n k p q r' _
        (run-keeps-Recorded cs (joined_key n k) p _ ls (save-Recorded w n k p r f h)) ne
