-- ===== src/PersistentState/Replay.antt =====
-- The claimed telemetry sequence numbers of state.py: what a claim answers, and for how long.
use continuityos.Prelude.{
  ℤ, ◌≤ℤ◌, String, str_append, str_eq, eq_iff, ◌≡◌, ◌≢◌, true, false, Option, some, All, ap, sym,
  ◌∙◌, List, [], ◌∷◌, arith, if◌then◌else◌,
}
use text.Mathlib.TextLemmas.{append_assoc}
use continuityos.PersistentState.Values.{Json, Fields, integer, object, get, put, get-put}
use continuityos.PersistentState.{
  File, WriteOutcome, written, not_replaced, not_synced, absent, not_utf8, undecodable, holds, ok,
  section_of, joined_key, carry_out, claim_plan, claim_sequence, save_idempotent, set_value,
}

-- The number `s` or a higher one is recorded for the key.
abbrev pub AtLeast : ℤ → Option Json → Type 0
AtLeast s (some (integer p)) = s ≤ℤ p
AtLeast s _ = ⊥

abbrev InSection : String → ℤ → Json → Type 0
InSection k s (object d) = AtLeast s (get d k)
InSection k s _ = ⊥

abbrev pub Marked : String → ℤ → File → Type 0
Marked k s (holds (object state)) = InSection k s (section_of state "telemetry_sequences")
Marked k s _ = ⊥

module _ (to_int : Json → Option ℤ) (to_int-integer : (n : ℤ) → to_int (integer n) ≡ some n) where
  -- A claim at or below the mark is refused, and the file stays.
  Marked-claim :
      (w : WriteOutcome) (t a : String) (s s' : ℤ) (f : File)
      → Marked (joined_key t a) s f
      → s' ≤ℤ s
      → claim_sequence to_int w t a s' f ≡ (ok false, f)
  unfolding claim_sequence
  Marked-claim w t a s s' absent m le = absurd m
  Marked-claim w t a s s' not_utf8 m le = absurd m
  Marked-claim w t a s s' undecodable m le = absurd m
  Marked-claim w t a s s' (holds (object state)) m le = grind (arith, to_int-integer)
  Marked-claim w t a s s' (holds _) m le = absurd m

section_of-put :
    (state : Fields) (n m : String) (v : Json)
    → section_of (put state n v) m ≡ (if str_eq n m then v else section_of state m)
unfolding section_of
section_of-put state n m v = rw get-put (ground arith)

-- A claim that answered true has set the mark.
claim-Marked :
    (to_int : Json → Option ℤ) (w : WriteOutcome) (t a : String) (s : ℤ) (f : File)
    → (claim_sequence to_int w t a s f).0 ≡ ok true
    → Marked (joined_key t a) s (claim_sequence to_int w t a s f).1
unfolding claim_sequence
claim-Marked to_int w t a s (holds (object state)) h = grind (arith, get-put, eq_iff)
claim-Marked to_int w t a s absent h = grind (arith, get-put, eq_iff)
claim-Marked to_int w t a s _ h = cc

-- The calls that may write the file.
pub data Call : Type 0 where
  claim : WriteOutcome → String → String → ℤ → Call
  save : WriteOutcome → String → String → String → String → Call
  store : WriteOutcome → String → String → Json → Call

-- No caller stores a value of its own among the claimed sequence numbers.
abbrev pub LeavesSequences : Call → Type 0
LeavesSequences (store w namespace key value) = namespace ≢ "telemetry_sequences"
LeavesSequences _ = Unit

module _ (to_int : Json → Option ℤ) where
  unfoldable pub apply_call : Call → File → File
  apply_call (claim w t a s) f = (claim_sequence to_int w t a s f).1
  apply_call (save w n k p r) f = (save_idempotent w n k p r f).1
  apply_call (store w n k v) f = (set_value w n k v f).1

  unfoldable pub run_calls : List Call → File → File
  run_calls [] f = f
  run_calls (c ∷ cs) f = run_calls cs (apply_call c f)

module _ (to_int : Json → Option ℤ) (to_int-integer : (n : ℤ) → to_int (integer n) ≡ some n) where
  claim-keeps-Marked :
      (w : WriteOutcome) (t a k : String) (s s' : ℤ) (f : File)
      → Marked k s f
      → Marked k s (claim_sequence to_int w t a s' f).1
  unfolding claim_sequence
  claim-keeps-Marked written t a k s s' (holds (object state)) m =
      grind (arith, get-put, eq_iff, to_int-integer)
  claim-keeps-Marked not_replaced t a k s s' (holds (object state)) m =
      grind (arith, get-put, eq_iff, to_int-integer)
  claim-keeps-Marked not_synced t a k s s' (holds (object state)) m =
      grind (arith, get-put, eq_iff, to_int-integer)
  claim-keeps-Marked w t a k s s' _ m = absurd m

save-keeps-Marked :
    (w : WriteOutcome) (n j p r k : String) (s : ℤ) (f : File)
    → Marked k s f
    → Marked k s (save_idempotent w n j p r f).1
unfolding save_idempotent
save-keeps-Marked w n j p r k s (holds (object state)) m = grind (arith, get-put, eq_iff)
save-keeps-Marked w n j p r k s _ m = absurd m

store-keeps-Marked :
    (w : WriteOutcome) (n j k : String) (v : Json) (s : ℤ) (f : File)
    → n ≢ "telemetry_sequences"
    → Marked k s f
    → Marked k s (set_value w n j v f).1
unfolding set_value
store-keeps-Marked w n j k v s (holds (object state)) ne m = grind (arith, get-put, eq_iff)
store-keeps-Marked w n j k v s _ ne m = absurd m

module _ (to_int : Json → Option ℤ) (to_int-integer : (n : ℤ) → to_int (integer n) ≡ some n) where
  call-keeps-Marked :
      (c : Call) (k : String) (s : ℤ) (f : File)
      → LeavesSequences c
      → Marked k s f
      → Marked k s (apply_call to_int c f)
  unfolding apply_call
  call-keeps-Marked (claim w t a s') k s f l m =
      claim-keeps-Marked to_int to_int-integer w t a k s s' f m
  call-keeps-Marked (save w n j p r) k s f l m = save-keeps-Marked w n j p r k s f m
  call-keeps-Marked (store w n j v) k s f l m = store-keeps-Marked w n j k v s f l m

  run-keeps-Marked :
      (cs : List Call) (k : String) (s : ℤ) (f : File)
      → All LeavesSequences cs
      → Marked k s f
      → Marked k s (run_calls to_int cs f)
  unfolding run_calls
  run-keeps-Marked [] k s f l m = m
  run-keeps-Marked (c ∷ cs) k s f (l, ls) m =
      run-keeps-Marked cs k s (apply_call to_int c f) ls (call-keeps-Marked c k s f l m)

  -- Once a sequence number is claimed, a claim of it or of a lower one for the same tenant and asset
  -- is refused and leaves the file alone, however many claims, saves and stores ran in between,
  -- their failed writes included, if none of them stored a value in the sequences' own namespace.
  pub claimed_never_again :
      (w w' : WriteOutcome) (t a : String) (s s' : ℤ) (f : File) (cs : List Call)
      → (claim_sequence to_int w t a s f).0 ≡ ok true
      → All LeavesSequences cs
      → s' ≤ℤ s
      → let after = run_calls to_int cs (claim_sequence to_int w t a s f).1 in
        claim_sequence to_int w' t a s' after ≡ (ok false, after)
  claimed_never_again w w' t a s s' f cs h ls le =
      Marked-claim to_int to_int-integer w' t a s s' _
        (run-keeps-Marked cs (joined_key t a) s _ ls (claim-Marked to_int w t a s f h)) le

pub joined_key_assoc :
    (t a b : String) → joined_key t (joined_key a b) ≡ joined_key (joined_key t a) b
unfolding joined_key
joined_key_assoc t a b = sym (
    append_assoc t (str_append ":" a) (str_append ":" b)
    ∙ ap (str_append t) (append_assoc ":" a (str_append ":" b)))

-- Two pairs of a tenant and an asset with the same text around the colon share one sequence: the
-- claims of the tenant `t` for the asset `a:b` and of the tenant `t:a` for the asset `b` are one
-- call.
claims_share_keys :
    (to_int : Json → Option ℤ) (w : WriteOutcome) (t a b : String) (s : ℤ) (f : File)
    → claim_sequence to_int w t (joined_key a b) s f
      ≡ claim_sequence to_int w (joined_key t a) b s f
unfolding claim_sequence
claims_share_keys to_int w t a b s f =
    ap (λ k. carry_out w (claim_plan to_int k s f) f) (joined_key_assoc t a b)
