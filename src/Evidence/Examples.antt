-- ===== src/Evidence/Examples.antt =====
-- Ledgers of evidence.py with stand-ins for the digest, the codec and the keys.
use continuityos.Prelude.{
  ℕ, zero, suc, String, str_append, str_eq, List, [], ◌∷◌, ◌++◌, Bool, true, false, Option, none,
  some, ◌≡◌, ◌≢◌, refl, ap, subst, sym, ◌∙◌, inl, inr, arith, pos, length, Any, if◌then◌else◌, ◌⊎◌,
  ne_of_str_eq,
}
use text.Mathlib.TextPositions.{eq_refl}
use continuityos.Evidence.Bytes.{starts, tail, split_skipping, break_length, is_blank}
use continuityos.Evidence.Lines.{HasNoBreak}
use continuityos.Evidence.Serial.{IsLine, serialise}
use continuityos.Evidence.Chain.{Represents}
use continuityos.Evidence.Runs.{run, run_verifies}
use continuityos.Evidence.Tampering.{contents, read_file, read_lines, verified_agree}
use continuityos.Evidence.Bytes.{take, drop}
use continuityos.Evidence.Reading.{first_with, read_back}
use continuityos.Evidence.{records, get_record}
use continuityos.Evidence.Stuck.{append_stuck}
use continuityos.Evidence.{
  Request, Unsigned, EvidenceRecord, EvidenceLedger, genesis, new_record, last_hash, append, verify,
}

abbrev sighting : String → Request ℕ
sighting id = record {
  record_id = id;
  created_at = "2026-01-01";
  record_type = "observation";
  subject_id = "north";
  payload = 7;
}

abbrev stored : String → String → EvidenceRecord ℕ
stored id previous = record {
  unsigned = record {
    record_id = id;
    created_at = "2026-01-01";
    record_type = "observation";
    subject_id = "north";
    payload = 7;
    previous_hash = previous;
  };
  record_hash = str_append "h" id;
  signature = some (str_append "s" (str_append "h" id));
  signing_key_id = some "k";
}

-- The texts `{1}` and `{2}` for the two records.
abbrev encode_two : EvidenceRecord ℕ → List ℕ
encode_two r = if str_eq r.unsigned.record_id "r1" then 123 ∷ 49 ∷ 125 ∷ [] else 123 ∷ 50 ∷ 125 ∷ []

abbrev decode_two : List ℕ → Option (EvidenceRecord ℕ)
decode_two line =
    if starts 49 (tail line)
    then some (stored "r1" genesis)
    else if starts 50 (tail line)
    then some (stored "r2" "hr1")
    else none

abbrev ledger : EvidenceLedger ℕ
ledger = record {
  private_key = some (record { sign = str_append "s"; key_id = "k" });
  public_key = some (λ s h. str_eq s (str_append "s" h));
  digest = λ u. str_append "h" u.record_id;
  encode = encode_two;
  decode = decode_two;
}

-- The second append finds the disk full.
abbrev calls : List (Bool × Request ℕ)
calls = (true, sighting "r1") ∷ (false, sighting "r2") ∷ (true, sighting "r2") ∷ []

stored_one : IsLine ledger (stored "r1" genesis)
unfolding break_length is_blank
stored_one = record {
  reads = refl;
  no_break = (refl, (refl, (refl, tt)));
  not_blank = refl;
  short = omega arith;
}

stored_two : IsLine ledger (stored "r2" "hr1")
unfolding break_length is_blank
stored_two = record {
  reads = refl;
  no_break = (refl, (refl, (refl, tt)));
  not_blank = refl;
  short = omega arith;
}

returned_two : (run ledger calls none).0 ≡ stored "r1" genesis ∷ stored "r2" "hr1" ∷ []
unfolding run append new_record last_hash
returned_two = refl

run_verifies_example :
    let (rs, file) = run ledger calls none in
    Represents ledger rs file
    × (verify ledger file ≡ [])
    × (r : EvidenceRecord ℕ) × ((append ledger true (sighting "r3") file).0 ≡ some r)
run_verifies_example =
    run_verifies ledger calls (sighting "r3")
      ((λ s h. str_eq s (str_append "s" h)), refl, λ h. eq_refl (str_append "s" h))
      (rw returned_two (stored_one, (stored_two, tt)))

-- The ledger as it was written, and as an editor might have saved it.
abbrev written_bytes : List ℕ
written_bytes = 123 ∷ 49 ∷ 125 ∷ 10 ∷ 123 ∷ 50 ∷ 125 ∷ 10 ∷ []

abbrev saved_bytes : List ℕ
saved_bytes = 123 ∷ 49 ∷ 125 ∷ 13 ∷ 10 ∷ 123 ∷ 50 ∷ 125 ∷ []

read_written : read_file ledger written_bytes ≡ stored "r1" genesis ∷ stored "r2" "hr1" ∷ []
unfolding read_lines split_skipping break_length
read_written = refl

read_saved : read_file ledger saved_bytes ≡ stored "r1" genesis ∷ stored "r2" "hr1" ∷ []
unfolding read_lines split_skipping break_length
read_saved = refl

verify_written : verify ledger (some written_bytes) ≡ []
unfolding verify split_skipping break_length
verify_written = refl

verify_saved : verify ledger (some saved_bytes) ≡ []
unfolding verify split_skipping break_length
verify_saved = refl

no_collision :
    (u v : Unsigned ℕ)
    → (u ≡ (stored "r1" genesis).unsigned) ⊎ ((u ≡ (stored "r2" "hr1").unsigned) ⊎ ⊥)
    → (v ≡ (stored "r1" genesis).unsigned) ⊎ ((v ≡ (stored "r2" "hr1").unsigned) ⊎ ⊥)
    → ledger.digest u ≡ ledger.digest v
    → u ≡ v
no_collision u v (inl e) (inl k) d = cc
no_collision u v (inl e) (inr (inl k)) d =
    absurd (ne_of_str_eq "hr1" "hr2" refl (sym (ap ledger.digest e) ∙ d ∙ ap ledger.digest k))
no_collision u v (inr (inl e)) (inl k) d =
    absurd (ne_of_str_eq "hr2" "hr1" refl (sym (ap ledger.digest e) ∙ d ∙ ap ledger.digest k))
no_collision u v (inr (inl e)) (inr (inl k)) d = cc
no_collision u v (inl e) (inr (inr k)) d = absurd k
no_collision u v (inr (inl e)) (inr (inr k)) d = absurd k
no_collision u v (inr (inr e)) b d = absurd e

no_first :
    (u : Unsigned ℕ)
    → Any
        (λ w. u ≡ w)
        ((stored "r1" genesis).unsigned
          ∷ (stored "r2" "hr1").unsigned
          ∷ (stored "r1" genesis).unsigned
          ∷ (stored "r2" "hr1").unsigned
          ∷ [])
    → ledger.digest u ≢ genesis
no_first u (inl e) d = ne_of_str_eq "hr1" genesis refl (sym (ap ledger.digest e) ∙ d)
no_first u (inr (inl e)) d = ne_of_str_eq "hr2" genesis refl (sym (ap ledger.digest e) ∙ d)
no_first u (inr (inr (inl e))) d = ne_of_str_eq "hr1" genesis refl (sym (ap ledger.digest e) ∙ d)
no_first u (inr (inr (inr (inl e)))) d =
    ne_of_str_eq "hr2" genesis refl (sym (ap ledger.digest e) ∙ d)
no_first u (inr (inr (inr (inr e)))) d = absurd e

verified_agree_example :
    contents ledger (read_file ledger written_bytes)
    ≡ contents ledger (read_file ledger saved_bytes)
verified_agree_example =
    verified_agree ledger written_bytes saved_bytes
      (λ u v a b.
        no_collision u v (subst (λ rs. Any (λ w. u ≡ w) (contents ledger rs)) read_written a)
          (subst (λ rs. Any (λ w. v ≡ w) (contents ledger rs)) read_saved b))
      (λ u a. no_first u (
        subst
          (λ rs.
            Any (λ w. u ≡ w)
              (contents ledger rs
                ++ contents ledger (stored "r1" genesis ∷ stored "r2" "hr1" ∷ [])))
          read_written
          (subst
            (λ rs.
              Any (λ w. u ≡ w)
                (contents ledger (read_file ledger written_bytes) ++ contents ledger rs))
            read_saved a)))
      verify_written verify_saved (rw (read_written, read_saved))

-- A line of 4096 bytes.
abbrev letters : ℕ → List ℕ
letters zero = []
letters (suc n) = 120 ∷ letters n

letters-HasNoBreak : (n : ℕ) → HasNoBreak (letters n ++ 125 ∷ [])
unfolding break_length
letters-HasNoBreak zero = (refl, tt)
letters-HasNoBreak (suc n) = (refl, letters-HasNoBreak n)

length-letters : (n : ℕ) → length (letters n ++ 125 ∷ []) ≡ suc n
length-letters zero = refl
length-letters (suc n) = ap suc (length-letters n)

abbrev unreadable : EvidenceLedger ℕ
unreadable = record ledger { decode = λ line. none }

append_stuck_example :
    append unreadable true
      (sighting "r2")
      (some (letters 3 ++ 10 ∷ (letters 4095 ++ 125 ∷ []) ++ 10 ∷ []))
    ≡ (none, some (letters 3 ++ 10 ∷ (letters 4095 ++ 125 ∷ []) ++ 10 ∷ []))
append_stuck_example =
    append_stuck unreadable true (sighting "r2") (letters 3 ++ 10 ∷ []) (letters 4095)
      (letters-HasNoBreak 4095) (λ xs ys e h. refl) (omega (arith, length-letters 4095))

read_back_example :
    let rs = stored "r1" genesis ∷ stored "r2" "hr1" ∷ [] in
    let file = some (serialise ledger rs) in
    (records ledger (pos 1) (pos 10) file ≡ some (take 10 (drop 1 rs)))
    × (get_record ledger "r2" file ≡ first_with ledger "r2" rs)
read_back_example =
    read_back ledger 1 10 "r2" (stored "r1" genesis ∷ stored "r2" "hr1" ∷ [])
      (some (serialise ledger (stored "r1" genesis ∷ stored "r2" "hr1" ∷ []))) (inl refl)
      (stored_one, (stored_two, tt)) (omega arith) (omega arith)
