-- ===== src/Evidence/Runs.antt =====
-- Runs of appends of evidence.py, from a ledger that is not there yet.
use continuityos.Prelude.{
  ℕ, List, [], ◌∷◌, ◌++◌, Bool, true, false, Option, none, some, ◌≡◌, refl, ap, sym, ◌∙◌, inl, inr,
  All, All-append, subst,
}
use mathlib.Core.List.{append_assoc, append-nil}
use continuityos.Evidence.Serial.{IsLine, serialise, serialise-snoc, chain_errors, verify-serialise}
use continuityos.Evidence.Chain.{
  KeysMatch, Represents, end_hash, chain_errors-snoc, new_record_clean, last_hash-end_hash,
  existing-Represents, append_fails, append_works,
}
use continuityos.Evidence.{
  Request, EvidenceRecord, EvidenceLedger, genesis, new_record, append, verify,
}

module _ {P : Type 0} (ledger : EvidenceLedger P) where
  abbrev pub returned : Option (EvidenceRecord P) → List (EvidenceRecord P)
  returned none = []
  returned (some r) = r ∷ []

  -- Appends in sequence, each with what the disk lets it do: the records returned, and the file.
  unfoldable pub run :
      List (Bool × Request P) → Option (List ℕ) → List (EvidenceRecord P) × Option (List ℕ)
  run [] file = ([], file)
  run ((written, q) ∷ calls) file =
      let (r, file') = append ledger written q file in
      let (rs, file'') = run calls file' in (returned r ++ rs, file'')

  -- The file holds the records, each one a line, and they are a chain.
  record IsChain (rs : List (EvidenceRecord P)) (file : Option (List ℕ)) : Type 0 where
    holds : Represents ledger rs file
    lines : All (IsLine ledger) rs
    chained : chain_errors ledger 1 genesis rs ≡ []

  abbrev next : Request P → List (EvidenceRecord P) → EvidenceRecord P
  next q rs = new_record ledger q (end_hash ledger genesis rs)

  append-false :
      (q : Request P) (rs : List (EvidenceRecord P)) (file : Option (List ℕ))
      → IsChain rs file
      → append ledger false q file ≡ (none, file)
  append-false q rs file c =
      append_fails ledger q _ file (last_hash-end_hash ledger rs file c.holds c.lines)

  append-true :
      (q : Request P) (rs : List (EvidenceRecord P)) (file : Option (List ℕ))
      → IsChain rs file
      → append ledger true q file
        ≡ (some (next q rs), some (serialise ledger (rs ++ next q rs ∷ [])))
  append-true q rs file c =
      append_works ledger q _ file (last_hash-end_hash ledger rs file c.holds c.lines)
      ∙ ap (λ bytes. (some (next q rs), some bytes))
          (ap (λ b. b ++ (ledger.encode (next q rs) ++ 10 ∷ []))
              (existing-Represents ledger rs file c.holds)
            ∙ sym (serialise-snoc ledger rs (next q rs)))

  next-IsChain :
      (q : Request P) (rs : List (EvidenceRecord P)) (file : Option (List ℕ))
      → KeysMatch ledger ledger.private_key
      → IsChain rs file
      → IsLine ledger (next q rs)
      → IsChain (rs ++ next q rs ∷ []) (some (serialise ledger (rs ++ next q rs ∷ [])))
  next-IsChain q rs file k c l = record {
    holds = inl refl;
    lines = (All-append (IsLine ledger) rs (next q rs ∷ [])).1 (c.lines, (l, tt));
    chained =
        chain_errors-snoc ledger 1 genesis rs (next q rs)
          (λ i. new_record_clean ledger ledger.private_key q (end_hash ledger genesis rs) i refl k)
          c.chained;
  }

  run-nil :
      (rs : List (EvidenceRecord P)) (file : Option (List ℕ))
      → IsChain rs file
      → IsChain (rs ++ (run [] file).0) (run [] file).1
  unfolding run
  run-nil rs file c = rw (append-nil rs) c

  run-false :
      (q : Request P) (calls : List (Bool × Request P)) (rs : List (EvidenceRecord P))
      (file : Option (List ℕ))
      → IsChain rs file
      → run ((false, q) ∷ calls) file ≡ run calls file
  unfolding run
  run-false q calls rs file c = rw (append-false q rs file c)

  -- The file after an append.
  abbrev extended : Request P → List (EvidenceRecord P) → Option (List ℕ)
  extended q rs = some (serialise ledger (rs ++ next q rs ∷ []))

  run-true :
      (q : Request P) (calls : List (Bool × Request P)) (rs : List (EvidenceRecord P))
      (file : Option (List ℕ))
      → IsChain rs file
      → run ((true, q) ∷ calls) file
        ≡ (next q rs ∷ (run calls (extended q rs)).0, (run calls (extended q rs)).1)
  unfolding run
  run-true q calls rs file c = rw (append-true q rs file c)

  run-IsChain :
      (calls : List (Bool × Request P)) (rs : List (EvidenceRecord P)) (file : Option (List ℕ))
      → KeysMatch ledger ledger.private_key
      → IsChain rs file
      → All (IsLine ledger) (run calls file).0
      → IsChain (rs ++ (run calls file).0) (run calls file).1
  run-IsChain [] rs file k c = λ l. run-nil rs file c
  run-IsChain ((false, q) ∷ calls) rs file k c =
      subst (λ x. All (IsLine ledger) x.0 → IsChain (rs ++ x.0) x.1)
        (sym (run-false q calls rs file c)) (run-IsChain calls rs file k c)
  run-IsChain ((true, q) ∷ calls) rs file k c =
      subst (λ x. All (IsLine ledger) x.0 → IsChain (rs ++ x.0) x.1)
        (sym (run-true q calls rs file c))
        (λ l.
          subst (λ zs. IsChain zs (run calls (extended q rs)).1)
            (append_assoc rs (next q rs ∷ []) (run calls (extended q rs)).0)
            (run-IsChain calls (rs ++ next q rs ∷ []) (extended q rs) k
              (next-IsChain q rs file k c l.0) l.1))

  absent-IsChain : IsChain [] none
  unfolding chain_errors
  absent-IsChain = record { holds = inr (refl, refl); lines = tt; chained = refl }

  verify-none : verify ledger none ≡ []
  unfolding verify
  verify-none = refl

  IsChain-verify :
      (rs : List (EvidenceRecord P)) (file : Option (List ℕ))
      → IsChain rs file
      → verify ledger file ≡ []
  IsChain-verify rs file c = elim c.holds [
    | inl e ↦ rw e (verify-serialise ledger rs c.lines ∙ c.chained)
    | inr (e, e') ↦ rw e verify-none
  ]

  -- After any run of appends from a ledger that is not there yet, where a write may fail or not, if
  -- each record that was returned is read back from its bytes, which are one line of less than 4096
  -- bytes: the file holds the records that were returned, `verify` reports nothing, and an append
  -- that the disk lets through returns a record.
  pub run_verifies :
      (calls : List (Bool × Request P)) (q : Request P)
      → KeysMatch ledger ledger.private_key
      → All (IsLine ledger) (run calls none).0
      → let (rs, file) = run calls none in
        Represents ledger rs file
        × (verify ledger file ≡ [])
        × (r : EvidenceRecord P) × ((append ledger true q file).0 ≡ some r)
  run_verifies calls q k l =
      let c = run-IsChain calls [] none k absent-IsChain l in
      let (rs, file) = run calls none in
      (c.holds, IsChain-verify rs file c, next q rs, ap (λ x. x.0) (append-true q rs file c))
