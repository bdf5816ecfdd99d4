-- ===== src/Evidence/Serial.antt =====
-- The ledger of evidence.py as a list of records, and what its bytes are then.
use continuityos.Prelude.{
  ℕ, zero, suc, ◌-◌, ◌<◌, String, List, [], ◌∷◌, ◌++◌, false, some, ◌≡◌, refl, ap, sym, ◌∙◌, inl,
  inr, arith, length, length-append, All,
}
use mathlib.Core.List.{append_assoc}
use continuityos.Evidence.Bytes.{drop, split_skipping, split_newlines, is_blank, last_non_blank}
use continuityos.Evidence.Lines.{
  HasNoBreak, IsWholeLines, split_skipping-nil, split_skipping-line, last_line, drop-append,
  drop-IsWholeLines,
}
use continuityos.Evidence.{
  EvidenceRecord, EvidenceLedger, LedgerError, genesis, hash_of, last_hash, scan_back,
  record_errors, verify_lines, verify,
}

module _ {P : Type 0} (ledger : EvidenceLedger P) where
  -- The record is read back from its bytes, which are one line and, with a newline, fit in one
  -- round of the search for the last record.
  pub record IsLine (r : EvidenceRecord P) : Type 0 where
    pub reads : ledger.decode (ledger.encode r) ≡ some r
    pub no_break : HasNoBreak (ledger.encode r)
    pub not_blank : is_blank (ledger.encode r) ≡ false
    pub short : length (ledger.encode r) < 4096

  unfoldable pub serialise : List (EvidenceRecord P) → List ℕ
  serialise [] = []
  serialise (r ∷ rs) = ledger.encode r ++ 10 ∷ serialise rs

  pub serialise-append :
      (rs ss : List (EvidenceRecord P)) → serialise (rs ++ ss) ≡ serialise rs ++ serialise ss
  unfolding serialise
  serialise-append [] ss = refl
  serialise-append (r ∷ rs) ss =
      rw (serialise-append rs ss)
        (sym (append_assoc (ledger.encode r) (10 ∷ serialise rs) (serialise ss)))

  pub serialise-snoc :
      (rs : List (EvidenceRecord P)) (r : EvidenceRecord P)
      → serialise (rs ++ r ∷ []) ≡ serialise rs ++ (ledger.encode r ++ 10 ∷ [])
  unfolding serialise
  serialise-snoc rs r = serialise-append rs (r ∷ [])

  serialise-IsWholeLines : (rs : List (EvidenceRecord P)) → IsWholeLines (serialise rs)
  unfolding serialise
  serialise-IsWholeLines [] = inl refl
  serialise-IsWholeLines (r ∷ rs) = elim (serialise-IsWholeLines rs) [
    | inl e ↦ inr (ledger.encode r, rw e)
    | inr (ys, e) ↦ inr (
      ledger.encode r ++ 10 ∷ ys,
      rw e (sym (append_assoc (ledger.encode r) (10 ∷ ys) (10 ∷ []))),
    )
  ]

  -- What `verify` reports of a list of records.
  unfoldable pub chain_errors : ℕ → String → List (EvidenceRecord P) → List LedgerError
  chain_errors index previous [] = []
  chain_errors index previous (r ∷ rs) =
      record_errors ledger index previous r ++ chain_errors (suc index) r.record_hash rs

  verify_lines-cons :
      (index : ℕ) (previous : String) (line : List ℕ) (lines : List (List ℕ)) (r : EvidenceRecord P)
      → ledger.decode line ≡ some r
      → verify_lines ledger index previous (line ∷ lines)
        ≡ record_errors ledger index previous r
          ++ verify_lines ledger (suc index) r.record_hash lines
  unfolding verify_lines
  verify_lines-cons index previous line lines r h = rw (h, verify_lines)

  verify_lines-serialise :
      (index : ℕ) (previous : String) (rs : List (EvidenceRecord P))
      → All IsLine rs
      → verify_lines ledger index previous (split_skipping 0 (serialise rs))
        ≡ chain_errors index previous rs
  unfolding serialise chain_errors verify_lines
  verify_lines-serialise index previous [] h = rw split_skipping-nil
  verify_lines-serialise index previous (r ∷ rs) h =
      rw (split_skipping-line (ledger.encode r) (serialise rs) h.0.no_break) (
        verify_lines-cons index previous (ledger.encode r) _ r h.0.reads
        ∙ ap (λ es. record_errors ledger index previous r ++ es)
            (verify_lines-serialise (suc index) r.record_hash rs h.1))

  pub verify-serialise :
      (rs : List (EvidenceRecord P))
      → All IsLine rs
      → verify ledger (some (serialise rs)) ≡ chain_errors 1 genesis rs
  unfolding verify
  verify-serialise rs h = verify_lines-serialise 1 genesis rs h

  pub scan_back-line :
      (bytes line : List ℕ) (n : ℕ)
      → last_non_blank (split_newlines (drop (n - 4096) bytes)) ≡ some line
      → 0 < n
      → scan_back ledger bytes n n ≡ hash_of ledger (ledger.decode line)
  unfolding scan_back
  scan_back-line bytes line zero h p = absurd (omega arith)
  scan_back-line bytes line (suc n) h p = rw h (ground arith)

  last_in_chunk :
      (xs line : List ℕ)
      → IsWholeLines xs
      → HasNoBreak line
      → is_blank line ≡ false
      → length line < 4096
      → last_non_blank (
          split_newlines (drop (length (xs ++ (line ++ 10 ∷ [])) - 4096) (xs ++ (line ++ 10 ∷ []))))
        ≡ some line
  last_in_chunk xs line w h b le =
      let k = length (xs ++ (line ++ 10 ∷ [])) - 4096 in
      rw
        (drop-append k xs (line ++ 10 ∷ [])
          (omega (arith, length-append xs (line ++ 10 ∷ []), length-append line (10 ∷ []))))
        (last_line (drop k xs) line (drop-IsWholeLines k xs w) h b)

  pub last_hash-serialise :
      (rs : List (EvidenceRecord P)) (r : EvidenceRecord P)
      → IsLine r
      → last_hash ledger (some (serialise (rs ++ r ∷ []))) ≡ some r.record_hash
  unfolding last_hash
  last_hash-serialise rs r h =
      let line = ledger.encode r in
      rw (serialise-snoc rs r) (
        scan_back-line (serialise rs ++ (line ++ 10 ∷ [])) line _
          (last_in_chunk (serialise rs) line (serialise-IsWholeLines rs) h.no_break h.not_blank
            h.short)
          (omega
            (arith, length-append (serialise rs) (line ++ 10 ∷ []), length-append line (10 ∷ [])))
        ∙ ap (hash_of ledger) h.reads)
