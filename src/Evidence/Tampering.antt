-- ===== src/Evidence/Tampering.antt =====
-- What `verify` of evidence.py fixes: the end of a chain determines what stands before it.
use continuityos.Prelude.{
  ℕ, suc, String, eq_iff, List, [], ◌∷◌, ◌++◌, map, none, some, ◌≡◌, refl, ap, sym, ◌∙◌, inl, inr,
  arith, length, Any, Any-append, Option-cases, ◌≢◌, ◌<◌,
}
use native.Mathlib.Decide.{dec_lt}
use continuityos.Evidence.Bytes.{split_lines}
use continuityos.Evidence.Serial.{chain_errors}
use continuityos.Evidence.Chain.{end_hash, nil_append}
use continuityos.Evidence.{
  Unsigned, EvidenceRecord, EvidenceLedger, genesis, record_errors, verify_lines, verify,
}

module _ {P : Type 0} (ledger : EvidenceLedger P) where
  -- The records that the lines hold.
  unfoldable pub read_lines : List (List ℕ) → List (EvidenceRecord P)
  read_lines [] = []
  read_lines (line ∷ lines) = elim (ledger.decode line) [
    | none ↦ read_lines lines
    | some r ↦ r ∷ read_lines lines
  ]

  abbrev pub read_file : List ℕ → List (EvidenceRecord P)
  read_file bytes = read_lines (split_lines bytes)

  verified_chain :
      (index : ℕ) (previous : String) (lines : List (List ℕ))
      → verify_lines ledger index previous lines ≡ []
      → chain_errors ledger index previous (read_lines lines) ≡ []
  unfolding verify_lines chain_errors read_lines
  verified_chain index previous [] h = refl
  verified_chain index previous (line ∷ lines) h = elim (Option-cases (ledger.decode line)) [
    | inl e ↦ absurd (ground arith)
    | inr (r, e) ↦
        let h' : record_errors ledger index previous r
              ++ verify_lines ledger (suc index) r.record_hash lines
            ≡ [] =
          ground arith in
        let (now, later) =
          nil_append ledger (record_errors ledger index previous r)
            (verify_lines ledger (suc index) r.record_hash lines) h' in
        rw (e, read_lines) (rw now (verified_chain (suc index) r.record_hash lines later))
  ]

  record_errors-nil :
      (index : ℕ) (previous : String) (r : EvidenceRecord P)
      → record_errors ledger index previous r ≡ []
      → (r.unsigned.previous_hash ≡ previous) × (ledger.digest r.unsigned ≡ r.record_hash)
  unfolding record_errors
  record_errors-nil index previous r h = (
    grind (arith, eq_iff r.unsigned.previous_hash previous),
    grind (arith, eq_iff (ledger.digest r.unsigned) r.record_hash),
  )

  abbrev pub contents : List (EvidenceRecord P) → List (Unsigned P)
  contents rs = map (λ r. r.unsigned) rs

  agree :
      (i j : ℕ) (p q : String) (rs ss : List (EvidenceRecord P))
      → ((u v : Unsigned P)
          → Any (λ w. u ≡ w) (contents rs)
          → Any (λ w. v ≡ w) (contents ss)
          → ledger.digest u ≡ ledger.digest v
          → u ≡ v)
      → chain_errors ledger i p rs ≡ []
      → chain_errors ledger j q ss ≡ []
      → length rs ≡ length ss
      → end_hash ledger p rs ≡ end_hash ledger q ss
      → (p ≡ q) × (contents rs ≡ contents ss)
  unfolding chain_errors end_hash
  agree i j p q [] [] inj h k l e = (e, refl)
  agree i j p q [] (s ∷ ss) inj h k l e = absurd (omega (arith, l))
  agree i j p q (r ∷ rs) [] inj h k l e = absurd (omega (arith, l))
  agree i j p q (r ∷ rs) (s ∷ ss) inj h k l e =
      let (h0, h1) =
        nil_append ledger (record_errors ledger i p r)
          (chain_errors ledger (suc i) r.record_hash rs) h in
      let (k0, k1) =
        nil_append ledger (record_errors ledger j q s)
          (chain_errors ledger (suc j) s.record_hash ss) k in
      let (hash, later) =
        agree (suc i) (suc j) r.record_hash s.record_hash rs ss (λ u v a b. inj u v (inr a) (inr b))
          h1 k1 (omega (arith, l)) e in
      let (rp, rd) = record_errors-nil i p r h0 in
      let (sp, sd) = record_errors-nil j q s k0 in
      let same : r.unsigned ≡ s.unsigned =
        inj r.unsigned s.unsigned (inl refl) (inl refl) (rd ∙ hash ∙ sym sd) in
      (sym rp ∙ ap (λ u. u.previous_hash) same ∙ sp, cc (same, later))

  -- Of two chains with one end, the longer one has a record whose digest is the start of the other.
  longer :
      (i j : ℕ) (p q : String) (rs ss : List (EvidenceRecord P))
      → ((u v : Unsigned P)
          → Any (λ w. u ≡ w) (contents rs)
          → Any (λ w. v ≡ w) (contents ss)
          → ledger.digest u ≡ ledger.digest v
          → u ≡ v)
      → chain_errors ledger i p rs ≡ []
      → chain_errors ledger j q ss ≡ []
      → length ss < length rs
      → end_hash ledger p rs ≡ end_hash ledger q ss
      → (u : Unsigned P) × Any (λ w. u ≡ w) (contents rs) × (ledger.digest u ≡ q)
  unfolding chain_errors end_hash
  longer i j p q [] ss inj h k l e = absurd (omega (arith, l))
  longer i j p q (r ∷ rs) ss inj h k l e =
      let (h0, h1) =
        nil_append ledger (record_errors ledger i p r)
          (chain_errors ledger (suc i) r.record_hash rs) h in
      elim (dec_lt (length ss) (length rs)) [
        | yes more ↦
            let (u, m, d) =
              longer (suc i) j r.record_hash q rs ss (λ u v a b. inj u v (inr a) b) h1 k more e in
            (u, inr m, d)
        | no same ↦
            let (start, _) =
              agree (suc i) j r.record_hash q rs ss (λ u v a b. inj u v (inr a) b) h1 k
                (omega (arith, l)) e in
            (r.unsigned, inl refl, (record_errors-nil i p r h0).1 ∙ start)
      ]

  -- Two ledgers that `verify` finds nothing in and that have the same last hash hold the same records,
  -- signatures aside, if no two different records of theirs have one digest and none of theirs has the
  -- first hash, that of no record, as its digest. So content that was changed, and a
  -- record that was left out or put in, changes the last hash or is reported.
  pub verified_agree :
      (a b : List ℕ)
      → ((u v : Unsigned P)
          → Any (λ w. u ≡ w) (contents (read_file a))
          → Any (λ w. v ≡ w) (contents (read_file b))
          → ledger.digest u ≡ ledger.digest v
          → u ≡ v)
      → ((u : Unsigned P)
          → Any (λ w. u ≡ w) (contents (read_file a) ++ contents (read_file b))
          → ledger.digest u ≢ genesis)
      → verify ledger (some a) ≡ []
      → verify ledger (some b) ≡ []
      → end_hash ledger genesis (read_file a) ≡ end_hash ledger genesis (read_file b)
      → contents (read_file a) ≡ contents (read_file b)
  unfolding verify
  verified_agree a b inj first h k e =
      let rs = read_file a in
      let ss = read_file b in
      let hr = verified_chain 1 genesis (split_lines a) h in
      let hs = verified_chain 1 genesis (split_lines b) k in
      elim (dec_lt (length ss) (length rs)) [
        | yes more ↦
            let (u, m, d) = longer 1 1 genesis genesis rs ss inj hr hs more e in
            absurd (first u ((Any-append _ (contents rs) (contents ss)).1 (inl m)) d)
        | no p ↦ elim (dec_lt (length rs) (length ss)) [
          | yes more ↦
              let (u, m, d) =
                longer 1 1 genesis genesis ss rs (λ u v x y d. sym (inj v u y x (sym d))) hs hr more
                  (sym e) in
              absurd (first u ((Any-append _ (contents rs) (contents ss)).1 (inr m)) d)
          | no q ↦ (agree 1 1 genesis genesis rs ss inj hr hs (omega arith) e).1
        ]
      ]
