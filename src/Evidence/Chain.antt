-- ===== src/Evidence/Chain.antt =====
-- One append of evidence.py to a file that holds a list of records.
use continuityos.Prelude.{
  ℕ, suc, String, eq_iff, List, [], ◌∷◌, ◌++◌, Bool, true, false, Option, none, some, ◌≡◌, ◌⊎◌,
  refl, ap, sym, ◌∙◌, inl, inr, arith, All, All-append, subst,
}
use continuityos.Evidence.Serial.{IsLine, serialise, chain_errors, last_hash-serialise}
use continuityos.Evidence.{
  Request, PrivateKey, EvidenceRecord, EvidenceLedger, LedgerError, genesis, last_hash, existing,
  new_record, append, record_errors,
}

module _ {P : Type 0} (ledger : EvidenceLedger P) where
  -- The ledger signs with a key whose signatures its public key accepts, or does not sign.
  abbrev pub KeysMatch : Option PrivateKey → Type 0
  KeysMatch none = Unit
  KeysMatch (some key) =
      (verifies : String → String → Bool) × (ledger.public_key ≡ some verifies)
      × ((hash : String) → verifies (key.sign hash) hash ≡ true)

  -- The file holds these records.
  abbrev pub Represents : List (EvidenceRecord P) → Option (List ℕ) → Type 0
  Represents rs file = (file ≡ some (serialise ledger rs)) ⊎ ((file ≡ none) × (rs ≡ []))

  -- The hash that the next record names.
  unfoldable pub end_hash : String → List (EvidenceRecord P) → String
  end_hash previous [] = previous
  end_hash previous (r ∷ rs) = end_hash r.record_hash rs

  end_hash-snoc :
      (previous : String) (rs : List (EvidenceRecord P)) (r : EvidenceRecord P)
      → end_hash previous (rs ++ r ∷ []) ≡ r.record_hash
  unfolding end_hash
  end_hash-snoc previous [] r = refl
  end_hash-snoc previous (x ∷ rs) r = end_hash-snoc x.record_hash rs r

  pub nil_append : (xs ys : List LedgerError) → xs ++ ys ≡ [] → (xs ≡ []) × (ys ≡ [])
  nil_append [] ys h = (refl, h)
  nil_append (x ∷ xs) ys h = absurd (cc)

  serialise-nil : serialise ledger [] ≡ []
  unfolding serialise
  serialise-nil = refl

  pub chain_errors-snoc :
      (index : ℕ) (previous : String) (rs : List (EvidenceRecord P)) (r : EvidenceRecord P)
      → ((i : ℕ) → record_errors ledger i (end_hash previous rs) r ≡ [])
      → chain_errors ledger index previous rs ≡ []
      → chain_errors ledger index previous (rs ++ r ∷ []) ≡ []
  unfolding chain_errors end_hash
  chain_errors-snoc index previous [] r h e = rw (h index)
  chain_errors-snoc index previous (x ∷ rs) r h e =
      let (now, later) = nil_append (record_errors ledger index previous x) _ e in
      rw now (chain_errors-snoc (suc index) x.record_hash rs r h later)

  pub new_record_clean :
      (key : Option PrivateKey) (q : Request P) (previous : String) (index : ℕ)
      → ledger.private_key ≡ key
      → KeysMatch key
      → record_errors ledger index previous (new_record ledger q previous) ≡ []
  unfolding record_errors new_record
  new_record_clean none q previous index e k = rw (e) (grind (arith, eq_iff))
  new_record_clean (some key) q previous index e (v, p, ok) = rw (e, p) (grind (arith, eq_iff, ok))

  last_hash-none : last_hash ledger none ≡ some (end_hash genesis [])
  unfolding last_hash end_hash
  last_hash-none = refl

  last_hash-empty : last_hash ledger (some (serialise ledger [])) ≡ some (end_hash genesis [])
  unfolding last_hash end_hash serialise
  last_hash-empty = refl

  -- A list is empty or ends in an element.
  snoc_view :
      (rs : List (EvidenceRecord P))
      → (rs ≡ [])
        ⊎ ((init : List (EvidenceRecord P)) × (r : EvidenceRecord P) × (rs ≡ init ++ r ∷ []))
  snoc_view [] = inl refl
  snoc_view (x ∷ rs) = elim (snoc_view rs) [
    | inl e ↦ inr ([], x, rw e)
    | inr (init, r, e) ↦ inr (x ∷ init, r, rw e)
  ]

  pub last_hash-end_hash :
      (rs : List (EvidenceRecord P)) (file : Option (List ℕ))
      → Represents rs file
      → All (IsLine ledger) rs
      → last_hash ledger file ≡ some (end_hash genesis rs)
  last_hash-end_hash rs file (inr (e, e')) h = rw (e, e') last_hash-none
  last_hash-end_hash rs file (inl e) h = elim (snoc_view rs) [
    | inl e' ↦ rw (e, e') last_hash-empty
    | inr (init, r, e') ↦
        let all = (All-append (IsLine ledger) init (r ∷ [])).0 (subst (All (IsLine ledger)) e' h) in
        rw (e, e')
          (last_hash-serialise ledger init r all.1.0 ∙ sym (ap some (end_hash-snoc genesis init r)))
  ]

  pub existing-Represents :
      (rs : List (EvidenceRecord P)) (file : Option (List ℕ))
      → Represents rs file
      → existing ledger file ≡ serialise ledger rs
  existing-Represents rs file (inl e) = rw e
  existing-Represents rs file (inr (e, e')) = rw (e, e') (sym serialise-nil)

  pub append_fails :
      (q : Request P) (previous : String) (file : Option (List ℕ))
      → last_hash ledger file ≡ some previous
      → append ledger false q file ≡ (none, file)
  unfolding append
  append_fails q previous file h = rw (h, append)

  pub append_works :
      (q : Request P) (previous : String) (file : Option (List ℕ))
      → last_hash ledger file ≡ some previous
      → append ledger true q file ≡ (
        some (new_record ledger q previous),
        some (existing ledger file ++ (ledger.encode (new_record ledger q previous) ++ 10 ∷ [])),
      )
  unfolding append
  append_works q previous file h = rw (h, append)
