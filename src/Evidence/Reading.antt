-- ===== src/Evidence/Reading.antt =====
-- What evidence.py reads of a ledger that holds a list of records.
use continuityos.Prelude.{
  inr, sym, leb→le, inl, leb, Bool-cases, pos, ℕ, zero, suc, ◌≤◌, String, str_eq, List, [], ◌∷◌,
  Option, none, some, ◌≡◌, refl, ap, ◌∙◌, arith, length, map, All, if◌then◌else◌,
}
use continuityos.Evidence.Bytes.{drop, take, split_skipping}
use continuityos.Evidence.Chain.{Represents}
use continuityos.Evidence.Lines.{split_skipping-nil, split_skipping-line}
use continuityos.Evidence.Serial.{IsLine, serialise}
use continuityos.Evidence.{
  get_record, page, records, EvidenceRecord, EvidenceLedger, read_all, prepend, find_record,
}

module _ {P : Type 0} (ledger : EvidenceLedger P) where
  abbrev nothing : List (EvidenceRecord P)
  nothing = []

  abbrev lines_of : List (EvidenceRecord P) → List (List ℕ)
  lines_of rs = map (λ r. ledger.encode r) rs

  split_lines-serialise :
      (rs : List (EvidenceRecord P))
      → All (IsLine ledger) rs
      → split_skipping 0 (serialise ledger rs) ≡ lines_of rs
  unfolding serialise
  split_lines-serialise [] h = split_skipping-nil
  split_lines-serialise (r ∷ rs) h =
      split_skipping-line (ledger.encode r) (serialise ledger rs) h.0.no_break
      ∙ ap (λ ls. ledger.encode r ∷ ls) (split_lines-serialise rs h.1)

  read_all-lines :
      (rs : List (EvidenceRecord P))
      → All (IsLine ledger) rs
      → read_all ledger (lines_of rs) ≡ some rs
  unfolding read_all
  read_all-lines [] h = refl
  read_all-lines (r ∷ rs) h =
      rw (h.0.reads, read_all) (ap (prepend ledger r) (read_all-lines rs h.1))

  drop-map : (n : ℕ) (rs : List (EvidenceRecord P)) → drop n (lines_of rs) ≡ lines_of (drop n rs)
  unfolding drop
  drop-map zero rs = refl
  drop-map (suc n) [] = refl
  drop-map (suc n) (r ∷ rs) = drop-map n rs

  take-map : (n : ℕ) (rs : List (EvidenceRecord P)) → take n (lines_of rs) ≡ lines_of (take n rs)
  unfolding take
  take-map zero rs = refl
  take-map (suc n) [] = refl
  take-map (suc n) (r ∷ rs) = ap (λ ls. ledger.encode r ∷ ls) (take-map n rs)

  drop-All :
      (n : ℕ) (rs : List (EvidenceRecord P))
      → All (IsLine ledger) rs
      → All (IsLine ledger) (drop n rs)
  unfolding drop
  drop-All zero rs h = h
  drop-All (suc n) [] h = tt
  drop-All (suc n) (r ∷ rs) h = drop-All n rs h.1

  take-All :
      (n : ℕ) (rs : List (EvidenceRecord P))
      → All (IsLine ledger) rs
      → All (IsLine ledger) (take n rs)
  unfolding take
  take-All zero rs h = tt
  take-All (suc n) [] h = tt
  take-All (suc n) (r ∷ rs) h = (h.0, take-All n rs h.1)

  length-lines_of : (rs : List (EvidenceRecord P)) → length (lines_of rs) ≡ length rs
  length-lines_of [] = refl
  length-lines_of (r ∷ rs) = ap suc (length-lines_of rs)

  drop_past : (n : ℕ) (rs : List (EvidenceRecord P)) → length rs ≤ n → drop n rs ≡ []
  unfolding drop
  drop_past zero [] h = refl
  drop_past zero (r ∷ rs) h = absurd (omega arith)
  drop_past (suc n) [] h = refl
  drop_past (suc n) (r ∷ rs) h = drop_past n rs (omega arith)

  take-nil : (n : ℕ) → take n (nothing) ≡ nothing
  unfolding take
  take-nil zero = refl
  take-nil (suc n) = refl

  -- The first record of a list with the identifier.
  abbrev pub first_with : String → List (EvidenceRecord P) → Option (EvidenceRecord P)
  first_with record_id [] = none
  first_with record_id (r ∷ rs) =
      if str_eq r.unsigned.record_id record_id then some r else first_with record_id rs

  find_record-lines :
      (record_id : String) (rs : List (EvidenceRecord P))
      → All (IsLine ledger) rs
      → find_record ledger record_id (lines_of rs) ≡ first_with record_id rs
  unfolding find_record
  find_record-lines record_id [] h = refl
  find_record-lines record_id (r ∷ rs) h =
      rw (h.0.reads, find_record) (ground (arith, find_record-lines record_id rs h.1))

  in_range :
      (offset limit : ℕ) (file : Option (List ℕ))
      → 1 ≤ limit
      → limit ≤ 1000
      → records ledger (pos offset) (pos limit) file ≡ page ledger offset limit file
  unfolding records
  in_range offset limit file a b = ground arith

  page-bytes :
      (offset limit : ℕ) (rs : List (EvidenceRecord P))
      → All (IsLine ledger) rs
      → page ledger offset limit (some (serialise ledger rs)) ≡ some (take limit (drop offset rs))
  page-bytes offset limit rs h =
      rw (split_lines-serialise rs h, length-lines_of rs)
        (elim (Bool-cases (leb (length rs) offset)) [
          | inl e ↦
              rw (e, drop_past offset rs (leb→le (length rs) offset e))
                (ap some (sym (take-nil limit)))
          | inr e ↦
              rw (e, drop-map offset rs, take-map limit (drop offset rs))
                (read_all-lines (take limit (drop offset rs))
                  (take-All limit (drop offset rs) (drop-All offset rs h)))
        ])

  -- Of a ledger that holds a list of records, each a line that is read back: a page with a limit in
  -- range is that stretch of the list, empty past its end, and a look-up finds the first record with
  -- the identifier, if there is one.
  pub read_back :
      (offset limit : ℕ) (record_id : String) (rs : List (EvidenceRecord P))
      (file : Option (List ℕ))
      → Represents ledger rs file
      → All (IsLine ledger) rs
      → 1 ≤ limit
      → limit ≤ 1000
      → (records ledger (pos offset) (pos limit) file ≡ some (take limit (drop offset rs)))
        × (get_record ledger record_id file ≡ first_with record_id rs)
  unfolding get_record
  read_back offset limit record_id rs file (inl e) h a b = rw e (
    in_range offset limit (some (serialise ledger rs)) a b ∙ page-bytes offset limit rs h,
    ap (find_record ledger record_id) (split_lines-serialise rs h)
        ∙ find_record-lines record_id rs h,
  )
  read_back offset limit record_id rs file (inr (e, e')) h a b =
      rw (e, e')
        (
          in_range offset limit none a b
              ∙ ap some
                  (sym (ap (take limit) (drop_past offset [] (omega arith)) ∙ take-nil limit)),
          refl,
        )
