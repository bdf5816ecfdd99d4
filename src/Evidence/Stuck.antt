-- ===== src/Evidence/Stuck.antt =====
-- An append of evidence.py after a record whose line is longer than one round of the search reads.
use continuityos.Prelude.{
  ℕ, zero, suc, ◌+◌, ◌-◌, ◌≤◌, ◌<◌, List, [], ◌∷◌, ◌++◌, Bool, false, none, some, ◌≡◌, ◌≢◌, refl,
  ap, ◌∙◌, arith, length, length-append,
}
use continuityos.Evidence.Bytes.{drop, take, split_newlines, is_blank, last_non_blank}
use continuityos.Evidence.Lines.{
  HasNoBreak, split_newlines-line, last_non_blank-append, drop-append, drop-append_past,
}
use continuityos.Evidence.Serial.{scan_back-line}
use continuityos.Evidence.{Request, EvidenceLedger, last_hash, hash_of, append}

take-drop : (n : ℕ) (xs : List ℕ) → xs ≡ take n xs ++ drop n xs
unfolding take drop
take-drop zero xs = refl
take-drop (suc n) [] = refl
take-drop (suc n) (x ∷ xs) = ap (λ ys. x ∷ ys) (take-drop n xs)

take-ne : (n : ℕ) (xs : List ℕ) → 0 < n → 0 < length xs → take n xs ≢ []
unfolding take
take-ne zero xs p q h = absurd (omega arith)
take-ne (suc n) [] p q h = absurd (omega arith)
take-ne (suc n) (x ∷ xs) p q h = cc

drop-HasNoBreak : (n : ℕ) (xs : List ℕ) → HasNoBreak xs → HasNoBreak (drop n xs)
unfolding drop
drop-HasNoBreak zero xs h = h
drop-HasNoBreak (suc n) [] h = tt
drop-HasNoBreak (suc n) (x ∷ xs) h = drop-HasNoBreak n xs h.1

is_blank-append_brace : (xs : List ℕ) → is_blank (xs ++ 125 ∷ []) ≡ false
unfolding is_blank
is_blank-append_brace [] = refl
is_blank-append_brace (x ∷ xs) = ground (arith, is_blank-append_brace xs)

-- What the last round of bytes holds of a long last line.
chunk :
    (before line : List ℕ)
    → 4096 ≤ length line
    → drop (length (before ++ (line ++ 10 ∷ [])) - 4096) (before ++ (line ++ 10 ∷ []))
      ≡ drop (length line + 1 - 4096) line ++ 10 ∷ []
chunk before line h =
    let k = length (before ++ (line ++ 10 ∷ [])) - 4096 in
    drop-append_past k before (line ++ 10 ∷ [])
      (omega (arith, length-append before (line ++ 10 ∷ []), length-append line (10 ∷ [])))
    ∙ ap (λ j. drop j (line ++ 10 ∷ []))
        (omega (arith, length-append before (line ++ 10 ∷ []), length-append line (10 ∷ [])))
    ∙ drop-append (length line + 1 - 4096) line (10 ∷ []) (omega arith)

module _ {P : Type 0} (ledger : EvidenceLedger P) where
  -- The search takes the end of a long line for a whole line.
  last_hash-long :
      (before text : List ℕ)
      → let line = text ++ 125 ∷ [] in
        HasNoBreak line
        → ((xs ys : List ℕ) → line ≡ xs ++ ys → xs ≢ [] → ledger.decode ys ≡ none)
        → 4096 ≤ length line
        → last_hash ledger (some (before ++ (line ++ 10 ∷ []))) ≡ none
  unfolding last_hash split_newlines
  last_hash-long before text b d h =
      let line = text ++ 125 ∷ [] in
      let j = length line + 1 - 4096 in
      let n = length (before ++ (line ++ 10 ∷ [])) in
      let sizes = length-append text (125 ∷ []) in
      let blank : is_blank (drop j line) ≡ false =
        rw (drop-append j text (125 ∷ []) (omega (arith, sizes)))
          (is_blank-append_brace (drop j text)) in
      let found : last_non_blank (split_newlines (drop (n - 4096) (before ++ (line ++ 10 ∷ []))))
          ≡ some (drop j line) =
        rw (chunk before line h, split_newlines-line (drop j line) [] (drop-HasNoBreak j line b))
          (last_non_blank-append [] (drop j line) blank) in
      scan_back-line ledger (before ++ (line ++ 10 ∷ [])) (drop j line) n found
        (omega (arith, length-append before (line ++ 10 ∷ []), length-append line (10 ∷ [])))
      ∙ ap (hash_of ledger) (
          d (take j line) (drop j line) (take-drop j line)
            (take-ne j line (omega arith) (omega arith)))

  -- Once the last line is of 4096 bytes or more, newline aside, no append returns a record any
  -- more and the file stays as it is, whatever stands before that line. The line ends in a brace, has
  -- no line break, and no proper end of it is read as a record, as it is with a JSON object.
  pub append_stuck :
      (written : Bool) (q : Request P) (before text : List ℕ)
      → let line = text ++ 125 ∷ [] in
        HasNoBreak line
        → ((xs ys : List ℕ) → line ≡ xs ++ ys → xs ≢ [] → ledger.decode ys ≡ none)
        → 4096 ≤ length line
        → append ledger written q (some (before ++ (line ++ 10 ∷ [])))
          ≡ (none, some (before ++ (line ++ 10 ∷ [])))
  unfolding append
  append_stuck written q before text b d h = rw (last_hash-long before text b d h, append)
