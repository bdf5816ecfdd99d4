-- ===== src/Evidence/Lines.antt =====
-- How the two ways in which evidence.py takes a file apart meet on a file of whole lines.
use continuityos.Prelude.{
  ◌-◌, ℕ, zero, suc, ◌≤◌, List, [], ◌∷◌, ◌++◌, false, some, ◌≡◌, ◌≢◌, refl, ap, ◌∙◌, ◌⊎◌, inl, inr,
  arith, ◌==◌, length, Bool-cases,
}
use mathlib.Core.List.{append_assoc}
use continuityos.Evidence.Bytes.{
  drop, break_length, extend, split_skipping, split_newlines, is_blank, last_non_blank,
}

-- No line break starts anywhere in the text.
abbrev pub HasNoBreak : List ℕ → Type 0
HasNoBreak [] = Unit
HasNoBreak (x ∷ xs) = (break_length (x ∷ xs) ≡ 0) × HasNoBreak xs

-- A line break that starts in a text starts there also without the newline after the text.
break_length-append :
    (x : ℕ) (xs rest : List ℕ)
    → break_length (x ∷ xs) ≡ 0
    → break_length (x ∷ (xs ++ 10 ∷ rest)) ≡ 0
unfolding break_length
break_length-append x [] rest h = ground arith
break_length-append x (y ∷ []) rest h = ground arith
break_length-append x (y ∷ z ∷ xs) rest h = ground arith

split_skipping-cons :
    (x : ℕ) (xs : List ℕ)
    → break_length (x ∷ xs) ≡ 0
    → split_skipping 0 (x ∷ xs) ≡ extend x (split_skipping 0 xs)
unfolding split_skipping
split_skipping-cons x xs h = rw (h, split_skipping)

pub split_skipping-nil : split_skipping 0 [] ≡ []
unfolding split_skipping
split_skipping-nil = refl

split_skipping-newline : (xs : List ℕ) → split_skipping 0 (10 ∷ xs) ≡ [] ∷ split_skipping 0 xs
unfolding split_skipping break_length
split_skipping-newline xs = refl

pub split_skipping-line :
    (xs rest : List ℕ)
    → HasNoBreak xs
    → split_skipping 0 (xs ++ 10 ∷ rest) ≡ xs ∷ split_skipping 0 rest
split_skipping-line [] rest h = split_skipping-newline rest
split_skipping-line (x ∷ xs) rest h =
    split_skipping-cons x (xs ++ 10 ∷ rest) (break_length-append x xs rest h.0)
    ∙ ap (extend x) (split_skipping-line xs rest h.1)

no_newline : (x : ℕ) (xs : List ℕ) → break_length (x ∷ xs) ≡ 0 → (x == 10) ≡ false
unfolding break_length
no_newline x xs h = ground arith

pub split_newlines-line :
    (xs rest : List ℕ) → HasNoBreak xs → split_newlines (xs ++ 10 ∷ rest) ≡ xs ∷ split_newlines rest
unfolding split_newlines
split_newlines-line [] rest h = refl
split_newlines-line (x ∷ xs) rest h = rw (no_newline x xs h.0, split_newlines-line xs rest h.1)

extend-append : (x : ℕ) (ls ms : List (List ℕ)) → ls ≢ [] → extend x (ls ++ ms) ≡ extend x ls ++ ms
extend-append x [] ms h = absurd (h refl)
extend-append x (l ∷ ls) ms h = refl

extend-ne : (x : ℕ) (ls : List (List ℕ)) → extend x ls ≢ []
extend-ne x [] h = cc
extend-ne x (l ∷ ls) h = cc

split_newlines-ne : (xs : List ℕ) → split_newlines xs ≢ []
unfolding split_newlines
split_newlines-ne [] h = cc
split_newlines-ne (x ∷ xs) h = elim (Bool-cases (x == 10)) [
  | inl e ↦ ground arith
  | inr e ↦ extend-ne x (split_newlines xs) (ground arith)
]

split_newlines-append :
    (xs ys : List ℕ) → split_newlines (xs ++ 10 ∷ ys) ≡ split_newlines xs ++ split_newlines ys
unfolding split_newlines
split_newlines-append [] ys = refl
split_newlines-append (x ∷ xs) ys = elim (Bool-cases (x == 10)) [
  | inl e ↦ rw (e, split_newlines-append xs ys)
  | inr e ↦ rw (e, split_newlines-append xs ys) (extend-append x _ _ (split_newlines-ne xs))
]

pub last_non_blank-append :
    (ls : List (List ℕ)) (line : List ℕ)
    → is_blank line ≡ false
    → last_non_blank (ls ++ line ∷ [] ∷ []) ≡ some line
unfolding last_non_blank
last_non_blank-append [] line h = rw h
last_non_blank-append (l ∷ ls) line h = rw (last_non_blank-append ls line h)

-- The text is empty or its last byte is a newline.
abbrev pub IsWholeLines : List ℕ → Type 0
IsWholeLines xs = (xs ≡ []) ⊎ ((ys : List ℕ) × (xs ≡ ys ++ 10 ∷ []))

tail_eq : (x : ℕ) (xs ys : List ℕ) → x ∷ xs ≡ 10 ∷ ys → xs ≡ ys
tail_eq x xs ys e = cc

pub drop-IsWholeLines : (n : ℕ) (xs : List ℕ) → IsWholeLines xs → IsWholeLines (drop n xs)
unfolding drop
drop-IsWholeLines zero xs h = h
drop-IsWholeLines (suc n) [] h = inl refl
drop-IsWholeLines (suc n) (x ∷ xs) (inl e) = absurd (cc)
drop-IsWholeLines (suc n) (x ∷ xs) (inr ([], e)) =
    rw (tail_eq x xs [] e) (drop-IsWholeLines n [] (inl refl))
drop-IsWholeLines (suc n) (x ∷ xs) (inr (y ∷ ys, e)) = drop-IsWholeLines n xs (inr (ys, cc))

-- After whole lines, the last line that is not blank is the one that follows.
pub last_line :
    (xs line : List ℕ)
    → IsWholeLines xs
    → HasNoBreak line
    → is_blank line ≡ false
    → last_non_blank (split_newlines (xs ++ (line ++ 10 ∷ []))) ≡ some line
unfolding split_newlines
last_line xs line (inl e) h b =
    rw (e, split_newlines-line line [] h) (last_non_blank-append [] line b)
last_line xs line (inr (ys, e)) h b =
    rw
      (
        e,
        append_assoc ys (10 ∷ []) (line ++ 10 ∷ []),
        split_newlines-append ys (line ++ 10 ∷ []),
        split_newlines-line line [] h,
      )
      (last_non_blank-append (split_newlines ys) line b)

pub drop-append : (n : ℕ) (xs ys : List ℕ) → n ≤ length xs → drop n (xs ++ ys) ≡ drop n xs ++ ys
unfolding drop
drop-append zero xs ys h = refl
drop-append (suc n) [] ys h = absurd (omega arith)
drop-append (suc n) (x ∷ xs) ys h = drop-append n xs ys (omega arith)

pub drop-append_past :
    (n : ℕ) (xs ys : List ℕ) → length xs ≤ n → drop n (xs ++ ys) ≡ drop (n - length xs) ys
unfolding drop
drop-append_past n [] ys h = ap (λ k. drop k ys) (omega arith)
drop-append_past zero (x ∷ xs) ys h = absurd (omega arith)
drop-append_past (suc n) (x ∷ xs) ys h =
    drop-append_past n xs ys (omega arith) ∙ ap (λ k. drop k ys) (omega arith)
