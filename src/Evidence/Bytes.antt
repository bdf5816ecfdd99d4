-- ===== src/Evidence/Bytes.antt =====
-- The text operations of evidence.py, on the UTF-8 bytes of the ledger's file.
use continuityos.Prelude.{
  ℕ, zero, suc, List, [], ◌∷◌, Bool, false, ◌||◌, ◌&&◌, Option, none, some, ◌==◌, all,
  if◌then◌else◌,
}

unfoldable pub drop : {A : Type 0} → ℕ → List A → List A
drop zero xs = xs
drop (suc n) [] = []
drop (suc n) (x ∷ xs) = drop n xs

unfoldable pub take : {A : Type 0} → ℕ → List A → List A
take zero xs = []
take (suc n) [] = []
take (suc n) (x ∷ xs) = x ∷ take n xs

abbrev pub starts : ℕ → List ℕ → Bool
starts b [] = false
starts b (x ∷ xs) = x == b

abbrev pub tail : List ℕ → List ℕ
tail [] = []
tail (x ∷ xs) = xs

-- How many bytes the line break takes that the text starts with, if it starts with one: those of
-- `str.splitlines`, U+0085, U+2028 and U+2029 among them.
unfoldable pub break_length : List ℕ → ℕ
break_length [] = 0
break_length (x ∷ xs) =
    if x == 13
    then (if starts 10 xs then 2 else 1)
    else if x == 10 || x == 11 || x == 12 || x == 28 || x == 29 || x == 30
    then 1
    else if x == 194 && starts 133 xs
    then 2
    else if x == 226 && starts 128 xs && (starts 168 (tail xs) || starts 169 (tail xs))
    then 3
    else 0

-- A byte in front of the first line.
abbrev pub extend : ℕ → List (List ℕ) → List (List ℕ)
extend x [] = (x ∷ []) ∷ []
extend x (line ∷ lines) = (x ∷ line) ∷ lines

-- text.splitlines(), once the bytes left of the last break are skipped
unfoldable pub split_skipping : ℕ → List ℕ → List (List ℕ)
split_skipping k [] = []
split_skipping (suc k) (x ∷ xs) = split_skipping k xs
split_skipping zero (x ∷ xs) = elim (break_length (x ∷ xs)) [
  | zero ↦ extend x (split_skipping zero xs)
  | suc k ↦ [] ∷ split_skipping k xs
]

abbrev pub split_lines : List ℕ → List (List ℕ)
split_lines text = split_skipping 0 text

-- buf.split(b"\n")
unfoldable pub split_newlines : List ℕ → List (List ℕ)
split_newlines [] = [] ∷ []
split_newlines (x ∷ xs) = if x == 10 then [] ∷ split_newlines xs else extend x (split_newlines xs)

-- not line.strip()
unfoldable pub is_blank : List ℕ → Bool
is_blank line = all (λ b. b == 32 || b == 9 || b == 10 || b == 11 || b == 12 || b == 13) line

unfoldable pub last_non_blank : List (List ℕ) → Option (List ℕ)
unfolding is_blank
last_non_blank [] = none
last_non_blank (line ∷ lines) = elim (last_non_blank lines) [
  | some later ↦ some later
  | none ↦ if is_blank line then none else some line
]
