-- ===== src/Prelude/Texts.antt =====
-- The order of texts, by the numbers of their characters, as Python compares them.
use Prim.Native.Nat.{ℕ, zero, suc, Ordering, compare as compare_ℕ}
use Prim.Native.Char.{Char, code}
use Prim.Native.String.{String, [], ◌∷◌, then, compare}
use Prim.Native.String.compare
use mathlib.Core.Path.{◌≡◌}
use mathlib.Core.Bool.{Bool, true, false}
use text.Mathlib.TextPositions.{compare_refl}
use native.Mathlib.Omega.{arith}

abbrev pub is_less : Ordering → Bool
is_less Ordering.lt = true
is_less _ = false

abbrev pub str_lt : String → String → Bool
str_lt s t = is_less (compare s t)

-- the slice `text[:n]`
abbrev pub str_take : ℕ → String → String
str_take zero t = []
str_take (suc n) [] = []
str_take (suc n) (c ∷ t) = c ∷ str_take n t

pub str_lt_irrefl : (s : String) → str_lt s s ≡ false
str_lt_irrefl s = rw (compare_refl s)

-- The comparison of two texts with a first character.
compare-cons :
    (c d : Char) (s t : String)
    → compare (c ∷ s) (d ∷ t) ≡ then (compare_ℕ (code c) (code d)) (compare s t)
compare-cons c d s t = λ i. compare.cons-cons c d s t i

str_lt-nil : (s : String) → str_lt s [] ≡ false
str_lt-nil [] = str_lt_irrefl []
str_lt-nil (c ∷ s) = λ i. is_less (compare.cons-nil c s i)

nil-str_lt : (d : Char) (t : String) → str_lt [] (d ∷ t) ≡ true
nil-str_lt d t = λ i. is_less (compare.nil-cons d t i)

pub str_lt_trans : (s t u : String) → str_lt s t ≡ true → str_lt t u ≡ true → str_lt s u ≡ true
str_lt_trans s t [] p q = absurd (cc (str_lt-nil t, q))
str_lt_trans s [] (e ∷ u) p q = absurd (cc (str_lt-nil s, p))
str_lt_trans [] (d ∷ t) (e ∷ u) p q = nil-str_lt e u
str_lt_trans (c ∷ s) (d ∷ t) (e ∷ u) p q = grind (arith, str_lt_trans s t u, compare-cons)
