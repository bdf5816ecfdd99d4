-- ===== src/Struct.antt =====
-- Python's `struct` module with little-endian standard sizes, and the bytes of a natural number.
-- A format is a list of integer codes; a sequence of bytes is a list of numbers below 256.
pub mod RoundTrip
use continuityos.Prelude.{
  ℕ, zero, suc, ◌+◌, ◌-◌, ◌*◌, ◌/◌, ◌%◌, ◌<◌, ℤ, pos, negsuc, List, [], ◌∷◌, ◌++◌, Option, none,
  some, All, ltb, if◌then◌else◌,
}
use Prim.Native.Nat.{◌^◌}

-- `none` stands for a raised exception
infixl 10 ◌>>=◌
abbrev pub ◌>>=◌ {ℓ κ} : {A : Type ℓ} {B : Type κ} → Option A → (A → Option B) → Option B
none >>= f = none
some a >>= f = f a

abbrev pub Byte : ℕ → Type 0
Byte b = b < 256

abbrev pub to_bytes : ℕ → ℕ → List ℕ
to_bytes zero n = []
to_bytes (suc w) n = n % 256 ∷ to_bytes w (n / 256)

abbrev pub from_bytes : List ℕ → ℕ
from_bytes [] = 0
from_bytes (b ∷ bs) = b + 256 * from_bytes bs

-- an integer code: how many bytes, and whether it has a sign
pub data Code : Type 0 where
  unsigned : ℕ → Code
  signed : ℕ → Code

abbrev pub width : Code → ℕ
width (unsigned w) = w
width (signed w) = w

-- How many codes one integer of the format stands for, as the number that the bytes hold: the
-- complement to 256 ^ w for a negative integer. No number is the error `struct.error`.
unfoldable pub to_code : Code → ℤ → Option ℕ
to_code (unsigned w) (pos n) = if ltb n (256 ^ w) then some n else none
to_code (unsigned w) (negsuc n) = none
to_code (signed w) (pos n) = if ltb n (256 ^ w / 2) then some n else none
to_code (signed w) (negsuc n) = if ltb n (256 ^ w / 2) then some (256 ^ w - 1 - n) else none

unfoldable pub from_code : Code → ℕ → ℤ
from_code (unsigned w) m = pos m
from_code (signed w) m = if ltb m (256 ^ w / 2) then pos m else negsuc (256 ^ w - 1 - m)

-- one integer for each code
abbrev pub Values : List Code → Type 0
Values [] = Unit
Values (c ∷ cs) = ℤ × Values cs

abbrev pub calcsize : List Code → ℕ
calcsize [] = 0
calcsize (c ∷ cs) = width c + calcsize cs

unfoldable pub pack : (cs : List Code) → Values cs → Option (List ℕ)
pack [] vs = some []
pack (c ∷ cs) (v, vs) = do m ← to_code c v; bs ← pack cs vs; some (to_bytes (width c) m ++ bs)

-- the first w bytes as a number, and the bytes after them
unfoldable pub split : ℕ → List ℕ → Option (ℕ × List ℕ)
split zero bs = some (0, bs)
split (suc w) [] = none
split (suc w) (b ∷ bs) = do (n, more) ← split w bs; some (b + 256 * n, more)

unfoldable pub unpack : (cs : List Code) → List ℕ → Option (Values cs)
unpack [] [] = some tt
unpack [] (b ∷ bs) = none
unpack (c ∷ cs) bs = do
  (m, more) ← split (width c) bs
  vs ← unpack cs more
  some (from_code c m, vs)
