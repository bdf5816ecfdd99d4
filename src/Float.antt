-- ===== src/Float.antt =====
-- Python's `float`, as a parameter: the type, the operations that the code applies to it, and the
-- order of the numbers that it compares. Nothing is assumed of the arithmetic itself.
pub mod Micro
use continuityos.Prelude.{ℕ, ℤ, Bool, true, List, ◌≡◌, ◌||◌, not, if◌then◌else◌}

pub record Float (F : Type 0) : Type 0 where
  -- `decimal m k` is the literal m / 10 ^ k, rounded as the interpreter rounds it
  pub decimal : ℕ → ℕ → F
  pub of_int : ℤ → F
  pub le : F → F → Bool
  pub lt : F → F → Bool
  pub add : F → F → F
  pub sub : F → F → F
  pub mul : F → F → F
  pub div : F → F → F
  pub round : F → ℕ → F
  -- the builtin `sum` of a sequence of floats, which compensates for rounding
  pub sum : List F → F
  -- the builtin `int` of a float
  pub truncate : F → ℤ

-- What IEEE comparison guarantees of numbers that are not `nan`.
pub record IsOrdered {F : Type 0} (fl : Float F) : Type 0 where
  pub refl : (a : F) → fl.le a a ≡ true
  pub trans : (a b c : F) → fl.le a b ≡ true → fl.le b c ≡ true → fl.le a c ≡ true
  pub total : (a b : F) → (fl.le a b || fl.le b a) ≡ true
  pub lt-le : (a b : F) → fl.lt a b ≡ not (fl.le b a)

module _ {F : Type 0} ⦃fl : Float F⦄ where
  infix 50 ◌<=◌ ◌<<◌
  -- `a <= b` and `a < b`; `a >= b` is written `b <= a`, `a > b` is `b < a`
  abbrev pub ◌<=◌ : F → F → Bool
  a <= b = fl.le a b

  abbrev pub ◌<<◌ : F → F → Bool
  a << b = fl.lt a b

  -- the builtins `min(a, b)` and `max(a, b)`: the first argument unless the second is beyond it
  abbrev pub minimum : F → F → F
  minimum a b = if b << a then b else a

  abbrev pub maximum : F → F → F
  maximum a b = if a << b then b else a

-- The literal m / 10 ^ k.
abbrev pub dec : {F : Type 0} ⦃fl : Float F⦄ → ℕ → ℕ → F
dec ⦃fl⦄ m k = fl.decimal m k
