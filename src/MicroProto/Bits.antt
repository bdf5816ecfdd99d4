-- ===== src/MicroProto/Bits.antt =====
-- The exclusive or on binary digits: one equation for the lowest digit, and from it the order of the
-- arguments, cancellation and the top bit.
use continuityos.Prelude.{
  ℕ, zero, suc, ◌+◌, ◌*◌, ◌/◌, ◌%◌, ◌≤◌, ◌<◌, ◌≡◌, refl, ap, sym, ◌∙◌, arith,
}
use Prim.Native.Nat.{
  ◌^◌, min, digits, bitwise, differ, bit_and, bit_xor, bit_and-bitwise, bit_xor-bitwise,
}
use native.Mathlib.Nat.{pow-suc}

module _ (z : ℕ → ℕ) (op : ℕ → ℕ → ℕ) where
  no_digits : (fuel y : ℕ) → digits z op fuel zero y ≡ z y
  no_digits zero y = refl
  no_digits (suc fuel) y = refl

  -- any fuel that covers the first number gives the same
  same_digits : (k l x y : ℕ) → x < suc k → x < suc l → digits z op k x y ≡ digits z op l x y
  same_digits k l zero y p q = no_digits k y ∙ sym (no_digits l y)
  same_digits zero l (suc x) y p q = absurd (omega arith)
  same_digits (suc k) zero (suc x) y p q = absurd (omega arith)
  same_digits (suc k) (suc l) (suc x) y p q =
      ap (λ r. r * 2 + op (suc x % 2) (y % 2))
        (same_digits k l (suc x / 2) (y / 2) (omega arith) (omega arith))

  halve : (x y : ℕ) → ℕ
  halve x y = bitwise z op (x / 2) (y / 2) * 2 + op (x % 2) (y % 2)

  bitwise-halve : (x y : ℕ) → bitwise z op (suc x) y ≡ halve (suc x) y
  unfolding halve
  bitwise-halve x y =
      ap (λ r. r * 2 + op (suc x % 2) (y % 2))
        (same_digits x (suc x / 2) (suc x / 2) (y / 2) (omega arith) (omega arith))

and_step : (a b : ℕ) → bit_and a b ≡ bit_and (a / 2) (b / 2) * 2 + min (a % 2) (b % 2)
unfolding halve
and_step zero b = omega (arith, bit_and-bitwise 0 b, bit_and-bitwise 0 (b / 2))
and_step (suc a) b = omega (
  arith,
  bit_and-bitwise (suc a) b,
  bit_and-bitwise (suc a / 2) (b / 2),
  bitwise-halve (λ y. 0) min a b,
)

-- the exclusive or of two digits is the remainder of their sum
differ-digits : (x y : ℕ) → x < 2 → y < 2 → differ x y ≡ (x + y) % 2
differ-digits zero y p q = omega arith
differ-digits (suc zero) zero p q = refl
differ-digits (suc zero) (suc zero) p q = refl
differ-digits (suc zero) (suc (suc y)) p q = absurd (omega arith)
differ-digits (suc (suc x)) y p q = absurd (omega arith)

pub xor_step : (a b : ℕ) → bit_xor a b ≡ bit_xor (a / 2) (b / 2) * 2 + (a + b) % 2
unfolding halve
xor_step zero b = simp bit_xor-bitwise (omega arith)
xor_step (suc a) b = omega (
  arith,
  bit_xor-bitwise (suc a) b,
  bit_xor-bitwise (suc a / 2) (b / 2),
  bitwise-halve (λ y. y) differ a b,
  differ-digits (suc a % 2) (b % 2) (omega arith) (omega arith),
)

-- Each law is shown for numbers up to a bound, which halving decreases.
xor_cancel_fuel : (n a b c : ℕ) → b ≤ n → c ≤ n → bit_xor a b ≡ bit_xor a c → b ≡ c
xor_cancel_fuel zero a b c p q e = omega arith
xor_cancel_fuel (suc n) a b c p q e = omega (
  arith,
  xor_step a b,
  xor_step a c,
  xor_cancel_fuel n (a / 2) (b / 2) (c / 2) (omega arith) (omega arith)
      (omega (arith, xor_step a b, xor_step a c)),
)

pub xor_cancel : (a b c : ℕ) → bit_xor a b ≡ bit_xor a c → b ≡ c
xor_cancel a b c e = xor_cancel_fuel (b + c) a b c (omega arith) (omega arith) e

xor_comm_fuel : (n a b : ℕ) → a ≤ n → b ≤ n → bit_xor a b ≡ bit_xor b a
xor_comm_fuel zero a b p q =
    ap (λ k. bit_xor k b) (omega arith) ∙ ap (λ k. bit_xor b k) (omega arith)
xor_comm_fuel (suc n) a b p q =
    omega (
      arith,
      xor_step a b,
      xor_step b a,
      xor_comm_fuel n (a / 2) (b / 2) (omega arith) (omega arith),
    )

pub xor_comm : (a b : ℕ) → bit_xor a b ≡ bit_xor b a
xor_comm a b = xor_comm_fuel (a + b) a b (omega arith) (omega arith)

zero-xor : (b : ℕ) → bit_xor 0 b ≡ b
zero-xor b = bit_xor-bitwise 0 b

-- w bits stay w bits.
pub xor_bound : (w a b : ℕ) → a < 2 ^ w → b < 2 ^ w → bit_xor a b < 2 ^ w
xor_bound zero zero b p q = omega (arith, zero-xor b)
xor_bound zero (suc a) b p q = absurd (omega arith)
xor_bound (suc w) a b p q = omega (
  arith,
  pow-suc 2 w,
  xor_step a b,
  xor_bound w (a / 2) (b / 2) (omega (arith, pow-suc 2 w)) (omega (arith, pow-suc 2 w)),
)

-- A bit above those of the other number stays.
pub xor_top : (w a b : ℕ) → a < 2 ^ w → 2 ^ w ≤ b → 2 ^ w ≤ bit_xor a b
xor_top zero zero b p q = omega (arith, zero-xor b)
xor_top zero (suc a) b p q = absurd (omega arith)
xor_top (suc w) a b p q = omega (
  arith,
  pow-suc 2 w,
  xor_step a b,
  xor_top w (a / 2) (b / 2) (omega (arith, pow-suc 2 w)) (omega (arith, pow-suc 2 w)),
)

and_zero : (n a : ℕ) → a < suc n → bit_and a 0 ≡ 0
and_zero n zero h = bit_and-bitwise 0 0
and_zero zero (suc a) h = absurd (omega arith)
and_zero (suc n) (suc a) h = omega (arith, and_step (suc a) 0, and_zero n (suc a / 2) (omega arith))

pub and_one : (a : ℕ) → bit_and a 1 ≡ a % 2
and_one a = omega (arith, and_step a 1, and_zero (a / 2) (a / 2) (omega arith))

abbrev ones : ℕ → ℕ
ones zero = 0
ones (suc w) = ones w * 2 + 1

and_ones : (w a : ℕ) → a < 2 ^ w → bit_and a (ones w) ≡ a
and_ones zero zero h = refl
and_ones zero (suc a) h = absurd (omega arith)
and_ones (suc w) a h = omega (
  arith,
  pow-suc 2 w,
  and_step a (ones w * 2 + 1),
  half,
  and_ones w (a / 2) (omega (arith, pow-suc 2 w)),
)
  where
    half : bit_and (a / 2) ((ones w * 2 + 1) / 2) ≡ bit_and (a / 2) (ones w)
    half = ap (λ k. bit_and (a / 2) k) (omega arith)

pub and_0xFFFF : (a : ℕ) → a < 65536 → bit_and a 0xFFFF ≡ a
and_0xFFFF a h = and_ones 16 a h
