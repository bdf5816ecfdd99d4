-- ===== src/Float/Micro.antt =====
-- Floats for the examples: millionths, as natural numbers. Rounding keeps the number, since every
-- use rounds to places that the examples' numbers have.
use continuityos.Prelude.{pos, pos_part, List, [], ◌∷◌, ℕ, ◌+◌, ◌-◌, ◌*◌, ◌/◌, leb, ltb, arith}
use Prim.Native.Nat.{◌^◌}
use continuityos.Float.{Float, IsOrdered}

abbrev pub micro_round : ℕ → ℕ → ℕ
micro_round a k = a

abbrev pub micro_sum : List ℕ → ℕ
micro_sum [] = 0
micro_sum (a ∷ more) = a + micro_sum more

instance abbrev pub micro : Float ℕ
micro = record {
  decimal = λ m k. m * 1000000 / 10 ^ k;
  of_int = λ n. pos_part n * 1000000;
  le = leb;
  lt = ltb;
  add = λ a b. a + b;
  sub = λ a b. a - b;
  mul = λ a b. a * b / 1000000;
  div = λ a b. a * 1000000 / b;
  round = micro_round;
  sum = micro_sum;
  truncate = λ a. pos (a / 1000000);
}

pub micro-IsOrdered : IsOrdered micro
micro-IsOrdered = record {
  refl = λ a. ground arith;
  trans = λ a b c p q. ground arith;
  total = λ a b. ground arith;
  lt-le = λ a b. ground arith;
}
