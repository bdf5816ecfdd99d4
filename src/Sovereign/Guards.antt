-- ===== src/Sovereign/Guards.antt =====
-- Chains of guards, as sovereign.py has them, on Booleans.
use continuityos.Prelude.{
  ℕ, ◌≤◌, Bool, true, false, not, ◌&&◌, ◌≡◌, ◌⊎◌, refl, ap, arith, ltb, if◌then◌else◌,
}

-- Seven guards, each of which refuses.
abbrev guards : Bool → Bool → Bool → Bool → Bool → Bool → Bool → Bool
guards a b c d e f g =
    if a
    then false
    else if not b
    then false
    else if c
    then false
    else if d
    then false
    else if e
    then false
    else if f
    then false
    else not g

pub guards-pass :
    (a b c d e f g : Bool)
    → guards a b c d e f g ≡ true
    → (a ≡ false) × (b ≡ true) × (c ≡ false) × (d ≡ false) × (e ≡ false) × (f ≡ false) × (g ≡ false)
guards-pass false true false false false false false h = (refl, refl, refl, refl, refl, refl, refl)
guards-pass true b c d e f g h = absurd (cc)
guards-pass false false c d e f g h = absurd (cc)
guards-pass false true true d e f g h = absurd (cc)
guards-pass false true false true e f g h = absurd (cc)
guards-pass false true false false true f g h = absurd (cc)
guards-pass false true false false false true g h = absurd (cc)
guards-pass false true false false false false true h = absurd (cc)

pub pass-guards :
    (a b c d e f g : Bool)
    → a ≡ false
    → b ≡ true
    → c ≡ false
    → d ≡ false
    → e ≡ false
    → f ≡ false
    → g ≡ false
    → guards a b c d e f g ≡ true
pass-guards a b c d e f g ha hb hc hd he hf hg = rw (ha, hb, hc, hd, he, hf, hg) refl

pub not_below : (x y : ℕ) → ltb x y ≡ false → y ≤ x
not_below x y h = ground arith

pub at_least : (x y : ℕ) → y ≤ x → ltb x y ≡ false
at_least x y h = ground arith

pub not_empty : {b : Bool} → b ≡ false → not b ≡ true
not_empty h = ap not h

pub is_not_empty : (b : Bool) → not b ≡ true → b ≡ false
is_not_empty false h = refl
is_not_empty true h = absurd (cc)

-- One guard, and what it asks.
pub implies : (x y : Bool) → (x && not y) ≡ false → x ≡ true → y ≡ true
implies x y h k = ground arith

pub implies_not : (x y : Bool) → (x ≡ true → y ≡ true) → (x && not y) ≡ false
implies_not x y h = ground (arith, h)

pub either : (x y z : Bool) → (x && (not y && not z)) ≡ false → x ≡ true → (y ≡ true) ⊎ (z ≡ true)
either x y z h k = ground arith

pub either_not :
    (x y z : Bool) → (x ≡ true → (y ≡ true) ⊎ (z ≡ true)) → (x && (not y && not z)) ≡ false
either_not x y z h = ground (arith, h)

pub swap : {A : Type 0} (b : Bool) (x y : A) → (if b then x else y) ≡ (if not b then y else x)
swap true x y = refl
swap false x y = refl

pub contrary : (b : Bool) → b ≡ false → b ≡ true → ⊥
contrary b h k = cc

-- Where two guards lead.
pub denied :
    {A B : Type 0} (f : A → B) (a b : Bool) (x y z : A) (v : B)
    → b ≡ false
    → f x ≡ v
    → f y ≡ v
    → f (if a then x else if not b then y else z) ≡ v
denied f true b x y z v h p q = p
denied f false false x y z v h p q = q
denied f false true x y z v h p q = absurd (cc)

pub granted :
    {A : Type 0} (a b : Bool) (x y z : A)
    → a ≡ false
    → b ≡ true
    → z ≡ (if a then x else if not b then y else z)
granted false true x y z h k = refl
granted true b x y z h k = absurd (cc)
granted false false x y z h k = absurd (cc)
