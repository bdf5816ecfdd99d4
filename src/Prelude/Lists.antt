-- ===== src/Prelude/Lists.antt =====
-- Lists under the library's names over the native numbers, and tests of membership.
use Prim.Native.Nat.{ℕ, suc, ◌+◌}
use mathlib.Core.Path.{◌≡◌, refl, subst}
use mathlib.Core.Logic.{◌⊎◌, ◌↔◌, inl, inr}
use mathlib.Core.Bool.{Bool, true, false, ◌&&◌, ◌||◌, decide, decide_iff}
use mathlib.Core.List.{List, [], ◌∷◌, ◌++◌}
use native.Mathlib.Omega.{arith}

module _ {ℓ} {A : Type ℓ} where
  abbrev pub length : List A → ℕ
  length [] = 0
  length (x ∷ xs) = suc (length xs)

  -- Whether some element passes the test, and whether every one does.
  abbrev pub any : (A → Bool) → List A → Bool
  any p [] = false
  any p (x ∷ xs) = p x || any p xs

  abbrev pub all : (A → Bool) → List A → Bool
  all p [] = true
  all p (x ∷ xs) = p x && all p xs

  -- What a conditional `append` adds.
  abbrev pub when : Bool → A → List A
  when true x = x ∷ []
  when false x = []

  pub any-when : (p : A → Bool) (b : Bool) (x : A) → any p (when b x) ≡ (b && p x)
  any-when p true x = ground arith
  any-when p false x = refl

  -- Some element of the list satisfies the predicate, the element kept; and every one does.
  abbrev pub Any : (A → Type 0) → List A → Type 0
  Any P [] = ⊥
  Any P (x ∷ xs) = P x ⊎ Any P xs

  abbrev pub All : (A → Type 0) → List A → Type 0
  All P [] = Unit
  All P (x ∷ xs) = P x × All P xs

  pub length-append : (xs ys : List A) → length (xs ++ ys) ≡ length xs + length ys
  length-append [] ys = omega arith
  length-append (x ∷ xs) ys = omega (arith, length-append xs ys)

  pub any-append : (p : A → Bool) (xs ys : List A) → any p (xs ++ ys) ≡ (any p xs || any p ys)
  any-append p [] ys = refl
  any-append p (x ∷ xs) ys = ground (arith, any-append p xs ys)

  -- A test that decides a predicate decides it of some element.
  pub any_iff :
      (p : A → Bool) (P : A → Type 0) (dec : (x : A) → (p x ≡ true) ↔ P x) (xs : List A)
      → (any p xs ≡ true) ↔ Any P xs
  any_iff p P dec [] = (λ h. cc, λ h. absurd h)
  any_iff p P dec (x ∷ xs) = (
    λ h. ground (arith, (dec x).0, (any_iff p P dec xs).0),
    λ h. ground (arith, (dec x).1, (any_iff p P dec xs).1),
  )

-- Equality of the members of an enumeration, and `in` on a collection of them.
module _ {A : Type 0} (discrete : Discrete A) where
  unfoldable pub same : A → A → Bool
  unfolding decide
  same a b = decide (discrete a b)

  pub same_iff : (a b : A) → (same a b ≡ true) ↔ (a ≡ b)
  unfolding same
  same_iff a b = decide_iff (discrete a b)

  unfoldable pub mem : A → List A → Bool
  unfolding same
  mem a xs = any (same a) xs

  pub mem_iff : (a : A) (xs : List A) → (mem a xs ≡ true) ↔ Any (λ x. a ≡ x) xs
  unfolding mem
  mem_iff a xs = any_iff (same a) (λ x. a ≡ x) (same_iff a) xs

pub Any-map :
    {A : Type 0} {P Q : A → Type 0} (f : (x : A) → P x → Q x) (xs : List A) → Any P xs → Any Q xs
Any-map f [] h = h
Any-map f (x ∷ xs) (inl h) = inl (f x h)
Any-map f (x ∷ xs) (inr h) = inr (Any-map f xs h)

-- What some element has, some element of a list with all its elements has.
pub Any-subset :
    {A : Type 0} (P : A → Type 0) (xs ys : List A)
    → ((a : A) → Any (λ x. a ≡ x) xs → Any (λ x. a ≡ x) ys)
    → Any P xs
    → Any P ys
Any-subset P [] ys sub h = absurd h
Any-subset P (x ∷ xs) ys sub (inl h) = Any-map (λ y e. subst P e h) ys (sub x (inl refl))
Any-subset P (x ∷ xs) ys sub (inr h) = Any-subset P xs ys (λ a m. sub a (inr m)) h

pub Any-append :
    {A : Type 0} (P : A → Type 0) (xs ys : List A) → Any P (xs ++ ys) ↔ (Any P xs ⊎ Any P ys)
Any-append P [] ys = (inr, λ h. ground arith)
Any-append P (x ∷ xs) ys =
    (λ h. ground (arith, (Any-append P xs ys).0), λ h. ground (arith, (Any-append P xs ys).1))

pub All-map :
    {A : Type 0} {P Q : A → Type 0} (f : (x : A) → P x → Q x) (xs : List A) → All P xs → All Q xs
All-map f [] h = tt
All-map f (x ∷ xs) h = (f x h.0, All-map f xs h.1)

pub All-append :
    {A : Type 0} (P : A → Type 0) (xs ys : List A) → All P (xs ++ ys) ↔ (All P xs × All P ys)
All-append P [] ys = (λ h. (tt, h), λ h. h.1)
All-append P (x ∷ xs) ys = (
  λ h. let r = (All-append P xs ys).0 h.1 in ((h.0, r.0), r.1),
  λ h. (h.0.0, (All-append P xs ys).1 (h.0.1, h.1)),
)

-- What one element has and every element has, meets at an element.
pub Any-All :
    {A : Type 0} (P Q : A → Type 0) (R : Type 0) (f : (x : A) → P x → Q x → R) (xs : List A)
    → Any P xs
    → All Q xs
    → R
Any-All P Q R f [] h k = absurd h
Any-All P Q R f (x ∷ xs) (inl h) k = f x h k.0
Any-All P Q R f (x ∷ xs) (inr h) k = Any-All P Q R f xs h k.1

pub all_iff :
    {A : Type 0} (p : A → Bool) (P : A → Type 0) (dec : (x : A) → (p x ≡ true) ↔ P x) (xs : List A)
    → (all p xs ≡ true) ↔ All P xs
all_iff p P dec [] = (λ h. tt, λ h. refl)
all_iff p P dec (x ∷ xs) = (
  λ h. ground (arith, (dec x).0, (all_iff p P dec xs).0),
  λ h. ground (arith, (dec x).1, (all_iff p P dec xs).1),
)

pub none_iff :
    {A : Type 0} (p : A → Bool) (P : A → Type 0) (dec : (x : A) → (p x ≡ true) ↔ P x) (xs : List A)
    → (any p xs ≡ false) ↔ All (λ x. ¬ P x) xs
none_iff p P dec [] = (λ h. tt, λ h. refl)
none_iff p P dec (x ∷ xs) = (
  λ h. (λ px. ground (arith, (dec x).1 px), (none_iff p P dec xs).0 (ground arith)),
  λ h. ground (arith, (dec x).0, h.0, (none_iff p P dec xs).1 h.1),
)
