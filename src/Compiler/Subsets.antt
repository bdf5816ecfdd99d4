-- ===== src/Compiler/Subsets.antt =====
-- The subsets that compiler.py enumerates: all sublists of the actions and no other list.
use continuityos.Prelude.{
  ℕ, zero, suc, ◌≤◌, List, [], ◌∷◌, map, Any, Any-append, All, All-map, All-append, subst, ◌⊎◌, ◌≡◌,
  refl, inl, inr, length, arith,
}
use mathlib.Core.List.{Sublistᴰ}
use continuityos.Compiler.{combinations, subsets_up_to}

le_or_last : (k n : ℕ) → k ≤ suc n → (k ≤ n) ⊎ (k ≡ suc n)
le_or_last k n h = omega arith

-- A prefix on a list and on a member of a mapped collection.
Any-cons :
    {A : Type 0} {x y : A} (s : List A) (cs : List (List A))
    → x ≡ y
    → Any (λ c. s ≡ c) cs
    → Any (λ c. x ∷ s ≡ c) (map (λ c. y ∷ c) cs)
Any-cons s [] e h = absurd h
Any-cons s (c ∷ cs) e (inl p) = inl (λ i. e i ∷ p i)
Any-cons s (c ∷ cs) e (inr h) = inr (Any-cons s cs e h)

combinations-skip :
    {A : Type 0} (a : A) (l s : List A)
    → Any (λ c. s ≡ c) (combinations l (length s))
    → Any (λ c. s ≡ c) (combinations (a ∷ l) (length s))
unfolding combinations
combinations-skip a l [] h = inl refl
combinations-skip a l (x ∷ s) h =
    (Any-append _ (map (λ c. a ∷ c) (combinations l (length s)))
        (combinations l (suc (length s)))).1
      (inr h)

combinations_complete :
    {A : Type 0} {s xs : List A} → Sublistᴰ s xs → Any (λ c. s ≡ c) (combinations xs (length s))
unfolding combinations
combinations_complete Sublistᴰ.slnil = inl refl
combinations_complete (Sublistᴰ.cons {a} {l₁} {l₂} d) =
    combinations-skip a l₂ l₁ (combinations_complete d)
combinations_complete (Sublistᴰ.cons-cons {b} {l₁} {l₂} e d) =
    (Any-append _ _ (combinations l₂ (suc (length l₁)))).1
      (inl (Any-cons l₁ _ e (combinations_complete d)))

pub length-Sublist : {A : Type 0} {s xs : List A} → Sublistᴰ s xs → length s ≤ length xs
length-Sublist Sublistᴰ.slnil = omega arith
length-Sublist (Sublistᴰ.cons d) = omega (arith, length-Sublist d)
length-Sublist (Sublistᴰ.cons-cons e d) = omega (arith, length-Sublist d)

up_to-longer :
    {A : Type 0} (P : List A → Type 0) (xs : List A) (n k : ℕ)
    → Any P (combinations xs k)
    → k ≤ n
    → Any P (subsets_up_to xs n)
unfolding subsets_up_to
up_to-longer P xs zero zero h le = h
up_to-longer P xs zero (suc k) h le = absurd (omega arith)
up_to-longer P xs (suc n) k h le =
    (Any-append P (subsets_up_to xs n) (combinations xs (suc n))).1 (elim (le_or_last k n le) [
      | inl below ↦ inl (up_to-longer P xs n k h below)
      | inr last ↦ inr (subst (λ j. Any P (combinations xs j)) last h)
    ])

-- Every sublist is enumerated.
pub subsets_complete :
    {A : Type 0} {s xs : List A} → Sublistᴰ s xs → Any (λ c. s ≡ c) (subsets_up_to xs (length xs))
subsets_complete {s} {xs} d =
    up_to-longer (λ c. s ≡ c) xs (length xs) (length s) (combinations_complete d) (length-Sublist d)

pub Sublist_nil : {A : Type 0} (xs : List A) → Sublistᴰ [] xs
Sublist_nil [] = Sublistᴰ.slnil
Sublist_nil (x ∷ xs) = Sublistᴰ.cons (Sublist_nil xs)

All-prefixed :
    {A : Type 0} (x : A) (xs : List A) (cs : List (List A))
    → All (λ c. Sublistᴰ c xs) cs
    → All (λ c. Sublistᴰ c (x ∷ xs)) (map (λ c. x ∷ c) cs)
All-prefixed x xs [] h = tt
All-prefixed x xs (c ∷ cs) h = (Sublistᴰ.cons-cons refl h.0, All-prefixed x xs cs h.1)

combinations_sound :
    {A : Type 0} (xs : List A) (n : ℕ) → All (λ c. Sublistᴰ c xs) (combinations xs n)
unfolding combinations
combinations_sound xs zero = (Sublist_nil xs, tt)
combinations_sound [] (suc n) = tt
combinations_sound (x ∷ xs) (suc n) = (All-append _ _ (combinations xs (suc n))).1 (
  All-prefixed x xs _ (combinations_sound xs n),
  All-map (λ c d. Sublistᴰ.cons d) _ (combinations_sound xs (suc n)),
)

-- Only sublists are enumerated.
pub subsets_sound :
    {A : Type 0} (xs : List A) (n : ℕ) → All (λ c. Sublistᴰ c xs) (subsets_up_to xs n)
unfolding subsets_up_to
subsets_sound xs zero = combinations_sound xs zero
subsets_sound xs (suc n) =
    (All-append _ (subsets_up_to xs n) _).1 (subsets_sound xs n, combinations_sound xs (suc n))
