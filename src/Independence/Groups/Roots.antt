-- ===== src/Independence/Groups/Roots.antt =====
-- The root of a provider: what `find` returns, and what an assignment does to the roots.
use continuityos.Prelude.{
  ℕ, zero, suc, ◌≤◌, ◌<◌, String, str_eq, [], ◌∷◌, true, false, some, ◌≡◌, ◌≢◌, ◌⊎◌, inl, inr, refl,
  ap, sym, ◌∙◌, subst, arith, Bool-cases, eq_iff, ne_of_str_eq, some_injective,
}
use continuityos.Independence.Groups.{Parents, parent_of, assign, find}

-- `r` is the root above `i`, at most so many parents away.
pub data Root (ps : Parents) : ℕ → String → String → Type 0 where
  here : {n : ℕ} {i : String} → parent_of i ps ≡ some i → Root ps n i i
  above :
      {n : ℕ} {i p r : String}
      → parent_of i ps ≡ some p
      → p ≢ i
      → Root ps n p r
      → Root ps (suc n) i r

pub str_cases : (s t : String) → (s ≡ t) ⊎ ((s ≢ t) × (str_eq s t ≡ false))
str_cases s t = elim (Bool-cases (str_eq s t)) [
  | inl e ↦ inl ((eq_iff s t).0 e)
  | inr e ↦ inr (ne_of_str_eq s t e, e)
]

pub str_same : (s t : String) → s ≡ t → str_eq s t ≡ true
str_same s t e = (eq_iff s t).1 e

str_differ : (s t : String) → s ≢ t → str_eq s t ≡ false
str_differ s t ne = elim (str_cases s t) [ inl e ↦ absurd (ne e) | inr (_, e) ↦ e ]

pub assign-same : (i r : String) (ps : Parents) → parent_of i (assign i r ps) ≡ some r
unfolding parent_of assign
assign-same i r [] = simp (str_same i i refl) refl
assign-same i r ((k, p) ∷ ps) = elim (str_cases i k) [
  | inl e ↦ simp (str_same i k e) refl
  | inr (ne, e) ↦ simp (e, assign-same i r ps) refl
]

pub assign-other :
    (i r k : String) (ps : Parents) → k ≢ i → parent_of k (assign i r ps) ≡ parent_of k ps
unfolding parent_of assign
assign-other i r k [] ne = simp (str_differ k i ne) refl
assign-other i r k ((l, p) ∷ ps) ne = elim (str_cases i l) [
  | inl e ↦ simp (str_same i l e, str_differ k l (λ same. ne (same ∙ sym e))) refl
  | inr (_, e) ↦ simp (e, assign-other i r k ps ne) refl
]

pub Root-parent : (ps : Parents) (n : ℕ) (i r : String) → Root ps n i r → parent_of r ps ≡ some r
Root-parent ps n i _ (here e) = e
Root-parent ps (suc n) i r (above e ne h) = Root-parent ps n _ r h

pub Root-unique : (ps : Parents) (n m : ℕ) (i r s : String) → Root ps n i r → Root ps m i s → r ≡ s
Root-unique ps n m i _ _ (here e) (here e') = refl
Root-unique ps n (suc m) i _ s (here e) (above e' ne h) = absurd (ne (some_injective (sym e' ∙ e)))
Root-unique ps (suc n) m i r _ (above e ne h) (here e') = absurd (ne (some_injective (sym e ∙ e')))
Root-unique ps (suc n) (suc m) i r s (above {p = p} e ne h) (above {p = q} e' ne' h') =
    Root-unique ps n m p r s h (subst (λ x. Root ps m x s) (some_injective (sym e' ∙ e)) h')

pub Root-higher : (ps : Parents) (n m : ℕ) (i r : String) → n ≤ m → Root ps n i r → Root ps m i r
Root-higher ps n m i _ le (here e) = here e
Root-higher ps (suc n) zero i r le (above e ne h) = absurd (omega arith)
Root-higher ps (suc n) (suc m) i r le (above e ne h) =
    above e ne (Root-higher ps n m _ r (omega arith) h)

-- A shortcut to the root changes no root.
pub assign-Root :
    (ps : Parents) (n : ℕ) (i r : String)
    → Root ps n i r
    → i ≢ r
    → (m : ℕ) (k s : String) → Root ps m k s
    → Root (assign i r ps) m k s
assign-Root ps n i r at apart m k _ (here e) = elim (str_cases k i) [
  | inl same ↦
      absurd (apart (sym (Root-unique ps n m i r i at (subst (λ x. Root ps m x x) same (here e)))))
  | inr (ne, _) ↦ here (assign-other i r k ps ne ∙ e)
]
assign-Root ps n i r at apart (suc m) k s (above {p = p} e ne h) = elim (str_cases k i) [
  | inl same ↦
      let ends : r ≡ s =
        Root-unique ps n (suc m) i r s at (subst (λ x. Root ps (suc m) x s) same (above e ne h)) in
      subst (λ x. Root (assign i r ps) (suc m) k x) ends
        (subst (λ x. Root (assign i r ps) (suc m) x r) (sym same)
          (above (assign-same i r ps) (λ e'. apart (sym e'))
            (here (assign-other i r r ps (λ e'. apart (sym e')) ∙ Root-parent ps n i r at))))
  | inr (other, _) ↦
      above (assign-other i r k ps other ∙ e) ne (assign-Root ps n i r at apart m p s h)
]

-- A union hangs one root below another.
pub assign_merges :
    (ps : Parents) (a b : String)
    → parent_of a ps ≡ some a
    → parent_of b ps ≡ some b
    → a ≢ b
    → (m : ℕ) (k s : String) → Root ps m k s
    → ((s ≡ a) × Root (assign a b ps) (suc m) k b) ⊎ ((s ≢ a) × Root (assign a b ps) (suc m) k s)
assign_merges ps a b at top apart m k _ (here e) = elim (str_cases k a) [
  | inl same ↦ inl (
    same,
    subst (λ x. Root (assign a b ps) (suc m) x b) (sym same)
        (above (assign-same a b ps) (λ r. apart (sym r))
          (here (assign-other a b b ps (λ r. apart (sym r)) ∙ top))),
  )
  | inr (ne, _) ↦ inr (ne, here (assign-other a b k ps ne ∙ e))
]
assign_merges ps a b at top apart (suc m) k s (above {p = p} e ne h) =
    let moved : parent_of k (assign a b ps) ≡ some p =
      assign-other a b k ps
        (λ same. ne (some_injective (sym e ∙ ap (λ x. parent_of x ps) same ∙ at) ∙ sym same))
      ∙ e in
    elim (assign_merges ps a b at top apart m p s h) [
      | inl (same, h') ↦ inl (same, above moved ne h')
      | inr (other, h') ↦ inr (other, above moved ne h')
    ]

-- The roots of one dictionary are those of another.
abbrev pub Keeps : Parents → Parents → Type 0
Keeps ps qs = (m : ℕ) (k s : String) → Root ps m k s → Root qs m k s

-- `find` returns the root and keeps all roots.
pub find-Root :
    (n depth : ℕ) (ps : Parents) (i r : String)
    → Root ps n i r
    → n < depth
    → (qs : Parents) × (find depth i ps ≡ some (r, qs)) × Keeps ps qs
unfolding find
find-Root n zero ps i r h lt = absurd (omega arith)
find-Root n (suc depth) ps i _ (here e) lt = (ps, simp (e, str_same i i refl) refl, λ m k s h. h)
find-Root (suc n) (suc depth) ps i r (above {p = p} e ne h) lt =
    let (qs, found, keeps) = find-Root n depth ps p r h (omega arith) in
    let self : i ≢ r = λ same. ne (
      some_injective
        (sym e ∙ ap (λ x. parent_of x ps) same ∙ Root-parent ps n p r h ∙ ap some (sym same))) in
    (
      assign i r qs,
      simp (e, str_differ p i ne, found) refl,
      λ m k s g.
          assign-Root qs (suc n) i r (keeps (suc n) i r (above e ne h)) self m k s (keeps m k s g),
    )
