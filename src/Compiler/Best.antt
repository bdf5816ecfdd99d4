-- ===== src/Compiler/Best.antt =====
-- The comparison of candidates in compiler.py is a strict order, so the search keeps a best one.
use continuityos.Prelude.{
  String, List, [], ◌∷◌, true, false, Option, none, some, ◌≡◌, refl, arith, str_lt_irrefl,
  str_lt_trans, eq_iff, Any, inl, inr, ◌⊎◌, subst, sym,
}
use continuityos.Float.{Float, IsOrdered}
use continuityos.Compiler.{
  Candidate, ids_of, ids_lt, cost_first, continuity_first, better, keep_better, evaluate, search,
}
use continuityos.Compiler.Actions.{CompileRequest, MitigationAction}

ids_lt_irrefl : (xs : List String) → ids_lt xs xs ≡ false
unfolding ids_lt
ids_lt_irrefl [] = refl
ids_lt_irrefl (a ∷ more) = ground (arith, ids_lt_irrefl more, str_lt_irrefl a)

ids_lt-nil : (xs : List String) → ids_lt xs [] ≡ false
unfolding ids_lt
ids_lt-nil [] = refl
ids_lt-nil (a ∷ more) = refl

ids_lt_trans :
    (xs ys zs : List String) → ids_lt xs ys ≡ true → ids_lt ys zs ≡ true → ids_lt xs zs ≡ true
unfolding ids_lt
ids_lt_trans xs ys [] p q = absurd (ground (arith, ids_lt-nil ys))
ids_lt_trans xs [] (c ∷ cs) p q = absurd (ground (arith, ids_lt-nil xs))
ids_lt_trans [] (b ∷ bs) (c ∷ cs) p q = refl
ids_lt_trans (a ∷ more) (b ∷ bs) (c ∷ cs) p q =
    grind (arith, ids_lt_trans more bs cs, str_lt_trans a b c, eq_iff)

module _ {F : Type 0} ⦃fl : Float F⦄ where
  -- The candidate `d` is not better than the one that is kept.
  abbrev pub Stands : F → Candidate F → Option (Candidate F) → Type 0
  Stands t d none = ⊥
  Stands t d (some b) = better d b t ≡ false

module _ {F : Type 0} ⦃fl : Float F⦄ (ord : IsOrdered fl) where
  cost_first_trans :
      (a b c : Candidate F) → cost_first a b ≡ true → cost_first b c ≡ true → cost_first a c ≡ true
  unfolding cost_first
  cost_first_trans a b c p q = grind (
    arith,
    ids_lt_trans (ids_of a.actions) (ids_of b.actions) (ids_of c.actions),
    ord.trans,
    ord.lt-le,
  )

  continuity_first_trans :
      (a b c : Candidate F)
      → continuity_first a b ≡ true
      → continuity_first b c ≡ true
      → continuity_first a c ≡ true
  unfolding continuity_first
  continuity_first_trans a b c p q = grind (
    arith,
    ids_lt_trans (ids_of a.actions) (ids_of b.actions) (ids_of c.actions),
    ord.trans,
    ord.lt-le,
  )

  pub better_irrefl : (a : Candidate F) (t : F) → better a a t ≡ false
  unfolding better cost_first continuity_first
  better_irrefl a t = grind (arith, ids_lt_irrefl, ord.refl)

  pub better_trans :
      (a b c : Candidate F) (t : F)
      → better a b t ≡ true
      → better b c t ≡ true
      → better a c t ≡ true
  unfolding better
  better_trans a b c t p q = ground (arith, cost_first_trans a b c, continuity_first_trans a b c)

  Stands-keep :
      (t : F) (d : Candidate F) (best e : Option (Candidate F))
      → Stands t d best
      → Stands t d (keep_better t best e)
  Stands-keep t d none e h = absurd h
  Stands-keep t d (some b) none h = h
  Stands-keep t d (some b) (some c) h = ground (arith, better_trans d c b t)

  Stands-new :
      (t : F) (d : Candidate F) (best : Option (Candidate F))
      → Stands t d (keep_better t best (some d))
  Stands-new t d none = better_irrefl d t
  Stands-new t d (some b) = ground (arith, better_irrefl d t)

  search-Stands :
      (r : CompileRequest F) (d : Candidate F) (subsets : List (List (MitigationAction F)))
      (best : Option (Candidate F))
      → Stands r.objective.minimum_continuity d best
      → Stands r.objective.minimum_continuity d (search r best subsets)
  unfolding search
  search-Stands r d [] best h = h
  search-Stands r d (s ∷ ss) best h = search-Stands r d ss _ (Stands-keep _ d best (evaluate r s) h)

  -- No candidate among the subsets is better than the one that the search returns, and the search
  -- returns one if there is any.
  pub search_best :
      (r : CompileRequest F) (d : Candidate F) (subsets : List (List (MitigationAction F)))
      (best : Option (Candidate F))
      → Any (λ s. evaluate r s ≡ some d) subsets
      → Stands r.objective.minimum_continuity d (search r best subsets)
  unfolding search
  search_best r d [] best h = absurd h
  search_best r d (s ∷ ss) best (inl e) = search-Stands r d ss _ (
      subst
        (λ o.
          Stands r.objective.minimum_continuity d
            (keep_better r.objective.minimum_continuity best o))
        (sym e) (Stands-new _ d best))
  search_best r d (s ∷ ss) best (inr h) = search_best r d ss _ h

module _ {F : Type 0} ⦃fl : Float F⦄ where
  keep_better-origin :
      (t : F) (b : Candidate F) (best e : Option (Candidate F))
      → keep_better t best e ≡ some b
      → (best ≡ some b) ⊎ (e ≡ some b)
  keep_better-origin t b best none h = inl h
  keep_better-origin t b none (some c) h = inr h
  keep_better-origin t b (some b0) (some c) h = ground arith

  -- What the search returns is a candidate of some subset.
  pub search-origin :
      (r : CompileRequest F) (b : Candidate F) (subsets : List (List (MitigationAction F)))
      (best : Option (Candidate F))
      → search r best subsets ≡ some b
      → (best ≡ some b) ⊎ Any (λ s. evaluate r s ≡ some b) subsets
  unfolding search
  search-origin r b [] best h = inl h
  search-origin r b (s ∷ ss) best h = elim (search-origin r b ss _ h) [
    | inr later ↦ inr (inr later)
    | inl now ↦ elim (keep_better-origin _ b best (evaluate r s) now) [
      | inl before ↦ inl before
      | inr here ↦ inr (inl here)
    ]
  ]
