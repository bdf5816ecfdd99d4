-- ===== src/Independence/Groups/Classes.antt =====
-- The groups of the union-find structure are the classes of the providers that chains of shared
-- dependencies connect.
use continuityos.Prelude.{
  ℕ, suc, ◌+◌, ◌<◌, String, List, [], ◌∷◌, true, some, length, ◌≡◌, inl, inr, refl, sym, subst,
  arith, Any, All,
}
use continuityos.Graph.{among}
use continuityos.Independence.Groups.{Parents, assign, union, union_all}
use continuityos.Independence.Groups.Roots.{
  Root, str_cases, str_same, Root-parent, Root-higher, assign_merges, find-Root,
}

-- Connected by the pairs, in any number of steps.
pub data Linked (pairs : List (String × String)) : String → String → Type 0 where
  pair : {i j : String} → Any (λ e. e ≡ (i, j)) pairs → Linked pairs i j
  itself : {i : String} → Linked pairs i i
  back : {i j : String} → Linked pairs i j → Linked pairs j i
  chain : {i j k : String} → Linked pairs i j → Linked pairs j k → Linked pairs i k

-- two providers with one root
pub record Same (ps : Parents) (i j : String) : Type 0 where
  pub height : ℕ
  pub root : String
  pub left : Root ps height i root
  pub right : Root ps height j root

module _ (providers : List String) (pairs : List (String × String)) where
  -- Every provider has a root, not too far away, and is connected with it.
  abbrev pub Good : ℕ → Parents → Type 0
  Good n ps =
      (k : String) → among k providers ≡ true → (r : String) × Root ps n k r × Linked pairs k r

  -- What one union does.
  union-Good :
      (n depth : ℕ) (ps : Parents) (i j : String)
      → Good n ps
      → n < depth
      → among i providers ≡ true
      → among j providers ≡ true
      → Linked pairs i j
      → (qs : Parents) × (union depth i j ps ≡ some qs)
        × Good (suc n) qs
        × Same qs i j
        × ((k l : String) → Same ps k l → Same qs k l)
  unfolding union
  union-Good n depth ps i j good lt in_i in_j link =
      let (ri, up_i, link_i) = good i in_i in
      let (ps1, found_i, keeps1) = find-Root n depth ps i ri up_i lt in
      let (rj, up_j, link_j) = good j in_j in
      let (ps2, found_j, keeps2) = find-Root n depth ps1 j rj (keeps1 n j rj up_j) lt in
      let at_i : Root ps2 n i ri = keeps2 n i ri (keeps1 n i ri up_i) in
      let at_j : Root ps2 n j rj = keeps2 n j rj (keeps1 n j rj up_j) in
      elim (str_cases ri rj) [
        | inl same ↦ (
          ps2,
          simp (found_i, found_j, str_same ri rj same) refl,
          λ k in_k.
              let (r, up, link_k) = good k in_k in
              (
                r,
                Root-higher ps2 n (suc n) k r (omega arith) (keeps2 n k r (keeps1 n k r up)),
                link_k,
              ),
          record { height = n; root = rj; left = subst (Root ps2 n i) same at_i; right = at_j },
          λ k l s. record {
            height = s.height;
            root = s.root;
            left = keeps2 s.height k s.root (keeps1 s.height k s.root s.left);
            right = keeps2 s.height l s.root (keeps1 s.height l s.root s.right);
          },
        )
        | inr (apart, test) ↦
            let moved =
              assign_merges ps2 ri rj (Root-parent ps2 n i ri at_i) (Root-parent ps2 n j rj at_j)
                apart in
            (
              assign ri rj ps2,
              simp (found_i, found_j, test) refl,
              λ k in_k.
                  let (r, up, link_k) = good k in_k in
                  elim (moved n k r (keeps2 n k r (keeps1 n k r up))) [
                    | inl (e, up') ↦ (
                      rj,
                      up',
                      chain (subst (Linked pairs k) e link_k)
                          (chain (back link_i) (chain link link_j)),
                    )
                    | inr (_, up') ↦ (r, up', link_k)
                  ],
              record {
                height = suc n;
                root = rj;
                left = elim (moved n i ri at_i) [
                  | inl (_, up) ↦ up
                  | inr (ne, _) ↦ absurd (ne refl)
                ];
                right = elim (moved n j rj at_j) [
                  | inl (e, _) ↦ absurd (apart (sym e))
                  | inr (_, up) ↦ up
                ];
              },
              λ k l s.
                  let left = keeps2 s.height k s.root (keeps1 s.height k s.root s.left) in
                  let right = keeps2 s.height l s.root (keeps1 s.height l s.root s.right) in
                  elim (moved s.height k s.root left) [
                    | inl (e, up) ↦ elim (moved s.height l s.root right) [
                      | inl (_, up') ↦ record {
                        height = suc s.height;
                        root = rj;
                        left = up;
                        right = up';
                      }
                      | inr (ne, _) ↦ absurd (ne e)
                    ]
                    | inr (ne, up) ↦ elim (moved s.height l s.root right) [
                      | inl (e, _) ↦ absurd (ne e)
                      | inr (_, up') ↦ record {
                        height = suc s.height;
                        root = s.root;
                        left = up;
                        right = up';
                      }
                    ]
                  ],
            )
      ]

  pub union_all-Good :
      (rest : List (String × String)) (n depth : ℕ) (ps : Parents)
      → Good n ps
      → n + length rest < depth
      → All
          (λ e. (among e.0 providers ≡ true) × (among e.1 providers ≡ true) × Linked pairs e.0 e.1)
          rest
      → (qs : Parents) × (union_all depth rest ps ≡ some qs)
        × Good (n + length rest) qs
        × All (λ e. Same qs e.0 e.1) rest
        × ((k l : String) → Same ps k l → Same qs k l)
  unfolding union_all
  union_all-Good [] n depth ps good lt h =
      (ps, refl, subst (λ m. Good m ps) (omega arith) good, tt, λ k l s. s)
  union_all-Good ((i, j) ∷ rest) n depth ps good lt ((in_i, in_j, link), hs) =
      let (ps', done, good', same, keep) =
        union-Good n depth ps i j good (omega arith) in_i in_j link in
      let (qs, finished, good'', sames, keep') =
        union_all-Good rest (suc n) depth ps' good' (omega arith) hs in
      (
        qs,
        simp (done, finished) refl,
        subst (λ m. Good m qs) (omega arith) good'',
        (keep' i j same, sames),
        λ k l s. keep' k l (keep k l s),
      )
