-- ===== src/Independence/Groups/Count.antt =====
-- The count of the roots is the number of classes of connected providers.
use continuityos.Prelude.{
  ℕ, ◌+◌, ◌<◌, String, List, [], ◌∷◌, map, true, Option, none, some, length, ◌≡◌, ◌⊎◌, ◌↔◌, inl,
  inr, refl, ap, sym, ◌∙◌, subst, arith, Any, Any-All, All, All-append,
}
use continuityos.Graph.{among}
use continuityos.Independence.Groups.{
  Parents, parent_of, assign, own_parents, find, links, neighbours, add, unique_roots, depth_for,
  independent_count,
}
use continuityos.Independence.Groups.Roots.Root.{here}
use continuityos.Independence.Groups.Roots.{
  Root, str_cases, str_same, assign-same, assign-other, Root-unique, Root-higher, Keeps, find-Root,
}
use continuityos.Independence.Groups.Classes.{Linked, Same, Good, union_all-Good}
use continuityos.Independence.Groups.Classes.Linked.{pair, itself, back, chain}

-- each provider once
abbrev pub distinct : List String → List String → List String
distinct [] seen = seen
distinct (x ∷ xs) seen = distinct xs (add x seen)

abbrev pub found_root : String → Option (String × Parents) → String
found_root k none = k
found_root k (some (r, ps)) = r

abbrev pub root_in : ℕ → Parents → String → String
root_in depth ps k = found_root k (find depth k ps)

unique_roots-distinct :
    (n depth : ℕ) (qs : Parents) (pids seen : List String) (ps : Parents)
    → n < depth
    → All (λ k. (r : String) × Root qs n k r) pids
    → Keeps qs ps
    → unique_roots depth pids seen ps ≡ some (distinct (map (root_in depth qs) pids) seen)
unfolding unique_roots
unique_roots-distinct n depth qs [] seen ps lt h keeps = refl
unique_roots-distinct n depth qs (k ∷ pids) seen ps lt ((r, up), hs) keeps =
    let (_, first, _) = find-Root n depth qs k r up lt in
    let (ps', found, keeps') = find-Root n depth ps k r (keeps n k r up) lt in
    let rest =
      unique_roots-distinct n depth qs pids (add r seen) ps' lt hs
        (λ m j s h. keeps' m j s (keeps m j s h)) in
    simp found (
      rest
      ∙ ap (λ x. some (distinct (map (root_in depth qs) pids) (add x seen)))
          (sym (ap (found_root k) first)))

own_parents-keeps :
    (pids : List String) (ps : Parents) (k : String)
    → parent_of k ps ≡ some k
    → parent_of k (own_parents pids ps) ≡ some k
unfolding own_parents
own_parents-keeps [] ps k h = h
own_parents-keeps (pid ∷ pids) ps k h =
    own_parents-keeps pids (assign pid pid ps) k (elim (str_cases k pid) [
      | inl e ↦
          subst (λ x. parent_of x (assign pid pid ps) ≡ some x) (sym e) (assign-same pid pid ps)
      | inr (ne, _) ↦ assign-other pid pid k ps ne ∙ h
    ])

own_parents-own :
    (pids : List String) (ps : Parents) (k : String)
    → among k pids ≡ true
    → parent_of k (own_parents pids ps) ≡ some k
unfolding own_parents among
own_parents-own [] ps k h = absurd (ground arith)
own_parents-own (pid ∷ pids) ps k h = elim (str_cases k pid) [
  | inl e ↦
      own_parents-keeps pids (assign pid pid ps) k
        (subst (λ x. parent_of x (assign pid pid ps) ≡ some x) (sym e) (assign-same pid pid ps))
  | inr (_, e) ↦ own_parents-own pids (assign pid pid ps) k (ground arith)
]

neighbours-among :
    (providers pids : List String)
    → All (λ p. among p providers ≡ true) pids
    → All (λ e. (among e.0 providers ≡ true) × (among e.1 providers ≡ true)) (neighbours pids)
neighbours-among providers [] h = tt
neighbours-among providers (p ∷ []) h = tt
neighbours-among providers (p ∷ q ∷ pids) (hp, (hq, hs)) =
    ((hp, hq), neighbours-among providers (q ∷ pids) (hq, hs))

links-among :
    (providers : List String) (shared : List (List String))
    → All (λ pids. All (λ p. among p providers ≡ true) pids) shared
    → All (λ e. (among e.0 providers ≡ true) × (among e.1 providers ≡ true)) (links shared)
links-among providers [] h = tt
links-among providers (pids ∷ shared) (h, hs) =
    (All-append (λ e. (among e.0 providers ≡ true) × (among e.1 providers ≡ true)) (neighbours pids)
        (links shared)).1
      (neighbours-among providers pids h, links-among providers shared hs)

among-Linked :
    (providers : List String) (pairs rest : List (String × String))
    → ((e : String × String) → Any (λ x. x ≡ e) rest → Any (λ x. x ≡ e) pairs)
    → All (λ e. (among e.0 providers ≡ true) × (among e.1 providers ≡ true)) rest
    → All
        (λ e. (among e.0 providers ≡ true) × (among e.1 providers ≡ true) × Linked pairs e.0 e.1)
        rest
among-Linked providers pairs [] sub h = tt
among-Linked providers pairs (e ∷ rest) sub (h, hs) = (
  (h.0, h.1, pair (sub e (inl refl))),
  among-Linked providers pairs rest (λ x m. sub x (inr m)) hs,
)

Same-back : (ps : Parents) (i j : String) → Same ps i j → Same ps j i
Same-back ps i j s = record { height = s.height; root = s.root; left = s.right; right = s.left }

Same-chain : (ps : Parents) (i j k : String) → Same ps i j → Same ps j k → Same ps i k
Same-chain ps i j k s t = record {
  height = s.height + t.height;
  root = t.root;
  left =
      subst (Root ps (s.height + t.height) i)
        (Root-unique ps s.height t.height j s.root t.root s.right t.left)
        (Root-higher ps s.height (s.height + t.height) i s.root (omega arith) s.left);
  right = Root-higher ps t.height (s.height + t.height) k t.root (omega arith) t.right;
}

Linked-Same :
    (pairs : List (String × String)) (ps : Parents)
    → All (λ e. Same ps e.0 e.1) pairs
    → (i j : String) → Linked pairs i j
    → Same ps i j ⊎ (i ≡ j)
Linked-Same pairs ps all i j (pair h) = inl (
    Any-All (λ e. e ≡ (i, j)) (λ e. Same ps e.0 e.1) (Same ps i j)
      (λ e eq s. subst (λ x. Same ps x.0 x.1) eq s) pairs h all)
Linked-Same pairs ps all i _ itself = inr refl
Linked-Same pairs ps all i j (back h) = elim (Linked-Same pairs ps all j i h) [
  | inl s ↦ inl (Same-back ps j i s)
  | inr e ↦ inr (sym e)
]
Linked-Same pairs ps all i k (chain {j = j} h h') = elim (Linked-Same pairs ps all i j h) [
  | inl s ↦ elim (Linked-Same pairs ps all j k h') [
    | inl t ↦ inl (Same-chain ps i j k s t)
    | inr e ↦ inl (subst (Same ps i) e s)
  ]
  | inr e ↦ elim (Linked-Same pairs ps all j k h') [
    | inl t ↦ inl (subst (λ x. Same ps x k) (sym e) t)
    | inr e' ↦ inr (e ∙ e')
  ]
]

-- The roots of a well-formed structure in which every pair has one root name the classes.
root_in-Linked :
    (providers : List String) (pairs : List (String × String)) (n depth : ℕ) (qs : Parents)
    → Good providers pairs n qs
    → n < depth
    → All (λ e. Same qs e.0 e.1) pairs
    → (k l : String) → among k providers ≡ true
    → among l providers ≡ true
    → (root_in depth qs k ≡ root_in depth qs l) ↔ Linked pairs k l
root_in-Linked providers pairs n depth qs good lt all k l in_k in_l =
    let (r, up, link) = good k in_k in
    let (s, up', link') = good l in_l in
    let (_, found, _) = find-Root n depth qs k r up lt in
    let (_, found', _) = find-Root n depth qs l s up' lt in
    let at_k : root_in depth qs k ≡ r = ap (found_root k) found in
    let at_l : root_in depth qs l ≡ s = ap (found_root l) found' in
    (
      λ e. chain link (subst (λ x. Linked pairs x l) (sym (sym at_k ∙ e ∙ at_l)) (back link')),
      λ h.
          at_k
          ∙ (elim (Linked-Same pairs qs all k l h) [
            | inl t ↦
                Root-unique qs n t.height k r t.root up t.left
                ∙ Root-unique qs t.height n l t.root s t.right up'
            | inr e ↦ Root-unique qs n n k r s up (subst (λ x. Root qs n x s) (sym e) up')
          ])
          ∙ sym at_l,
    )

pub among-All :
    {P : String → Type 0} (xs : List String) → ((k : String) → among k xs ≡ true → P k) → All P xs
unfolding among
among-All [] h = tt
among-All (x ∷ xs) h =
    (h x (simp (str_same x x refl) refl), among-All xs (λ k m. h k (ground arith)))

-- Where the shared dependencies name only declared providers, the count is returned, and it is the
-- number of classes of providers under the connection by shared dependencies: some naming of the
-- classes gives two declared providers the same name exactly when they are connected, and the count
-- is that of the distinct names.
pub independent_count-Linked :
    (providers : List String) (shared : List (List String))
    → All (λ pids. All (λ p. among p providers ≡ true) pids) shared
    → (name : String → String) × ((k l : String)
        → among k providers ≡ true
        → among l providers ≡ true
        → (name k ≡ name l) ↔ Linked (links shared) k l)
      × (independent_count providers shared ≡ some (length (distinct (map name providers) [])))
unfolding independent_count
independent_count-Linked providers shared declared =
    let pairs = links shared in
    let start : Good providers pairs 0 (own_parents providers []) =
      λ k in_k. (k, here (own_parents-own providers [] k in_k), itself) in
    let (qs, done, good, same, _) =
      union_all-Good providers pairs pairs 0 (depth_for shared) (own_parents providers []) start
        (omega arith)
        (among-Linked providers pairs pairs (λ e m. m) (links-among providers shared declared)) in
    let lt : 0 + length pairs < depth_for shared = omega arith in
    (
      root_in (depth_for shared) qs,
      root_in-Linked providers pairs (0 + length pairs) (depth_for shared) qs good lt same,
      simp
          (
            done,
            unique_roots-distinct (0 + length pairs) (depth_for shared) qs providers [] qs lt
                (among-All providers (λ k in_k. let (r, up, _) = good k in_k in (r, up)))
                (λ m k s h. h),
          )
          refl,
    )
