-- ===== src/Graph/Unvisited.antt =====
-- What the searches of graph.py and independence.py run out of: the nodes that were not visited.
use continuityos.Prelude.{
  ℕ, suc, ◌≤◌, String, str_eq, eq_iff, List, [], ◌∷◌, ◌++◌, true, false, ◌||◌, ◌≡◌, refl, subst,
  arith, length, any-append, if◌then◌else◌, Bool-cases, inl, inr,
}
use continuityos.Graph.{among}

pub among-cons : (x y : String) (ys : List String) → among x (y ∷ ys) ≡ (str_eq x y || among x ys)
unfolding among
among-cons x y ys = refl

pub among-append :
    (x : String) (xs ys : List String) → among x (xs ++ ys) ≡ (among x xs || among x ys)
unfolding among
among-append x xs ys = any-append (str_eq x) xs ys

pub not_among : (x : String) → among x [] ≡ false
unfolding among
not_among x = refl

-- How many of the names are not visited, with repetitions.
unfoldable pub unvisited : List String → List String → ℕ
unvisited [] v = 0
unvisited (n ∷ ns) v = let rest = unvisited ns v in if among n v then rest else suc rest

unvisited-nil : (v : List String) → unvisited [] v ≡ 0
unfolding unvisited
unvisited-nil v = refl

unvisited-cons :
    (n : String) (ns v : List String)
    → unvisited (n ∷ ns) v ≡ (if among n v then unvisited ns v else suc (unvisited ns v))
unfolding unvisited
unvisited-cons n ns v = refl

pub unvisited-length : (ns v : List String) → unvisited ns v ≤ length ns
unvisited-length [] v = ground (arith, unvisited-nil v)
unvisited-length (n ∷ ns) v = ground (arith, unvisited-cons n ns v, unvisited-length ns v)

pub unvisited-grows :
    (ns v v' : List String)
    → ((y : String) → among y v ≡ true → among y v' ≡ true)
    → unvisited ns v' ≤ unvisited ns v
unvisited-grows [] v v' g = ground (arith, unvisited-nil v, unvisited-nil v')
unvisited-grows (n ∷ ns) v v' g =
    ground (arith, unvisited-cons n ns v, unvisited-cons n ns v', unvisited-grows ns v v' g, g n)

-- A visit of one of the names that was not visited leaves fewer.
pub unvisited-fewer :
    (ns : List String) (node : String) (v : List String)
    → among node ns ≡ true
    → among node v ≡ false
    → suc (unvisited ns (node ∷ v)) ≤ unvisited ns v
unvisited-fewer [] node v s a = ground (arith, not_among node)
unvisited-fewer (n ∷ ns) node v s a = elim (Bool-cases (str_eq node n)) [
  | inl e ↦
      let less = unvisited-grows ns v (node ∷ v) (λ y h. ground (arith, among-cons y node v)) in
      let same : node ≡ n = ground (arith, eq_iff node n) in
      let old : among n v ≡ false = subst (λ m. among m v ≡ false) same a in
      ground (
        arith,
        unvisited-cons n ns v,
        unvisited-cons n ns (node ∷ v),
        among-cons n node v,
        eq_iff n node,
        same,
      )
  | inr e ↦
      let less = unvisited-fewer ns node v (ground (arith, among-cons node n ns)) a in
      ground (
        arith,
        unvisited-cons n ns v,
        unvisited-cons n ns (node ∷ v),
        among-cons n node v,
        eq_iff n node,
        eq_iff node n,
      )
]
