-- ===== src/Independence/Category/Linking.antt =====
-- Lists of shared dependencies: sorting them, finding one, and the connections that they make.
use continuityos.Prelude.{
  String, str_lt, List, [], ◌∷◌, true, ◌≡◌, ◌⊎◌, inl, inr, refl, sym, subst, arith, Bool-cases,
  eq_iff, Any, All, Any-append,
}
use continuityos.Graph.{among}
use continuityos.Graph.Unvisited.{among-cons}
use continuityos.Independence.Groups.{links, neighbours}
use continuityos.Independence.Groups.Roots.{str_cases, str_same}
use continuityos.Independence.Groups.Classes.{Linked}
use continuityos.Independence.Groups.Classes.Linked.{pair, itself, back, chain}
use continuityos.Independence.Category.{
  SharedDependency, Upstreams, users_of, insert_dependency, sort_dependencies, providers_of,
}

insert_dependency-All :
    (Q : SharedDependency → Type 0) (d : SharedDependency) (deps : List SharedDependency)
    → Q d
    → All Q deps
    → All Q (insert_dependency d deps)
unfolding insert_dependency
insert_dependency-All Q d [] h hs = (h, tt)
insert_dependency-All Q d (e ∷ deps) h (k, hs) =
    elim (Bool-cases (str_lt e.dependency_id d.dependency_id)) [
      | inl p ↦ simp p (k, insert_dependency-All Q d deps h hs)
      | inr p ↦ simp p (h, (k, hs))
    ]

pub sort_dependencies-All :
    (Q : SharedDependency → Type 0) (deps : List SharedDependency)
    → All Q deps
    → All Q (sort_dependencies deps)
unfolding sort_dependencies
sort_dependencies-All Q [] h = tt
sort_dependencies-All Q (d ∷ deps) (h, hs) =
    insert_dependency-All Q d (sort_dependencies deps) h (sort_dependencies-All Q deps hs)

insert_dependency-Any :
    (Q : SharedDependency → Type 0) (d : SharedDependency) (deps : List SharedDependency)
    → Q d ⊎ Any Q deps
    → Any Q (insert_dependency d deps)
unfolding insert_dependency
insert_dependency-Any Q d [] h = h
insert_dependency-Any Q d (e ∷ deps) h =
    elim (Bool-cases (str_lt e.dependency_id d.dependency_id)) [
      | inl p ↦ simp p (elim h [
        | inl a ↦ inr (insert_dependency-Any Q d deps (inl a))
        | inr b ↦ elim b [ inl c ↦ inl c | inr c ↦ inr (insert_dependency-Any Q d deps (inr c)) ]
      ])
      | inr p ↦ simp p h
    ]

pub sort_dependencies-Any :
    (Q : SharedDependency → Type 0) (deps : List SharedDependency)
    → Any Q deps
    → Any Q (sort_dependencies deps)
unfolding sort_dependencies
sort_dependencies-Any Q [] h = h
sort_dependencies-Any Q (d ∷ deps) (inl h) =
    insert_dependency-Any Q d (sort_dependencies deps) (inl h)
sort_dependencies-Any Q (d ∷ deps) (inr h) =
    insert_dependency-Any Q d (sort_dependencies deps) (inr (sort_dependencies-Any Q deps h))

pub Any-both :
    {P Q R : SharedDependency → Type 0} (f : (d : SharedDependency) → P d → Q d → R d)
    (deps : List SharedDependency)
    → Any P deps
    → All Q deps
    → Any R deps
Any-both f [] h hs = h
Any-both f (d ∷ deps) (inl h) (k, ks) = inl (f d h k)
Any-both f (d ∷ deps) (inr h) (k, ks) = inr (Any-both f deps h ks)

pub users_of-here :
    (u pid : String) (up : List String) (ups : Upstreams)
    → among u up ≡ true
    → among pid (users_of u ((pid, up) ∷ ups)) ≡ true
unfolding users_of among
users_of-here u pid up ups h = simp (h, str_same pid pid refl) refl

pub users_of-there :
    (u k pid : String) (up : List String) (ups : Upstreams)
    → among k (users_of u ups) ≡ true
    → among k (users_of u ((pid, up) ∷ ups)) ≡ true
unfolding users_of
users_of-there u k pid up ups h = elim (Bool-cases (among u up)) [
  | inl p ↦ simp p (ground (arith, among-cons k pid (users_of u ups)))
  | inr p ↦ simp p h
]

-- the neighbours in a list connect all its members
pub Linked-more :
    (xs ys : List (String × String))
    → ((e : String × String) → Any (λ x. x ≡ e) xs → Any (λ x. x ≡ e) ys)
    → (i j : String) → Linked xs i j
    → Linked ys i j
Linked-more xs ys sub i j (pair h) = pair (sub (i, j) h)
Linked-more xs ys sub i _ itself = itself
Linked-more xs ys sub i j (back h) = back (Linked-more xs ys sub j i h)
Linked-more xs ys sub i k (chain {j = j} h h') =
    chain (Linked-more xs ys sub i j h) (Linked-more xs ys sub j k h')

neighbours-Linked :
    (x p : String) (xs : List String) → among p (x ∷ xs) ≡ true → Linked (neighbours (x ∷ xs)) x p
unfolding among
neighbours-Linked x p [] h = subst (Linked [] x) (sym ((eq_iff p x).0 (ground arith))) itself
neighbours-Linked x p (y ∷ xs) h = elim (str_cases p x) [
  | inl e ↦ subst (Linked (neighbours (x ∷ y ∷ xs)) x) (sym e) itself
  | inr (_, e) ↦ chain (pair (inl refl)) (
      Linked-more (neighbours (y ∷ xs)) (neighbours (x ∷ y ∷ xs)) (λ _ m. inr m) y p
        (neighbours-Linked y p xs (ground arith)))
]

pub members-Linked :
    (p q : String) (xs : List String)
    → among p xs ≡ true
    → among q xs ≡ true
    → Linked (neighbours xs) p q
unfolding among
members-Linked p q [] h k = absurd (cc)
members-Linked p q (x ∷ xs) h k =
    chain (back (neighbours-Linked x p xs h)) (neighbours-Linked x q xs k)

pub links-neighbours :
    (xs : List String) (deps : List SharedDependency)
    → Any (λ d. d.shared_by_providers ≡ xs) deps
    → (e : String × String) → Any (λ x. x ≡ e) (neighbours xs)
    → Any (λ x. x ≡ e) (links (providers_of deps))
links-neighbours xs [] h e m = absurd h
links-neighbours xs (d ∷ deps) (inl h) e m =
    (Any-append (λ x. x ≡ e) (neighbours d.shared_by_providers) (links (providers_of deps))).1
      (inl (subst (λ l. Any (λ x. x ≡ e) (neighbours l)) (sym h) m))
links-neighbours xs (d ∷ deps) (inr h) e m =
    (Any-append (λ x. x ≡ e) (neighbours d.shared_by_providers) (links (providers_of deps))).1
      (inr (links-neighbours xs deps h e m))
