-- ===== src/Independence/Category/Shared.antt =====
-- The shared dependencies: they name declared providers only, and each upstream node of two providers
-- is among them, with both.
use continuityos.Prelude.{
  String, str_eq, str_lt, List, [], ◌∷◌, true, Option, none, some, length, ltb, any, ◌≡◌, ◌≢◌, inl,
  inr, refl, sym, ◌∙◌, subst, arith, Bool-cases, eq_iff, Any, All, All-append,
}
use continuityos.Graph.{DependencyNode, among}
use continuityos.Independence.Groups.Roots.{str_cases, str_same}
use continuityos.Independence.Category.{
  SharedDependency, Upstreams, insert_once, sorted_set, users_of, is_dependency, put_shared,
  node_dependency, node_dependencies, value_of, value_pair, values_of, pids_with,
  attribute_dependency, value_dependencies, attribute_dependencies,
}

insert_once-All :
    (Q : String → Type 0) (x : String) (xs : List String)
    → Q x
    → All Q xs
    → All Q (insert_once x xs)
unfolding insert_once
insert_once-All Q x [] h hs = (h, tt)
insert_once-All Q x (y ∷ ys) h (hy, hs) = elim (Bool-cases (str_lt x y)) [
  | inl p ↦ simp p (h, (hy, hs))
  | inr p ↦ elim (Bool-cases (str_eq x y)) [
    | inl q ↦ simp (p, q) (hy, hs)
    | inr q ↦ simp (p, q) (hy, insert_once-All Q x ys h hs)
  ]
]

pub sorted_set-All : (Q : String → Type 0) (xs : List String) → All Q xs → All Q (sorted_set xs)
unfolding sorted_set
sorted_set-All Q [] h = tt
sorted_set-All Q (x ∷ xs) (h, hs) = insert_once-All Q x (sorted_set xs) h (sorted_set-All Q xs hs)

insert_once-here : (x : String) (xs : List String) → among x (insert_once x xs) ≡ true
unfolding insert_once among
insert_once-here x [] = simp (str_same x x refl) refl
insert_once-here x (y ∷ ys) = elim (Bool-cases (str_lt x y)) [
  | inl p ↦ simp (p, str_same x x refl) refl
  | inr p ↦ elim (Bool-cases (str_eq x y)) [
    | inl q ↦ simp (p, q) refl
    | inr q ↦ simp (p, q, insert_once-here x ys) refl
  ]
]

insert_once-keeps :
    (p x : String) (xs : List String) → among p xs ≡ true → among p (insert_once x xs) ≡ true
unfolding insert_once among
insert_once-keeps p x [] h = absurd (cc)
insert_once-keeps p x (y ∷ ys) h = elim (Bool-cases (str_lt x y)) [
  | inl q ↦ simp q (ground arith)
  | inr q ↦ elim (Bool-cases (str_eq x y)) [
    | inl r ↦ simp (q, r) h
    | inr r ↦ elim (Bool-cases (str_eq p y)) [
      | inl s ↦ simp (q, r, s) refl
      | inr s ↦ simp (q, r, s, insert_once-keeps p x ys (ground arith)) refl
    ]
  ]
]

pub sorted_set-among :
    (p : String) (xs : List String) → among p xs ≡ true → among p (sorted_set xs) ≡ true
unfolding sorted_set among
sorted_set-among p [] h = h
sorted_set-among p (x ∷ xs) h = elim (str_cases p x) [
  | inl e ↦
      subst (λ y. among p (insert_once y (sorted_set xs)) ≡ true) e
        (insert_once-here p (sorted_set xs))
  | inr (_, e) ↦ insert_once-keeps p x (sorted_set xs) (sorted_set-among p xs (ground arith))
]

pub two_members :
    (p q : String) (xs : List String)
    → among p xs ≡ true
    → among q xs ≡ true
    → p ≢ q
    → ltb 1 (length xs) ≡ true
unfolding among
two_members p q [] h k ne = absurd (cc)
two_members p q (x ∷ []) h k ne =
    absurd (ne ((eq_iff p x).0 (ground arith) ∙ sym ((eq_iff q x).0 (ground arith))))
two_members p q (x ∷ y ∷ xs) h k ne = ground arith

pub users_of-All :
    (Q : String → Type 0) (u : String) (ups : Upstreams)
    → All (λ e. Q e.0) ups
    → All Q (users_of u ups)
unfolding users_of
users_of-All Q u [] h = tt
users_of-All Q u ((pid, up) ∷ ups) (h, hs) = elim (Bool-cases (among u up)) [
  | inl p ↦ simp p (h, users_of-All Q u ups hs)
  | inr p ↦ simp p (users_of-All Q u ups hs)
]

pub pids_with-All :
    (Q : String → Type 0) (v : String) (vs : List (String × String))
    → All (λ e. Q e.1) vs
    → All Q (pids_with v vs)
unfolding pids_with
pids_with-All Q v [] h = tt
pids_with-All Q v ((w, pid) ∷ vs) (h, hs) = elim (Bool-cases (str_eq w v)) [
  | inl p ↦ simp p (h, pids_with-All Q v vs hs)
  | inr p ↦ simp p (pids_with-All Q v vs hs)
]

value_pair-All :
    (Q : String → Type 0) (pid : String) (v : Option String)
    → Q pid
    → All (λ e. Q e.1) (value_pair pid v)
value_pair-All Q pid none h = tt
value_pair-All Q pid (some v) h = (h, tt)

module _ {F : Type 0} (nodes : List (DependencyNode F)) where
  pub values_of-All :
      (Q : String → Type 0) (key : String) (pids : List String)
      → All Q pids
      → All (λ e. Q e.1) (values_of nodes key pids)
  unfolding values_of
  values_of-All Q key [] h = tt
  values_of-All Q key (pid ∷ pids) (h, hs) =
      (All-append (λ e. Q e.1) (value_pair pid (value_of nodes key pid)) _).1
        (value_pair-All Q pid (value_of nodes key pid) h, values_of-All Q key pids hs)

-- A dependency that is put in, and what the others have.
pub put_shared-All :
    (Q : SharedDependency → Type 0) (d : SharedDependency) (deps : List SharedDependency)
    → Q d
    → All Q deps
    → All Q (put_shared d deps)
put_shared-All Q d deps h hs = elim (Bool-cases (ltb 1 (length d.shared_by_providers))) [
  | inl p ↦ elim (Bool-cases (any (is_dependency d.dependency_id) deps)) [
    | inl q ↦ simp (p, q) hs
    | inr q ↦ simp (p, q) (h, hs)
  ]
  | inr p ↦ simp p hs
]

put_shared-Any :
    (Q : SharedDependency → Type 0) (d : SharedDependency) (deps : List SharedDependency)
    → Any Q deps
    → Any Q (put_shared d deps)
put_shared-Any Q d deps h = elim (Bool-cases (ltb 1 (length d.shared_by_providers))) [
  | inl p ↦ elim (Bool-cases (any (is_dependency d.dependency_id) deps)) [
    | inl q ↦ simp (p, q) h
    | inr q ↦ simp (p, q) (inr h)
  ]
  | inr p ↦ simp p h
]

module _ {F : Type 0} (nodes : List (DependencyNode F)) (Q : SharedDependency → Type 0) where
  pub node_dependencies-All :
      (ups : Upstreams) (us : List String) (deps : List SharedDependency)
      → ((u : String) → Q (node_dependency nodes ups u))
      → All Q deps
      → All Q (node_dependencies nodes ups us deps)
  unfolding node_dependencies
  node_dependencies-All ups [] deps h hs = hs
  node_dependencies-All ups (u ∷ us) deps h hs =
      node_dependencies-All ups us (put_shared (node_dependency nodes ups u) deps) h
        (put_shared-All Q (node_dependency nodes ups u) deps (h u) hs)

  pub node_dependencies-Any :
      (ups : Upstreams) (us : List String) (deps : List SharedDependency)
      → Any Q deps
      → Any Q (node_dependencies nodes ups us deps)
  unfolding node_dependencies
  node_dependencies-Any ups [] deps h = h
  node_dependencies-Any ups (u ∷ us) deps h =
      node_dependencies-Any ups us (put_shared (node_dependency nodes ups u) deps)
        (put_shared-Any Q (node_dependency nodes ups u) deps h)

  value_dependencies-All :
      (key : String) (values vs : List (String × String)) (deps : List SharedDependency)
      → ((v : String) → Q (attribute_dependency key values v))
      → All Q deps
      → All Q (value_dependencies key values vs deps)
  unfolding value_dependencies
  value_dependencies-All key values [] deps h hs = hs
  value_dependencies-All key values ((v, pid) ∷ vs) deps h hs =
      value_dependencies-All key values vs (put_shared (attribute_dependency key values v) deps) h
        (put_shared-All Q (attribute_dependency key values v) deps (h v) hs)

  value_dependencies-Any :
      (key : String) (values vs : List (String × String)) (deps : List SharedDependency)
      → Any Q deps
      → Any Q (value_dependencies key values vs deps)
  unfolding value_dependencies
  value_dependencies-Any key values [] deps h = h
  value_dependencies-Any key values ((v, pid) ∷ vs) deps h =
      value_dependencies-Any key values vs (put_shared (attribute_dependency key values v) deps)
        (put_shared-Any Q (attribute_dependency key values v) deps h)

  pub attribute_dependencies-All :
      (pids keys : List String) (deps : List SharedDependency)
      → ((key v : String) → Q (attribute_dependency key (values_of nodes key pids) v))
      → All Q deps
      → All Q (attribute_dependencies nodes pids keys deps)
  unfolding attribute_dependencies
  attribute_dependencies-All pids [] deps h hs = hs
  attribute_dependencies-All pids (key ∷ keys) deps h hs =
      let values = values_of nodes key pids in
      attribute_dependencies-All pids keys (value_dependencies key values values deps) h
        (value_dependencies-All key values values deps (h key) hs)

  pub attribute_dependencies-Any :
      (pids keys : List String) (deps : List SharedDependency)
      → Any Q deps
      → Any Q (attribute_dependencies nodes pids keys deps)
  unfolding attribute_dependencies
  attribute_dependencies-Any pids [] deps h = h
  attribute_dependencies-Any pids (key ∷ keys) deps h =
      let values = values_of nodes key pids in
      attribute_dependencies-Any pids keys (value_dependencies key values values deps)
        (value_dependencies-Any key values values deps h)
