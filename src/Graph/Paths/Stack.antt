-- ===== src/Graph/Paths/Stack.antt =====
-- How the loop of `find_alternative_paths` treats what is on its stack: an entry adds its paths in front
-- of what the entries below it add.
use continuityos.Prelude.{
  ℕ, suc, ◌+◌, String, str_eq, eq_iff, List, [], ◌∷◌, ◌++◌, Bool, true, false, not, ◌&&◌, ◌≡◌, ◌≢◌,
  refl, ap, ◌∙◌, map, Any,
}
use mathlib.Core.List.{append_assoc}
use continuityos.Graph.{DependencyEdge, among}
use continuityos.Graph.Paths.{Partial, extended, push_edges, walk_stack}

pub map-append :
    {A B : Type 0} (f : A → B) (xs ys : List A) → map f (xs ++ ys) ≡ map f xs ++ map f ys
map-append f [] ys = refl
map-append f (x ∷ xs) ys = ap (λ l. f x ∷ l) (map-append f xs ys)

pub map-prefix :
    {A : Type 0} (pre : List A) (x : A) (rs : List (List A))
    → map (λ r. (pre ++ x ∷ []) ++ r) rs ≡ map (λ r. pre ++ r) (map (λ r. x ∷ r) rs)
map-prefix pre x [] = refl
map-prefix pre x (r ∷ rs) =
    ap (λ l. l ∷ map (λ r. (pre ++ x ∷ []) ++ r) rs) (append_assoc pre (x ∷ []) r)
    ∙ ap (λ l. (pre ++ x ∷ r) ∷ l) (map-prefix pre x rs)

-- The path of an entry with something in front of its last node.
abbrev pub entry : List String → String → List String → Partial
entry pre current seen = record { current = current; path = pre ++ current ∷ []; visited = seen }

module _ {F : Type 0} (edges : List (DependencyEdge F)) (target : String)
    (failed : List String) where
  -- An edge between two nodes.
  abbrev pub HasEdge : List (DependencyEdge F) → String → String → Type 0
  HasEdge es x y = Any (λ e. (e.source ≡ x) × (e.target ≡ y)) es

  -- The rest of a path from a node to the target that comes to no node that is seen or failed.
  pub data Route : String → List String → List String → Type 0 where
    arrived : {x : String} {seen : List String} → x ≡ target → Route x seen (x ∷ [])
    onward :
        {x y : String} {seen p : List String}
        → x ≢ target
        → HasEdge edges x y
        → among y seen ≡ false
        → among y failed ≡ false
        → Route y (y ∷ seen) p
        → Route x seen (x ∷ p)

  -- What `rounds` of the loop do with some entries on top of the stack: they add paths that continue
  -- `pre` by each of `rs`.
  abbrev pub Adds : (List String → List Partial → List Partial) → ℕ → List (List String) → Type 0
  Adds pushed rounds rs =
      (pre : List String) (stack : List Partial) (paths : List (List String)) (m n : ℕ)
      → n ≡ rounds + m
      → walk_stack edges target failed n (pushed pre stack) paths
        ≡ walk_stack edges target failed m stack (paths ++ map (λ r. pre ++ r) rs)

  pub walk-arrived :
      (item : Partial) (m : ℕ) (stack : List Partial) (paths : List (List String))
      → item.current ≡ target
      → walk_stack edges target failed (suc m) (item ∷ stack) paths
        ≡ walk_stack edges target failed m stack (paths ++ item.path ∷ [])
  unfolding walk_stack
  walk-arrived item m stack paths e = rw ((eq_iff item.current target).1 e) refl

  pub walk-onward :
      (item : Partial) (m : ℕ) (stack : List Partial) (paths : List (List String))
      → str_eq item.current target ≡ false
      → walk_stack edges target failed (suc m) (item ∷ stack) paths
        ≡ walk_stack edges target failed m (push_edges failed item edges stack) paths
  unfolding walk_stack
  walk-onward item m stack paths e = rw e refl

  -- Whether the loop over the edges takes this one on.
  abbrev pub is_taken : String → List String → DependencyEdge F → Bool
  is_taken current seen e =
      str_eq e.source current && (not (among e.target seen) && not (among e.target failed))

  pub push-taken :
      (item : Partial) (e : DependencyEdge F) (es : List (DependencyEdge F)) (stack : List Partial)
      → is_taken item.current item.visited e ≡ true
      → push_edges failed item (e ∷ es) stack
        ≡ push_edges failed item es (extended item e.target ∷ stack)
  unfolding push_edges
  push-taken item e es stack h = rw h refl

  pub push-left :
      (item : Partial) (e : DependencyEdge F) (es : List (DependencyEdge F)) (stack : List Partial)
      → is_taken item.current item.visited e ≡ false
      → push_edges failed item (e ∷ es) stack ≡ push_edges failed item es stack
  unfolding push_edges
  push-left item e es stack h = rw h refl

  pub push-none :
      (item : Partial) (stack : List Partial) → push_edges {F = F} failed item [] stack ≡ stack
  unfolding push_edges
  push-none item stack = refl
