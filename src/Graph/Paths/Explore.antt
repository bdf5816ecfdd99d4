-- ===== src/Graph/Paths/Explore.antt =====
-- The loop of `find_alternative_paths` finds the routes from an entry of its stack, and ends.
use continuityos.Prelude.{
  ℕ, zero, suc, ◌+◌, ◌≤◌, String, str_eq, eq_iff, List, [], ◌∷◌, true, false, ◌≡◌, ◌≢◌, refl, sym,
  ap, subst, ◌∙◌, arith, map, Any, inl, inr, Bool-cases,
}
use continuityos.Graph.{DependencyEdge, among}
use continuityos.Graph.Unvisited.{among-cons, unvisited, unvisited-fewer}
use continuityos.Graph.Paths.{walk_stack}
use continuityos.Graph.Paths.Stack.{
  entry, HasEdge, Route, arrived, onward, walk-arrived, walk-onward, is_taken,
}
use continuityos.Graph.Paths.Routes.{Explored, Pushed, Pushed-none, Pushed-left, Pushed-taken}

module _ {F : Type 0} (edges : List (DependencyEdge F)) (target : String)
    (failed : List String) where
  push_all :
      (current : String) (seen : List String)
      → current ≢ target
      → ((y : String)
          → HasEdge edges target failed edges current y
          → among y seen ≡ false
          → Explored edges target failed y (y ∷ seen))
      → (es : List (DependencyEdge F))
      → ((y : String)
          → HasEdge edges target failed es current y
          → HasEdge edges target failed edges current y)
      → Pushed edges target failed es current seen
  push_all current seen c child [] sub = Pushed-none edges target failed current seen
  push_all current seen c child (e ∷ es) sub =
      let rest = push_all current seen c child es (λ y g. sub y (inr g)) in
      elim (Bool-cases (is_taken edges target failed current seen e)) [
        | inr h ↦ Pushed-left edges target failed e es current seen h rest
        | inl h ↦
            let g = sub e.target (inl (ground (arith, eq_iff e.source current), refl)) in
            Pushed-taken edges target failed e es current seen h c g
              (child e.target g (ground arith)) rest
      ]

  only :
      {x : String} {seen r : List String}
      → x ≡ target
      → Route edges target failed x seen r
      → Any (λ q. r ≡ q) ((x ∷ []) ∷ [])
  only c (arrived e) = inl refl
  only c (onward n g a b r) = absurd (n c)

  passes :
      {x : String} {seen r : List String}
      → x ≢ target
      → (pushed : Pushed edges target failed edges x seen) → Route edges target failed x seen r
      → Any (λ q. r ≡ q) pushed.routes
  passes c pushed (arrived e) = absurd (c e)
  passes c pushed (onward {y} {p} n g a b r) = pushed.complete y p g a b r

  explore_target :
      (current : String) (seen : List String)
      → current ≡ target
      → Explored edges target failed current seen
  explore_target current seen c = record {
    rounds = 1;
    routes = (current ∷ []) ∷ [];
    adds = λ pre stack paths m n k.
        ap (λ j. walk_stack edges target failed j (entry pre current seen ∷ stack) paths)
          (omega arith)
        ∙ walk-arrived edges target failed (entry pre current seen) m stack paths c;
    sound = λ r m. elim m [
      | inl e ↦ subst (Route edges target failed current seen) (sym e) (arrived c)
      | inr m' ↦ absurd m'
    ];
    complete = λ r route. only c route;
  }

  explore_onward :
      (current : String) (seen : List String)
      → str_eq current target ≡ false
      → Pushed edges target failed edges current seen
      → Explored edges target failed current seen
  explore_onward current seen c pushed = record {
    rounds = suc pushed.rounds;
    routes = pushed.routes;
    adds = λ pre stack paths m n k.
        ap (λ j. walk_stack edges target failed j (entry pre current seen ∷ stack) paths)
          (omega arith)
        ∙ walk-onward edges target failed (entry pre current seen) (pushed.rounds + m) stack paths c
        ∙ pushed.adds pre stack paths m (pushed.rounds + m) refl;
    sound = pushed.sound;
    complete = λ r route. passes (λ e. ground (arith, eq_iff current target)) pushed route;
  }

  HasEdge-among :
      (es : List (DependencyEdge F)) (x y : String)
      → HasEdge edges target failed es x y
      → among y (map (λ e. e.target) es) ≡ true
  HasEdge-among [] x y h = absurd h
  HasEdge-among (e ∷ es) x y (inl (_, t)) =
      ground (arith, among-cons y e.target (map (λ e. e.target) es), eq_iff y e.target)
  HasEdge-among (e ∷ es) x y (inr h) =
      ground (arith, among-cons y e.target (map (λ e. e.target) es), HasEdge-among es x y h)

  -- An entry is explored within a number of rounds that does not depend on the rest of the stack.
  pub explore :
      (depth : ℕ) (current : String) (seen : List String)
      → suc (unvisited (map (λ e. e.target) edges) seen) ≤ depth
      → Explored edges target failed current seen
  explore zero current seen b = absurd (omega arith)
  explore (suc depth) current seen b = elim (Bool-cases (str_eq current target)) [
    | inl c ↦ explore_target current seen (ground (arith, eq_iff current target))
    | inr c ↦ explore_onward current seen c (
        push_all current seen (λ e. ground (arith, eq_iff current target))
          (λ y g a.
            let less =
              unvisited-fewer (map (λ e. e.target) edges) y seen (HasEdge-among edges current y g)
                a in
            explore depth y (y ∷ seen) (omega arith))
          edges (λ y g. g))
  ]
