-- ===== src/Graph/Paths/Routes.antt =====
-- What the loop of `find_alternative_paths` makes of an entry of its stack and of what its edges push.
use continuityos.Prelude.{
  ℕ, ◌+◌, String, eq_iff, List, [], ◌∷◌, ◌++◌, true, false, ◌≡◌, ◌≢◌, refl, sym, ap, subst, ◌∙◌,
  arith, map, Any, Any-append, inl, inr,
}
use mathlib.Core.List.{append_assoc, append-nil}
use continuityos.Graph.{DependencyEdge, among}
use continuityos.Graph.Paths.{push_edges, walk_stack}
use continuityos.Graph.Paths.Stack.{
  entry, HasEdge, Route, onward, Adds, is_taken, push-taken, push-left, push-none, map-append,
  map-prefix,
}

-- The lists that start with `x` among those that all do.
unprefix :
    {A : Type 0} (x : A) (r : List A) (rs : List (List A))
    → Any (λ q. r ≡ q) (map (λ q. x ∷ q) rs)
    → (p : List A) × (r ≡ x ∷ p) × Any (λ q. p ≡ q) rs
unprefix x r [] h = absurd h
unprefix x r (q ∷ rs) (inl e) = (q, e, inl refl)
unprefix x r (q ∷ rs) (inr h) = let (p, e, m) = unprefix x r rs h in (p, e, inr m)

prefix :
    {A : Type 0} (x : A) (p : List A) (rs : List (List A))
    → Any (λ q. p ≡ q) rs
    → Any (λ q. x ∷ p ≡ q) (map (λ q. x ∷ q) rs)
prefix x p [] h = absurd h
prefix x p (q ∷ rs) (inl e) = inl (ap (λ l. x ∷ l) e)
prefix x p (q ∷ rs) (inr h) = inr (prefix x p rs h)

joined :
    {A : Type 0} (pre : List A) (paths rs : List (List A)) (x : A) (cs : List (List A))
    → (paths ++ map (λ r. pre ++ r) rs) ++ map (λ r. (pre ++ x ∷ []) ++ r) cs
      ≡ paths ++ map (λ r. pre ++ r) (rs ++ map (λ r. x ∷ r) cs)
joined pre paths rs x cs =
    rw (map-prefix pre x cs, map-append (λ r. pre ++ r) rs (map (λ r. x ∷ r) cs))
      (append_assoc paths _ _)

module _ {F : Type 0} (edges : List (DependencyEdge F)) (target : String)
    (failed : List String) where
  -- What the loop makes of an entry at `current`.
  pub record Explored (current : String) (seen : List String) : Type 0 where
    pub rounds : ℕ
    pub routes : List (List String)
    pub adds : Adds edges target failed (λ pre stack. entry pre current seen ∷ stack) rounds routes
    pub sound :
        (r : List String) → Any (λ q. r ≡ q) routes → Route edges target failed current seen r
    pub complete :
        (r : List String) → Route edges target failed current seen r → Any (λ q. r ≡ q) routes

  -- What the loop makes of the entries that an entry's edges push.
  pub record Pushed (es : List (DependencyEdge F)) (current : String) (seen : List String)
      : Type 0 where
    pub rounds : ℕ
    pub routes : List (List String)
    pub adds :
        Adds edges target failed
          (λ pre stack. push_edges failed (entry pre current seen) es stack)
          rounds
          routes
    pub sound :
        (r : List String) → Any (λ q. r ≡ q) routes → Route edges target failed current seen r
    pub complete :
        (y : String) (p : List String)
        → HasEdge edges target failed es current y
        → among y seen ≡ false
        → among y failed ≡ false
        → Route edges target failed y (y ∷ seen) p
        → Any (λ q. current ∷ p ≡ q) routes

  pub Pushed-none : (current : String) (seen : List String) → Pushed [] current seen
  Pushed-none current seen = record {
    rounds = 0;
    routes = [];
    adds = λ pre stack paths m n e.
        rw (push-none edges target failed (entry pre current seen) stack, append-nil paths)
          (ap (λ k. walk_stack edges target failed k stack paths) (omega arith));
    sound = λ r h. absurd h;
    complete = λ y p h a b r. absurd h;
  }

  pub Pushed-left :
      (e : DependencyEdge F) (es : List (DependencyEdge F)) (current : String) (seen : List String)
      → is_taken edges target failed current seen e ≡ false
      → Pushed es current seen
      → Pushed (e ∷ es) current seen
  Pushed-left e es current seen h rest = record {
    rounds = rest.rounds;
    routes = rest.routes;
    adds = λ pre stack paths m n k.
        ap (λ s. walk_stack edges target failed n s paths)
          (push-left edges target failed (entry pre current seen) e es stack h)
        ∙ rest.adds pre stack paths m n k;
    sound = rest.sound;
    complete = λ y p g a b r. elim g [
      | inl (s, t) ↦ absurd (
          ground (
            arith,
            eq_iff e.source current,
            subst (λ z. among z seen ≡ false) (sym t) a,
            subst (λ z. among z failed ≡ false) (sym t) b,
          ))
      | inr g' ↦ rest.complete y p g' a b r
    ];
  }

  pub Pushed-taken :
      (e : DependencyEdge F) (es : List (DependencyEdge F)) (current : String) (seen : List String)
      → is_taken edges target failed current seen e ≡ true
      → current ≢ target
      → HasEdge edges target failed edges current e.target
      → Explored e.target (e.target ∷ seen)
      → Pushed es current seen
      → Pushed (e ∷ es) current seen
  Pushed-taken e es current seen h c g child rest = record {
    rounds = rest.rounds + child.rounds;
    routes = rest.routes ++ map (λ r. current ∷ r) child.routes;
    adds = λ pre stack paths m n k.
        ap (λ s. walk_stack edges target failed n s paths)
          (push-taken edges target failed (entry pre current seen) e es stack h)
        ∙ rest.adds pre (entry (pre ++ current ∷ []) e.target (e.target ∷ seen) ∷ stack) paths
            (child.rounds + m) n (omega arith)
        ∙ child.adds (pre ++ current ∷ []) stack (paths ++ map (λ r. pre ++ r) rest.routes) m
            (child.rounds + m) refl
        ∙ ap (walk_stack edges target failed m stack)
            (joined pre paths rest.routes current child.routes);
    sound = λ r m. elim ((Any-append _ rest.routes _).0 m) [
      | inl a ↦ rest.sound r a
      | inr b ↦
          let (p, e', b') = unprefix current r child.routes b in
          subst (Route edges target failed current seen) (sym e')
            (onward c g (ground arith) (ground arith) (child.sound p b'))
    ];
    complete = λ y p g' a b r. (Any-append _ rest.routes _).1 (elim g' [
      | inl (_, t) ↦ inr (
          prefix current p child.routes
            (child.complete p (subst (λ z. Route edges target failed z (z ∷ seen) p) (sym t) r)))
      | inr g'' ↦ inl (rest.complete y p g'' a b r)
    ]);
  }
