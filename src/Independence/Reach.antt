-- ===== src/Independence/Reach.antt =====
-- What a node of a graph depends on over any number of edges, and that the loop over a node's edges in
-- independence.py returns it.
use continuityos.Prelude.{
  String, eq_iff, List, [], ◌∷◌, ◌++◌, true, false, some, ◌≡◌, ◌≢◌, refl, sym, subst, ◌∙◌, ◌⊎◌, inl,
  inr, arith, Any, Bool-cases, Option-cases,
}
use continuityos.Graph.{DependencyEdge, among}
use continuityos.Graph.Unvisited.{among-cons, among-append}
use continuityos.Independence.{Visit, is_upstream, scan_edges}

not-among : (x : String) (xs : List String) → [] ≡ xs → among x xs ≡ true → ⊥
unfolding among
not-among x [] e h = cc
not-among x (y ∷ ys) e h = cc

both : (y : String) (v v' : List String) → v ≡ v' → among y v' ≡ true → among y v ≡ false → ⊥
both y v v' e a b = cc

-- A member of a head and two lists, and back.
among-parts :
    (x a : String) (xs ys : List String)
    → among x (a ∷ (xs ++ ys)) ≡ true
    → (x ≡ a) ⊎ ((among x xs ≡ true) ⊎ (among x ys ≡ true))
among-parts x a xs ys h =
    ground (arith, among-cons x a (xs ++ ys), among-append x xs ys, eq_iff x a)

parts-head : (x a : String) (xs ys : List String) → x ≡ a → among x (a ∷ (xs ++ ys)) ≡ true
parts-head x a xs ys h = ground (arith, among-cons x a (xs ++ ys), eq_iff x a)

parts-first :
    (x a : String) (xs ys : List String) → among x xs ≡ true → among x (a ∷ (xs ++ ys)) ≡ true
parts-first x a xs ys h = ground (arith, among-cons x a (xs ++ ys), among-append x xs ys)

parts-more :
    (x a : String) (xs ys : List String) → among x ys ≡ true → among x (a ∷ (xs ++ ys)) ≡ true
parts-more x a xs ys h = ground (arith, among-cons x a (xs ++ ys), among-append x xs ys)

module _ {F : Type 0} where
  -- Some edge makes `y` depend on `x`, another node.
  abbrev pub DependsOn : List (DependencyEdge F) → String → String → Type 0
  DependsOn edges y x = Any (λ e. (e.source ≡ x) × (e.target ≡ y) × (x ≢ y)) edges

  -- A chain of such edges.
  pub data Upstream (edges : List (DependencyEdge F)) (node : String) : String → Type 0 where
    direct : {x : String} → DependsOn edges node x → Upstream edges node x
    further : {x y : String} → Upstream edges node y → DependsOn edges y x → Upstream edges node x

  Upstream-trans :
      {edges : List (DependencyEdge F)} {node y x : String}
      → DependsOn edges node y
      → Upstream edges y x
      → Upstream edges node x
  Upstream-trans d (direct s) = further (direct d) s
  Upstream-trans d (further u s) = further (Upstream-trans d u) s

  -- What a visit of `node` with the visited nodes `v` returns.
  pub record Spec (edges : List (DependencyEdge F)) (node : String) (v up v' : List String)
      : Type 0 where
    pub grows : (y : String) → among y v ≡ true → among y v' ≡ true
    pub itself : among node v' ≡ true
    pub sound : (x : String) → among x up ≡ true → Upstream edges node x
    pub closed :
        (y x : String)
        → among y v' ≡ true
        → among y v ≡ false
        → DependsOn edges y x
        → (among x v' ≡ true) × (among x up ≡ true)

  -- What the loop over the edges `es` of `node` returns.
  pub record ScanSpec (edges es : List (DependencyEdge F)) (node : String) (v up v' : List String)
      : Type 0 where
    pub grows : (y : String) → among y v ≡ true → among y v' ≡ true
    pub sound : (x : String) → among x up ≡ true → Upstream edges node x
    pub closed :
        (y x : String)
        → among y v' ≡ true
        → among y v ≡ false
        → DependsOn edges y x
        → (among x v' ≡ true) × (among x up ≡ true)
    pub scanned : (x : String) → DependsOn es node x → (among x v' ≡ true) × (among x up ≡ true)

  scan_edges-upstream :
      (visit : Visit) (node : String) (e : DependencyEdge F) (es : List (DependencyEdge F))
      (v up v' : List String)
      → is_upstream node e ≡ true
      → scan_edges visit node (e ∷ es) v ≡ some (up, v')
      → (first : List String) × (v1 : List String) × (more : List String) × (visit e.source v
          ≡ some (first, v1))
        × (scan_edges visit node es v1 ≡ some (more, v'))
        × (e.source ∷ (first ++ more) ≡ up)
  unfolding scan_edges
  scan_edges-upstream visit node e es v up v' u h = elim (Option-cases (visit e.source v)) [
    | inl n ↦ absurd (ground arith)
    | inr ((first, v1), s) ↦ elim (Option-cases (scan_edges visit node es v1)) [
      | inl n ↦ absurd (ground arith)
      | inr ((more, v2), t) ↦ (first, v1, more, s, ground arith, ground arith)
    ]
  ]

  upstream_edge :
      (node : String) (e : DependencyEdge F)
      → is_upstream node e ≡ true
      → (e.target ≡ node) × (e.source ≢ node)
  upstream_edge node e h =
      (ground (arith, eq_iff e.target node), λ s. ground (arith, eq_iff e.source node))

  not_upstream :
      (node : String) (e : DependencyEdge F) (x : String)
      → is_upstream node e ≡ false
      → e.source ≡ x
      → e.target ≡ node
      → x ≢ node
      → ⊥
  not_upstream node e x u s t n = ground (arith, eq_iff e.target node, eq_iff e.source node, n)

  pub scan_edges-other :
      (visit : Visit) (node : String) (e : DependencyEdge F) (es : List (DependencyEdge F))
      (v : List String)
      → is_upstream node e ≡ false
      → scan_edges visit node es v ≡ scan_edges visit node (e ∷ es) v
  unfolding scan_edges
  scan_edges-other visit node e es v u = rw u refl

  scan-nil :
      (edges : List (DependencyEdge F)) (visit : Visit) (node : String) (v up v' : List String)
      → scan_edges {F = F} visit node [] v ≡ some (up, v')
      → ScanSpec edges [] node v up v'
  unfolding scan_edges
  scan-nil edges visit node v up v' h =
      let same : v ≡ v' = cc in
      let empty : [] ≡ up = cc in
      record {
        grows = λ y a. subst (λ w. among y w ≡ true) same a;
        sound = λ x a. absurd (not-among x up empty a);
        closed = λ y x a b d. absurd (both y v v' same a b);
        scanned = λ x d. absurd d;
      }

  ScanSpec-skip :
      (edges es : List (DependencyEdge F)) (e : DependencyEdge F) (node : String)
      (v up v' : List String)
      → is_upstream node e ≡ false
      → ScanSpec edges es node v up v'
      → ScanSpec edges (e ∷ es) node v up v'
  ScanSpec-skip edges es e node v up v' u two = record {
    grows = two.grows;
    sound = two.sound;
    closed = two.closed;
    scanned = λ x d. elim d [
      | inl (s, t, n) ↦ absurd (not_upstream node e x u s t n)
      | inr d' ↦ two.scanned x d'
    ];
  }

  ScanSpec-step :
      (edges es : List (DependencyEdge F)) (e : DependencyEdge F) (node : String)
      (v v1 v' first more : List String)
      → DependsOn edges node e.source
      → Spec edges e.source v first v1
      → ScanSpec edges es node v1 more v'
      → ScanSpec edges (e ∷ es) node v (e.source ∷ (first ++ more)) v'
  ScanSpec-step edges es e node v v1 v' first more d one two = record {
    grows = λ y h. two.grows y (one.grows y h);
    sound = λ x h. elim (among-parts x e.source first more h) [
      | inl same ↦ direct (subst (DependsOn edges node) (sym same) d)
      | inr (inl f) ↦ Upstream-trans d (one.sound x f)
      | inr (inr m) ↦ two.sound x m
    ];
    closed = λ y x now before s. elim (Bool-cases (among y v1)) [
      | inl old ↦
          let (a, b) = one.closed y x old before s in
          (two.grows x a, parts-first x e.source first more b)
      | inr new ↦ let (a, b) = two.closed y x now new s in (a, parts-more x e.source first more b)
    ];
    scanned = λ x s. elim s [
      | inl (p, _, _) ↦ (
        subst (λ y. among y v' ≡ true) p (two.grows e.source one.itself),
        parts-head x e.source first more (sym p),
      )
      | inr s' ↦ let (a, b) = two.scanned x s' in (a, parts-more x e.source first more b)
    ];
  }

  pub scan-ScanSpec :
      (edges : List (DependencyEdge F)) (visit : Visit) (node : String)
      → ((m : String) (v up v' : List String) → visit m v ≡ some (up, v') → Spec edges m v up v')
      → (es : List (DependencyEdge F)) (v up v' : List String)
      → ((x : String) → DependsOn es node x → DependsOn edges node x)
      → scan_edges visit node es v ≡ some (up, v')
      → ScanSpec edges es node v up v'
  scan-ScanSpec edges visit node spec [] v up v' sub h = scan-nil edges visit node v up v' h
  scan-ScanSpec edges visit node spec (e ∷ es) v up v' sub h =
      elim (Bool-cases (is_upstream node e)) [
        | inr u ↦ ScanSpec-skip edges es e node v up v' u (
            scan-ScanSpec edges visit node spec es v up v' (λ x d. sub x (inr d))
              (scan_edges-other visit node e es v u ∙ h))
        | inl u ↦
            let (first, v1, more, s, t, p) = scan_edges-upstream visit node e es v up v' u h in
            let one = spec e.source v first v1 s in
            let two = scan-ScanSpec edges visit node spec es v1 more v' (λ x d. sub x (inr d)) t in
            let (target, source) = upstream_edge node e u in
            subst (λ up. ScanSpec edges (e ∷ es) node v up v') p
              (ScanSpec-step edges es e node v v1 v' first more
                (sub e.source (inl (refl, target, source))) one two)
      ]
