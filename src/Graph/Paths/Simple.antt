-- ===== src/Graph/Paths/Simple.antt =====
-- graph.py: the routes that the search follows are the paths without a repeated or a failed node.
use continuityos.Prelude.{
  String, str_eq, eq_iff, List, [], ◌∷◌, true, false, ◌≡◌, refl, sym, subst, arith, inl, inr,
  Bool-cases, if◌then◌else◌,
}
use continuityos.Graph.{DependencyEdge, among, has_duplicate}
use continuityos.Graph.Unvisited.{among-cons, not_among}
use continuityos.Graph.Paths.Stack.{HasEdge, Route, arrived, onward}

has_duplicate-cons :
    (x : String) (xs : List String)
    → has_duplicate (x ∷ xs) ≡ (if among x xs then true else has_duplicate xs)
unfolding has_duplicate
has_duplicate-cons x xs = refl

has_duplicate-nil : has_duplicate [] ≡ false
unfolding has_duplicate
has_duplicate-nil = refl

-- A later node is another one.
later_differs :
    (z y : String) (p : List String)
    → has_duplicate (y ∷ p) ≡ false
    → among z p ≡ true
    → str_eq z y ≡ false
later_differs z y p d m = elim (Bool-cases (str_eq z y)) [
  | inl e ↦
      let t = subst (λ w. among w p ≡ true) ((eq_iff z y).0 e) m in
      ground (arith, has_duplicate-cons y p)
  | inr e ↦ e
]

module _ {F : Type 0} (edges : List (DependencyEdge F)) (target : String)
    (failed : List String) where
  -- Edges lead from `x` through the nodes to the target.
  abbrev pub Joins : String → List String → Type 0
  Joins x [] = x ≡ target
  Joins x (y ∷ p) = HasEdge edges target failed edges x y × Joins y p

  -- A path from the source to the target, no node twice and none after the first failed.
  abbrev pub IsPath : String → List String → Type 0
  IsPath source [] = ⊥
  IsPath source (x ∷ p) =
      (source ≡ x)
      × Joins x p
      × (has_duplicate (x ∷ p) ≡ false)
      × ((y : String) → among y p ≡ true → among y failed ≡ false)

  Joins-among : (x : String) (p : List String) → Joins x p → among target (x ∷ p) ≡ true
  Joins-among x [] j = ground (arith, among-cons target x [], eq_iff target x)
  Joins-among x (y ∷ p) j = ground (arith, among-cons target x (y ∷ p), Joins-among y p j.1)

  record Clear (x : String) (seen r : List String) : Type 0 where
    rest : List String
    whole : x ∷ rest ≡ r
    joins : Joins x rest
    simple : has_duplicate (x ∷ rest) ≡ false
    avoids : (z : String) → among z rest ≡ true → (among z failed ≡ false) × (among z seen ≡ false)

  Clear-onward :
      {x y : String} {seen p : List String}
      → HasEdge edges target failed edges x y
      → among y seen ≡ false
      → among y failed ≡ false
      → among x seen ≡ true
      → Clear y (y ∷ seen) p
      → Clear x seen (x ∷ p)
  Clear-onward {x} {y} {seen} {p} g a b s c =
      let avoids : (z : String)
          → among z (y ∷ c.rest) ≡ true
          → (among z failed ≡ false) × (among z seen ≡ false) =
        λ z m. elim (Bool-cases (str_eq z y)) [
          | inl e ↦
              let same : y ≡ z = ground (arith, eq_iff z y) in
              (subst (λ w. among w failed ≡ false) same b, subst (λ w. among w seen ≡ false) same a)
          | inr e ↦
              let (f, n) = c.avoids z (ground (arith, among-cons z y c.rest)) in
              (f, ground (arith, among-cons z y seen))
        ] in
      record {
        rest = y ∷ c.rest;
        whole = λ i. x ∷ c.whole i;
        joins = (g, c.joins);
        simple = elim (Bool-cases (among x (y ∷ c.rest))) [
          | inl m ↦ absurd (let (_, n) = avoids x m in ground arith)
          | inr m ↦ ground (arith, has_duplicate-cons x (y ∷ c.rest), c.simple)
        ];
        avoids = avoids;
      }

  Route-Clear :
      {x : String} {seen r : List String}
      → among x seen ≡ true
      → Route edges target failed x seen r
      → Clear x seen r
  Route-Clear {x} s (arrived e) = record {
    rest = [];
    whole = refl;
    joins = e;
    simple = ground (arith, has_duplicate-cons x [], not_among x, has_duplicate-nil);
    avoids = λ z m. absurd (ground (arith, not_among z));
  }
  Route-Clear {seen} s (onward {y} n g a b r) =
      Clear-onward g a b s (Route-Clear (ground (arith, among-cons y y seen, eq_iff y y)) r)

  pub Route-IsPath :
      (x : String) (r : List String) → Route edges target failed x (x ∷ []) r → IsPath x r
  Route-IsPath x r route =
      let c = Route-Clear (ground (arith, among-cons x x [], eq_iff x x)) route in
      subst (IsPath x) c.whole (refl, c.joins, c.simple, λ y m. (c.avoids y m).0)

  Joins-Route :
      (x : String) (seen p : List String)
      → Joins x p
      → has_duplicate (x ∷ p) ≡ false
      → ((z : String) → among z p ≡ true → (among z failed ≡ false) × (among z seen ≡ false))
      → Route edges target failed x seen (x ∷ p)
  Joins-Route x seen [] j d av = arrived j
  Joins-Route x seen (y ∷ p) j d av =
      let end = Joins-among y p j.1 in
      let dx = has_duplicate-cons x (y ∷ p) in
      let dy = has_duplicate-cons y p in
      let (f, n) = av y (ground (arith, among-cons y y p, eq_iff y y)) in
      onward (λ e. let t = subst (λ w. among w (y ∷ p) ≡ true) (sym e) end in ground arith) j.0 n f
        (Joins-Route y (y ∷ seen) p j.1 (ground arith) (λ z m.
          let (f', n') = av z (ground (arith, among-cons z y p)) in
          let e = later_differs z y p (ground arith) m in
          (f', ground (arith, among-cons z y seen))))

  pub IsPath-Route :
      (x : String) (r : List String) → IsPath x r → Route edges target failed x (x ∷ []) r
  IsPath-Route x [] h = absurd h
  IsPath-Route x (y ∷ p) (e, j, d, av) =
      subst (λ w. Route edges target failed w (w ∷ []) (y ∷ p)) (sym e)
        (Joins-Route y (y ∷ []) p j d (λ z m.
          let e' = later_differs z y p d m in
          (av z m, ground (arith, among-cons z y [], not_among z))))
