-- ===== src/Independence/Depth.antt =====
-- The depth that independence.py's recursion over a graph needs. Each visit on the way down adds the
-- source of some edge to the visited nodes, so the edges whose source was not visited get fewer.
use continuityos.Prelude.{
  ap, map, ◌++◌, eq_iff, ℕ, zero, suc, ◌+◌, ◌≤◌, String, List, [], ◌∷◌, true, false, Option, some,
  ◌≡◌, refl, subst, inl, inr, arith, length, Bool-cases,
}
use continuityos.Graph.Unvisited.{
  among-cons, not_among, unvisited, unvisited-grows, unvisited-fewer, unvisited-length,
}
use continuityos.Graph.{DependencyEdge, among}
use continuityos.Independence.{Visit, is_upstream, scan_edges, visit_upstream}
use continuityos.Independence.Reach.{Spec, scan_edges-other}
use continuityos.Independence.Visits.{visit-Spec, visit-suc}

scan-none :
    (F : Type 0) (visit : Visit) (node : String) (v : List String)
    → scan_edges {F = F} visit node [] v ≡ some ([], v)
unfolding scan_edges
scan-none F visit node v = refl

abbrev pub Returns : {A : Type 0} → Option A → Type 0
Returns {A} r = (a : A) × (r ≡ some a)

module _ {F : Type 0} where
  -- How many of the edges have a source that is not visited.
  abbrev unseen : List (DependencyEdge F) → List String → ℕ
  unseen edges v = unvisited (map (λ e. e.source) edges) v

  abbrev IsSource : String → List (DependencyEdge F) → Type 0
  IsSource node es = among node (map (λ e. e.source) es) ≡ true

  IsSource-head : (e : DependencyEdge F) (es : List (DependencyEdge F)) → IsSource e.source (e ∷ es)
  IsSource-head e es =
      ground
        (arith, among-cons e.source e.source (map (λ e. e.source) es), eq_iff e.source e.source)

  IsSource-tail :
      (m : String) (e : DependencyEdge F) (es : List (DependencyEdge F))
      → IsSource m es
      → IsSource m (e ∷ es)
  IsSource-tail m e es h = ground (arith, among-cons m e.source (map (λ e. e.source) es))

  length-map : (es : List (DependencyEdge F)) → length (map (λ e. e.source) es) ≡ length es
  length-map [] = refl
  length-map (e ∷ es) = ap suc (length-map es)

  scan_edges-visit :
      (visit : Visit) (node : String) (e : DependencyEdge F) (es : List (DependencyEdge F))
      (v first v1 : List String)
      → is_upstream node e ≡ true
      → visit e.source v ≡ some (first, v1)
      → Returns (scan_edges visit node es v1)
      → Returns (scan_edges visit node (e ∷ es) v)
  unfolding scan_edges
  scan_edges-visit visit node e es v first v1 u s ((more, v2), t) =
      ((e.source ∷ (first ++ more), v2), rw (u, s, t) refl)

  -- With visits that return, the loop over edges returns.
  scan-Returns :
      (edges : List (DependencyEdge F)) (visit : Visit) (node : String) (depth : ℕ)
      → ((m : String) (v : List String)
          → IsSource m edges
          → suc (unseen edges v) ≤ depth
          → Returns (visit m v))
      → ((m : String) (v up v' : List String) → visit m v ≡ some (up, v') → Spec edges m v up v')
      → (es : List (DependencyEdge F)) (v : List String)
      → ((m : String) → IsSource m es → IsSource m edges)
      → suc (unseen edges v) ≤ depth
      → Returns (scan_edges visit node es v)
  scan-Returns edges visit node depth total spec [] v sub b = (([], v), scan-none F visit node v)
  scan-Returns edges visit node depth total spec (e ∷ es) v sub b =
      elim (Bool-cases (is_upstream node e)) [
        | inr u ↦ subst Returns (scan_edges-other visit node e es v u) (
            scan-Returns edges visit node depth total spec es v
              (λ m s. sub m (IsSource-tail m e es s)) b)
        | inl u ↦
            let ((first, v1), s) = total e.source v (sub e.source (IsSource-head e es)) b in
            let less =
              unvisited-grows (map (λ e. e.source) edges) v v1
                ((spec e.source v first v1 s).grows) in
            scan_edges-visit visit node e es v first v1 u s (
              scan-Returns edges visit node depth total spec es v1
                (λ m s'. sub m (IsSource-tail m e es s')) (omega arith))
      ]

  visit_visited :
      (edges : List (DependencyEdge F)) (depth : ℕ) (node : String) (v : List String)
      → among node v ≡ true
      → visit_upstream edges (suc depth) node v ≡ some ([], v)
  visit_visited edges depth node v a = ground (arith, visit-suc edges depth node v)

  visit_new :
      (edges : List (DependencyEdge F)) (depth : ℕ) (node : String) (v : List String)
      → among node v ≡ false
      → scan_edges (visit_upstream edges depth) node edges (node ∷ v)
        ≡ visit_upstream edges (suc depth) node v
  visit_new edges depth node v a = ground (arith, visit-suc edges depth node v)

  -- A depth above the number of edges with an unvisited source is enough for a source.
  visit-Returns :
      (edges : List (DependencyEdge F)) (depth : ℕ) (node : String) (v : List String)
      → IsSource node edges
      → suc (unseen edges v) ≤ depth
      → Returns (visit_upstream edges depth node v)
  visit-Returns edges zero node v s b = absurd (omega arith)
  visit-Returns edges (suc depth) node v s b = elim (Bool-cases (among node v)) [
    | inl a ↦ (([], v), visit_visited edges depth node v a)
    | inr a ↦
        let less = unvisited-fewer (map (λ e. e.source) edges) node v s a in
        subst Returns (visit_new edges depth node v a) (
          scan-Returns edges (visit_upstream edges depth) node depth
            (λ m w i c. visit-Returns edges depth m w i c) (visit-Spec edges depth) edges (node ∷ v)
            (λ m i. i) (omega arith))
  ]

  -- The visit of any node from the start.
  pub start-Returns :
      (edges : List (DependencyEdge F)) (node : String)
      → Returns (visit_upstream edges (length edges + 2) node [])
  start-Returns edges node =
      let bound = unvisited-length (map (λ e. e.source) edges) (node ∷ []) in
      let len = length-map edges in
      let start =
        (scan-Returns edges (visit_upstream edges (suc (length edges))) node (suc (length edges))
          (λ m w i c. visit-Returns edges (suc (length edges)) m w i c)
          (visit-Spec edges (suc (length edges))) edges (node ∷ []) (λ m i. i) (omega arith)) in
      subst (λ n. Returns (visit_upstream edges n node [])) (omega arith)
        (subst Returns (visit_new edges (suc (length edges)) node [] (not_among node)) start)
