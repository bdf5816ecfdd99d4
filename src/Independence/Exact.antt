-- ===== src/Independence/Exact.antt =====
-- independence.py: the upstream dependencies are found, and they are exactly those that a chain of
-- edges reaches.
use continuityos.Prelude.{◌+◌, String, List, [], true, some, ◌≡◌, refl, length}
use continuityos.Graph.{DependencyEdge, DependencyGraph, among}
use continuityos.Independence.{visit_upstream, get_upstream_dependencies}
use continuityos.Independence.Reach.{Upstream, direct, further, Spec}
use continuityos.Independence.Visits.{visit-Spec}
use continuityos.Independence.Depth.{start-Returns}
use continuityos.Graph.Unvisited.{not_among}

module _ {F : Type 0} where
  -- A visit that starts with nothing visited reaches everything.
  complete :
      {edges : List (DependencyEdge F)} {node x : String} {up v' : List String}
      → Spec edges node [] up v'
      → Upstream edges node x
      → (among x v' ≡ true) × (among x up ≡ true)
  complete spec (direct d) = spec.closed _ _ spec.itself (not_among _) d
  complete spec (further u d) = spec.closed _ _ ((complete spec u).0) (not_among _) d

  get_upstream_dependencies-visit :
      (graph : DependencyGraph F) (node : String) (up v : List String)
      → visit_upstream graph.edges (length graph.edges + 2) node [] ≡ some (up, v)
      → get_upstream_dependencies graph node ≡ some up
  unfolding get_upstream_dependencies
  get_upstream_dependencies-visit graph node up v h = rw h refl

  -- For every graph, with cycles or not, the upstream dependencies of a node are found within a
  -- recursion depth of two more than the edges, and they are exactly the nodes that a chain of edges
  -- between different nodes leads to.
  pub get_upstream_dependencies-Upstream :
      (graph : DependencyGraph F) (node : String)
      → (up : List String) × (get_upstream_dependencies graph node ≡ some up)
        × ((x : String)
            → (among x up ≡ true → Upstream graph.edges node x)
              × (Upstream graph.edges node x → among x up ≡ true))
  get_upstream_dependencies-Upstream graph node =
      let ((up, v), h) = start-Returns graph.edges node in
      let spec = visit-Spec graph.edges (length graph.edges + 2) node [] up v h in
      (
        up,
        get_upstream_dependencies-visit graph node up v h,
        λ x. (spec.sound x, λ u. (complete spec u).1),
      )
