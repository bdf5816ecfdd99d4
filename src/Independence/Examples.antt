-- ===== src/Independence/Examples.antt =====
-- A graph with a cycle: the port needs the satellite, the satellite and the gateway need each other.
use continuityos.Prelude.{ℕ, String, List, [], ◌∷◌, none, some, true, false, ◌≡◌, refl}
use continuityos.Graph.{DependencyEdge, DependencyGraph, among, connects}
use continuityos.Independence.{get_upstream_dependencies}
use continuityos.Independence.Reach.{Upstream}
use continuityos.Independence.Exact.{get_upstream_dependencies-Upstream}

abbrev edge : String → String → DependencyEdge ℕ
edge source target = record {
  source = source;
  target = target;
  kind = connects;
  dependency_strength = 1000000;
  substitutable = false;
  substitute_group = none;
}

abbrev cycle : DependencyGraph ℕ
cycle = record {
  graph_id = "cycle";
  nodes = [];
  edges =
      edge "satellite" "port"
      ∷ edge "gateway" "satellite"
      ∷ edge "satellite" "gateway"
      ∷ edge "port" "port"
      ∷ [];
}

cycle_upstream :
    get_upstream_dependencies cycle "port" ≡ some ("satellite" ∷ "gateway" ∷ "satellite" ∷ [])
unfolding get_upstream_dependencies
cycle_upstream = refl

get_upstream_dependencies-Upstream_example :
    (up : List String) × (get_upstream_dependencies cycle "port" ≡ some up)
    × ((x : String)
        → (among x up ≡ true → Upstream cycle.edges "port" x)
          × (Upstream cycle.edges "port" x → among x up ≡ true))
get_upstream_dependencies-Upstream_example = get_upstream_dependencies-Upstream cycle "port"
