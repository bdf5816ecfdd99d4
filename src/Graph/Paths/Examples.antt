-- ===== src/Graph/Paths/Examples.antt =====
-- Two ways around a failed hub, one of them over a loop.
use continuityos.Prelude.{ℕ, ◌+◌, String, List, [], ◌∷◌, none, some, false, ◌≡◌, ◌↔◌, refl, Any}
use continuityos.Graph.{DependencyEdge, DependencyGraph, requires}
use continuityos.Graph.Paths.{find_alternative_paths}
use continuityos.Graph.Paths.Simple.{IsPath}
use continuityos.Graph.Paths.Sorted.{IsAscending}
use continuityos.Graph.Paths.Found.{find_alternative_paths-IsPath}

abbrev edge : String → String → DependencyEdge ℕ
edge source target = record {
  source = source;
  target = target;
  kind = requires;
  dependency_strength = 1000000;
  substitutable = false;
  substitute_group = none;
}

abbrev network : DependencyGraph ℕ
network = record {
  graph_id = "network";
  nodes = [];
  edges =
      edge "a" "hub"
      ∷ edge "hub" "z"
      ∷ edge "a" "b"
      ∷ edge "b" "c"
      ∷ edge "c" "b"
      ∷ edge "c" "z"
      ∷ edge "a" "z"
      ∷ [];
}

paths_around :
    find_alternative_paths 20 network "a" "z" ("hub" ∷ [])
    ≡ some (("a" ∷ "z" ∷ []) ∷ ("a" ∷ "b" ∷ "c" ∷ "z" ∷ []) ∷ [])
unfolding find_alternative_paths
paths_around = refl

paths_from_failed :
    find_alternative_paths 20 network "hub" "z" ("hub" ∷ []) ≡ some (("hub" ∷ "z" ∷ []) ∷ [])
unfolding find_alternative_paths
paths_from_failed = refl

find_alternative_paths-IsPath_example :
    (enough : ℕ) × (paths : List (List String)) × ((more : ℕ)
      → find_alternative_paths (enough + more) network "a" "z" ("hub" ∷ []) ≡ some paths)
    × IsAscending paths
    × ((p : List String) → Any (λ q. p ≡ q) paths ↔ IsPath network.edges "z" ("hub" ∷ []) "a" p)
find_alternative_paths-IsPath_example = find_alternative_paths-IsPath network "a" "z" ("hub" ∷ [])
