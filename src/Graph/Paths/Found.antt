-- ===== src/Graph/Paths/Found.antt =====
-- graph.py: `find_alternative_paths` ends and finds the alternative paths.
use continuityos.Prelude.{
  ℕ, suc, ◌+◌, String, List, [], ◌∷◌, ◌++◌, some, ◌≡◌, refl, ap, ◌∙◌, ◌↔◌, arith, map, Any,
}
use continuityos.Graph.{DependencyEdge, DependencyGraph}
use continuityos.Graph.Unvisited.{unvisited}
use continuityos.Graph.Paths.{
  start_at, walk_stack, sort_paths, sorted_paths, find_alternative_paths,
}
use continuityos.Graph.Paths.Explore.{explore}
use continuityos.Graph.Paths.Simple.{IsPath, Route-IsPath, IsPath-Route}
use continuityos.Graph.Paths.Sorted.{IsAscending, sort_paths-IsAscending, sort_paths-Any}

map_same : {A : Type 0} (rs : List (List A)) → map (λ r. [] ++ r) rs ≡ rs
map_same [] = refl
map_same (r ∷ rs) = ap (λ l. r ∷ l) (map_same rs)

module _ {F : Type 0} where
  walk-empty :
      (edges : List (DependencyEdge F)) (target : String) (failed : List String) (m : ℕ)
      (paths : List (List String))
      → walk_stack edges target failed (suc m) [] paths ≡ some paths
  unfolding walk_stack
  walk-empty edges target failed m paths = refl

  find_alternative_paths-walk :
      (rounds : ℕ) (graph : DependencyGraph F) (source target : String) (failed : List String)
      (paths : List (List String))
      → walk_stack graph.edges target failed rounds (start_at source ∷ []) [] ≡ some paths
      → find_alternative_paths rounds graph source target failed ≡ some (sort_paths paths)
  unfolding find_alternative_paths
  find_alternative_paths-walk rounds graph source target failed paths h = ap sorted_paths h

  -- For every graph, with cycles or not, there is a number of rounds from which on the search returns one
  -- list: the paths from the source to the target along the edges that come to no node twice and, after
  -- the source, to no failed node, all of them and nothing else, shorter ones first.
  pub find_alternative_paths-IsPath :
      (graph : DependencyGraph F) (source target : String) (failed : List String)
      → (enough : ℕ) × (paths : List (List String)) × ((more : ℕ)
          → find_alternative_paths (enough + more) graph source target failed ≡ some paths)
        × IsAscending paths
        × ((p : List String) → Any (λ q. p ≡ q) paths ↔ IsPath graph.edges target failed source p)
  find_alternative_paths-IsPath graph source target failed =
      let found =
        explore graph.edges target failed
          (suc (unvisited (map (λ e. e.target) graph.edges) (source ∷ []))) source (source ∷ [])
          (omega arith) in
      (
        suc found.rounds,
        sort_paths found.routes,
        λ more.
            find_alternative_paths-walk (suc found.rounds + more) graph source target failed
              found.routes
              (found.adds [] [] [] (suc more) (suc found.rounds + more) (omega arith)
                ∙ walk-empty graph.edges target failed more _
                ∙ ap some (map_same found.routes)),
        sort_paths-IsAscending found.routes,
        λ p.
            let (f, g) = sort_paths-Any (λ q. p ≡ q) found.routes in
            (
              λ m. Route-IsPath graph.edges target failed source p (found.sound p (f m)),
              λ h. g (found.complete p (IsPath-Route graph.edges target failed source p h)),
            ),
      )
