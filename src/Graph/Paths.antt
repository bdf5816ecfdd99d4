-- ===== src/Graph/Paths.antt =====
-- graph.py: `find_alternative_paths`. The stack's top is the head of a list, and `outgoing` is read from
-- the edges. The loop counts its rounds, and `none` means that they ran out.
mod Stack
mod Routes
mod Explore
mod Simple
mod Sorted
mod Found
mod Examples
use continuityos.Prelude.{
  ℕ, zero, suc, String, str_eq, List, [], ◌∷◌, ◌++◌, Bool, not, ◌&&◌, Option, none, some, length,
  leb, if◌then◌else◌,
}
use continuityos.Graph.{DependencyEdge, DependencyGraph, among}

-- An entry of the stack: a path, its last node and its set of nodes.
pub record Partial : Type 0 where
  pub current : String
  pub path : List String
  pub visited : List String

abbrev pub extended : Partial → String → Partial
extended item target = record {
  current = target;
  path = item.path ++ target ∷ [];
  visited = target ∷ item.visited;
}

abbrev pub is_open : List String → Partial → String → Bool
is_open failed item target = not (among target item.visited) && not (among target failed)

-- The loop over the edges of `outgoing`, which are those of `edges` whose source is current.
unfoldable pub push_edges :
    {F : Type 0} → List String → Partial → List (DependencyEdge F) → List Partial → List Partial
unfolding among
push_edges failed item [] stack = stack
push_edges failed item (e ∷ es) stack = push_edges failed item es (
    if str_eq e.source item.current && is_open failed item e.target
    then extended item e.target ∷ stack
    else stack)

-- The loop over the stack.
unfoldable pub walk_stack :
    {F : Type 0}
    → List (DependencyEdge F)
    → String
    → List String
    → ℕ
    → List Partial
    → List (List String)
    → Option (List (List String))
unfolding push_edges
walk_stack edges target failed zero stack paths = none
walk_stack edges target failed (suc rounds) [] paths = some paths
walk_stack edges target failed (suc rounds) (item ∷ stack) paths =
    let arrived = str_eq item.current target in
    walk_stack edges target failed rounds
      (if arrived then stack else push_edges failed item edges stack)
      (if arrived then paths ++ item.path ∷ [] else paths)

-- sorted(paths, key=len), which is stable
unfoldable pub insert_path : List String → List (List String) → List (List String)
insert_path p [] = p ∷ []
insert_path p (q ∷ qs) =
    let rest = insert_path p qs in if leb (length p) (length q) then p ∷ q ∷ qs else q ∷ rest

unfoldable pub sort_paths : List (List String) → List (List String)
unfolding insert_path
sort_paths [] = []
sort_paths (p ∷ ps) = insert_path p (sort_paths ps)

abbrev pub sorted_paths : Option (List (List String)) → Option (List (List String))
sorted_paths none = none
sorted_paths (some paths) = some (sort_paths paths)

abbrev pub start_at : String → Partial
start_at source = record { current = source; path = source ∷ []; visited = source ∷ [] }

-- The search from `source` with so many rounds.
unfoldable pub find_alternative_paths :
    {F : Type 0}
    → ℕ
    → DependencyGraph F
    → String
    → String
    → List String
    → Option (List (List String))
unfolding walk_stack sort_paths
find_alternative_paths rounds graph source target failed =
    sorted_paths (walk_stack graph.edges target failed rounds (start_at source ∷ []) [])
