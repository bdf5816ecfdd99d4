-- ===== src/Independence.antt =====
-- independence.py: what a provider depends on; the analysis of several providers is in Category. The
-- recursion over the graph shares one set of visited nodes, which is passed on here; a set is a list.
-- The depth of the recursion is fuel, and `none` means that it ran out. The interpreter's own limit on
-- the depth is left out.
mod Reach
mod Visits
mod Depth
mod Exact
pub mod Groups
mod Category
mod Examples
use continuityos.Prelude.{
  ℕ, zero, suc, ◌+◌, String, str_eq, List, [], ◌∷◌, ◌++◌, Bool, true, false, not, ◌&&◌, Option,
  none, some, length, if◌then◌else◌,
}
use continuityos.Graph.{DependencyEdge, DependencyGraph, among}

abbrev pub Visit : Type 0
Visit = String → List String → Option (List String × List String)

abbrev pub is_upstream : {F : Type 0} → String → DependencyEdge F → Bool
is_upstream node_id e = str_eq e.target node_id && not (str_eq e.source node_id)

abbrev pub add_upstream :
    String → List String → Option (List String × List String) → Option (List String × List String)
add_upstream source up none = none
add_upstream source up (some (more, visited)) = some (source ∷ (up ++ more), visited)

-- The loop over the edges of a node that is visited now; `visit` is the recursive call.
unfoldable pub scan_edges :
    {F : Type 0}
    → Visit
    → String
    → List (DependencyEdge F)
    → List String
    → Option (List String × List String)
scan_edges visit node_id [] visited = some ([], visited)
scan_edges visit node_id (e ∷ es) visited =
    if is_upstream node_id e
    then elim (visit e.source visited) [
      | none ↦ none
      | some (up, visited') ↦ add_upstream e.source up (scan_edges visit node_id es visited')
    ]
    else scan_edges visit node_id es visited

unfoldable pub visit_upstream : {F : Type 0} → List (DependencyEdge F) → ℕ → Visit
unfolding scan_edges among
visit_upstream edges zero node_id visited = none
visit_upstream edges (suc depth) node_id visited =
    let scanned = scan_edges (visit_upstream edges depth) node_id edges (node_id ∷ visited) in
    if among node_id visited then some ([], visited) else scanned

abbrev pub upstream_of : Option (List String × List String) → Option (List String)
upstream_of none = none
upstream_of (some (up, visited)) = some up

unfoldable pub get_upstream_dependencies :
    {F : Type 0} → DependencyGraph F → String → Option (List String)
unfolding visit_upstream
get_upstream_dependencies graph node_id =
    upstream_of (visit_upstream graph.edges (length graph.edges + 2) node_id [])
