-- ===== src/Independence/Category/Examples.antt =====
-- Two satellite links behind one teleport and a fibre; and a link that is another's upstream.
use continuityos.Prelude.{
  ℕ, String, List, [], ◌∷◌, map, length, Option, none, some, ◌≡◌, ◌↔◌, refl, true, false,
}
use continuityos.Graph.{
  AttributeValue, DependencyEdge, DependencyGraph, DependencyNode, among, connects, satcom,
}
use continuityos.Independence.Reach.{Upstream}
use continuityos.Independence.{get_upstream_dependencies, scan_edges, visit_upstream}
use continuityos.Independence.Groups.{
  links, independent_count, union_all, assign, find, own_parents, parent_of, union, unique_roots,
}
use continuityos.Independence.Groups.Classes.{Linked}
use continuityos.Independence.Groups.Count.{distinct}
use continuityos.Independence.Category.{
  IndependenceResult, analyze_category, providers_of, upstreams_of, shared_list, sort_dependencies,
  attribute_dependencies, value_dependencies, values_of, value_of, node_of, sorted_set, pids_with,
  insert_once, node_dependencies, users_of, insert_dependency, insert_sorted, sorted,
}
use continuityos.Independence.Category.Verdict.{analyze_category-Linked}

abbrev edge : String → String → DependencyEdge ℕ
edge source target = record {
  source = source;
  target = target;
  kind = connects;
  dependency_strength = 1000000;
  substitutable = false;
  substitute_group = none;
}

abbrev east : AttributeValue
east = record { str = "east" }

abbrev node : String → List (String × AttributeValue) → DependencyNode ℕ
node id attributes = record {
  node_id = id;
  name = id;
  node_type = satcom;
  criticality = 500000;
  location = none;
  provider_id = none;
  attributes = attributes;
}

abbrev north : DependencyGraph ℕ
north = record {
  graph_id = "north";
  nodes =
      node "starlink" []
      ∷ node "oneweb" []
      ∷ node "fiber" (("power_grid", east) ∷ [])
      ∷ node "radio" (("power_grid", east) ∷ [])
      ∷ node "teleport" []
      ∷ [];
  edges = edge "teleport" "starlink" ∷ edge "teleport" "oneweb" ∷ edge "fiber" "teleport" ∷ [];
}

-- the count and the shared dependencies of a result
abbrev outline : Option IndependenceResult → Option (ℕ × List (List String))
outline none = none
outline (some r) = some (r.independent_count, providers_of r.shared_dependencies)

two_of_three :
    outline (analyze_category north "communications" ("starlink" ∷ "oneweb" ∷ "radio" ∷ []) 2)
    ≡ some (2, (("oneweb" ∷ "starlink" ∷ []) ∷ ("oneweb" ∷ "starlink" ∷ []) ∷ []))
unfolding analyze_category upstreams_of get_upstream_dependencies independent_count union_all
    shared_list sort_dependencies attribute_dependencies value_dependencies values_of value_of
    node_of sorted_set pids_with insert_once node_dependencies users_of insert_dependency among
    insert_sorted sorted assign find own_parents parent_of union unique_roots scan_edges
    visit_upstream
two_of_three = refl

by_attribute :
    outline (analyze_category north "power" ("fiber" ∷ "radio" ∷ []) 2)
    ≡ some (1, (("fiber" ∷ "radio" ∷ []) ∷ []))
unfolding analyze_category upstreams_of get_upstream_dependencies independent_count union_all
    shared_list sort_dependencies attribute_dependencies value_dependencies values_of value_of
    node_of sorted_set pids_with insert_once node_dependencies users_of insert_dependency among
    insert_sorted sorted assign find own_parents parent_of union unique_roots scan_edges
    visit_upstream
by_attribute = refl

-- the fibre is what the teleport hangs on, and still counts beside it
upstream_provider :
    outline (analyze_category north "communications" ("fiber" ∷ "starlink" ∷ []) 2) ≡ some (2, [])
unfolding analyze_category upstreams_of get_upstream_dependencies independent_count union_all
    shared_list sort_dependencies attribute_dependencies value_dependencies values_of value_of
    node_of sorted_set pids_with insert_once node_dependencies users_of insert_dependency among
    insert_sorted sorted assign find own_parents parent_of union unique_roots scan_edges
    visit_upstream
upstream_provider = refl

analyze_category-Linked_example :
    (r : IndependenceResult) × (analyze_category north "communications"
        ("starlink" ∷ "oneweb" ∷ "radio" ∷ [])
        2
      ≡ some r)
    × ((name : String → String) × ((k l : String)
          → among k ("starlink" ∷ "oneweb" ∷ "radio" ∷ []) ≡ true
          → among l ("starlink" ∷ "oneweb" ∷ "radio" ∷ []) ≡ true
          → (name k ≡ name l) ↔ Linked (links (providers_of r.shared_dependencies)) k l)
        × ((k l u : String)
            → among k ("starlink" ∷ "oneweb" ∷ "radio" ∷ []) ≡ true
            → among l ("starlink" ∷ "oneweb" ∷ "radio" ∷ []) ≡ true
            → Upstream north.edges k u
            → Upstream north.edges l u
            → name k ≡ name l)
        × (r.independent_count
            ≡ length (distinct (map name ("starlink" ∷ "oneweb" ∷ "radio" ∷ [])) [])))
analyze_category-Linked_example =
    analyze_category-Linked north "communications" "starlink" ("oneweb" ∷ "radio" ∷ []) 2
