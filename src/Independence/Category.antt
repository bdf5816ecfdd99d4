-- ===== src/Independence/Category.antt =====
-- independence.py, `analyze_category`: what the declared providers share, by their upstream nodes and
-- by their attributes, and the verdict on it. The justification is left out. `node_type.value` is the
-- enumeration's member, and `none` stands for a recursion past its depth.
mod Shared
mod Linking
mod Verdict
mod Examples
use continuityos.Prelude.{
  ℕ, zero, suc, String, str_eq, str_lt, str_append, List, [], ◌∷◌, ◌++◌, map, Bool, true, false,
  Option, none, some, length, ltb, leb, ◌==◌, any, if◌then◌else◌,
}
use continuityos.Struct.{◌>>=◌}
use continuityos.Graph.{AttributeValue, DependencyNode, DependencyGraph, NodeType, among}
use continuityos.Independence.{get_upstream_dependencies}
use continuityos.Independence.Groups.{independent_count}

pub data DependencyType : Type 0 where
  of_node : NodeType → DependencyType
  upstream_node : DependencyType
  of_attribute : String → DependencyType

pub record SharedDependency : Type 0 where
  pub dependency_id : String
  pub dependency_name : String
  pub dependency_type : DependencyType
  pub shared_by_providers : List String

pub record IndependenceResult : Type 0 where
  pub category : String
  pub declared_providers : List String
  pub declared_count : ℕ
  pub independent_count : ℕ
  pub shared_dependencies : List SharedDependency
  pub redundancy_valid : Bool

abbrev pub attr_keys : List String
attr_keys =
    "gateway" ∷ "ground_station" ∷ "backhaul_provider" ∷ "transit_provider" ∷ "power_source"
    ∷ "power_grid" ∷ "jurisdiction" ∷ "satellite_provider" ∷ "upstream_supplier" ∷ "port_terminal"
    ∷ []

-- `sorted(set(pids))`
unfoldable pub insert_once : String → List String → List String
insert_once x [] = x ∷ []
insert_once x (y ∷ ys) =
    let rest = insert_once x ys in
    if str_lt x y then x ∷ y ∷ ys else if str_eq x y then y ∷ ys else y ∷ rest

unfoldable pub sorted_set : List String → List String
sorted_set [] = []
sorted_set (x ∷ xs) = insert_once x (sorted_set xs)

-- `sorted(pids)`
unfoldable pub insert_sorted : String → List String → List String
insert_sorted x [] = x ∷ []
insert_sorted x (y ∷ ys) =
    let rest = insert_sorted x ys in if str_lt y x then y ∷ rest else x ∷ y ∷ ys

unfoldable pub sorted : List String → List String
sorted [] = []
sorted (x ∷ xs) = insert_sorted x (sorted xs)

-- the last node of that id, as in the dictionary `nodes_by_id`
unfoldable pub node_of : {F : Type 0} → String → List (DependencyNode F) → Option (DependencyNode F)
node_of id [] = none
node_of id (n ∷ nodes) = elim (node_of id nodes) [
  | some m ↦ some m
  | none ↦ if str_eq n.node_id id then some n else none
]

abbrev pub Upstreams : Type 0
Upstreams = List (String × List String)

-- `provider_upstreams`
unfoldable pub upstreams_of : {F : Type 0} → DependencyGraph F → List String → Option Upstreams
upstreams_of graph [] = some []
upstreams_of graph (pid ∷ pids) = do
  up ← get_upstream_dependencies graph pid
  rest ← upstreams_of graph pids
  some ((pid, up) ∷ rest)

-- `upstream_counts[u]`
unfoldable pub users_of : String → Upstreams → List String
users_of u [] = []
users_of u ((pid, up) ∷ ups) = let rest = users_of u ups in if among u up then pid ∷ rest else rest

-- the nodes that are keys of `upstream_counts`
abbrev pub upstream_ids : Upstreams → List String
upstream_ids [] = []
upstream_ids ((pid, up) ∷ ups) = up ++ upstream_ids ups

-- an entry of `shared_deps_map`, unless its key has one
abbrev pub is_dependency : String → SharedDependency → Bool
is_dependency id d = str_eq d.dependency_id id

abbrev pub put_new : SharedDependency → List SharedDependency → List SharedDependency
put_new d deps = if any (is_dependency d.dependency_id) deps then deps else d ∷ deps

abbrev pub put_shared : SharedDependency → List SharedDependency → List SharedDependency
put_shared d deps = if ltb 1 (length d.shared_by_providers) then put_new d deps else deps

abbrev pub node_dependency :
    {F : Type 0} → List (DependencyNode F) → Upstreams → String → SharedDependency
node_dependency nodes ups u = record {
  dependency_id = u;
  dependency_name = elim (node_of u nodes) [ none ↦ u | some n ↦ n.name ];
  dependency_type = elim (node_of u nodes) [ none ↦ upstream_node | some n ↦ of_node n.node_type ];
  shared_by_providers = sorted_set (users_of u ups);
}

unfoldable pub node_dependencies :
    {F : Type 0}
    → List (DependencyNode F)
    → Upstreams
    → List String
    → List SharedDependency
    → List SharedDependency
node_dependencies nodes ups [] deps = deps
node_dependencies nodes ups (u ∷ us) deps =
    node_dependencies nodes ups us (put_shared (node_dependency nodes ups u) deps)

abbrev pub attribute_of : String → List (String × AttributeValue) → Option String
attribute_of key [] = none
attribute_of key ((k, v) ∷ more) = if str_eq k key then some v.str else attribute_of key more

-- the value that a provider's node has for an attribute
unfoldable pub value_of : {F : Type 0} → List (DependencyNode F) → String → String → Option String
value_of nodes key pid = elim (node_of pid nodes) [
  | none ↦ none
  | some n ↦ attribute_of key n.attributes
]

-- `val_to_pids`, as the pairs of a value and a provider
abbrev pub value_pair : String → Option String → List (String × String)
value_pair pid none = []
value_pair pid (some v) = (v, pid) ∷ []

unfoldable pub values_of :
    {F : Type 0} → List (DependencyNode F) → String → List String → List (String × String)
values_of nodes key [] = []
values_of nodes key (pid ∷ pids) =
    value_pair pid (value_of nodes key pid) ++ values_of nodes key pids

unfoldable pub pids_with : String → List (String × String) → List String
pids_with v [] = []
pids_with v ((w, pid) ∷ more) =
    let rest = pids_with v more in if str_eq w v then pid ∷ rest else rest

abbrev pub attribute_dependency : String → List (String × String) → String → SharedDependency
attribute_dependency key values v = record {
  dependency_id = str_append key (str_append "/" v);
  dependency_name = str_append "Shared " (str_append key (str_append ": " v));
  dependency_type = of_attribute key;
  shared_by_providers = sorted_set (pids_with v values);
}

unfoldable pub value_dependencies :
    String
    → List (String × String)
    → List (String × String)
    → List SharedDependency
    → List SharedDependency
value_dependencies key values [] deps = deps
value_dependencies key values ((v, pid) ∷ more) deps =
    value_dependencies key values more (put_shared (attribute_dependency key values v) deps)

unfoldable pub attribute_dependencies :
    {F : Type 0}
    → List (DependencyNode F)
    → List String
    → List String
    → List SharedDependency
    → List SharedDependency
attribute_dependencies nodes pids [] deps = deps
attribute_dependencies nodes pids (key ∷ keys) deps =
    attribute_dependencies nodes pids keys
      (value_dependencies key (values_of nodes key pids) (values_of nodes key pids) deps)

-- `sorted(shared_deps_map.values(), key=lambda x: x.dependency_id)`
unfoldable pub insert_dependency : SharedDependency → List SharedDependency → List SharedDependency
insert_dependency d [] = d ∷ []
insert_dependency d (e ∷ deps) =
    let rest = insert_dependency d deps in
    if str_lt e.dependency_id d.dependency_id then e ∷ rest else d ∷ e ∷ deps

unfoldable pub sort_dependencies : List SharedDependency → List SharedDependency
sort_dependencies [] = []
sort_dependencies (d ∷ deps) = insert_dependency d (sort_dependencies deps)

-- `shared_list`
unfoldable pub shared_list :
    {F : Type 0} → DependencyGraph F → List String → Upstreams → List SharedDependency
shared_list graph pids ups = sort_dependencies (
    attribute_dependencies graph.nodes pids attr_keys
      (node_dependencies graph.nodes ups (upstream_ids ups) []))

abbrev pub providers_of : List SharedDependency → List (List String)
providers_of deps = map (λ d. d.shared_by_providers) deps

abbrev pub is_redundant : ℕ → ℕ → ℕ → Bool
is_redundant minimum_required declared independent =
    if leb minimum_required declared
    then leb minimum_required independent
    else independent == declared

unfoldable pub analyze_category :
    {F : Type 0} → DependencyGraph F → String → List String → ℕ → Option IndependenceResult
analyze_category graph category [] minimum_required = some (record {
  category = category;
  declared_providers = [];
  declared_count = 0;
  independent_count = 0;
  shared_dependencies = [];
  redundancy_valid = false;
})
analyze_category graph category (pid ∷ pids) minimum_required = do
  ups ← upstreams_of graph (pid ∷ pids)
  let shared = shared_list graph (pid ∷ pids) ups
  independent ← independent_count (pid ∷ pids) (providers_of shared)
  some (record {
    category = category;
    declared_providers = sorted (pid ∷ pids);
    declared_count = length (pid ∷ pids);
    independent_count = independent;
    shared_dependencies = shared;
    redundancy_valid = is_redundant minimum_required (length (pid ∷ pids)) independent;
  })
