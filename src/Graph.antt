-- ===== src/Graph.antt =====
-- graph.py: the dependency graph and its validation. The source of an edge is what its target
-- depends on. An attribute's value is a `str`, a float, an integer or a Boolean, of which the code
-- reads only what `str` makes of it.
pub mod Unvisited
mod Paths
use continuityos.Prelude.{
  String, str_eq, List, [], ◌∷◌, Bool, true, false, ◌&&◌, Option, none, some, any, map,
  if◌then◌else◌,
}
use continuityos.Domain.{GeoPoint}

pub data NodeType : Type 0 where
  corridor port airfield vessel icebreaker fuel power inventory satcom : NodeType
  terrestrial_network identity_provider cloud_service port_ot data_feed supplier : NodeType
  carrier community facility rail_hub pipeline mine_or_refinery manufacturing_plant : NodeType
  intermodal_terminal customs_border strategic_stockpile subsea_cable : NodeType
  permafrost_corridor seabed_sensor microwave_relay satellite_uplink : NodeType

pub data DependencyKind : Type 0 where
  requires transports authenticates powers connects supplies validates refines : DependencyKind
  manufactures clears_customs subsea_connects traverses_permafrost : DependencyKind
  relays_microwave : DependencyKind

-- A value, by what `str(value)` gives.
pub record AttributeValue : Type 0 where
  pub str : String

pub record DependencyNode (F : Type 0) : Type 0 where
  pub node_id : String
  pub name : String
  pub node_type : NodeType
  pub criticality : F
  pub provider_id : Option String
  pub location : Option (GeoPoint F)
  pub attributes : List (String × AttributeValue)

pub record DependencyEdge (F : Type 0) : Type 0 where
  pub source : String
  pub target : String
  pub kind : DependencyKind
  pub dependency_strength : F
  pub substitutable : Bool
  pub substitute_group : Option String

pub record DependencyGraph (F : Type 0) : Type 0 where
  pub graph_id : String
  pub nodes : List (DependencyNode F)
  pub edges : List (DependencyEdge F)

pub data GraphError : Type 0 where
  duplicate_node_ids : GraphError
  unknown_node : String → String → GraphError

-- `x in ids`
unfoldable pub among : String → List String → Bool
among x ids = any (str_eq x) ids

abbrev pub ids_of : {F : Type 0} → List (DependencyNode F) → List String
ids_of nodes = map (λ n. n.node_id) nodes

-- len(set(ids)) != len(ids)
unfoldable pub has_duplicate : List String → Bool
unfolding among
has_duplicate [] = false
has_duplicate (x ∷ ids) = let rest = has_duplicate ids in if among x ids then true else rest

unfoldable pub unknown_edge :
    {F : Type 0} → List String → List (DependencyEdge F) → Option GraphError
unfolding among
unknown_edge ids [] = none
unknown_edge ids (e ∷ es) =
    let rest = unknown_edge ids es in
    if among e.source ids && among e.target ids then rest else some (unknown_node e.source e.target)

-- The error that a graph is refused with, if any.
unfoldable pub validate_references : {F : Type 0} → DependencyGraph F → Option GraphError
unfolding has_duplicate unknown_edge
validate_references graph =
    if has_duplicate (ids_of graph.nodes)
    then some duplicate_node_ids
    else unknown_edge (ids_of graph.nodes) graph.edges
