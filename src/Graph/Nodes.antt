-- ===== src/Graph/Nodes.antt =====
-- The nodes of the graph cache: `parse_put` and `parse_del` of detail/graph_cache.cpp, which take a
-- liveliness token that has appeared or has gone. Each is one critical section of `graph_mutex_`.
pub mod Total
pub mod Names
pub mod Reach
pub mod Pruned
mod Tests
use rmw_zenoh.Common.{
  ℕ, ◌≡◌, ◌+◌, ◌-◌, ◌^◌, ◌%◌, Bool, true, false, not, ◌&&◌, ◌||◌, List, [], ◌∷◌, ◌++◌, Option, none,
  some, ◌==◌, is_empty, if◌then◌else◌,
}
use rmw_zenoh.Common.Text.{Bytes, bytes_eq}
use rmw_zenoh.Common.Map.{find, append, assign, erase, insert_sorted}
use rmw_zenoh.Qos.{Rmw}
use rmw_zenoh.Liveliness.{EntityType, NodeInfo}
use rmw_zenoh.Liveliness.Gid.{Hashes}
use rmw_zenoh.Liveliness.Entity.{
  Entity, Parsed, parsed, rejected, thrown, make_from_keyexpr, is_node,
}
use rmw_zenoh.Graph.{TopicMap, is_entity_local}
use rmw_zenoh.Graph.Events.{GraphEvents}
use rmw_zenoh.Graph.Topics.{
  update_topic_map_for_put, update_topic_map_for_del, remove_topic_map_from_cache,
}

pub record GraphNode : Type 0 where
  pub zid : Bytes
  pub nid : Bytes
  pub ns : Bytes
  pub name : Bytes
  pub enclave : Bytes
  pub pubs : TopicMap
  pub subs : TopicMap
  pub clients : TopicMap
  pub services : TopicMap

abbrev pub NodeMap : Type 0
NodeMap = List (Bytes × GraphNode)

-- `zid` is `zid_str_`.
pub record GraphCache : Type 0 where
  pub zid : Bytes
  pub graph : List (Bytes × NodeMap)
  pub total_nodes_in_graph : ℕ
  pub graph_topics : TopicMap
  pub graph_services : TopicMap
  pub events : GraphEvents

-- The constructor.
abbrev pub new_cache : Bytes → GraphCache
new_cache zid = record {
  zid = zid;
  graph = [];
  total_nodes_in_graph = 0;
  graph_topics = [];
  graph_services = [];
  events = record { event_callbacks = []; unregistered = []; log = [] };
}

unfoldable pub make_graph_node : Entity → GraphNode
make_graph_node entity = record {
  zid = entity.zid;
  nid = entity.nid;
  ns = entity.node_info.ns;
  name = entity.node_info.name;
  enclave = entity.node_info.enclave;
  pubs = [];
  subs = [];
  clients = [];
  services = [];
}

-- The test of `find_if` on the equal range of the node's name.
unfoldable pub is_node_of : Entity → Bytes × GraphNode → Bool
is_node_of entity (name, node) =
    entity.node_info.name == name && (entity.zid == node.zid && entity.nid == node.nid)

unfoldable pub find_node : Entity → NodeMap → Option GraphNode
unfolding is_node_of
find_node entity [] = none
find_node entity (p ∷ m) = if is_node_of entity p then some p.1 else find_node entity m

-- What the iterator points at is replaced, or erased.
unfoldable pub assign_node : Entity → GraphNode → NodeMap → NodeMap
unfolding is_node_of
assign_node entity node [] = []
assign_node entity node (p ∷ m) =
    if is_node_of entity p then (p.0, node) ∷ m else p ∷ assign_node entity node m

unfoldable pub erase_node : Entity → NodeMap → NodeMap
unfolding is_node_of
erase_node entity [] = []
erase_node entity (p ∷ m) = if is_node_of entity p then m else p ∷ erase_node entity m

-- An update of a topic map with the events.
abbrev pub Update : Type 0
Update = TopicMap × GraphEvents → TopicMap × GraphEvents

-- The map of the node that an entity of a type belongs to.
unfoldable pub update_node_map :
    EntityType → Update → GraphNode × GraphEvents → GraphNode × GraphEvents
update_node_map EntityType.node f c = c
update_node_map EntityType.publisher f (node, s) =
    let (m, s') = f (node.pubs, s) in (record node { pubs = m }, s')
update_node_map EntityType.subscription f (node, s) =
    let (m, s') = f (node.subs, s) in (record node { subs = m }, s')
update_node_map EntityType.service f (node, s) =
    let (m, s') = f (node.services, s) in (record node { services = m }, s')
update_node_map EntityType.client f (node, s) =
    let (m, s') = f (node.clients, s) in (record node { clients = m }, s')

-- The map across the graph, which reports events for publishers and subscriptions.
unfoldable pub update_graph_map : EntityType → (Bool → Update) → GraphCache → GraphCache
update_graph_map EntityType.node f c = c
update_graph_map EntityType.publisher f c =
    let (m, s) = f true (c.graph_topics, c.events) in record c { graph_topics = m; events = s }
update_graph_map EntityType.subscription f c =
    let (m, s) = f true (c.graph_topics, c.events) in record c { graph_topics = m; events = s }
update_graph_map _ f c =
    let (m, s) = f false (c.graph_services, c.events) in record c { graph_services = m; events = s }

-- `update_topic_maps_for_put` and `update_topic_maps_for_del`: the node's map, then the graph's.
unfoldable pub update_topic_maps :
    Entity → (Bool → Update) → GraphNode → GraphCache → GraphNode × GraphCache
unfolding update_node_map update_graph_map
update_topic_maps entity f node c =
    let (node', s) = update_node_map entity.type (f false) (node, c.events) in
    (node', update_graph_map entity.type f (record c { events = s }))

abbrev pub put_update : Rmw → Bytes → Entity → Bool → Update
put_update r zid entity report = update_topic_map_for_put r zid report entity

abbrev pub del_update : Rmw → Bytes → Entity → Bool → Update
del_update r zid entity report = update_topic_map_for_del r zid report entity

-- `total_nodes_in_graph_ += 1` and `-= 1` on a `size_t`.
abbrev pub incremented : ℕ → ℕ
incremented n = (n + 1) % 2 ^ 64

abbrev pub decremented : ℕ → ℕ
decremented n = (n + (2 ^ 64 - 1)) % 2 ^ 64

-- The three branches of `parse_put`: the first node of a namespace, a new node of a namespace that is
-- there, and a node that is there. A new node is made with the maps of its first entity.
unfoldable pub add_namespace : Rmw → Entity → GraphCache → GraphCache
unfolding update_topic_maps make_graph_node
add_namespace r entity c =
    let (node, c') =
      update_topic_maps entity (put_update r c.zid entity) (make_graph_node entity) c in
    record c' {
      graph = append entity.node_info.ns ((entity.node_info.name, node) ∷ []) c.graph;
      total_nodes_in_graph = incremented c.total_nodes_in_graph;
    }

unfoldable pub add_node : Rmw → Entity → NodeMap → GraphCache → GraphCache
unfolding update_topic_maps make_graph_node
add_node r entity nodes c =
    let (node, c') =
      update_topic_maps entity (put_update r c.zid entity) (make_graph_node entity) c in
    record c' {
      graph = assign entity.node_info.ns (insert_sorted entity.node_info.name node nodes) c.graph;
      total_nodes_in_graph = incremented c.total_nodes_in_graph;
    }

unfoldable pub update_node : Rmw → Entity → NodeMap → GraphNode → GraphCache → GraphCache
unfolding assign_node update_topic_maps
update_node r entity nodes node c =
    let (node', c') = update_topic_maps entity (put_update r c.zid entity) node c in
    record c' { graph = assign entity.node_info.ns (assign_node entity node' nodes) c.graph }

-- `parse_put` for an entity.
unfoldable pub put_entity : Rmw → Entity → GraphCache → GraphCache
unfolding find_node add_namespace add_node update_node
put_entity r entity c = elim (find entity.node_info.ns c.graph) [
  | none ↦ add_namespace r entity c
  | some nodes ↦ elim (find_node entity nodes) [
    | none ↦ add_node r entity nodes c
    | some node ↦ update_node r entity nodes node c
  ]
]

-- The maps of a node that goes before its entities leave the maps across the graph.
unfoldable pub remove_entities : Rmw → GraphNode → GraphCache → GraphCache
remove_entities r node c =
    if is_empty node.pubs && is_empty node.subs && is_empty node.clients && is_empty node.services
    then c
    else let (topics, s) =
        remove_topic_map_from_cache r c.zid node.subs
          (remove_topic_map_from_cache r c.zid node.pubs (c.graph_topics, c.events)) in
      let (services, s') =
        remove_topic_map_from_cache r c.zid node.clients
          (remove_topic_map_from_cache r c.zid node.services (c.graph_services, s)) in
      record c { graph_topics = topics; graph_services = services; events = s' }

-- A namespace goes with its last node.
unfoldable pub set_namespace : Bytes → NodeMap → List (Bytes × NodeMap) → List (Bytes × NodeMap)
set_namespace ns nodes graph = if is_empty nodes then erase ns graph else assign ns nodes graph

-- The branch of `parse_del` for a node and the one for another entity.
unfoldable pub del_node : Rmw → Entity → NodeMap → GraphNode → GraphCache → GraphCache
unfolding remove_entities set_namespace erase_node
del_node r entity nodes node c =
    let c' = remove_entities r node c in
    record c' {
      graph = set_namespace entity.node_info.ns (erase_node entity nodes) c.graph;
      total_nodes_in_graph = decremented c.total_nodes_in_graph;
    }

unfoldable pub del_endpoint : Rmw → Entity → NodeMap → GraphNode → GraphCache → GraphCache
unfolding assign_node update_topic_maps
del_endpoint r entity nodes node c =
    let (node', c') = update_topic_maps entity (del_update r c.zid entity) node c in
    record c' { graph = assign entity.node_info.ns (assign_node entity node' nodes) c.graph }

-- `parse_del` for an entity.
unfoldable pub del_entity : Rmw → Entity → GraphCache → GraphCache
unfolding find_node del_node del_endpoint
del_entity r entity c = elim (find entity.node_info.ns c.graph) [
  | none ↦ c
  | some nodes ↦ elim (find_node entity nodes) [
    | none ↦ c
    | some node ↦
        if is_node entity.type
        then del_node r entity nodes node c
        else del_endpoint r entity nodes node c
  ]
]

-- What both functions do with the entity of a token, once it is not to be ignored.
unfoldable pub parse_with :
    (Entity → GraphCache → GraphCache) → Bool → Parsed Entity → GraphCache → Option GraphCache
unfolding is_entity_local
parse_with f ignore_from_current_session (parsed entity) c =
    if ignore_from_current_session && is_entity_local c.zid entity
    then some c
    else some (f entity c)
parse_with f ignore_from_current_session rejected c = some c
parse_with f ignore_from_current_session thrown c = none

-- `none` stands for an exception.
unfoldable pub parse_put : Rmw → Hashes → Bytes → Bool → GraphCache → Option GraphCache
unfolding parse_with put_entity
parse_put r h keyexpr ignore_from_current_session c =
    parse_with (put_entity r) ignore_from_current_session (make_from_keyexpr r h keyexpr) c

unfoldable pub parse_del : Rmw → Hashes → Bytes → Bool → GraphCache → Option GraphCache
unfolding parse_with del_entity
parse_del r h keyexpr ignore_from_current_session c =
    parse_with (del_entity r) ignore_from_current_session (make_from_keyexpr r h keyexpr) c
