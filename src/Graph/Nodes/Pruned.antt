-- ===== src/Graph/Nodes/Pruned.antt =====
-- The maps across the graph, `graph_topics_` and `graph_services_`, keep nothing empty: of
-- detail/graph_cache.cpp.
use rmw_zenoh.Common.{
  Bool, true, false, ◌&&◌, [], ◌∷◌, is_empty, if-branches, Option-branches, if◌then◌else◌,
}
use rmw_zenoh.Common.Text.{Bytes, bytes_eq}
use rmw_zenoh.Common.Map.{find}
use rmw_zenoh.Qos.{Rmw}
use rmw_zenoh.Liveliness.{EntityType}
use rmw_zenoh.Liveliness.Gid.{Hashes}
use rmw_zenoh.Liveliness.Entity.{Entity, make_from_keyexpr, is_node}
use rmw_zenoh.Graph.{EntitySet, TopicMap, TopicTypeMap, TopicQosMap}
use rmw_zenoh.Graph.Events.{GraphEvents}
use rmw_zenoh.Graph.Topics.{delete_all, delete_qos, delete_types, remove_topic_map_from_cache}
use rmw_zenoh.Graph.Topics.Pruned.{
  IsPruned, update_topic_map_for_put-IsPruned, update_topic_map_for_del-IsPruned,
}
use rmw_zenoh.Graph.Nodes.{
  GraphNode, GraphCache, Update, put_update, del_update, update_topic_maps, update_graph_map,
  update_node_map, make_graph_node, find_node, put_entity, del_entity, add_namespace, add_node,
  update_node, del_node, del_endpoint, remove_entities, parse_put, parse_del,
}
use rmw_zenoh.Graph.Nodes.Reach.{
  Reach, start, put, del, callback_set, callbacks_removed, parse_with-keeps,
}

abbrev pub IsPrunedCache : GraphCache → Type 0
IsPrunedCache c = IsPruned c.graph_topics × IsPruned c.graph_services

abbrev KeepsPruned : Update → Type 0
KeepsPruned f = (m : TopicMap) (s : GraphEvents) → IsPruned m → IsPruned (f (m, s)).0

delete_all-IsPruned :
    (r : Rmw) (zid : Bytes) (xs : EntitySet) (m : TopicMap) (s : GraphEvents)
    → IsPruned m
    → IsPruned (delete_all r zid xs (m, s)).0
unfolding delete_all
delete_all-IsPruned r zid [] m s h = h
delete_all-IsPruned r zid (x ∷ xs) m s h =
    let c = del_update r zid x true (m, s) in
    delete_all-IsPruned r zid xs c.0 c.1 (update_topic_map_for_del-IsPruned r zid true x m s h)

delete_qos-IsPruned :
    (r : Rmw) (zid : Bytes) (qoss : TopicQosMap) (m : TopicMap) (s : GraphEvents)
    → IsPruned m
    → IsPruned (delete_qos r zid qoss (m, s)).0
unfolding delete_qos
delete_qos-IsPruned r zid [] m s h = h
delete_qos-IsPruned r zid ((q, topic) ∷ qoss) m s h =
    let c = delete_all r zid topic.pubs (m, s) in
    let d = delete_all r zid topic.subs c in
    delete_qos-IsPruned r zid qoss d.0 d.1
      (delete_all-IsPruned r zid topic.subs c.0 c.1 (delete_all-IsPruned r zid topic.pubs m s h))

delete_types-IsPruned :
    (r : Rmw) (zid : Bytes) (types : TopicTypeMap) (m : TopicMap) (s : GraphEvents)
    → IsPruned m
    → IsPruned (delete_types r zid types (m, s)).0
unfolding delete_types
delete_types-IsPruned r zid [] m s h = h
delete_types-IsPruned r zid ((t, qoss) ∷ types) m s h =
    let c = delete_qos r zid qoss (m, s) in
    delete_types-IsPruned r zid types c.0 c.1 (delete_qos-IsPruned r zid qoss m s h)

remove-IsPruned :
    (r : Rmw) (zid : Bytes) (removed : TopicMap) (m : TopicMap) (s : GraphEvents)
    → IsPruned m
    → IsPruned (remove_topic_map_from_cache r zid removed (m, s)).0
unfolding remove_topic_map_from_cache
remove-IsPruned r zid [] m s h = h
remove-IsPruned r zid ((n, types) ∷ removed) m s h =
    let c = delete_types r zid types (m, s) in
    remove-IsPruned r zid removed c.0 c.1 (delete_types-IsPruned r zid types m s h)

update_graph_map-IsPruned :
    (t : EntityType) (f : Bool → Update) (c : GraphCache)
    → ((b : Bool) → KeepsPruned (f b))
    → IsPrunedCache c
    → IsPrunedCache (update_graph_map t f c)
unfolding update_graph_map
update_graph_map-IsPruned EntityType.node f c k h = h
update_graph_map-IsPruned EntityType.publisher f c k (ht, hs) =
    (k true c.graph_topics c.events ht, hs)
update_graph_map-IsPruned EntityType.subscription f c k (ht, hs) =
    (k true c.graph_topics c.events ht, hs)
update_graph_map-IsPruned EntityType.service f c k (ht, hs) =
    (ht, k false c.graph_services c.events hs)
update_graph_map-IsPruned EntityType.client f c k (ht, hs) =
    (ht, k false c.graph_services c.events hs)

update_topic_maps-IsPruned :
    (entity : Entity) (f : Bool → Update) (node : GraphNode) (c : GraphCache)
    → ((b : Bool) → KeepsPruned (f b))
    → IsPrunedCache c
    → IsPrunedCache (update_topic_maps entity f node c).1
unfolding update_topic_maps
update_topic_maps-IsPruned entity f node c k h =
    update_graph_map-IsPruned entity.type f
      (record c { events = (update_node_map entity.type (f false) (node, c.events)).1 }) k h

put_entity-IsPruned :
    (r : Rmw) (entity : Entity) (c : GraphCache)
    → IsPrunedCache c
    → IsPrunedCache (put_entity r entity c)
unfolding put_entity add_namespace add_node update_node
put_entity-IsPruned r entity c h =
    Option-branches IsPrunedCache (find entity.node_info.ns c.graph) (add_namespace r entity c) _
      (λ _. kept (make_graph_node entity))
      (λ nodes _.
        Option-branches IsPrunedCache (find_node entity nodes) (add_node r entity nodes c)
          (λ node. update_node r entity nodes node c) (λ _. kept (make_graph_node entity))
          (λ node _. kept node))
  where
    kept :
        (node : GraphNode)
        → IsPrunedCache (update_topic_maps entity (put_update r c.zid entity) node c).1
    kept node =
        update_topic_maps-IsPruned entity (put_update r c.zid entity) node c
          (λ b m s. update_topic_map_for_put-IsPruned r c.zid b entity m s) h

remove_entities-IsPruned :
    (r : Rmw) (node : GraphNode) (c : GraphCache)
    → IsPrunedCache c
    → IsPrunedCache (remove_entities r node c)
unfolding remove_entities
remove_entities-IsPruned r node c h =
    let a = remove_topic_map_from_cache r c.zid node.pubs (c.graph_topics, c.events) in
    let b = remove_topic_map_from_cache r c.zid node.subs a in
    let d = remove_topic_map_from_cache r c.zid node.services (c.graph_services, b.1) in
    if-branches IsPrunedCache
      (is_empty node.pubs && is_empty node.subs && is_empty node.clients && is_empty node.services)
      c _ (λ _. h)
      (λ _. (
        remove-IsPruned r c.zid node.subs a.0 a.1
            (remove-IsPruned r c.zid node.pubs c.graph_topics c.events h.0),
        remove-IsPruned r c.zid node.clients d.0 d.1
            (remove-IsPruned r c.zid node.services c.graph_services b.1 h.1),
      ))

del_entity-IsPruned :
    (r : Rmw) (entity : Entity) (c : GraphCache)
    → IsPrunedCache c
    → IsPrunedCache (del_entity r entity c)
unfolding del_entity del_node del_endpoint
del_entity-IsPruned r entity c h =
    Option-branches IsPrunedCache (find entity.node_info.ns c.graph) c _ (λ _. h)
      (λ nodes _.
        Option-branches IsPrunedCache (find_node entity nodes) c
          (λ node.
            if is_node entity.type
            then del_node r entity nodes node c
            else del_endpoint r entity nodes node c)
          (λ _. h)
          (λ node _.
            if-branches IsPrunedCache (is_node entity.type) (del_node r entity nodes node c)
              (del_endpoint r entity nodes node c) (λ _. remove_entities-IsPruned r node c h)
              (λ _.
                update_topic_maps-IsPruned entity (del_update r c.zid entity) node c
                  (λ b m s. update_topic_map_for_del-IsPruned r c.zid b entity m s) h)))

-- In every cache that can be reached, each topic and each service that is known has a type, each type
-- a profile, and each profile a publisher, a subscription, a client or a service.
pub Reach-IsPruned :
    (r : Rmw) (h : Hashes) (zid : Bytes) (c : GraphCache) → Reach r h zid c → IsPrunedCache c
unfolding parse_put parse_del
Reach-IsPruned r h zid _ start = (tt, tt)
Reach-IsPruned r h zid _ (put c c' keyexpr ignore s e) =
    let ih = Reach-IsPruned r h zid c s in
    parse_with-keeps IsPrunedCache (put_entity r) ignore (make_from_keyexpr r h keyexpr) c c'
      (λ x. put_entity-IsPruned r x c ih) ih e
Reach-IsPruned r h zid _ (del c c' keyexpr ignore s e) =
    let ih = Reach-IsPruned r h zid c s in
    parse_with-keeps IsPrunedCache (del_entity r) ignore (make_from_keyexpr r h keyexpr) c c'
      (λ x. del_entity-IsPruned r x c ih) ih e
Reach-IsPruned r h zid _ (callback_set c g i callback s) = Reach-IsPruned r h zid c s
Reach-IsPruned r h zid _ (callbacks_removed c g s) = Reach-IsPruned r h zid c s
