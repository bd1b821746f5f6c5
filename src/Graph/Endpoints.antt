-- ===== src/Graph/Endpoints.antt =====
-- The lists of endpoints that the graph cache of detail/graph_cache.cpp returns, for a topic and for a
-- service. What the setters of rmw and the allocation of the array return, one after another, is a
-- parameter, and so are `rcpputils::find_and_replace` and `rosidl_parse_type_hash_string`.
pub mod Lists
mod Tests
use rmw_zenoh.Common.{
  ℕ, zero, suc, ◌+◌, ◌≡◌, Bool, true, false, not, ◌||◌, List, [], ◌∷◌, ◌++◌, Option, none, some,
  length, if◌then◌else◌,
}
use rmw_zenoh.Common.Text.{Bytes, bytes_eq}
use rmw_zenoh.Common.Map.{find}
use rmw_zenoh.Qos.{QosProfile, RmwRet}
use rmw_zenoh.Liveliness.{EntityType}
use rmw_zenoh.Liveliness.Entity.{Entity}
use rmw_zenoh.Graph.{EntitySet, TopicData, TopicQosMap, TopicTypeMap, TopicMap}
use rmw_zenoh.Graph.Nodes.{GraphCache}
use rmw_zenoh.Graph.Count.{pubs_of, subs_of}
use rmw_zenoh.Graph.Names.{demangle_if_ros_type}

-- What rcpputils and rosidl do: the replacement of "::" by "/", and a type hash that can be parsed.
pub record Parsers : Type 0 where
  pub replace : Bytes → Bytes
  pub parse_type_hash : Bytes → Option ℕ

-- `rmw_topic_endpoint_info_t` or `rmw_service_endpoint_info_t`; without a hash it stays zero.
pub record EndpointInfo : Type 0 where
  pub node_name : Bytes
  pub node_namespace : Bytes
  pub topic_type : Bytes
  pub endpoint_type : EntityType
  pub qos : QosProfile
  pub type_hash : Option ℕ
  pub gid : Bytes

unfoldable pub endpoint_of : Parsers → EntityType → Bytes → TopicData → Entity → EndpointInfo
endpoint_of p type topic_type topic entity = record {
  node_name = entity.node_info.name;
  node_namespace = entity.node_info.ns;
  topic_type = demangle_if_ros_type p.replace topic_type;
  endpoint_type = type;
  qos = topic.info.qos;
  type_hash = p.parse_type_hash topic.info.type_hash;
  gid = entity.gid;
}

-- What a loop gives: the endpoints so far and the number of the next call, or the code of a call that
-- failed.
pub data Listed : Type 0 where
  listed : List EndpointInfo → ℕ → Listed
  failed : RmwRet → Listed

abbrev pub then_list : Listed → (List EndpointInfo → ℕ → Listed) → Listed
then_list (listed es n) f = f es n
then_list (failed ret) f = failed ret

-- `if (RMW_RET_OK != ret) return ret;`
abbrev pub unless_failed : RmwRet → Listed → Listed
unless_failed RmwRet.ok next = next
unless_failed ret next = failed ret

module _ (p : Parsers) (setters : Bytes → ℕ) (ret_of : ℕ → RmwRet) (type : EntityType) where
  -- Some calls in a row, up to the first that fails.
  unfoldable pub call_all : ℕ → List EndpointInfo → ℕ → Listed
  call_all zero es n = listed es n
  call_all (suc k) es n = unless_failed (ret_of n) (call_all k es (suc n))

  -- The innermost loop: the setters are called for an endpoint, which then joins the list. How many
  -- there are depends on whether the type hash can be parsed.
  unfoldable pub list_entities : Bytes → TopicData → EntitySet → List EndpointInfo → ℕ → Listed
  unfolding call_all
  list_entities topic_type topic [] es n = listed es n
  list_entities topic_type topic (entity ∷ entities) es n =
      then_list
        (call_all (setters topic.info.type_hash)
          (es ++ endpoint_of p type topic_type topic entity ∷ []) n)
        (list_entities topic_type topic entities)

  unfoldable pub list_qos :
      (TopicData → EntitySet) → Bytes → TopicQosMap → List EndpointInfo → ℕ → Listed
  unfolding list_entities
  list_qos side topic_type [] es n = listed es n
  list_qos side topic_type ((_, topic) ∷ m) es n =
      then_list (list_entities topic_type topic (side topic) es n) (list_qos side topic_type m)

  unfoldable pub list_types :
      (TopicData → EntitySet) → TopicTypeMap → List EndpointInfo → ℕ → Listed
  unfolding list_qos
  list_types side [] es n = listed es n
  list_types side ((topic_type, m) ∷ types) es n =
      then_list (list_qos side topic_type m es n) (list_types side types)

  -- The list, and the allocation of the array, behind the early exit for an unknown name.
  unfoldable pub list_in :
      (TopicData → EntitySet) → Bytes → TopicMap → RmwRet × Option (List EndpointInfo)
  unfolding list_types
  list_in side name m = elim (find name m) [
    | none ↦ (RmwRet.ok, none)
    | some types ↦ elim (then_list (list_types side types [] 0) (call_all 1)) [
      | failed ret ↦ (ret, none)
      | listed es n ↦ (RmwRet.ok, some es)
    ]
  ]

-- The number of setters: five for a topic and seven for a service, and one for a hash that can be
-- parsed.
abbrev pub topic_setters : Parsers → Bytes → ℕ
topic_setters p hash = elim (p.parse_type_hash hash) [ none ↦ 5 | some _ ↦ 6 ]

abbrev pub service_setters : Parsers → Bytes → ℕ
service_setters p hash = elim (p.parse_type_hash hash) [ none ↦ 7 | some _ ↦ 8 ]

-- The list is none when the array is left as it was.
unfoldable pub get_entities_info_by_topic :
    Parsers
    → (ℕ → RmwRet)
    → Bool
    → EntityType
    → Bytes
    → GraphCache
    → RmwRet × Option (List EndpointInfo)
unfolding list_in
get_entities_info_by_topic p ret_of allocator_valid type topic_name c =
    if not allocator_valid then (RmwRet.invalid_argument, none) else elim type [
      | EntityType.publisher ↦
          list_in p (topic_setters p) ret_of EntityType.publisher pubs_of topic_name c.graph_topics
      | EntityType.subscription ↦
          list_in p (topic_setters p) ret_of EntityType.subscription subs_of topic_name
            c.graph_topics
      | _ ↦ (RmwRet.invalid_argument, none)
    ]

unfoldable pub get_entities_info_by_service :
    Parsers
    → (ℕ → RmwRet)
    → Bool
    → EntityType
    → Bytes
    → GraphCache
    → RmwRet × Option (List EndpointInfo)
unfolding list_in
get_entities_info_by_service p ret_of allocator_valid type service_name c =
    if not allocator_valid then (RmwRet.invalid_argument, none) else elim type [
      | EntityType.client ↦
          list_in p (service_setters p) ret_of EntityType.client pubs_of service_name
            c.graph_services
      | EntityType.service ↦
          list_in p (service_setters p) ret_of EntityType.service subs_of service_name
            c.graph_services
      | _ ↦ (RmwRet.invalid_argument, none)
    ]
