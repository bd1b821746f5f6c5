-- ===== src/Graph/Endpoints/Tests.antt =====
-- Examples of the tables and lists of detail/graph_cache.cpp.
use rmw_zenoh.Common.{ℕ, ◌≡◌, refl, true, [], ◌∷◌, none, some, ◌==◌, nat_eq, if◌then◌else◌}
use rmw_zenoh.Common.Text.{Bytes, codes, bytes_eq}
use rmw_zenoh.Common.Map.{find}
use rmw_zenoh.Qos.{RmwRet}
use rmw_zenoh.Liveliness.Profile.{qos_to_keyexpr}
use rmw_zenoh.Graph.{TopicTypeMap, TopicMap}
use rmw_zenoh.Graph.Nodes.{GraphNode, GraphCache, new_cache}
use rmw_zenoh.Graph.Names.{demangle_if_ros_type, NodeChecks, find_named, check_node_arguments}
use rmw_zenoh.Graph.Endpoints.{Parsers}
use rmw_zenoh.Samples.{rmw, topic_info, publisher, subscription}

abbrev replace : Bytes → Bytes
replace s = codes "ns/"

demangled : demangle_if_ros_type replace (codes "ns::dds_::String_") ≡ codes "ns/String"
unfolding demangle_if_ros_type
demangled = refl

not_mangled : demangle_if_ros_type replace (codes "ns::String_") ≡ codes "ns::String_"
unfolding demangle_if_ros_type
not_mangled = refl

abbrev parsers : Parsers
parsers = record { replace = replace; parse_type_hash = λ s. none }

abbrev types : TopicTypeMap
types =
    (
      topic_info.type,
      (
        qos_to_keyexpr rmw topic_info.qos,
        record { info = topic_info; pubs = publisher ∷ []; subs = subscription ∷ [] },
      )
          ∷ [],
    )
    ∷ []

abbrev topics : TopicMap
topics = (topic_info.name, types) ∷ []

abbrev node : GraphNode
node = record {
  zid = codes "z1";
  nid = codes "0";
  ns = codes "/";
  name = codes "talker";
  enclave = codes "/";
  pubs = topics;
  subs = [];
  clients = [];
  services = [];
}

abbrev cache : GraphCache
cache = record (new_cache (codes "z1")) {
  graph = (codes "/", (codes "talker", node) ∷ []) ∷ [];
  graph_topics = topics;
  graph_services = topics;
}

-- The seventh call fails.
abbrev answers : ℕ → RmwRet
answers n = if n == 6 then RmwRet.bad_alloc else RmwRet.ok

abbrev checks : NodeChecks
checks = record {
  allocator_valid = true;
  name_ret = RmwRet.ok;
  name_valid = true;
  namespace_ret = RmwRet.ok;
  namespace_valid = true;
  zero_ret = RmwRet.ok;
}

pass : check_node_arguments checks ≡ RmwRet.ok
unfolding check_node_arguments
pass = refl

found : find_named (codes "/") (codes "talker") cache ≡ some node
unfolding find_named find
found = refl
