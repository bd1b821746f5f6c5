-- ===== src/Graph/Nodes/Tests.antt =====
-- Examples of the nodes of detail/graph_cache.cpp.
use rmw_zenoh.Common.{
  ℕ, Bool, true, refl, ◌==◌, if◌then◌else◌, ◌≡◌, ap, arith, none, some, false, nat_eq,
}
use rmw_zenoh.Common.Text.{codes, bytes_eq}
use rmw_zenoh.Common.Map.{find}
use rmw_zenoh.Liveliness.{EntityType, make_topic_info}
use rmw_zenoh.Liveliness.Entity.{Entity, parsed, make_entity, make_from_keyexpr}
use rmw_zenoh.Liveliness.Entity.Parts.{IsNode}
use rmw_zenoh.Liveliness.Entity.RoundTrip.{make_from_keyexpr-node, make_from_keyexpr-endpoint}
use rmw_zenoh.Graph.Nodes.{GraphCache, new_cache, put_entity, add_namespace, parse_put, parse_with}
use rmw_zenoh.Graph.Nodes.Total.{IsCountedCache}
use rmw_zenoh.Graph.Nodes.Reach.{Reach, start, put, Reach-IsCounted}
use rmw_zenoh.Graph.Nodes.Pruned.{IsPrunedCache, Reach-IsPruned}
use rmw_zenoh.Graph.Nodes.Names.{
  Arguments, init, write, fill_nodes, fill_namespaces, get_node_names,
}
use rmw_zenoh.Liveliness.Profile.RoundTrip.{IsSized}
use rmw_zenoh.Qos.{RmwRet}
use rmw_zenoh.Samples.{rmw, rmw-IsDistinct, qos, hashes, node_info}

abbrev node : Entity
node = make_entity rmw hashes (codes "z1") (codes "0") (codes "0") EntityType.node node_info none

node_info-IsNode : IsNode node_info
node_info-IsNode = record {
  domain_id = omega arith;
  ns = ground arith;
  name = ground arith;
  enclave = ground arith;
}

qos-IsSized : IsSized qos
qos-IsSized = record {
  depth = omega arith;
  deadline = (omega arith, omega arith);
  lifespan = (omega arith, omega arith);
  lease = (omega arith, omega arith);
}

node_parsed : make_from_keyexpr rmw hashes node.liveliness_keyexpr ≡ parsed node
node_parsed =
    make_from_keyexpr-node rmw hashes (codes "z1") (codes "0") (codes "0") node_info (ground arith)
      node_info-IsNode

-- The cache of another session after the node has appeared.
abbrev cache : GraphCache
cache = put_entity rmw node (new_cache (codes "z2"))

cache-Reach : Reach rmw hashes (codes "z2") cache
unfolding parse_put parse_with
cache-Reach =
    put (new_cache (codes "z2")) cache node.liveliness_keyexpr false start
      (ap (λ p. parse_with (put_entity rmw) false p (new_cache (codes "z2"))) node_parsed)

abbrev zero_arrays : Arguments
zero_arrays = record {
  names_zero = true;
  namespaces_zero = true;
  enclaves_zero = some true;
  allocator_valid = true;
}

-- The last of the six requests, for the copy of the enclave, is refused.
abbrev but_last : ℕ → Bool
but_last k = if k == 5 then false else true

refused_last : get_node_names but_last zero_arrays cache ≡ some (RmwRet.bad_alloc, none)
unfolding get_node_names init fill_namespaces fill_nodes write put_entity add_namespace find
    make_entity
refused_last = refl

Reach-IsCounted_example : IsCountedCache cache
Reach-IsCounted_example = Reach-IsCounted rmw hashes (codes "z2") cache cache-Reach

abbrev talker : Entity
talker =
    make_entity rmw hashes (codes "z1") (codes "0") (codes "1") EntityType.publisher node_info
      (some (make_topic_info 3 (codes "/chatter") (codes "String") (codes "h") qos))

talker_parsed : make_from_keyexpr rmw hashes talker.liveliness_keyexpr ≡ parsed talker
talker_parsed =
    make_from_keyexpr-endpoint rmw hashes (codes "z1") (codes "0") (codes "1") node_info
      (ground arith) node_info-IsNode EntityType.publisher (ground arith) (codes "/chatter")
      (codes "String") (codes "h") qos rmw-IsDistinct qos-IsSized (ground arith) (ground arith)
      (ground arith)

-- The cache of another session after the publisher has appeared.
abbrev talking : GraphCache
talking = put_entity rmw talker cache

talking-Reach : Reach rmw hashes (codes "z2") talking
unfolding parse_put parse_with
talking-Reach =
    put cache talking talker.liveliness_keyexpr false cache-Reach
      (ap (λ p. parse_with (put_entity rmw) false p cache) talker_parsed)

Reach-IsPruned_example : IsPrunedCache talking
Reach-IsPruned_example = Reach-IsPruned rmw hashes (codes "z2") talking talking-Reach
