-- ===== src/Contexts/Tests.antt =====
-- Examples of detail/rmw_context_impl_s.cpp.
use rmw_zenoh.Common.{◌≡◌, refl, ap, true, false, List, [], ◌∷◌, none, some, arith, nat_eq}
use rmw_zenoh.Common.Text.{codes, to_string}
use rmw_zenoh.Common.Map.{find, erase}
use rmw_zenoh.Liveliness.{EntityType}
use rmw_zenoh.Liveliness.Entity.{Entity, parsed, make_from_keyexpr, make, make_entity}
use rmw_zenoh.Liveliness.Entity.Parts.{IsNode}
use rmw_zenoh.Liveliness.Entity.RoundTrip.{make_from_keyexpr-node}
use rmw_zenoh.Graph.Nodes.{GraphCache, new_cache, put_entity, parse_put, parse_with}
use rmw_zenoh.Graph.Nodes.Reach.{Reach}
use rmw_zenoh.Nodes.{NodeData, make_node}
use rmw_zenoh.WaitSets.{new_guard_condition}
use rmw_zenoh.Contexts.{
  put, Context, make_context, put_replies, other, update_graph_cache, create_node_data, insert_node,
  make_next_node, get_next_entity_id, delete_node_data, shutdown,
}
use rmw_zenoh.Contexts.Numbers.{
  Call, next_id, create, remove, sample, shut_down, step, run, IsNumbered, run-IsNumbered,
}
use rmw_zenoh.Contexts.Heard.{appeared, hear_all}
use rmw_zenoh.Contexts.Discovery.{make_context-hears}
use rmw_zenoh.Samples.{rmw, hashes, node_info}

-- A node of another session, which is there before the context is.
abbrev listener : Entity
listener =
    make_entity rmw hashes (codes "z2") (codes "0") (codes "0") EntityType.node node_info none

node_info-IsNode : IsNode node_info
node_info-IsNode = record {
  domain_id = omega arith;
  ns = ground arith;
  name = ground arith;
  enclave = ground arith;
}

listener_parsed : make_from_keyexpr rmw hashes listener.liveliness_keyexpr ≡ parsed listener
listener_parsed =
    make_from_keyexpr-node rmw hashes (codes "z2") (codes "0") (codes "0") node_info (ground arith)
      node_info-IsNode

abbrev cache : GraphCache
cache = put_entity rmw listener (new_cache (codes "z1"))

listener_put :
    parse_put rmw hashes listener.liveliness_keyexpr true (new_cache (codes "z1")) ≡ some cache
unfolding parse_put parse_with make_entity
listener_put = ap (λ p. parse_with (put_entity rmw) true p (new_cache (codes "z1"))) listener_parsed

abbrev context : Context
context = record {
  domain_id = 3;
  enclave = codes "/";
  session = some (codes "z1");
  graph_cache = cache;
  graph_subscriber = true;
  guard_condition_data = new_guard_condition;
  is_shutdown = false;
  next_entity_id = 0;
  nodes = [];
}

made :
    make_context rmw hashes 3
      (codes "/")
      (codes "z1")
      (none ∷ some listener.liveliness_keyexpr ∷ [])
    ≡ some context
unfolding make_context put_replies
made = ground (arith, listener_put)

abbrev calls : List Call
calls =
    create false true 1 (codes "/") (codes "talker")
    ∷ next_id
    ∷ create false true 2 (codes "/") (codes "talker")
    ∷ remove 1
    ∷ sample other (codes "x")
    ∷ shut_down true
    ∷ sample put (codes "y")
    ∷ []

abbrev node : NodeData
node = record {
  id = 2;
  entity =
      make_entity rmw hashes (codes "z1") (codes "2") (codes "2") EntityType.node node_info none;
  token_declared = true;
  is_shutdown = false;
  pubs = [];
  subs = [];
  services = [];
  clients = [];
}

abbrev left : Context
left = record context {
  session = none;
  graph_subscriber = false;
  is_shutdown = true;
  next_entity_id = 3;
  nodes = (2, node) ∷ [];
}

ran : run rmw hashes calls context ≡ some left
unfolding run step create_node_data insert_node make_next_node get_next_entity_id delete_node_data
    update_graph_cache shutdown make_node make find erase to_string
ran = refl

run-IsNumbered_example : IsNumbered left
run-IsNumbered_example =
    run-IsNumbered rmw hashes calls context left (omega arith) (omega arith) ran

make_context-hears_example :
    hear_all rmw hashes (appeared true listener.liveliness_keyexpr ∷ []) (new_cache (codes "z1"))
      ≡ some left.graph_cache
    × Reach rmw hashes (codes "z1") left.graph_cache
make_context-hears_example =
    make_context-hears rmw hashes 3 (codes "/") (codes "z1")
      (none ∷ some listener.liveliness_keyexpr ∷ []) calls context left made ran
