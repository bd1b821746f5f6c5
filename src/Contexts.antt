-- ===== src/Contexts.antt =====
-- The context of a session: the class `Data` of detail/rmw_context_impl_s.cpp. Each method is one
-- critical section of `mutex_`. What the Zenoh session answers is an argument; `none` of an operation
-- stands for an exception or for the use of a null pointer. The configuration and the shared memory
-- that the constructor sets up are left out.
pub mod Numbers
pub mod Heard
pub mod Discovery
mod Tests
use rmw_zenoh.Common.{
  ℕ, ◌+◌, ◌%◌, ◌^◌, Bool, true, false, not, List, [], ◌∷◌, Option, none, some, nat_eq,
  if◌then◌else◌,
}
use rmw_zenoh.Common.Text.{Bytes, to_string}
use rmw_zenoh.Common.Map.{find, append, erase}
use rmw_zenoh.Qos.{Rmw, RmwRet}
use rmw_zenoh.Event.{Effect}
use rmw_zenoh.Liveliness.{EntityType, NodeInfo}
use rmw_zenoh.Liveliness.Gid.{Hashes}
use rmw_zenoh.Liveliness.Entity.{Entity, make}
use rmw_zenoh.Graph.Nodes.{GraphCache, new_cache, parse_put, parse_del}
use rmw_zenoh.Nodes.{NodeData, make_node}
use rmw_zenoh.WaitSets.{GuardCondition, new_guard_condition, trigger}

-- The zid stands for the session, which shutdown resets.
pub record Context : Type 0 where
  pub domain_id : ℕ
  pub enclave : Bytes
  pub session : Option Bytes
  pub graph_cache : GraphCache
  pub graph_subscriber : Bool
  pub guard_condition_data : GuardCondition
  pub is_shutdown : Bool
  pub next_entity_id : ℕ
  pub nodes : List (ℕ × NodeData)

-- The loop of the constructor over the replies of the session, `none` for an error.
unfoldable pub put_replies : Rmw → Hashes → List (Option Bytes) → GraphCache → Option GraphCache
put_replies r h [] c = some c
put_replies r h (none ∷ replies) c = put_replies r h replies c
put_replies r h (some keyexpr ∷ replies) c = elim (parse_put r h keyexpr true c) [
  | none ↦ none
  | some c' ↦ put_replies r h replies c'
]

-- The constructor, and `init` when the subscriber can be declared.
unfoldable pub make_context :
    Rmw → Hashes → ℕ → Bytes → Bytes → List (Option Bytes) → Option Context
unfolding put_replies
make_context r h domain_id enclave zid replies = elim (put_replies r h replies (new_cache zid)) [
  | none ↦ none
  | some c ↦ some (record {
    domain_id = domain_id;
    enclave = enclave;
    session = some zid;
    graph_cache = c;
    graph_subscriber = true;
    guard_condition_data = new_guard_condition;
    is_shutdown = false;
    next_entity_id = 0;
    nodes = [];
  })
]

unfoldable pub shutdown : Bool → Context → Context × RmwRet
shutdown undeclared c =
    if c.is_shutdown
    then (c, RmwRet.ok)
    else if not undeclared
    then (record c { graph_subscriber = false }, RmwRet.error)
    else (record c { graph_subscriber = false; is_shutdown = true; session = none }, RmwRet.ok)

unfoldable pub get_next_entity_id : Context → Context × ℕ
get_next_entity_id c =
    (record c { next_entity_id = (c.next_entity_id + 1) % 2 ^ 64 }, c.next_entity_id)

-- The answer is that of `is_closed`.
unfoldable pub session_is_valid : Bool → Context → Option Bool
session_is_valid closed c = elim c.session [ none ↦ none | some _ ↦ some (not closed) ]

-- `NodeData::make` for the next number.
unfoldable pub make_next_node :
    Rmw → Hashes → Bool → Bytes → Bytes → Bytes → Context → Option NodeData
make_next_node r h token_ok zid ns name c =
    let id = c.next_entity_id in
    let info : NodeInfo = record {
      domain_id = c.domain_id;
      ns = ns;
      name = name;
      enclave = c.enclave;
    } in
    make_node id (make r h zid (to_string id) (to_string id) EntityType.node info none) token_ok

-- A new node under a pointer, when it could be made.
unfoldable pub insert_node : ℕ → Option NodeData → Context → Context × Bool
insert_node node none c = (c, false)
insert_node node (some node_data) c = (record c { nodes = append node node_data c.nodes }, true)

unfoldable pub create_node_data :
    Rmw → Hashes → Bool → Bool → ℕ → Bytes → Bytes → Context → Option (Context × Bool)
unfolding insert_node make_next_node get_next_entity_id session_is_valid
create_node_data r h closed token_ok node ns name c = elim (find node c.nodes) [
  | some _ ↦ some (c, false)
  | none ↦ elim c.session [
    | none ↦ none
    | some zid ↦
        if closed
        then some (c, false)
        else some
            (insert_node node (make_next_node r h token_ok zid ns name c) (get_next_entity_id c).0)
  ]
]

unfoldable pub get_node_data : ℕ → Context → Option NodeData
get_node_data node c = find node c.nodes

unfoldable pub delete_node_data : ℕ → Context → Context
delete_node_data node c = record c { nodes = erase node c.nodes }

pub data SampleKind : Type 0 where
  put : SampleKind
  delete : SampleKind
  other : SampleKind

-- The cache that was parsed, and the guard condition of the graph triggered.
unfoldable pub graph_changed : Option GraphCache → Context → Option (Context × List Effect)
graph_changed none c = none
graph_changed (some cache) c =
    let (g, notified) = trigger c.guard_condition_data in
    some (record c { graph_cache = cache; guard_condition_data = g }, notified)

unfoldable pub update_graph_cache :
    Rmw → Hashes → SampleKind → Bytes → Context → Option (Context × List Effect)
unfolding graph_changed
update_graph_cache r h kind keystr c = if c.is_shutdown then some (c, []) else elim kind [
  | put ↦ graph_changed (parse_put r h keystr false c.graph_cache) c
  | delete ↦ graph_changed (parse_del r h keystr false c.graph_cache) c
  | other ↦ some (c, [])
]
