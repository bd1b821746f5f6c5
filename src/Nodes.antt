-- ===== src/Nodes.antt =====
-- The endpoints of a node: `NodeData` of detail/rmw_node_data.cpp. Each method is one critical section of
-- `mutex_`. A pointer that the user holds, as `rmw_publisher_t *`, is a number; what the functions
-- `make` of the endpoints return is an argument, `none` for a null pointer.
pub mod Run
pub mod Endpoints
pub mod Unique
mod Tests
use rmw_zenoh.Common.{
  ℕ, Bool, true, false, not, List, [], ◌∷◌, Option, none, some, nat_eq, if◌then◌else◌,
}
use rmw_zenoh.Common.Text.{Bytes}
use rmw_zenoh.Common.Map.{find, append, erase}
use rmw_zenoh.Qos.{Rmw, RmwRet}
use rmw_zenoh.Liveliness.{EntityType, NodeInfo}
use rmw_zenoh.Liveliness.Gid.{Hashes}
use rmw_zenoh.Liveliness.Entity.{Entity}
use rmw_zenoh.Subscription.Session.{Subscriber}
use rmw_zenoh.Publisher.{PublisherData}
use rmw_zenoh.Services.Service.{ServiceData}
use rmw_zenoh.Services.Client.{ClientData}

-- `entity` is the entity that `make` got; the last fields are the unordered maps of endpoints.
pub record NodeData : Type 0 where
  pub id : ℕ
  pub entity : Entity
  pub token_declared : Bool
  pub is_shutdown : Bool
  pub pubs : List (ℕ × PublisherData)
  pub subs : List (ℕ × Subscriber)
  pub services : List (ℕ × ServiceData)
  pub clients : List (ℕ × ClientData)

-- `NodeData::make` from what `Entity::make` gives and whether the token can be declared.
unfoldable pub make_node : ℕ → Option Entity → Bool → Option NodeData
make_node id none token_ok = none
make_node id (some entity) token_ok =
    if not token_ok
    then none
    else some (record {
      id = id;
      entity = entity;
      token_declared = true;
      is_shutdown = false;
      pubs = [];
      subs = [];
      services = [];
      clients = [];
    })

-- What the functions that create an endpoint share: the map with the new entry, when there is none.
unfoldable pub create_entry {ℓ} :
    {D : Type ℓ} → Bool → ℕ → Option D → List (ℕ × D) → List (ℕ × D) × Bool
create_entry is_shutdown key made m = if is_shutdown then (m, false) else elim (find key m) [
  | some _ ↦ (m, false)
  | none ↦ elim made [ none ↦ (m, false) | some d ↦ (append key d m, true) ]
]

unfoldable pub create_pub_data : ℕ → Option PublisherData → NodeData → NodeData × Bool
unfolding create_entry
create_pub_data publisher made n =
    let (m, created) = create_entry n.is_shutdown publisher made n.pubs in
    (record n { pubs = m }, created)

unfoldable pub get_pub_data : ℕ → NodeData → Option PublisherData
get_pub_data publisher n = find publisher n.pubs

unfoldable pub delete_pub_data : ℕ → NodeData → NodeData
delete_pub_data publisher n = record n { pubs = erase publisher n.pubs }

unfoldable pub create_sub_data : ℕ → Option Subscriber → NodeData → NodeData × Bool
unfolding create_entry
create_sub_data subscription made n =
    let (m, created) = create_entry n.is_shutdown subscription made n.subs in
    (record n { subs = m }, created)

unfoldable pub get_sub_data : ℕ → NodeData → Option Subscriber
get_sub_data subscription n = find subscription n.subs

unfoldable pub delete_sub_data : ℕ → NodeData → NodeData
delete_sub_data subscription n = record n { subs = erase subscription n.subs }

unfoldable pub create_service_data : ℕ → Option ServiceData → NodeData → NodeData × Bool
unfolding create_entry
create_service_data service made n =
    let (m, created) = create_entry n.is_shutdown service made n.services in
    (record n { services = m }, created)

unfoldable pub get_service_data : ℕ → NodeData → Option ServiceData
get_service_data service n = find service n.services

unfoldable pub delete_service_data : ℕ → NodeData → NodeData
delete_service_data service n = record n { services = erase service n.services }

unfoldable pub create_client_data : ℕ → Option ClientData → NodeData → NodeData × Bool
unfolding create_entry
create_client_data client made n =
    let (m, created) = create_entry n.is_shutdown client made n.clients in
    (record n { clients = m }, created)

unfoldable pub get_client_data : ℕ → NodeData → Option ClientData
get_client_data client n = find client n.clients

unfoldable pub delete_client_data : ℕ → NodeData → NodeData
delete_client_data client n = record n { clients = erase client n.clients }

-- The session's answer to the undeclaration is an argument.
unfoldable pub shutdown : Bool → NodeData → NodeData × RmwRet
shutdown token_ok n =
    if n.is_shutdown
    then (n, RmwRet.ok)
    else if not token_ok
    then (record n { token_declared = false }, RmwRet.error)
    else (record n { token_declared = false; is_shutdown = true }, RmwRet.ok)
