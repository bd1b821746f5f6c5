-- ===== src/Nodes/Run.antt =====
-- The calls of a node in a sequence: the methods of detail/rmw_node_data.cpp, and the same calls on a
-- node whose maps are functions.
use rmw_zenoh.Common.{
  ℕ, ◌≡◌, Bool, true, false, not, ◌&&◌, ◌||◌, List, [], ◌∷◌, Option, none, arith, nat_eq, ◌==◌,
  if◌then◌else◌,
}
use rmw_zenoh.Qos.{RmwRet}
use rmw_zenoh.Subscription.Session.{Subscriber}
use rmw_zenoh.Publisher.{PublisherData}
use rmw_zenoh.Services.Service.{ServiceData}
use rmw_zenoh.Services.Client.{ClientData}
use rmw_zenoh.Liveliness.Entity.{has_value}
use rmw_zenoh.Nodes.{
  NodeData, create_pub_data, delete_pub_data, create_sub_data, delete_sub_data, create_service_data,
  delete_service_data, create_client_data, delete_client_data, shutdown,
}

pub data Call : Type 0 where
  create_pub : ℕ → Option PublisherData → Call
  delete_pub : ℕ → Call
  create_sub : ℕ → Option Subscriber → Call
  delete_sub : ℕ → Call
  create_service : ℕ → Option ServiceData → Call
  delete_service : ℕ → Call
  create_client : ℕ → Option ClientData → Call
  delete_client : ℕ → Call
  shut_down : Bool → Call

abbrev pub is_ok : RmwRet → Bool
is_ok RmwRet.ok = true
is_ok _ = false

-- A call of a method, with whether it succeeded.
unfoldable pub step : Call → NodeData → NodeData × Bool
unfolding create_pub_data delete_pub_data create_sub_data delete_sub_data create_service_data
    delete_service_data create_client_data delete_client_data shutdown
step (Call.create_pub k made) n = create_pub_data k made n
step (Call.delete_pub k) n = (delete_pub_data k n, true)
step (Call.create_sub k made) n = create_sub_data k made n
step (Call.delete_sub k) n = (delete_sub_data k n, true)
step (Call.create_service k made) n = create_service_data k made n
step (Call.delete_service k) n = (delete_service_data k n, true)
step (Call.create_client k made) n = create_client_data k made n
step (Call.delete_client k) n = (delete_client_data k n, true)
step (Call.shut_down token_ok) n = let (n', ret) = shutdown token_ok n in (n', is_ok ret)

unfoldable pub run : List Call → NodeData → NodeData × List Bool
unfolding step
run [] n = (n, [])
run (c ∷ cs) n = let (n', b) = step c n in let (last, bs) = run cs n' in (last, b ∷ bs)

-- A node as a flag and four partial functions.
pub record AbstractNode : Type 0 where
  pub is_shutdown : Bool
  pub pubs : ℕ → Option PublisherData
  pub subs : ℕ → Option Subscriber
  pub services : ℕ → Option ServiceData
  pub clients : ℕ → Option ClientData

-- An entry is made where there is none, in a node that is not shut down.
abbrev pub may_create : {D : Type 0} → Bool → ℕ → Option D → (ℕ → Option D) → Bool
may_create is_shutdown k made f = not is_shutdown && (not (has_value (f k)) && has_value made)

abbrev pub override : {D : Type 0} → Bool → ℕ → Option D → (ℕ → Option D) → ℕ → Option D
override changes k d f j = if changes && j == k then d else f j

unfoldable pub abstract_step : Call → AbstractNode → AbstractNode × Bool
abstract_step (Call.create_pub k made) a =
    let created = may_create a.is_shutdown k made a.pubs in
    (record a { pubs = override created k made a.pubs }, created)
abstract_step (Call.delete_pub k) a = (record a { pubs = override true k none a.pubs }, true)
abstract_step (Call.create_sub k made) a =
    let created = may_create a.is_shutdown k made a.subs in
    (record a { subs = override created k made a.subs }, created)
abstract_step (Call.delete_sub k) a = (record a { subs = override true k none a.subs }, true)
abstract_step (Call.create_service k made) a =
    let created = may_create a.is_shutdown k made a.services in
    (record a { services = override created k made a.services }, created)
abstract_step (Call.delete_service k) a =
    (record a { services = override true k none a.services }, true)
abstract_step (Call.create_client k made) a =
    let created = may_create a.is_shutdown k made a.clients in
    (record a { clients = override created k made a.clients }, created)
abstract_step (Call.delete_client k) a =
    (record a { clients = override true k none a.clients }, true)
abstract_step (Call.shut_down token_ok) a =
    let done = a.is_shutdown || token_ok in (record a { is_shutdown = done }, done)

unfoldable pub abstract_run : List Call → AbstractNode → AbstractNode × List Bool
unfolding abstract_step
abstract_run [] a = (a, [])
abstract_run (c ∷ cs) a =
    let (a', b) = abstract_step c a in let (last, bs) = abstract_run cs a' in (last, b ∷ bs)

abbrev pub empty_node : AbstractNode
empty_node = record {
  is_shutdown = false;
  pubs = λ _. none;
  subs = λ _. none;
  services = λ _. none;
  clients = λ _. none;
}

pub pubs-shutdown : (token_ok : Bool) (n : NodeData) → (shutdown token_ok n).0.pubs ≡ n.pubs
unfolding shutdown
pubs-shutdown token_ok n = ground arith

pub subs-shutdown : (token_ok : Bool) (n : NodeData) → (shutdown token_ok n).0.subs ≡ n.subs
unfolding shutdown
subs-shutdown token_ok n = ground arith

pub services-shutdown :
    (token_ok : Bool) (n : NodeData) → (shutdown token_ok n).0.services ≡ n.services
unfolding shutdown
services-shutdown token_ok n = ground arith

pub clients-shutdown :
    (token_ok : Bool) (n : NodeData) → (shutdown token_ok n).0.clients ≡ n.clients
unfolding shutdown
clients-shutdown token_ok n = ground arith
