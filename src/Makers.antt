-- ===== src/Makers.antt =====
-- The functions that make publishers, subscriptions, services and clients: `make` of
-- detail/rmw_publisher_data.cpp, detail/rmw_subscription_data.cpp, detail/rmw_service_data.cpp and
-- detail/rmw_client_data.cpp. The text of a type hash, `none` when it cannot be allocated, and what the
-- Zenoh session answers are arguments.
pub mod Services
pub mod Agreement
mod Tests
use rmw_zenoh.Common.{
  ℕ, ◌-◌, ◌^◌, Bool, true, false, not, ◌&&◌, List, [], ◌∷◌, Option, none, some, ◌>>=◌,
  if◌then◌else◌,
}
use rmw_zenoh.Common.Text.{Bytes, codes, to_string}
use rmw_zenoh.Qos.{Rmw, RmwRet, QosProfile, History, Reliability, Durability, best_available_qos}
use rmw_zenoh.Liveliness.{EntityType, NodeInfo, TopicInfo, make_topic_info}
use rmw_zenoh.Liveliness.Gid.{Hashes}
use rmw_zenoh.Liveliness.Entity.{Entity, make}
use rmw_zenoh.Graph.Names.{starts_with}
use rmw_zenoh.Graph.Events.{GraphEvents}
use rmw_zenoh.Event.{init_manager}
use rmw_zenoh.Subscription.Session.{Subscriber, init}
use rmw_zenoh.Publisher.{PublisherData, new_publisher}
use rmw_zenoh.Services.Service.{ServiceData, make_service}
use rmw_zenoh.Services.Client.{ClientData, new_client}

-- What is given of an endpoint: the session, the numbers of node and endpoint, the node, the name of
-- the topic or service, the name of its type, the text of the type's hash, and the profile.
pub record Description : Type 0 where
  pub zid : Bytes
  pub node_id : ℕ
  pub endpoint_id : ℕ
  pub node_info : NodeInfo
  pub name : Bytes
  pub type_name : Bytes
  pub type_hash : Option Bytes
  pub qos : QosProfile

-- The profile, when it is supported.
abbrev pub adapted_profile : Rmw → QosProfile → Option QosProfile
adapted_profile r q =
    let (ret, q') = best_available_qos r q in elim ret [ RmwRet.ok ↦ some q' | _ ↦ none ]

-- A null pointer unless all goes well.
abbrev pub provided {ℓ} : {A : Type ℓ} → Bool → A → Option A
provided true a = some a
provided false a = none

-- The entity with its token, for the type that the token says; the steps that all four functions share.
unfoldable pub make_endpoint :
    Rmw → Hashes → EntityType → Bytes → Description → Option (Entity × QosProfile)
make_endpoint r h type type_name d = do
  qos ← adapted_profile r d.qos
  hash ← d.type_hash
  entity ←
      make r h d.zid (to_string d.node_id) (to_string d.endpoint_id) type d.node_info
        (some (make_topic_info d.node_info.domain_id d.name type_name hash qos))
  some (entity, qos)

-- `rfind` and `substr`: the text in front of the last occurrence of a text.
unfoldable pub before_last : Bytes → Bytes → Option Bytes
before_last sub [] = none
before_last sub (c ∷ s) = elim (before_last sub s) [
  | some front ↦ some (c ∷ front)
  | none ↦ if starts_with sub (c ∷ s) then some [] else none
]

abbrev pub response_suffix : Bytes
response_suffix = codes "Response_"

abbrev pub request_suffix : Bytes
request_suffix = codes "Request_"

-- `ServiceData::make`; the answers are those to the key expression, the queryable and the token.
unfoldable pub make_service_data :
    Rmw → Hashes → Bool → Bool → Bool → Description → Option (Entity × ServiceData)
unfolding make_endpoint before_last
make_service_data r h keyexpr_ok qable_ok token_ok d = do
  service_type ← before_last response_suffix d.type_name
  (entity, qos) ← make_endpoint r h EntityType.service service_type d
  provided (keyexpr_ok && (qable_ok && token_ok)) (entity, make_service qos.history qos.depth)

-- `ClientData::make` with the constructor, where a token that cannot be declared is an exception, here
-- `none` too.
unfoldable pub make_client_data : Rmw → Hashes → Bool → Description → Option (Entity × ClientData)
unfolding make_endpoint before_last
make_client_data r h token_ok d = do
  service_type ← before_last request_suffix d.type_name
  (entity, qos) ← make_endpoint r h EntityType.client service_type d
  provided token_ok (entity, new_client qos.history qos.depth entity.gid)

-- `AdvancedPublisherOptions` as far as `PublisherData::make` sets them: `cache` with its
-- `max_samples`, the heartbeat of the detection of missed samples in milliseconds, and whether the
-- congestion control is BLOCK and the reliability RELIABLE.
pub record PublisherOptions : Type 0 where
  pub publisher_detection : Bool
  pub cache : Option ℕ
  pub sample_miss_detection : Option ℕ
  pub blocks : Bool
  pub reliable : Bool

abbrev pub is_transient_local : Durability → Bool
is_transient_local Durability.transient_local = true
is_transient_local _ = false

abbrev pub is_reliable : Reliability → Bool
is_reliable Reliability.reliable = true
is_reliable _ = false

abbrev pub keeps_all : History → Bool
keeps_all History.keep_all = true
keeps_all _ = false

-- `SAMPLE_MISS_DETECTION_HEARTBEAT_PERIOD`
abbrev pub heartbeat_period : ℕ
heartbeat_period = 500

unfoldable pub publisher_options : QosProfile → PublisherOptions
publisher_options q =
    let transient_local = is_transient_local q.durability in
    let reliable = is_reliable q.reliability in
    record {
      publisher_detection = transient_local;
      cache = if transient_local then some q.depth else none;
      sample_miss_detection = if transient_local && reliable then some heartbeat_period else none;
      blocks = reliable && keeps_all q.history;
      reliable = reliable;
    }

-- `PublisherData::make`; the answers are those to the publisher and the token.
unfoldable pub make_publisher_data :
    Rmw → Hashes → Bool → Bool → Description → Option (Entity × (PublisherOptions × PublisherData))
unfolding make_endpoint publisher_options
make_publisher_data r h pub_ok token_ok d = do
  (entity, qos) ← make_endpoint r h EntityType.publisher d.type_name d
  provided (pub_ok && token_ok) (entity, (publisher_options qos, new_publisher entity.gid))

-- `AdvancedSubscriberOptions` as far as `SubscriptionData::init` sets them.
pub record SubscriberOptions : Type 0 where
  pub remote_only : Bool
  pub subscriber_detection : Bool
  pub query_timeout_ms : Option ℕ
  -- `max_samples` of the history, with the detection of late publishers
  pub history : Option ℕ
  pub recovery : Bool

unfoldable pub subscriber_options : Bool → QosProfile → SubscriberOptions
subscriber_options ignore_local_publications q =
    let transient_local = is_transient_local q.durability in
    record {
      remote_only = ignore_local_publications;
      subscriber_detection = transient_local;
      query_timeout_ms = if transient_local then some (2 ^ 64 - 1) else none;
      history = if transient_local then some q.depth else none;
      recovery = transient_local && is_reliable q.reliability;
    }

-- The constructor `SubscriptionData::SubscriptionData`, with the graph cache's events.
unfoldable pub new_subscription : QosProfile → Entity → GraphEvents → Subscriber
new_subscription qos entity events = record {
  sub_data = record {
    history = qos.history;
    depth = qos.depth;
    message_queue = [];
    last_known_published_msg = [];
    reception_sn = 0;
    wait_set_data = none;
    data_callback_mgr = record { callback = none; unread_count = 0 };
    events_mgr = init_manager;
    is_shutdown = false;
  };
  gid_hash = entity.gid_hash;
  initialized = false;
  token_declared = false;
  sub_declared = false;
  graph_events = events;
}

-- `SubscriptionData::make`; the answers are those in `init`.
unfoldable pub make_subscription_data :
    Rmw
    → Hashes
    → Bool
    → Bool
    → Bool
    → Bool
    → GraphEvents
    → Description
    → Option (Entity × (SubscriberOptions × Subscriber))
unfolding make_endpoint new_subscription subscriber_options
make_subscription_data r h ignore_local keyexpr_ok sub_ok token_ok events d = do
  (entity, qos) ← make_endpoint r h EntityType.subscription d.type_name d
  let (s, initialized) = init keyexpr_ok sub_ok token_ok (new_subscription qos entity events)
  provided initialized (entity, (subscriber_options ignore_local qos, s))
