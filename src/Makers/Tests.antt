-- ===== src/Makers/Tests.antt =====
-- Examples of the functions `make` of endpoints.
use rmw_zenoh.Common.{◌≡◌, refl, List, [], ◌∷◌, Option, none, some, ◌++◌, true, false}
use rmw_zenoh.Common.Text.{Bytes, codes, to_string}
use rmw_zenoh.Qos.{QosProfile, Durability, Reliability, best_available_qos, is_supported, adapted}
use rmw_zenoh.Liveliness.{EntityType, make_topic_info}
use rmw_zenoh.Liveliness.Entity.{Entity, make, make_entity}
use rmw_zenoh.Publisher.{new_publisher}
use rmw_zenoh.Services.Service.{ServiceData, make_service}
use rmw_zenoh.Services.Service.Run.{Call, Seen, arrive, take_next, shut_down, run}
use rmw_zenoh.Services.Service.WellFormed.{IsWellFormed}
use rmw_zenoh.Makers.{
  Description, make_endpoint, before_last, response_suffix, make_service_data, make_publisher_data,
  publisher_options, subscriber_options, new_subscription, make_subscription_data,
}
use rmw_zenoh.Makers.Agreement.{Agree, make-Agree}
use rmw_zenoh.Makers.Services.{make_service_data-run}
use rmw_zenoh.Subscription.Session.{init}
use rmw_zenoh.Graph.Events.{GraphEvents}
use rmw_zenoh.Samples.{rmw, hashes, qos, node_info, codec}

abbrev late_qos : QosProfile
late_qos = record qos {
  durability = Durability.transient_local;
  reliability = Reliability.reliable;
}

abbrev chatter : Description
chatter = record {
  zid = codes "z1";
  node_id = 0;
  endpoint_id = 1;
  node_info = node_info;
  name = codes "/chatter";
  type_name = codes "String";
  type_hash = some (codes "h");
  qos = late_qos;
}

abbrev adder : Description
adder = record chatter { name = codes "/add"; type_name = codes "Add" ++ response_suffix }

abbrev entity_of : EntityType → Bytes → Bytes → Entity
entity_of type name type_name =
    make_entity rmw hashes (codes "z1") (codes "0") (codes "1") type node_info
      (some (make_topic_info 3 name type_name (codes "h") late_qos))

publisher_made :
    make_publisher_data rmw hashes true true chatter
    ≡ some (
      entity_of EntityType.publisher (codes "/chatter") (codes "String"),
      (
        publisher_options late_qos,
        new_publisher (entity_of EntityType.publisher (codes "/chatter") (codes "String")).gid,
      ),
    )
unfolding make_publisher_data make_endpoint make best_available_qos is_supported adapted to_string
publisher_made = refl

abbrev no_events : GraphEvents
no_events = record { event_callbacks = []; unregistered = []; log = [] }

abbrev subscriber_entity : Entity
subscriber_entity = entity_of EntityType.subscription (codes "/chatter") (codes "String")

subscription_made :
    make_subscription_data rmw hashes false true true true no_events chatter
    ≡ some (
      subscriber_entity,
      (
        subscriber_options false late_qos,
        (init true true true (new_subscription late_qos subscriber_entity no_events)).0,
      ),
    )
unfolding make_subscription_data make_endpoint make best_available_qos is_supported adapted
    to_string init
subscription_made = refl

make-Agree_example : Agree (publisher_options late_qos) (subscriber_options false late_qos)
make-Agree_example =
    make-Agree rmw hashes true true false true true true no_events chatter chatter
      (entity_of EntityType.publisher (codes "/chatter") (codes "String")) subscriber_entity
      (publisher_options late_qos)
      (new_publisher (entity_of EntityType.publisher (codes "/chatter") (codes "String")).gid)
      (subscriber_options false late_qos)
      (init true true true (new_subscription late_qos subscriber_entity no_events)).0 refl
      publisher_made subscription_made

abbrev server : Entity
server = entity_of EntityType.service (codes "/add") (codes "Add")

service_made :
    make_service_data rmw hashes true true true adder
    ≡ some (server, make_service late_qos.history late_qos.depth)
unfolding make_service_data make_endpoint make best_available_qos is_supported adapted to_string
    before_last
service_made = refl

abbrev caller : Entity
caller = entity_of EntityType.client (codes "/add") (codes "Add")

abbrev read_all : Bytes → Option Bytes
read_all bytes = some bytes

abbrev calls : List Call
calls =
    arrive (record { query = 5; payload = some []; attachment = none; received_timestamp = 3 })
    ∷ take_next
    ∷ shut_down true true
    ∷ []

make_service_data-run_example :
    (result : ServiceData × List Seen) × (run codec hashes read_all calls
        (make_service late_qos.history late_qos.depth)
      ≡ some result)
    × IsWellFormed result.0
make_service_data-run_example =
    make_service_data-run codec read_all calls rmw hashes true true true adder server
      (make_service late_qos.history late_qos.depth) service_made
