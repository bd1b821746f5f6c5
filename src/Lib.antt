-- ===== src/Lib.antt =====
-- The ROS 2 middleware over Zenoh: rmw_zenoh_cpp.
--
-- A session announces each of its nodes, publishers, subscriptions, services and clients by a
-- liveliness token, a text that says what the entity is. Every other session parses the tokens that
-- appear and go and keeps the graph of all entities in a cache. When the graph changes, the cache
-- reports matched events to the endpoints of its own session, which count them, tell them to a user's
-- callback and wake wait sets. A subscription keeps the messages that arrive in a queue, from which they
-- are taken; buffers for outgoing messages come from a pool. A publisher numbers its messages in an
-- attachment, by which a subscription knows what it has lost. A client numbers its requests in the same
-- way; a service keeps each request that it has taken under the client and the number until it is
-- answered, and the client takes the reply from a queue of its own. rmw_wait asks all of these for data
-- and sleeps until one notifies its wait set. A node keeps the endpoints that the user has made in it,
-- and the context of the session the nodes.
--
-- Which file models what (paths below rmw_zenoh_cpp/src/detail):
--   Qos, Qos/Adapt            qos.cpp: the defaults and QoS::best_available_qos. Qos/Compatible is
--                             rmw_zenoh_cpp/src/rmw_qos.cpp.
--   Liveliness                liveliness_utils.cpp: NodeInfo, TopicInfo, mangle_name, demangle_name.
--   Liveliness/Split          split_keyexpr. Liveliness/Policies has the tables of policies.
--   Liveliness/Profile        str_to_size_t, qos_to_keyexpr and keyexpr_to_qos.
--   Liveliness/Gid            the gid of an entity and hash_gid.
--   Liveliness/Entity         the constructor of Entity (make_entity, print_token) and the two functions
--                             Entity::make (make from data, make_from_keyexpr from a token).
--   Event                     event.cpp: DataCallbackManager and EventsManager.
--   Graph                     graph_cache.cpp: TopicData.
--   Graph/Events              update_event_counters, set_qos_event_callback and the reports of matched
--                             entities.
--   Graph/Topics              update_topic_map_for_put, update_topic_map_for_del and
--                             remove_topic_map_from_cache; Graph/Topics/Members says which entities
--                             the maps then hold.
--   Graph/Nodes               GraphCache, parse_put and parse_del; Graph/Nodes/Reach has the relation
--                             of the caches that a session can reach, Graph/Nodes/Names get_node_names.
--   Graph/Count               the counts and service_server_is_available. Graph/Count/Matched
--                             takes them with rmw_qos.cpp.
--   Graph/Names               the tables of names and types; Graph/Endpoints the lists of endpoints.
--   Buffers                   zenoh_utils.cpp: BufferPool.
--   Subscription              rmw_subscription_data.cpp: the queue of messages, from add_new_message to
--                             take_one_message and take_serialized_message.
--   Subscription/Session      the callback for a sample, init and shutdown.
--   Attachments               attachment_helpers.cpp: AttachmentData.
--   Publisher                 rmw_publisher_data.cpp: publish, publish_serialized_message and shutdown;
--                             Publisher/Delivery joins it to Subscription.
--   Services                  what services and clients share. Services/Service is
--                             rmw_service_data.cpp, with the calls as a sequence in
--                             Services/Service/Run; Services/Client is rmw_client_data.cpp, and
--                             Services/Client/Exchange joins the two.
--   Makers                    the functions make of the four kinds of endpoints; Makers/Agreement has what
--                             publishers and subscriptions agree on, Makers/Services services and
--                             clients.
--   Nodes                     rmw_node_data.cpp; Nodes/Run has its calls as a sequence,
--                             Nodes/Endpoints compares its maps with functions.
--   Contexts                  rmw_context_impl_s.cpp: the nodes of a session, their numbers, and the graph
--                             cache that liveliness tokens change; Contexts/Heard has the tokens that
--                             a context hears.
--   WaitSets                  guard_condition.cpp, and the loops of rmw_wait over entities of one kind;
--                             WaitSets/Kinds has the kinds, WaitSets/Wait is rmw_wait of
--                             rmw_zenoh_cpp/src/rmw_zenoh.cpp, with the flag of rmw_wait_set_data.hpp.
--   Common                    tests, lists, texts, integers and maps that these share.
--   Samples                   data for the examples, which stand in the modules named Tests.
--
-- How the code corresponds to the model. A class is a record, a method a function from the record and
-- the arguments to the new record and what is returned; each method that holds a mutex is one step, so
-- that an interleaving is a sequence of steps. Two methods take mutexes one after another and are single
-- steps here: EventsManager::update_event_status, whose three sections have names of their own in Event,
-- and the checks of rmw_wait. A text is a list of bytes. `size_t` is a number whose
-- wrap-around at 2 ^ 64 is written out; `int32_t` is an integer, since its overflow has no defined
-- behaviour. An ordered map is an association list in the order of its keys, an unordered map one in
-- the order of insertion, and a set of entities is a list without a second entity of one hash. An
-- exception that leaves a function is a value of its own. All functions are by structural recursion, so
-- no fuel is needed. Calls of callbacks, of which only the identity matters, are kept in a list.
--
-- Parameters are what the repository does not have: the numbers and constants of rmw/types.h (`Rmw`),
-- the names that rcpputils, rosidl and rmw parse and check, the hash functions
-- (`Hashes`; simplified_xxhash3.cpp is a copy of a part of xxHash), the serializer of zenoh-cpp (`Codec`), the deserialization of the type support, and the answers of
-- the allocator and of the Zenoh session.
--
-- Not modelled: the Zenoh library and everything that is mostly calls of it, how a context reads its configuration and sets up shared
-- memory, the rmw functions but rmw_wait and rmw_qos_profile_check_compatible, serialization,
-- configuration, logging, the router and the security tools.
pub mod Common
pub mod Qos
pub mod Liveliness
pub mod Event
pub mod Graph
pub mod Buffers
pub mod Subscription
pub mod Samples
pub mod Attachments
pub mod Contexts
pub mod Makers
pub mod Nodes
pub mod Publisher
pub mod Services
pub mod WaitSets
