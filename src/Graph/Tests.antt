-- ===== src/Graph/Tests.antt =====
-- Examples of detail/graph_cache.cpp.
use rmw_zenoh.Common.{
  beq_refl, ◌≡◌, refl, arith, List, [], ◌∷◌, some, true, false, nat_eq, ◌&&◌, ◌==◌, if◌then◌else◌,
}
use rmw_zenoh.Common.Text.{Bytes, codes, bytes_eq}
use rmw_zenoh.Common.Int.{pos, negsuc, ◌+ℤ◌}
use rmw_zenoh.Common.Map.{find}
use rmw_zenoh.Liveliness.Profile.{qos_to_keyexpr}
use rmw_zenoh.Graph.{
  member, TopicData, TopicQosMap, TopicTypeMap, TopicMap, is_entity_local, is_entity_pub,
  is_pub_type,
}
use rmw_zenoh.Graph.Events.{GraphEvents, matched_event, matched_for_put}
use rmw_zenoh.Graph.Events.Conservation.{accounted, EventOp, update, set, remove, run, all_reported}
use rmw_zenoh.Graph.Events.Totals.{run-accounted}
use rmw_zenoh.Graph.Events.Matched.{matched_for_put-own, running_totals}
use rmw_zenoh.Graph.Topics.{
  qos_entries, update_topic_map_for_put, update_topic_map_for_del, has_none,
}
use rmw_zenoh.Graph.Topics.Lookup.{lookup, lookup_type}
use rmw_zenoh.Graph.Topics.Members.{
  IsJoined, IsLeft, update_topic_map_for_put-IsJoined, update_topic_map_for_del-IsLeft,
}
use rmw_zenoh.Graph.Topics.Pruned.{IsPruned}
use rmw_zenoh.Graph.Topics.Restore.{del-put}
use rmw_zenoh.Qos.Compatible.{are_compatible}
use rmw_zenoh.Graph.Count.{
  subs_of, pubs_of, publisher_count_matched_subscriptions, subscription_count_matched_publishers,
  any_server, service_server_is_available,
}
use rmw_zenoh.Graph.Count.Laws.{total_qos}
use rmw_zenoh.Graph.Count.Matched.{count_matched-all}
use rmw_zenoh.Graph.Nodes.{GraphCache, new_cache}
use rmw_zenoh.Samples.{rmw, topic_info, publisher, subscription}

abbrev z : Bytes
z = codes "z1"

abbrev q : Bytes
q = qos_to_keyexpr rmw topic_info.qos

-- One topic, with a subscription.
abbrev subscribed : TopicData
subscribed = record { info = topic_info; pubs = []; subs = subscription ∷ [] }

abbrev types : TopicTypeMap
types = (topic_info.type, (q, subscribed) ∷ []) ∷ []

abbrev topics : TopicMap
topics = (topic_info.name, types) ∷ []

abbrev no_events : GraphEvents
no_events = record { event_callbacks = []; unregistered = []; log = [] }

abbrev cache : GraphCache
cache = record (new_cache z) { graph_topics = topics; graph_services = topics }

topics-IsPruned : IsPruned topics
unfolding has_none
topics-IsPruned = ((refl, ((refl, (refl, tt)), tt)), tt)

update_topic_map_for_put-IsJoined_example :
    let after = (update_topic_map_for_put rmw z true publisher (topics, no_events)).0 in
    IsJoined topic_info publisher
      (lookup topic_info.name topic_info.type q topics)
      (lookup topic_info.name topic_info.type q after)
    × ((n t j : Bytes)
        → lookup n t j after ≡ (
            if n == topic_info.name && (t == topic_info.type && j == q)
            then lookup topic_info.name topic_info.type q after
            else lookup n t j topics))
update_topic_map_for_put-IsJoined_example =
    update_topic_map_for_put-IsJoined rmw z true publisher topic_info topics no_events refl

update_topic_map_for_del-IsLeft_example :
    let after = (update_topic_map_for_del rmw z true subscription (topics, no_events)).0 in
    IsLeft subscription
      (lookup topic_info.name topic_info.type q topics)
      (lookup topic_info.name topic_info.type q after)
    × ((n t j : Bytes)
        → lookup n t j after ≡ (
            if n == topic_info.name && (t == topic_info.type && j == q)
            then lookup topic_info.name topic_info.type q after
            else lookup n t j topics))
update_topic_map_for_del-IsLeft_example =
    update_topic_map_for_del-IsLeft rmw z true subscription topic_info topics no_events refl

publisher_fresh :
    (t : TopicData)
    → lookup topic_info.name topic_info.type (qos_to_keyexpr rmw topic_info.qos) topics ≡ some t
    → member publisher.gid_hash (if is_entity_pub publisher then t.pubs else t.subs) ≡ false
unfolding lookup lookup_type find member is_pub_type
publisher_fresh t h = ground (arith, beq_refl q)

del-put_example :
    (update_topic_map_for_del rmw z false publisher
      ((update_topic_map_for_put rmw z true publisher (topics, no_events)).0, no_events)).0
    ≡ topics
del-put_example =
    del-put rmw z true false publisher topic_info topics no_events no_events refl topics-IsPruned
      publisher_fresh

-- A change before a callback is set, and one behind it.
abbrev ops : List EventOp
ops = update publisher 7 (pos 2) ∷ set 11 7 5 ∷ update publisher 7 (negsuc 0) ∷ remove 11 ∷ []

run-accounted_example :
    accounted 11 7 (run ops no_events) ≡ accounted 11 7 no_events +ℤ all_reported 11 7 ops
run-accounted_example = run-accounted 11 7 ops no_events

abbrev entries : TopicQosMap
entries = (q, subscribed) ∷ (codes "::", subscribed) ∷ []

matched_for_put-own_example :
    accounted publisher.gid_hash
      (matched_event (is_entity_pub publisher))
      (matched_for_put z publisher (pos 0) entries no_events)
    ≡ accounted publisher.gid_hash (matched_event (is_entity_pub publisher)) no_events
      +ℤ pos (running_totals publisher 0 entries)
matched_for_put-own_example =
    matched_for_put-own z publisher 0 entries no_events (unfold is_entity_local in refl)

found : find topic_info.name topics ≡ some types
unfolding find
found = refl

is_available : service_server_is_available topic_info cache ≡ true
unfolding service_server_is_available qos_entries find any_server
is_available = refl

found_entries : qos_entries topic_info topics ≡ some ((q, subscribed) ∷ [])
unfolding qos_entries find
found_entries = refl

count_matched-all_example :
    (publisher_count_matched_subscriptions are_compatible topic_info cache
      ≡ total_qos subs_of ((q, subscribed) ∷ []))
    × (subscription_count_matched_publishers are_compatible topic_info cache
        ≡ total_qos pubs_of ((q, subscribed) ∷ []))
count_matched-all_example =
    count_matched-all topic_info cache ((q, subscribed) ∷ []) found_entries (omega arith)
      (omega arith)
