-- ===== src/Graph/Count/Matched.antt =====
-- The matched endpoints that detail/graph_cache.cpp counts with rmw_qos_profile_check_compatible of
-- rmw_zenoh_cpp/src/rmw_qos.cpp.
use rmw_zenoh.Common.{ℕ, ◌+◌, ◌^◌, ◌<◌, ◌≡◌, [], ◌∷◌, some, length, arith}
use rmw_zenoh.Qos.{QosProfile}
use rmw_zenoh.Qos.Compatible.{are_compatible, are_compatible_lem}
use rmw_zenoh.Liveliness.{TopicInfo}
use rmw_zenoh.Graph.{EntitySet, TopicData, TopicQosMap}
use rmw_zenoh.Graph.Topics.{qos_entries}
use rmw_zenoh.Graph.Nodes.{GraphCache}
use rmw_zenoh.Graph.Count.{
  count_matched, matched_in, subs_of, pubs_of, publisher_count_matched_subscriptions,
  subscription_count_matched_publishers,
}
use rmw_zenoh.Graph.Count.Laws.{total_qos, is_empty-length}

count_matched_lem :
    (side : TopicData → EntitySet) (qos : QosProfile) (n : ℕ) (m : TopicQosMap)
    → n + total_qos side m < 2 ^ 64
    → count_matched are_compatible side qos n m ≡ n + total_qos side m
unfolding count_matched
count_matched_lem side qos n [] fits = omega arith
count_matched_lem side qos n ((q, topic) ∷ m) fits = ground (
  arith,
  are_compatible_lem qos topic.info.qos,
  is_empty-length (side topic),
  count_matched_lem side qos (n + length (side topic)) m,
)

-- A publisher matches all subscriptions of its topic and type whatever their profiles, and a
-- subscription all publishers, when there are fewer than 2 ^ 64.
pub count_matched-all :
    (info : TopicInfo) (c : GraphCache) (qoss : TopicQosMap)
    → qos_entries info c.graph_topics ≡ some qoss
    → total_qos subs_of qoss < 2 ^ 64
    → total_qos pubs_of qoss < 2 ^ 64
    → (publisher_count_matched_subscriptions are_compatible info c ≡ total_qos subs_of qoss)
      × (subscription_count_matched_publishers are_compatible info c ≡ total_qos pubs_of qoss)
unfolding publisher_count_matched_subscriptions subscription_count_matched_publishers matched_in
count_matched-all info c qoss f subs pubs = (
  ground (arith, f, count_matched_lem subs_of info.qos 0 qoss (omega (arith, subs))),
  ground (arith, f, count_matched_lem pubs_of info.qos 0 qoss (omega (arith, pubs))),
)
