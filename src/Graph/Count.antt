-- ===== src/Graph/Count.antt =====
-- The counts of the graph cache: `count_publishers` and its like, the counts of matched endpoints and
-- `service_server_is_available`. What `rmw_qos_profile_check_compatible` says of two profiles, that it
-- returns OK and does not report an error, is a parameter.
pub mod Laws
pub mod Matched
use rmw_zenoh.Common.{
  ℕ, ◌≡◌, ◌+◌, ◌^◌, ◌%◌, Bool, true, false, not, ◌&&◌, List, [], ◌∷◌, Option, none, some, ◌==◌,
  is_empty, length, if◌then◌else◌,
}
use rmw_zenoh.Common.Text.{Bytes, bytes_eq}
use rmw_zenoh.Common.Map.{find}
use rmw_zenoh.Qos.{QosProfile}
use rmw_zenoh.Liveliness.{TopicInfo}
use rmw_zenoh.Graph.{EntitySet, TopicData, TopicQosMap, TopicTypeMap, TopicMap}
use rmw_zenoh.Graph.Topics.{qos_entries}
use rmw_zenoh.Graph.Nodes.{GraphCache}

-- `*count += set.size()` on a `size_t`, for one side of each entry.
unfoldable pub count_qos : (TopicData → EntitySet) → ℕ → TopicQosMap → ℕ
count_qos side count [] = count
count_qos side count ((_, topic) ∷ m) = count_qos side ((count + length (side topic)) % 2 ^ 64) m

unfoldable pub count_types : (TopicData → EntitySet) → ℕ → TopicTypeMap → ℕ
unfolding count_qos
count_types side count [] = count
count_types side count ((_, qoss) ∷ m) = count_types side (count_qos side count qoss) m

unfoldable pub count_in : (TopicData → EntitySet) → Bytes → TopicMap → ℕ
unfolding count_types
count_in side name m = elim (find name m) [ none ↦ 0 | some types ↦ count_types side 0 types ]

abbrev pub pubs_of : TopicData → EntitySet
pubs_of topic = topic.pubs

abbrev pub subs_of : TopicData → EntitySet
subs_of topic = topic.subs

unfoldable pub count_publishers : Bytes → GraphCache → ℕ
unfolding count_in
count_publishers topic_name c = count_in pubs_of topic_name c.graph_topics

unfoldable pub count_subscriptions : Bytes → GraphCache → ℕ
unfolding count_in
count_subscriptions topic_name c = count_in subs_of topic_name c.graph_topics

unfoldable pub count_services : Bytes → GraphCache → ℕ
unfolding count_in
count_services service_name c = count_in subs_of service_name c.graph_services

unfoldable pub count_clients : Bytes → GraphCache → ℕ
unfolding count_in
count_clients service_name c = count_in pubs_of service_name c.graph_services

-- The loop over the profiles of a topic and a type: one side of each compatible entry.
unfoldable pub count_matched :
    (QosProfile → QosProfile → Bool) → (TopicData → EntitySet) → QosProfile → ℕ → TopicQosMap → ℕ
count_matched compatible side qos count [] = count
count_matched compatible side qos count ((_, topic) ∷ m) =
    count_matched compatible side qos
      (if not (is_empty (side topic)) && compatible qos topic.info.qos
        then (count + length (side topic)) % 2 ^ 64
        else count)
      m

matched_in : (QosProfile → QosProfile → Bool) → (TopicData → EntitySet) → TopicInfo → TopicMap → ℕ
unfolding count_matched
matched_in compatible side info m = elim (qos_entries info m) [
  | none ↦ 0
  | some qoss ↦ count_matched compatible side info.qos 0 qoss
]

unfoldable pub publisher_count_matched_subscriptions :
    (QosProfile → QosProfile → Bool) → TopicInfo → GraphCache → ℕ
unfolding matched_in
publisher_count_matched_subscriptions compatible info c =
    matched_in compatible subs_of info c.graph_topics

unfoldable pub subscription_count_matched_publishers :
    (QosProfile → QosProfile → Bool) → TopicInfo → GraphCache → ℕ
unfolding matched_in
subscription_count_matched_publishers compatible info c =
    matched_in compatible pubs_of info c.graph_topics

unfoldable pub any_server : TopicQosMap → Bool
any_server [] = false
any_server ((_, topic) ∷ m) = if not (is_empty topic.subs) then true else any_server m

unfoldable pub service_server_is_available : TopicInfo → GraphCache → Bool
unfolding any_server
service_server_is_available info c = elim (qos_entries info c.graph_services) [
  | none ↦ false
  | some qoss ↦ any_server qoss
]
