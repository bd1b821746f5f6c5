-- ===== src/Graph/Count/Laws.antt =====
-- Bounds of the counts: detail/graph_cache.cpp.
use rmw_zenoh.Common.{
  ℕ, ◌≡◌, ◌+◌, ◌^◌, ◌≤◌, ◌<◌, ◌≢◌, Bool, true, List, [], ◌∷◌, some, length, is_empty, arith, ◌↔◌,
  Option-cases, inl, inr,
}
use rmw_zenoh.Common.Text.{Bytes, bytes_eq}
use rmw_zenoh.Common.Map.{find}
use rmw_zenoh.Qos.{QosProfile}
use rmw_zenoh.Liveliness.{TopicInfo}
use rmw_zenoh.Graph.{EntitySet, TopicData, TopicQosMap, TopicTypeMap, TopicMap}
use rmw_zenoh.Graph.Topics.{qos_entries}
use rmw_zenoh.Graph.Nodes.{GraphCache}
use rmw_zenoh.Graph.Count.{
  count_qos, count_types, count_in, count_matched, subs_of, publisher_count_matched_subscriptions,
  count_subscriptions, matched_in, any_server, service_server_is_available, count_services,
}

-- The endpoints of one side, counted without a bound.
abbrev pub total_qos : (TopicData → EntitySet) → TopicQosMap → ℕ
total_qos side [] = 0
total_qos side ((_, topic) ∷ m) = length (side topic) + total_qos side m

abbrev pub total_types : (TopicData → EntitySet) → TopicTypeMap → ℕ
total_types side [] = 0
total_types side ((_, qoss) ∷ m) = total_qos side qoss + total_types side m

pub is_empty-length : {A : Type 0} (xs : List A) → (is_empty xs ≡ true) ↔ (length xs ≡ 0)
is_empty-length [] = ground arith
is_empty-length (x ∷ xs) = ground arith

count_qos_lem :
    (side : TopicData → EntitySet) (n : ℕ) (m : TopicQosMap)
    → n + total_qos side m < 2 ^ 64
    → count_qos side n m ≡ n + total_qos side m
unfolding count_qos
count_qos_lem side n [] h = omega arith
count_qos_lem side n ((q, topic) ∷ m) h =
    ground (arith, count_qos_lem side (n + length (side topic)) m)

count_types_lem :
    (side : TopicData → EntitySet) (n : ℕ) (m : TopicTypeMap)
    → n + total_types side m < 2 ^ 64
    → count_types side n m ≡ n + total_types side m
unfolding count_types
count_types_lem side n [] h = omega arith
count_types_lem side n ((q, qoss) ∷ m) h =
    ground (arith, count_qos_lem side n qoss, count_types_lem side (n + total_qos side qoss) m)

pub count_in_lem :
    (side : TopicData → EntitySet) (name : Bytes) (m : TopicMap) (types : TopicTypeMap)
    → find name m ≡ some types
    → total_types side types < 2 ^ 64
    → count_in side name m ≡ total_types side types
unfolding count_in
count_in_lem side name m types f fits = ground (arith, f, count_types_lem side 0 types)

count_matched_le :
    (compatible : QosProfile → QosProfile → Bool) (side : TopicData → EntitySet) (qos : QosProfile)
    (n : ℕ) (m : TopicQosMap)
    → n + total_qos side m < 2 ^ 64
    → count_matched compatible side qos n m ≤ n + total_qos side m
unfolding count_matched
count_matched_le compatible side qos n [] fits = omega arith
count_matched_le compatible side qos n ((q, topic) ∷ m) fits = ground (
  arith,
  count_matched_le compatible side qos n m,
  count_matched_le compatible side qos (n + length (side topic)) m,
)

total_qos_le :
    (side : TopicData → EntitySet) (type : Bytes) (types : TopicTypeMap) (qoss : TopicQosMap)
    → find type types ≡ some qoss
    → total_qos side qoss ≤ total_types side types
unfolding find
total_qos_le side type [] qoss f = ground arith
total_qos_le side type ((t, x) ∷ types) qoss f = ground (arith, total_qos_le side type types qoss)

matched_le :
    (compatible : QosProfile → QosProfile → Bool) (side : TopicData → EntitySet) (info : TopicInfo)
    (m : TopicMap) (types : TopicTypeMap)
    → find info.name m ≡ some types
    → total_types side types < 2 ^ 64
    → matched_in compatible side info m ≤ count_in side info.name m
unfolding matched_in qos_entries
matched_le compatible side info m types f fits = elim (Option-cases (find info.type types)) [
  | inl e ↦ ground (arith, f, e, count_in_lem side info.name m types f fits)
  | inr (qoss, e) ↦ ground (
    arith,
    f,
    e,
    count_in_lem side info.name m types f fits,
    total_qos_le side info.type types qoss e,
    count_matched_le compatible side info.qos 0 qoss,
  )
]

-- Whatever profiles are compatible, a publisher matches at most as many subscriptions as its topic
-- has, when these are fewer than 2 ^ 64.
pub matched_subscriptions-le-count :
    (compatible : QosProfile → QosProfile → Bool) (info : TopicInfo) (c : GraphCache)
    (types : TopicTypeMap)
    → find info.name c.graph_topics ≡ some types
    → total_types subs_of types < 2 ^ 64
    → publisher_count_matched_subscriptions compatible info c ≤ count_subscriptions info.name c
unfolding publisher_count_matched_subscriptions count_subscriptions
matched_subscriptions-le-count compatible info c types =
    matched_le compatible subs_of info c.graph_topics types

any_server-total : (m : TopicQosMap) → (any_server m ≡ true) ↔ (total_qos subs_of m ≢ 0)
unfolding any_server
any_server-total [] = ground arith
any_server-total ((q, topic) ∷ m) = ground (arith, any_server-total m, is_empty-length topic.subs)

-- A server that a client finds available is counted: the service then has a server, when it has fewer
-- than 2 ^ 64.
pub available-count :
    (info : TopicInfo) (c : GraphCache) (types : TopicTypeMap)
    → find info.name c.graph_services ≡ some types
    → total_types subs_of types < 2 ^ 64
    → service_server_is_available info c ≡ true
    → count_services info.name c ≢ 0
unfolding service_server_is_available count_services qos_entries
available-count info c types f fits h = elim (Option-cases (find info.type types)) [
  | inl e ↦ ground (arith, f, e, h)
  | inr (qoss, e) ↦ ground (
    arith,
    f,
    e,
    h,
    count_in_lem subs_of info.name c.graph_services types f fits,
    total_qos_le subs_of info.type types qoss e,
    any_server-total qoss,
  )
]
