-- ===== src/Graph/Topics.antt =====
-- The maps from topic names, types and profiles to endpoints: `update_topic_map_for_put`,
-- `update_topic_map_for_del` and `remove_topic_map_from_cache` of detail/graph_cache.cpp. Each takes
-- the map and the state of the events, which it reports to.
pub mod Lookup
pub mod Members
pub mod Pruned
pub mod Restore
use rmw_zenoh.Common.{
  ℕ, ◌≡◌, Bool, true, false, not, ◌&&◌, List, [], ◌∷◌, ◌++◌, Option, none, some, ◌==◌, is_empty,
  if◌then◌else◌,
}
use rmw_zenoh.Common.Text.{Bytes, bytes_eq}
use rmw_zenoh.Common.Int.{pos}
use rmw_zenoh.Common.Map.{find, append, assign, erase, insert_sorted}
use rmw_zenoh.Qos.{Rmw}
use rmw_zenoh.Liveliness.{TopicInfo}
use rmw_zenoh.Liveliness.Entity.{Entity}
use rmw_zenoh.Liveliness.Profile.{qos_to_keyexpr}
use rmw_zenoh.Graph.{
  EntitySet, TopicData, TopicQosMap, TopicTypeMap, TopicMap, make_topic_data, add_entity,
  remove_entity,
}
use rmw_zenoh.Graph.Events.{GraphEvents, matched_for_put, matched_for_del}

-- The last level of a put.
unfoldable pub put_qos : Bytes → TopicInfo → Entity → TopicQosMap → TopicQosMap
unfolding make_topic_data add_entity
put_qos q info entity m = elim (find q m) [
  | none ↦ append q (make_topic_data info entity) m
  | some topic ↦ assign q (add_entity entity topic) m
]

unfoldable pub put_type : Bytes → TopicInfo → Entity → TopicTypeMap → TopicTypeMap
unfolding make_topic_data put_qos
put_type q info entity m = elim (find info.type m) [
  | none ↦ append info.type ((q, make_topic_data info entity) ∷ []) m
  | some qoss ↦ assign info.type (put_qos q info entity qoss) m
]

unfoldable pub put_name : Bytes → TopicInfo → Entity → TopicMap → TopicMap
unfolding make_topic_data put_type
put_name q info entity m = elim (find info.name m) [
  | none ↦ insert_sorted info.name ((info.type, (q, make_topic_data info entity) ∷ []) ∷ []) m
  | some types ↦ assign info.name (put_type q info entity types) m
]

-- The profiles known for a topic and a type.
unfoldable pub qos_entries : TopicInfo → TopicMap → Option TopicQosMap
qos_entries info m = elim (find info.name m) [ none ↦ none | some types ↦ find info.type types ]

unfoldable pub events_for_put :
    Bytes → Bool → TopicInfo → Entity → TopicMap → GraphEvents → GraphEvents
unfolding qos_entries matched_for_put
events_for_put zid report info entity m s = elim (qos_entries info m) [
  | none ↦ s
  | some qoss ↦ if report then matched_for_put zid entity (pos 0) qoss s else s
]

-- The events are reported before the map is changed.
unfoldable pub update_topic_map_for_put :
    Rmw → Bytes → Bool → Entity → TopicMap × GraphEvents → TopicMap × GraphEvents
unfolding put_name events_for_put
update_topic_map_for_put r zid report entity (m, s) = elim entity.topic_info [
  | none ↦ (m, s)
  | some info ↦ (
    put_name (qos_to_keyexpr r info.qos) info entity m,
    events_for_put zid report info entity m s,
  )
]

unfoldable pub has_none : TopicData → Bool
has_none topic = is_empty topic.pubs && is_empty topic.subs

-- The last level of a deletion, for a profile that is there.
unfoldable pub del_qos : Bytes → Entity → TopicData → TopicQosMap → TopicQosMap
unfolding remove_entity has_none
del_qos q entity topic m =
    let topic' = remove_entity entity topic in
    if has_none topic' then erase q m else assign q topic' m

-- A map goes when what is under it has become empty.
unfoldable pub erase_or_assign {ℓ} :
    {V : Type ℓ} → Bytes → List V → List (Bytes × List V) → List (Bytes × List V)
erase_or_assign k v m = if is_empty v then erase k m else assign k v m

-- What a deletion finds: the types of the topic, the profiles of the type and the entry.
unfoldable pub del_at :
    Bytes → TopicInfo → TopicMap → Option (TopicTypeMap × (TopicQosMap × TopicData))
del_at q info m = elim (find info.name m) [
  | none ↦ none
  | some types ↦ elim (find info.type types) [
    | none ↦ none
    | some qoss ↦ elim (find q qoss) [ none ↦ none | some topic ↦ some (types, (qoss, topic)) ]
  ]
]

-- What a deletion makes of what it finds. The events are reported from the profiles that are left.
unfoldable pub del_result :
    Bytes
    → Bool
    → Entity
    → Bytes
    → TopicInfo
    → TopicMap
    → GraphEvents
    → Option (TopicTypeMap × (TopicQosMap × TopicData))
    → TopicMap × GraphEvents
unfolding del_qos erase_or_assign matched_for_del
del_result zid report entity q info m s none = (m, s)
del_result zid report entity q info m s (some (types, (qoss, topic))) =
    let qoss' = del_qos q entity topic qoss in
    (
      erase_or_assign info.name (erase_or_assign info.type qoss' types) m,
      if report then matched_for_del zid entity qoss' s else s,
    )

unfoldable pub update_topic_map_for_del :
    Rmw → Bytes → Bool → Entity → TopicMap × GraphEvents → TopicMap × GraphEvents
unfolding del_at del_result
update_topic_map_for_del r zid report entity (m, s) = elim entity.topic_info [
  | none ↦ (m, s)
  | some info ↦
      let q = qos_to_keyexpr r info.qos in del_result zid report entity q info m s (del_at q info m)
]

unfoldable pub delete_all :
    Rmw → Bytes → EntitySet → TopicMap × GraphEvents → TopicMap × GraphEvents
delete_all r zid [] c = c
delete_all r zid (x ∷ xs) c = delete_all r zid xs (update_topic_map_for_del r zid true x c)

unfoldable pub delete_qos :
    Rmw → Bytes → TopicQosMap → TopicMap × GraphEvents → TopicMap × GraphEvents
unfolding delete_all
delete_qos r zid [] c = c
delete_qos r zid ((_, topic) ∷ m) c =
    delete_qos r zid m (delete_all r zid topic.subs (delete_all r zid topic.pubs c))

unfoldable pub delete_types :
    Rmw → Bytes → TopicTypeMap → TopicMap × GraphEvents → TopicMap × GraphEvents
unfolding delete_qos
delete_types r zid [] c = c
delete_types r zid ((_, qoss) ∷ m) c = delete_types r zid m (delete_qos r zid qoss c)

-- `remove_topic_map_from_cache`; it reports events also for services.
unfoldable pub remove_topic_map_from_cache :
    Rmw → Bytes → TopicMap → TopicMap × GraphEvents → TopicMap × GraphEvents
unfolding delete_types
remove_topic_map_from_cache r zid [] c = c
remove_topic_map_from_cache r zid ((_, types) ∷ m) c =
    remove_topic_map_from_cache r zid m (delete_types r zid types c)
