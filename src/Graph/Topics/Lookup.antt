-- ===== src/Graph/Topics/Lookup.antt =====
-- What the topic maps hold after a put and after a deletion, seen as functions of the topic's name,
-- the type and the profile: detail/graph_cache.cpp.
use rmw_zenoh.Common.{
  ◌≡◌, Bool, ◌&&◌, [], ◌∷◌, Option, none, some, ◌==◌, arith, if◌then◌else◌, Option-cases, inl, inr,
  ◌⊎◌,
}
use rmw_zenoh.Common.Text.{Bytes, bytes_eq, bytes_beq_iff}
use rmw_zenoh.Common.Map.{find}
use rmw_zenoh.Common.Map.Laws.{find-append, find-assign, find-erase, find-insert_sorted}
use rmw_zenoh.Qos.{Rmw}
use rmw_zenoh.Liveliness.{TopicInfo}
use rmw_zenoh.Liveliness.Entity.{Entity}
use rmw_zenoh.Liveliness.Profile.{qos_to_keyexpr}
use rmw_zenoh.Graph.{
  TopicData, TopicQosMap, TopicTypeMap, TopicMap, make_topic_data, add_entity, remove_entity,
}
use rmw_zenoh.Graph.Events.{GraphEvents}
use rmw_zenoh.Graph.Topics.{
  put_qos, put_type, put_name, update_topic_map_for_put, update_topic_map_for_del, del_result,
  has_none, del_qos, del_at, erase_or_assign,
}

-- The entry under three keys.
unfoldable pub lookup_type : Bytes → Bytes → TopicTypeMap → Option TopicData
lookup_type type q m = elim (find type m) [ none ↦ none | some qoss ↦ find q qoss ]

unfoldable pub lookup : Bytes → Bytes → Bytes → TopicMap → Option TopicData
unfolding lookup_type
lookup name type q m = elim (find name m) [ none ↦ none | some types ↦ lookup_type type q types ]

-- The entry with an entity added.
unfoldable pub joined : TopicInfo → Entity → Option TopicData → TopicData
joined info entity none = make_topic_data info entity
joined info entity (some topic) = add_entity entity topic

-- The entry with an entity removed, if any is left.
unfoldable pub left_over : Entity → Option TopicData → Option TopicData
left_over entity none = none
left_over entity (some topic) =
    if has_none (remove_entity entity topic) then none else some (remove_entity entity topic)

find-put_qos :
    (j q : Bytes) (info : TopicInfo) (entity : Entity) (m : TopicQosMap)
    → find j (put_qos q info entity m)
      ≡ (if j == q then some (joined info entity (find q m)) else find j m)
unfolding put_qos joined
find-put_qos j q info entity m = elim (Option-cases (find q m)) [
  | inl h ↦ ground (arith, h, find-append j q (make_topic_data info entity) m h)
  | inr (topic, h) ↦ ground (arith, h, find-assign j q (add_entity entity topic) topic m h)
]

lookup-put_type :
    (t j q : Bytes) (info : TopicInfo) (entity : Entity) (m : TopicTypeMap)
    → lookup_type t j (put_type q info entity m) ≡ (
        if t == info.type && j == q
        then some (joined info entity (lookup_type info.type q m))
        else lookup_type t j m)
unfolding put_type lookup_type joined find
lookup-put_type t j q info entity m = elim (Option-cases (find info.type m)) [
  | inl h ↦ ground (
    arith,
    h,
    find-append t info.type ((q, make_topic_data info entity) ∷ []) m h,
    bytes_beq_iff t info.type,
  )
  | inr (qoss, h) ↦ ground (
    arith,
    h,
    find-assign t info.type (put_qos q info entity qoss) qoss m h,
    find-put_qos j q info entity qoss,
    bytes_beq_iff t info.type,
  )
]

pub lookup-put_name :
    (n t j q : Bytes) (info : TopicInfo) (entity : Entity) (m : TopicMap)
    → lookup n t j (put_name q info entity m) ≡ (
        if n == info.name && (t == info.type && j == q)
        then some (joined info entity (lookup info.name info.type q m))
        else lookup n t j m)
unfolding put_name lookup lookup_type joined find
lookup-put_name n t j q info entity m = elim (Option-cases (find info.name m)) [
  | inl h ↦ ground (
    arith,
    h,
    find-insert_sorted n info.name ((info.type, (q, make_topic_data info entity) ∷ []) ∷ []) m h,
    bytes_beq_iff n info.name,
  )
  | inr (types, h) ↦ ground (
    arith,
    h,
    find-assign n info.name (put_type q info entity types) types m h,
    lookup-put_type t j q info entity types,
    bytes_beq_iff n info.name,
  )
]

-- A put changes the entry for the name of the entity's topic, its type and its profile, and no other.
pub update_topic_map_for_put-lookup :
    (r : Rmw) (zid : Bytes) (report : Bool) (entity : Entity) (info : TopicInfo) (m : TopicMap)
    (s : GraphEvents) (n t q : Bytes)
    → entity.topic_info ≡ some info
    → lookup n t q (update_topic_map_for_put r zid report entity (m, s)).0 ≡ (
        if n == info.name && (t == info.type && q == qos_to_keyexpr r info.qos)
        then some (joined info entity (lookup info.name info.type (qos_to_keyexpr r info.qos) m))
        else lookup n t q m)
unfolding update_topic_map_for_put
update_topic_map_for_put-lookup r zid report entity info m s n t q h =
    ground (arith, h, lookup-put_name n t q (qos_to_keyexpr r info.qos) info entity m)

find-del_qos :
    (j q : Bytes) (entity : Entity) (topic : TopicData) (m : TopicQosMap)
    → find q m ≡ some topic
    → find j (del_qos q entity topic m)
      ≡ (if j == q then left_over entity (some topic) else find j m)
unfolding del_qos left_over
find-del_qos j q entity topic m h =
    ground (arith, find-erase j q m, find-assign j q (remove_entity entity topic) topic m h)

lookup_type-erase_or_assign :
    (t j type : Bytes) (qoss qoss' : TopicQosMap) (m : TopicTypeMap)
    → find type m ≡ some qoss
    → lookup_type t j (erase_or_assign type qoss' m)
      ≡ (if t == type then find j qoss' else lookup_type t j m)
unfolding erase_or_assign lookup_type find
lookup_type-erase_or_assign t j type qoss [] m h = ground (arith, find-erase t type m)
lookup_type-erase_or_assign t j type qoss (p ∷ qoss') m h =
    ground (arith, find-assign t type (p ∷ qoss') qoss m h)

lookup-erase_or_assign :
    (n t j name : Bytes) (types types' : TopicTypeMap) (m : TopicMap)
    → find name m ≡ some types
    → lookup n t j (erase_or_assign name types' m)
      ≡ (if n == name then lookup_type t j types' else lookup n t j m)
unfolding erase_or_assign lookup lookup_type find
lookup-erase_or_assign n t j name types [] m h = ground (arith, find-erase n name m)
lookup-erase_or_assign n t j name types (p ∷ types') m h =
    ground (arith, find-assign n name (p ∷ types') types m h)

-- What `del_at` has found.
unfoldable pub Found :
    Bytes → TopicInfo → TopicMap → TopicTypeMap → TopicQosMap → TopicData → Type 0
Found q info m types qoss topic =
    find info.name m ≡ some types × (find info.type types ≡ some qoss × find q qoss ≡ some topic)

pub del_at-cases :
    (q : Bytes) (info : TopicInfo) (m : TopicMap)
    → (del_at q info m ≡ none × lookup info.name info.type q m ≡ none)
      ⊎ ((types : TopicTypeMap) × (qoss : TopicQosMap) × (topic : TopicData) × (del_at q info m
              ≡ some (types, (qoss, topic))
            × Found q info m types qoss topic))
unfolding del_at lookup lookup_type Found
del_at-cases q info m = elim (Option-cases (find info.name m)) [
  | inl h ↦ inl (ground (arith, h), ground (arith, h))
  | inr (types, h) ↦ elim (Option-cases (find info.type types)) [
    | inl k ↦ inl (ground (arith, h, k), ground (arith, h, k))
    | inr (qoss, k) ↦ elim (Option-cases (find q qoss)) [
      | inl l ↦ inl (ground (arith, h, k, l), ground (arith, h, k, l))
      | inr (topic, l) ↦ inr (types, qoss, topic, (ground (arith, h, k, l), (h, (k, l))))
    ]
  ]
]

lookup-del :
    (n t j q : Bytes) (info : TopicInfo) (entity : Entity) (m : TopicMap) (types : TopicTypeMap)
    (qoss : TopicQosMap) (topic : TopicData)
    → Found q info m types qoss topic
    → lookup n t j (
        erase_or_assign info.name (erase_or_assign info.type (del_qos q entity topic qoss) types) m)
      ≡ (if n == info.name && (t == info.type && j == q)
          then left_over entity (lookup info.name info.type q m)
          else lookup n t j m)
unfolding Found lookup lookup_type
lookup-del n t j q info entity m types qoss topic (h, (k, l)) =
    let qoss' = del_qos q entity topic qoss in
    let types' = erase_or_assign info.type qoss' types in
    ground (
      arith,
      h,
      k,
      l,
      lookup-erase_or_assign n t j info.name types types' m h,
      lookup_type-erase_or_assign t j info.type qoss qoss' types k,
      find-del_qos j q entity topic qoss l,
      bytes_beq_iff n info.name,
      bytes_beq_iff t info.type,
    )

-- A deletion changes the entry for the name of the entity's topic, its type and its profile, and no other.
pub update_topic_map_for_del-lookup :
    (r : Rmw) (zid : Bytes) (report : Bool) (entity : Entity) (info : TopicInfo) (m : TopicMap)
    (s : GraphEvents) (n t q : Bytes)
    → entity.topic_info ≡ some info
    → lookup n t q (update_topic_map_for_del r zid report entity (m, s)).0 ≡ (
        if n == info.name && (t == info.type && q == qos_to_keyexpr r info.qos)
        then left_over entity (lookup info.name info.type (qos_to_keyexpr r info.qos) m)
        else lookup n t q m)
unfolding update_topic_map_for_del del_result left_over
update_topic_map_for_del-lookup r zid report entity info m s n t q h =
    elim (del_at-cases (qos_to_keyexpr r info.qos) info m) [
      | inl (d, l) ↦ ground (
        arith,
        h,
        d,
        l,
        bytes_beq_iff n info.name,
        bytes_beq_iff t info.type,
        bytes_beq_iff q (qos_to_keyexpr r info.qos),
      )
      | inr (types, qoss, topic, (d, f)) ↦ ground (
        arith,
        h,
        d,
        lookup-del n t q (qos_to_keyexpr r info.qos) info entity m types qoss topic f,
      )
    ]
