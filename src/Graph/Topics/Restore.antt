-- ===== src/Graph/Topics/Restore.antt =====
-- A deletion undoes a put of an entity that was not there: detail/graph_cache.cpp.
use rmw_zenoh.Common.{
  ◌≡◌, refl, sym, subst, Bool, true, false, List, [], ◌∷◌, ◌++◌, none, some, nat_eq, is_empty,
  arith, if◌then◌else◌, Option-cases, inl, inr, All,
}
use rmw_zenoh.Common.Text.{Bytes, bytes_eq, bytes_beq_iff}
use rmw_zenoh.Common.Map.{find, append, assign, erase, insert_sorted}
use rmw_zenoh.Common.Map.Laws.{
  All-find, find-append, find-assign, find-insert_sorted, erase-append, erase-insert_sorted,
  assign-assign, assign_self,
}
use rmw_zenoh.Qos.{Rmw}
use rmw_zenoh.Liveliness.{TopicInfo}
use rmw_zenoh.Liveliness.Entity.{Entity}
use rmw_zenoh.Liveliness.Profile.{qos_to_keyexpr}
use rmw_zenoh.Graph.{
  EntitySet, is_entity_pub, insert, member, erase_entity, TopicData, TopicQosMap, TopicTypeMap,
  TopicMap, make_topic_data, add_entity, remove_entity,
}
use rmw_zenoh.Graph.Events.{GraphEvents}
use rmw_zenoh.Graph.Topics.{
  put_qos, put_type, put_name, update_topic_map_for_put, update_topic_map_for_del, del_result,
  has_none, del_qos, erase_or_assign,
}
use rmw_zenoh.Graph.Topics.Lookup.{Found, del_at-cases, lookup, lookup_type, lookup-put_name}
use rmw_zenoh.Graph.Topics.Pruned.{IsPruned, IsPrunedTypes, IsPrunedQos}

-- The entity is not on its side of an entry.
abbrev pub IsFreshIn : Entity → TopicData → Type 0
IsFreshIn entity topic =
    member entity.gid_hash (if is_entity_pub entity then topic.pubs else topic.subs) ≡ false

erase_entity_absent :
    (x : Entity) (xs : EntitySet) → member x.gid_hash xs ≡ false → erase_entity x xs ≡ xs
unfolding member erase_entity
erase_entity_absent x [] h = refl
erase_entity_absent x (y ∷ ys) h = ground (arith, erase_entity_absent x ys)

erase_entity-append :
    (x : Entity) (xs : EntitySet)
    → member x.gid_hash xs ≡ false
    → erase_entity x (xs ++ x ∷ []) ≡ xs
unfolding member erase_entity
erase_entity-append x [] h = ground arith
erase_entity-append x (y ∷ ys) h = ground (arith, erase_entity-append x ys)

remove-add :
    (entity : Entity) (topic : TopicData)
    → IsFreshIn entity topic
    → remove_entity entity (add_entity entity topic) ≡ topic
unfolding remove_entity add_entity insert
remove-add entity topic h =
    ground (arith, erase_entity-append entity topic.pubs, erase_entity-append entity topic.subs)

remove-make :
    (info : TopicInfo) (entity : Entity)
    → has_none (remove_entity entity (make_topic_data info entity)) ≡ true
unfolding remove_entity make_topic_data has_none erase_entity
remove-make info entity = ground arith

del_qos-put_qos :
    (q : Bytes) (info : TopicInfo) (entity : Entity) (m : TopicQosMap) (topic' : TopicData)
    → All (λ p. has_none p.1 ≡ false) m
    → ((topic : TopicData) → find q m ≡ some topic → IsFreshIn entity topic)
    → find q (put_qos q info entity m) ≡ some topic'
    → del_qos q entity topic' (put_qos q info entity m) ≡ m
unfolding put_qos del_qos
del_qos-put_qos q info entity m topic' h fresh f = elim (Option-cases (find q m)) [
  | inl e ↦ ground (
    arith,
    e,
    f,
    find-append q q (make_topic_data info entity) m e,
    remove-make info entity,
    erase-append q (make_topic_data info entity) m e,
    bytes_beq_iff q q,
  )
  | inr (topic, e) ↦ ground (
    arith,
    e,
    f,
    find-assign q q (add_entity entity topic) topic m e,
    remove-add entity topic (fresh topic e),
    All-find (λ d. has_none d ≡ false) q topic m h e,
    assign-assign q topic (add_entity entity topic) m,
    assign_self q topic m e,
    bytes_beq_iff q q,
  )
]

del_qos-make :
    (q : Bytes) (info : TopicInfo) (entity : Entity)
    → del_qos q entity (make_topic_data info entity) ((q, make_topic_data info entity) ∷ []) ≡ []
unfolding del_qos erase
del_qos-make q info entity = ground (arith, remove-make info entity, bytes_beq_iff q q)

-- A map that is put back under its key, and one that is taken away again.
erase_or_assign-assign {ℓ} :
    {V : Type ℓ} (k : Bytes) (v w : List V) (m : List (Bytes × List V))
    → is_empty v ≡ false
    → find k m ≡ some v
    → erase_or_assign k v (assign k w m) ≡ m
unfolding erase_or_assign
erase_or_assign-assign k v w m e h = ground (arith, e, assign-assign k v w m, assign_self k v m h)

erase_or_assign-append {ℓ} :
    {V : Type ℓ} (k : Bytes) (v : List V) (m : List (Bytes × List V))
    → find k m ≡ none
    → erase_or_assign k [] (append k v m) ≡ m
unfolding erase_or_assign
erase_or_assign-append k v m h = erase-append k v m h

erase_or_assign-insert_sorted {ℓ} :
    {V : Type ℓ} (k : Bytes) (v : List V) (m : List (Bytes × List V))
    → find k m ≡ none
    → erase_or_assign k [] (insert_sorted k v m) ≡ m
unfolding erase_or_assign
erase_or_assign-insert_sorted k v m h = erase-insert_sorted k v m h

find_nil : (k : Bytes) → find {V = TopicQosMap} k [] ≡ none
unfolding find
find_nil k = refl

first_of {ℓ} : {V : Type ℓ} (k : Bytes) (v w : V) → find k ((k, v) ∷ []) ≡ some w → v ≡ w
unfolding find
first_of k v w h = ground (arith, h, bytes_beq_iff k k)

put_type-restored :
    (q : Bytes) (info : TopicInfo) (entity : Entity) (m : TopicTypeMap) (qoss' : TopicQosMap)
    (topic' : TopicData)
    → All (λ p. IsPrunedQos p.1) m
    → ((topic : TopicData) → lookup_type info.type q m ≡ some topic → IsFreshIn entity topic)
    → find info.type (put_type q info entity m) ≡ some qoss'
    → find q qoss' ≡ some topic'
    → erase_or_assign info.type (del_qos q entity topic' qoss') (put_type q info entity m) ≡ m
unfolding put_type lookup_type
put_type-restored q info entity m qoss' topic' h fresh f g =
    elim (Option-cases (find info.type m)) [
      | inl e ↦
          let fresh_map = (q, make_topic_data info entity) ∷ [] in
          let p : fresh_map ≡ qoss' = ground (
            arith,
            e,
            f,
            find-append info.type info.type fresh_map m e,
            bytes_beq_iff info.type info.type,
          ) in
          let t : make_topic_data info entity ≡ topic' =
            first_of q (make_topic_data info entity) topic'
              (subst (λ x. find q x ≡ some topic') (sym p) g) in
          ground (
            arith,
            e,
            p,
            t,
            del_qos-make q info entity,
            erase_or_assign-append info.type fresh_map m e,
          )
      | inr (qoss, e) ↦
          let p : put_qos q info entity qoss ≡ qoss' = ground (
            arith,
            e,
            f,
            find-assign info.type info.type (put_qos q info entity qoss) qoss m e,
            bytes_beq_iff info.type info.type,
          ) in
          let pruned = All-find IsPrunedQos info.type qoss m h e in
          let back =
            del_qos-put_qos q info entity qoss topic' pruned.1
              (λ topic l. fresh topic (ground (arith, e, l)))
              (subst (λ x. find q x ≡ some topic') (sym p) g) in
          ground (
            arith,
            e,
            p,
            back,
            erase_or_assign-assign info.type qoss (put_qos q info entity qoss) m pruned.0 e,
          )
    ]

put_name-restored :
    (q : Bytes) (info : TopicInfo) (entity : Entity) (m : TopicMap) (types' : TopicTypeMap)
    (qoss' : TopicQosMap) (topic' : TopicData)
    → IsPruned m
    → ((topic : TopicData) → lookup info.name info.type q m ≡ some topic → IsFreshIn entity topic)
    → Found q info (put_name q info entity m) types' qoss' topic'
    → erase_or_assign info.name
        (erase_or_assign info.type (del_qos q entity topic' qoss') types')
        (put_name q info entity m)
      ≡ m
unfolding put_name lookup Found
put_name-restored q info entity m types' qoss' topic' h fresh (f, (g, k)) =
    elim (Option-cases (find info.name m)) [
      | inl e ↦
          let qos_map = (q, make_topic_data info entity) ∷ [] in
          let type_map = (info.type, qos_map) ∷ [] in
          let p : type_map ≡ types' = ground (
            arith,
            e,
            f,
            find-insert_sorted info.name info.name type_map m e,
            bytes_beq_iff info.name info.name,
          ) in
          let p2 : qos_map ≡ qoss' =
            first_of info.type qos_map qoss'
              (subst (λ x. find info.type x ≡ some qoss') (sym p) g) in
          let t : make_topic_data info entity ≡ topic' =
            first_of q (make_topic_data info entity) topic'
              (subst (λ x. find q x ≡ some topic') (sym p2) k) in
          ground (
            arith,
            e,
            p,
            p2,
            t,
            del_qos-make q info entity,
            erase_or_assign-append info.type qos_map [] (find_nil info.type),
            erase_or_assign-insert_sorted info.name type_map m e,
          )
      | inr (types, e) ↦
          let p : put_type q info entity types ≡ types' = ground (
            arith,
            e,
            f,
            find-assign info.name info.name (put_type q info entity types) types m e,
            bytes_beq_iff info.name info.name,
          ) in
          let pruned = All-find IsPrunedTypes info.name types m h e in
          let back =
            put_type-restored q info entity types qoss' topic' pruned.1
              (λ topic l. fresh topic (ground (arith, e, l)))
              (subst (λ x. find info.type x ≡ some qoss') (sym p) g) k in
          ground (
            arith,
            e,
            p,
            back,
            erase_or_assign-assign info.name types (put_type q info entity types) m pruned.0 e,
          )
    ]

-- When an entity is new to its entry of a map without empty parts, deleting it after its put gives
-- the map back, whatever was reported in between.
pub del-put :
    (r : Rmw) (zid : Bytes) (report report' : Bool) (entity : Entity) (info : TopicInfo)
    (m : TopicMap) (s s' : GraphEvents)
    → entity.topic_info ≡ some info
    → IsPruned m
    → ((topic : TopicData)
        → lookup info.name info.type (qos_to_keyexpr r info.qos) m ≡ some topic
        → IsFreshIn entity topic)
    → (update_topic_map_for_del r zid report' entity
        ((update_topic_map_for_put r zid report entity (m, s)).0, s')).0
      ≡ m
unfolding update_topic_map_for_put update_topic_map_for_del del_result
del-put r zid report report' entity info m s s' e h fresh =
    let q = qos_to_keyexpr r info.qos in
    elim (del_at-cases q info (put_name q info entity m)) [
      | inl (d, l) ↦ ground (
        arith,
        l,
        lookup-put_name info.name info.type q q info entity m,
        bytes_beq_iff info.name info.name,
        bytes_beq_iff info.type info.type,
        bytes_beq_iff q q,
      )
      | inr (types', qoss', topic', (d, f)) ↦
          ground (arith, e, d, put_name-restored q info entity m types' qoss' topic' h fresh f)
    ]
