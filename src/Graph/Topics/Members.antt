-- ===== src/Graph/Topics/Members.antt =====
-- Which entities the topic maps hold after a put and after a deletion: update_topic_map_for_put and
-- update_topic_map_for_del of detail/graph_cache.cpp.
use rmw_zenoh.Common.{
  ℕ, ◌+◌, ◌<◌, ◌≡◌, refl, subst, sym, ◌∙◌, ap, Bool, true, false, ◌&&◌, not, List, [], ◌∷◌, ◌++◌,
  Option, none, some, ◌==◌, nat_eq, arith, if◌then◌else◌, Bool-cases, inl, inr, ◌⊎◌, length,
  is_empty, beq_refl, append-nil,
}
use rmw_zenoh.Common.Text.{Bytes, bytes_eq}
use rmw_zenoh.Qos.{Rmw}
use rmw_zenoh.Liveliness.{EntityType, TopicInfo}
use rmw_zenoh.Liveliness.Entity.{Entity}
use rmw_zenoh.Liveliness.Profile.{qos_to_keyexpr}
use rmw_zenoh.Graph.{
  EntitySet, TopicData, TopicMap, make_topic_data, add_entity, remove_entity, member, insert,
  erase_entity, is_pub_type,
}
use rmw_zenoh.Graph.Events.{GraphEvents}
use rmw_zenoh.Graph.Topics.{update_topic_map_for_put, update_topic_map_for_del, has_none}
use rmw_zenoh.Graph.Topics.Lookup.{
  lookup, joined, left_over, update_topic_map_for_put-lookup, update_topic_map_for_del-lookup,
}

-- The two sides of a topic or a service: those that send messages or requests, and those that take them.
pub data Side : Type 0 where
  sending taking : Side

abbrev pub side_of : EntityType → Side
side_of EntityType.publisher = sending
side_of EntityType.client = sending
side_of EntityType.subscription = taking
side_of EntityType.service = taking
side_of EntityType.node = taking

abbrev pub same_side : Side → Side → Bool
same_side sending sending = true
same_side taking taking = true
same_side _ _ = false

-- The entities with a hash, in a set and on a side of an entry.
abbrev pub with_hash : ℕ → EntitySet → List Entity
with_hash g [] = []
with_hash g (x ∷ xs) = let rest = with_hash g xs in if x.gid_hash == g then x ∷ rest else rest

abbrev pub on_side : Side → TopicData → EntitySet
on_side sending topic = topic.pubs
on_side taking topic = topic.subs

abbrev pub entities : Side → ℕ → Option TopicData → List Entity
entities side g none = []
entities side g (some topic) = with_hash g (on_side side topic)

abbrev pub entry_info : Option TopicData → Option TopicInfo
entry_info none = none
entry_info (some topic) = some topic.info

abbrev pub info_after : TopicInfo → Option TopicData → TopicInfo
info_after info none = info
info_after info (some topic) = topic.info

abbrev pub or_one : Entity → List Entity → List Entity
or_one entity [] = entity ∷ []
or_one entity (x ∷ xs) = x ∷ xs

-- An entry after an entity has come: the entity is on its side, unless one with its hash was there, every
-- other entity is where it was, and the topic is that of the entry or, in a new one, the entity's.
pub record IsJoined (info : TopicInfo) (entity : Entity) (old new : Option TopicData) : Type 0 where
  pub topic : entry_info new ≡ some (info_after info old)
  pub members :
      (side : Side) (g : ℕ)
      → entities side g new ≡ (
          if same_side side (side_of entity.type) && g == entity.gid_hash
          then or_one entity (entities side g old)
          else entities side g old)

abbrev pub entry_size : Option TopicData → ℕ
entry_size none = 0
entry_size (some topic) = length topic.pubs + length topic.subs

-- An entry after an entity has gone: no entity of its hash is on its side, every other one is where it
-- was, and the entry itself is only there, with its topic, when an entity is left in it.
pub record IsLeft (entity : Entity) (old new : Option TopicData) : Type 0 where
  pub entry : (new ≡ none) ⊎ ((0 < entry_size new) × (entry_info new ≡ entry_info old))
  pub members :
      (side : Side) (g : ℕ)
      → entities side g new ≡ (
          if same_side side (side_of entity.type) && g == entity.gid_hash
          then []
          else entities side g old)

with_hash-append :
    (g : ℕ) (x : Entity) (xs : EntitySet)
    → with_hash g (xs ++ x ∷ []) ≡ with_hash g xs ++ (if x.gid_hash == g then x ∷ [] else [])
with_hash-append g x [] = ground arith
with_hash-append g x (y ∷ xs) = ground (arith, with_hash-append g x xs)

member-with_hash :
    (g : ℕ) (xs : EntitySet) → member g xs ≡ (if is_empty (with_hash g xs) then false else true)
unfolding member
member-with_hash g [] = refl
member-with_hash g (y ∷ xs) = ground (arith, member-with_hash g xs)

or_one_lem : (x : Entity) (l : List Entity) → or_one x l ≡ (if is_empty l then l ++ x ∷ [] else l)
or_one_lem x [] = refl
or_one_lem x (y ∷ l) = refl

with_hash-insert :
    (g : ℕ) (x : Entity) (xs : EntitySet)
    → with_hash g (insert x xs)
      ≡ (if g == x.gid_hash then or_one x (with_hash g xs) else with_hash g xs)
unfolding insert
with_hash-insert g x xs = ground (
  arith,
  member-with_hash x.gid_hash xs,
  member-with_hash g xs,
  with_hash-append g x xs,
  or_one_lem x (with_hash g xs),
  append-nil (with_hash g xs),
)

with_hash-erase :
    (g : ℕ) (x : Entity) (xs : EntitySet)
    → with_hash g (erase_entity x xs) ≡ (if g == x.gid_hash then [] else with_hash g xs)
unfolding erase_entity
with_hash-erase g x [] = ground arith
with_hash-erase g x (y ∷ xs) = ground (arith, with_hash-erase g x xs)

sending_iff : (t : EntityType) → is_pub_type t ≡ same_side sending (side_of t)
unfolding is_pub_type
sending_iff t = ground arith

taking_iff : (t : EntityType) → is_pub_type t ≡ not (same_side taking (side_of t))
unfolding is_pub_type
taking_iff t = ground arith

entities-make :
    (side : Side) (g : ℕ) (info : TopicInfo) (entity : Entity)
    → with_hash g (on_side side (make_topic_data info entity))
      ≡ (if same_side side (side_of entity.type) && g == entity.gid_hash then entity ∷ [] else [])
unfolding make_topic_data
entities-make sending g info entity = ground (arith, sending_iff entity.type)
entities-make taking g info entity = ground (arith, taking_iff entity.type)

entities-add :
    (side : Side) (g : ℕ) (entity : Entity) (topic : TopicData)
    → with_hash g (on_side side (add_entity entity topic)) ≡ (
        if same_side side (side_of entity.type) && g == entity.gid_hash
        then or_one entity (with_hash g (on_side side topic))
        else with_hash g (on_side side topic))
unfolding add_entity
entities-add sending g entity topic =
    ground (arith, sending_iff entity.type, with_hash-insert g entity topic.pubs)
entities-add taking g entity topic =
    ground (arith, taking_iff entity.type, with_hash-insert g entity topic.subs)

entities-remove :
    (side : Side) (g : ℕ) (entity : Entity) (topic : TopicData)
    → with_hash g (on_side side (remove_entity entity topic)) ≡ (
        if same_side side (side_of entity.type) && g == entity.gid_hash
        then []
        else with_hash g (on_side side topic))
unfolding remove_entity
entities-remove sending g entity topic =
    ground (arith, sending_iff entity.type, with_hash-erase g entity topic.pubs)
entities-remove taking g entity topic =
    ground (arith, taking_iff entity.type, with_hash-erase g entity topic.subs)

joined-IsJoined :
    (info : TopicInfo) (entity : Entity) (old : Option TopicData)
    → IsJoined info entity old (some (joined info entity old))
unfolding joined make_topic_data add_entity
joined-IsJoined info entity none = record {
  topic = ground arith;
  members = λ side g. entities-make side g info entity;
}
joined-IsJoined info entity (some topic) = record {
  topic = ground arith;
  members = λ side g. entities-add side g entity topic;
}

is_empty_nil : (xs : EntitySet) → is_empty xs ≡ true → xs ≡ []
is_empty_nil [] h = refl
is_empty_nil (x ∷ xs) h = ground arith

is_empty-length : (xs : EntitySet) → is_empty xs ≡ false → 0 < length xs
is_empty-length [] h = ground arith
is_empty-length (x ∷ xs) h = omega arith

info-remove : (entity : Entity) (topic : TopicData) → (remove_entity entity topic).info ≡ topic.info
unfolding remove_entity
info-remove entity topic = ground arith

has_none-size :
    (topic : TopicData) → has_none topic ≡ false → 0 < length topic.pubs + length topic.subs
unfolding has_none
has_none-size topic h = ground (arith, h, is_empty-length topic.pubs, is_empty-length topic.subs)

has_none-nil : (topic : TopicData) → has_none topic ≡ true → (side : Side) → on_side side topic ≡ []
unfolding has_none
has_none-nil topic h sending = is_empty_nil topic.pubs (ground arith)
has_none-nil topic h taking = is_empty_nil topic.subs (ground arith)

left_over-IsLeft :
    (entity : Entity) (old : Option TopicData) → IsLeft entity old (left_over entity old)
unfolding left_over
left_over-IsLeft entity none = record { entry = inl refl; members = λ side g. ground arith }
left_over-IsLeft entity (some topic) =
    let rest = remove_entity entity topic in
    elim (Bool-cases (has_none rest)) [
      | inl a ↦
          let same : none ≡ left_over entity (some topic) = ground (arith, a) in
          subst (IsLeft entity (some topic)) same (record {
            entry = inl refl;
            members = λ side g.
                sym (ap (with_hash g) (has_none-nil rest a side))
                ∙ entities-remove side g entity topic;
          })
      | inr a ↦
          let same : some rest ≡ left_over entity (some topic) = ground (arith, a) in
          subst (IsLeft entity (some topic)) same (record {
            entry = inr (has_none-size rest a, ap some (info-remove entity topic));
            members = λ side g. entities-remove side g entity topic;
          })
    ]

-- After a put, the entry for the name of the entity's topic, its type and its profile is the old one with
-- the entity in it (`IsJoined`), and no other entry has changed.
pub update_topic_map_for_put-IsJoined :
    (r : Rmw) (zid : Bytes) (report : Bool) (entity : Entity) (info : TopicInfo) (m : TopicMap)
    (s : GraphEvents)
    → entity.topic_info ≡ some info
    → let after = (update_topic_map_for_put r zid report entity (m, s)).0 in
      let q = qos_to_keyexpr r info.qos in
      IsJoined info entity (lookup info.name info.type q m) (lookup info.name info.type q after)
      × ((n t j : Bytes)
          → lookup n t j after ≡ (
              if n == info.name && (t == info.type && j == q)
              then lookup info.name info.type q after
              else lookup n t j m))
update_topic_map_for_put-IsJoined r zid report entity info m s h =
    let q = qos_to_keyexpr r info.qos in
    let after = (update_topic_map_for_put r zid report entity (m, s)).0 in
    let own : some (joined info entity (lookup info.name info.type q m))
        ≡ lookup info.name info.type q after =
      ground (
        arith,
        update_topic_map_for_put-lookup r zid report entity info m s info.name info.type q h,
        beq_refl info.name,
        beq_refl info.type,
        beq_refl q,
      ) in
    (
      subst (IsJoined info entity (lookup info.name info.type q m)) own
          (joined-IsJoined info entity (lookup info.name info.type q m)),
      λ n t j.
          ground (arith, update_topic_map_for_put-lookup r zid report entity info m s n t j h, own),
    )

-- After a deletion, the entry for the name of the entity's topic, its type and its profile is the old one
-- without the entity (`IsLeft`), and no other entry has changed.
pub update_topic_map_for_del-IsLeft :
    (r : Rmw) (zid : Bytes) (report : Bool) (entity : Entity) (info : TopicInfo) (m : TopicMap)
    (s : GraphEvents)
    → entity.topic_info ≡ some info
    → let after = (update_topic_map_for_del r zid report entity (m, s)).0 in
      let q = qos_to_keyexpr r info.qos in
      IsLeft entity (lookup info.name info.type q m) (lookup info.name info.type q after)
      × ((n t j : Bytes)
          → lookup n t j after ≡ (
              if n == info.name && (t == info.type && j == q)
              then lookup info.name info.type q after
              else lookup n t j m))
update_topic_map_for_del-IsLeft r zid report entity info m s h =
    let q = qos_to_keyexpr r info.qos in
    let after = (update_topic_map_for_del r zid report entity (m, s)).0 in
    let own : left_over entity (lookup info.name info.type q m)
        ≡ lookup info.name info.type q after =
      ground (
        arith,
        update_topic_map_for_del-lookup r zid report entity info m s info.name info.type q h,
        beq_refl info.name,
        beq_refl info.type,
        beq_refl q,
      ) in
    (
      subst (IsLeft entity (lookup info.name info.type q m)) own
          (left_over-IsLeft entity (lookup info.name info.type q m)),
      λ n t j.
          ground (arith, update_topic_map_for_del-lookup r zid report entity info m s n t j h, own),
    )
