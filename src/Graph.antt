-- ===== src/Graph.antt =====
-- The graph cache: detail/graph_cache.hpp and detail/graph_cache.cpp. This file has the data that
-- describe a topic. `std::map` is an association list in the order of its keys, an unordered map one
-- in the order of insertion. An `EntitySet` hashes and compares its elements by `gid_hash` alone.
pub mod Events
pub mod Topics
pub mod Nodes
pub mod Count
pub mod Names
pub mod Endpoints
mod Tests
use rmw_zenoh.Common.{
  ℕ, ◌≡◌, Bool, true, false, not, ◌&&◌, List, [], ◌∷◌, ◌++◌, Option, none, some, ◌==◌, nat_eq,
  if◌then◌else◌,
}
use rmw_zenoh.Common.Text.{Bytes, bytes_eq}
use rmw_zenoh.Liveliness.{EntityType, TopicInfo}
use rmw_zenoh.Liveliness.Entity.{Entity}

abbrev pub EntitySet : Type 0
EntitySet = List Entity

unfoldable pub member : ℕ → EntitySet → Bool
member g [] = false
member g (x ∷ xs) = let rest = member g xs in if x.gid_hash == g then true else rest

-- `insert` leaves an equal element in its place.
unfoldable pub insert : Entity → EntitySet → EntitySet
insert x xs = if member x.gid_hash xs then xs else xs ++ x ∷ []

unfoldable pub erase_entity : Entity → EntitySet → EntitySet
erase_entity x [] = []
erase_entity x (y ∷ ys) =
    let rest = erase_entity x ys in if y.gid_hash == x.gid_hash then rest else y ∷ rest

-- `TopicData`
pub record TopicData : Type 0 where
  pub info : TopicInfo
  pub pubs : EntitySet
  pub subs : EntitySet

abbrev pub TopicQosMap : Type 0
TopicQosMap = List (Bytes × TopicData)

abbrev pub TopicTypeMap : Type 0
TopicTypeMap = List (Bytes × TopicQosMap)

abbrev pub TopicMap : Type 0
TopicMap = List (Bytes × TopicTypeMap)

unfoldable pub is_pub_type : EntityType → Bool
is_pub_type EntityType.publisher = true
is_pub_type EntityType.client = true
is_pub_type _ = false

abbrev pub is_entity_pub : Entity → Bool
is_entity_pub entity = is_pub_type entity.type

-- `zid` is the session of the cache, `zid_str_`.
unfoldable pub is_entity_local : Bytes → Entity → Bool
is_entity_local zid entity = entity.zid == zid

-- `TopicData::make` for an entity with topic information `info`.
unfoldable pub make_topic_data : TopicInfo → Entity → TopicData
make_topic_data info entity =
    if is_entity_pub entity
    then record { info = info; pubs = entity ∷ []; subs = [] }
    else record { info = info; pubs = []; subs = entity ∷ [] }

-- The entity joins or leaves the side that it belongs to.
unfoldable pub add_entity : Entity → TopicData → TopicData
unfolding insert
add_entity entity topic =
    if is_entity_pub entity
    then record { info = topic.info; pubs = insert entity topic.pubs; subs = topic.subs }
    else record { info = topic.info; pubs = topic.pubs; subs = insert entity topic.subs }

unfoldable pub remove_entity : Entity → TopicData → TopicData
unfolding erase_entity
remove_entity entity topic =
    if is_entity_pub entity
    then record { info = topic.info; pubs = erase_entity entity topic.pubs; subs = topic.subs }
    else record { info = topic.info; pubs = topic.pubs; subs = erase_entity entity topic.subs }
