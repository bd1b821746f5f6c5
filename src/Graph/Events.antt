-- ===== src/Graph/Events.antt =====
-- The event counters of the graph cache: `update_event_counters`, `set_qos_event_callback` and
-- `remove_qos_event_callbacks`, and the two functions that report matched entities. Each of the
-- first three is one critical section of `events_mutex_`. A callback is an opaque number, and the
-- calls made are kept in `log`. `int32_t` overflow has no defined behaviour in the source.
pub mod Conservation
pub mod Totals
pub mod Matched
use rmw_zenoh.Common.{
  ℕ, ◌≡◌, ◌^◌, ◌-◌, Bool, true, false, not, ◌&&◌, List, [], ◌∷◌, ◌++◌, Option, none, some, ◌==◌,
  nat_eq, ltb, length, is_empty, if◌then◌else◌,
}
use rmw_zenoh.Common.Text.{Bytes, bytes_eq}
use rmw_zenoh.Common.Int.{ℤ, pos, negsuc, ◌+ℤ◌, ltb_ℤ}
use rmw_zenoh.Common.Map.{find, assign, append, erase, put}
use rmw_zenoh.Event.{event_id_max, event_publication_matched, event_subscription_matched}
use rmw_zenoh.Liveliness.{TopicInfo}
use rmw_zenoh.Liveliness.Entity.{Entity}
use rmw_zenoh.Graph.{EntitySet, TopicData, TopicQosMap, is_entity_pub, is_entity_local}

abbrev pub Callbacks : Type 0
Callbacks = List (ℕ × ℕ)

abbrev pub Changes : Type 0
Changes = List (ℕ × ℤ)

-- A call of the callback set for an entity, named by its `gid_hash`, and an event.
pub record Call : Type 0 where
  pub entity : ℕ
  pub event : ℕ
  pub callback : ℕ
  pub change : ℤ

-- `event_callbacks_` and `unregistered_event_changes_` by `gid_hash`, and the calls made so far.
pub record GraphEvents : Type 0 where
  pub event_callbacks : List (ℕ × Callbacks)
  pub unregistered : List (ℕ × Changes)
  pub log : List Call

-- `map.find(k)` and then `->second.find(j)`.
unfoldable pub find_in {ℓ} : {V : Type ℓ} → ℕ → ℕ → List (ℕ × List (ℕ × V)) → Option V
find_in k j m = elim (find k m) [ none ↦ none | some inner ↦ find j inner ]

-- `map[k][j] = v`
unfoldable pub put_in {ℓ} :
    {V : Type ℓ} → ℕ → ℕ → V → List (ℕ × List (ℕ × V)) → List (ℕ × List (ℕ × V))
put_in k j v m = elim (find k m) [
  | none ↦ put k ((j, v) ∷ []) m
  | some inner ↦ put k (put j v inner) m
]

-- The inner entry goes, and the outer one when it is then empty.
unfoldable pub erase_in {ℓ} :
    {V : Type ℓ} → ℕ → ℕ → List (ℕ × List (ℕ × V)) → List (ℕ × List (ℕ × V))
erase_in k j m = elim (find k m) [
  | none ↦ m
  | some inner ↦ let inner' = erase j inner in if is_empty inner' then erase k m else put k inner' m
]

-- `update_unregistered_event_changes`
unfoldable pub add_change : ℕ → ℕ → ℤ → List (ℕ × Changes) → List (ℕ × Changes)
unfolding find_in put_in
add_change g i change m = elim (find_in g i m) [
  | none ↦ put_in g i change m
  | some c ↦ put_in g i (c +ℤ change) m
]

unfoldable pub update_event_counters : Entity → ℕ → ℤ → GraphEvents → GraphEvents
unfolding find_in add_change
update_event_counters entity i change s =
    if ltb event_id_max i then s else elim (find_in entity.gid_hash i s.event_callbacks) [
      | none ↦ record {
        event_callbacks = s.event_callbacks;
        unregistered = add_change entity.gid_hash i change s.unregistered;
        log = s.log;
      }
      | some c ↦ record {
        event_callbacks = s.event_callbacks;
        unregistered = s.unregistered;
        log =
            s.log
            ++ (record { entity = entity.gid_hash; event = i; callback = c; change = change }) ∷ [];
      }
    ]

unfoldable pub set_qos_event_callback : ℕ → ℕ → ℕ → GraphEvents → GraphEvents
unfolding find_in put_in erase_in
set_qos_event_callback g i c s =
    if ltb event_id_max i then s else elim (find_in g i s.unregistered) [
      | none ↦ record {
        event_callbacks = put_in g i c s.event_callbacks;
        unregistered = s.unregistered;
        log = s.log;
      }
      | some change ↦ record {
        event_callbacks = put_in g i c s.event_callbacks;
        unregistered = erase_in g i s.unregistered;
        log = s.log ++ (record { entity = g; event = i; callback = c; change = change }) ∷ [];
      }
    ]

unfoldable pub remove_qos_event_callbacks : ℕ → GraphEvents → GraphEvents
remove_qos_event_callbacks g s = record {
  event_callbacks = erase g s.event_callbacks;
  unregistered = s.unregistered;
  log = s.log;
}

-- The event of a local entity of one side when the other side changes.
abbrev pub matched_event : Bool → ℕ
matched_event is_pub = if is_pub then event_publication_matched else event_subscription_matched

abbrev pub other_side : Bool → TopicData → EntitySet
other_side is_pub topic = if is_pub then topic.subs else topic.pubs

unfoldable pub same_keyexpr : Option TopicInfo → Option TopicInfo → Bool
same_keyexpr (some s) (some t) = s.topic_keyexpr == t.topic_keyexpr
same_keyexpr _ _ = false

-- The loop over the matching entities in `handle_matched_events_for_put`.
unfoldable pub notify_for_put : Bytes → Entity → EntitySet → GraphEvents → GraphEvents
unfolding same_keyexpr is_entity_local
notify_for_put zid entity [] s = s
notify_for_put zid entity (x ∷ xs) s = notify_for_put zid entity xs (
    if same_keyexpr entity.topic_info x.topic_info && is_entity_local zid x
    then update_event_counters x (matched_event (not (is_entity_pub entity))) (pos 1) s
    else s)

-- More entities than an `int32_t` counts are taken for none.
unfoldable pub capped_size : EntitySet → ℕ
capped_size xs = if ltb (2 ^ 31 - 1) (length xs) then 0 else length xs

-- `handle_matched_events_for_put` for an entity with topic information, from the running total
-- `match_count_for_entity`.
unfoldable pub matched_for_put : Bytes → Entity → ℤ → TopicQosMap → GraphEvents → GraphEvents
unfolding capped_size notify_for_put is_entity_local
matched_for_put zid entity count [] s = s
matched_for_put zid entity count ((_, topic) ∷ m) s =
    let xs = other_side (is_entity_pub entity) topic in
    let count' = count +ℤ pos (capped_size xs) in
    let s' = notify_for_put zid entity xs s in
    matched_for_put zid entity count' m (
      if is_entity_local zid entity && ltb_ℤ (pos 0) count'
      then update_event_counters entity (matched_event (is_entity_pub entity)) count' s'
      else s')

-- The loops of `handle_matched_events_for_del`.
unfoldable pub notify_for_del : Bytes → Entity → EntitySet → GraphEvents → GraphEvents
unfolding is_entity_local
notify_for_del zid entity [] s = s
notify_for_del zid entity (x ∷ xs) s = notify_for_del zid entity xs (
    if is_entity_local zid x
    then update_event_counters x (matched_event (not (is_entity_pub entity))) (negsuc 0) s
    else s)

unfoldable pub matched_for_del : Bytes → Entity → TopicQosMap → GraphEvents → GraphEvents
unfolding notify_for_del
matched_for_del zid entity [] s = s
matched_for_del zid entity ((_, topic) ∷ m) s =
    matched_for_del zid entity m
      (notify_for_del zid entity (other_side (is_entity_pub entity) topic) s)
