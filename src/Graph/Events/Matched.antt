-- ===== src/Graph/Events/Matched.antt =====
-- What `handle_matched_events_for_put` and `handle_matched_events_for_del` of detail/graph_cache.cpp
-- report.
use rmw_zenoh.Common.{
  ℕ, ◌≡◌, ◌+◌, refl, sym, ap, ◌∙◌, Bool, true, false, not, ◌&&◌, [], ◌∷◌, ◌==◌, nat_eq, ltb, arith,
  if◌then◌else◌,
}
use rmw_zenoh.Common.Text.{Bytes}
use rmw_zenoh.Common.Int.{ℤ, pos, ◌+ℤ◌, +ℤ-zero, ltb_ℤ}
use rmw_zenoh.Event.{event_id_max}
use rmw_zenoh.Liveliness.Entity.{Entity}
use rmw_zenoh.Graph.{EntitySet, TopicQosMap, is_entity_pub, is_entity_local}
use rmw_zenoh.Graph.Events.{
  GraphEvents, update_event_counters, matched_event, other_side, same_keyexpr, notify_for_put,
  matched_for_put, capped_size,
}
use rmw_zenoh.Graph.Events.Conservation.{accounted, update, step, reported}
use rmw_zenoh.Graph.Events.Totals.{step-accounted}

update-accounted :
    (g i : ℕ) (x : Entity) (j : ℕ) (c : ℤ) (s : GraphEvents)
    → accounted g i (update_event_counters x j c s)
      ≡ accounted g i s
        +ℤ (if g == x.gid_hash && i == j && not (ltb event_id_max j) then c else pos 0)
unfolding step reported
update-accounted g i x j c s = step-accounted g i (update x j c) s

-- How many entities of a set have a hash and pass a test.
abbrev pub occurrences : (Entity → Bool) → ℕ → EntitySet → ℕ
occurrences test g [] = 0
occurrences test g (x ∷ xs) =
    if g == x.gid_hash && test x then 1 + occurrences test g xs else occurrences test g xs

pos-+ℤ : (a : ℤ) (m n : ℕ) → a +ℤ pos m +ℤ pos n ≡ a +ℤ pos (m + n)
unfolding ◌+ℤ◌
pos-+ℤ a m n = ground arith

-- When an entity appears, the entities of a set are told of one more match: those that are local and
-- share its key expression, once each; nothing else is reported.
notify_for_put-accounted :
    (zid : Bytes) (entity : Entity) (xs : EntitySet) (s : GraphEvents) (g i : ℕ)
    → accounted g i (notify_for_put zid entity xs s)
      ≡ accounted g i s
        +ℤ pos (
            if i == matched_event (not (is_entity_pub entity))
            then occurrences
                (λ x. same_keyexpr entity.topic_info x.topic_info && is_entity_local zid x)
                g
                xs
            else 0)
unfolding notify_for_put
notify_for_put-accounted zid entity [] s g i = ground (arith, +ℤ-zero (accounted g i s))
notify_for_put-accounted zid entity (x ∷ xs) s g i =
    let j = matched_event (not (is_entity_pub entity)) in
    ground (
      arith,
      notify_for_put-accounted zid entity xs s g i,
      notify_for_put-accounted zid entity xs (update_event_counters x j (pos 1) s) g i,
      update-accounted g i x j (pos 1) s,
      pos-+ℤ (accounted g i s) 1 (
          occurrences (λ x. same_keyexpr entity.topic_info x.topic_info && is_entity_local zid x) g
            xs),
      +ℤ-zero (accounted g i s),
    )

-- The entities over all profiles that are told of one more match.
abbrev pub all_occurrences : Bytes → Entity → ℕ → TopicQosMap → ℕ
all_occurrences zid entity g [] = 0
all_occurrences zid entity g ((_, topic) ∷ m) =
    occurrences (λ x. same_keyexpr entity.topic_info x.topic_info && is_entity_local zid x) g
      (other_side (is_entity_pub entity) topic)
    + all_occurrences zid entity g m

events_differ : (b : Bool) → (matched_event (not b) == matched_event b) ≡ false
events_differ true = refl
events_differ false = refl

-- What the new entity is told is of the event of its own side.
own_elsewhere :
    (zid : Bytes) (entity : Entity) (g : ℕ) (count : ℤ) (s : GraphEvents)
    → accounted g (matched_event (not (is_entity_pub entity))) (
        if is_entity_local zid entity && ltb_ℤ (pos 0) count
        then update_event_counters entity (matched_event (is_entity_pub entity)) count s
        else s)
      ≡ accounted g (matched_event (not (is_entity_pub entity))) s
own_elsewhere zid entity g count s =
    let i = matched_event (not (is_entity_pub entity)) in
    ground (
      arith,
      update-accounted g i entity (matched_event (is_entity_pub entity)) count s,
      events_differ (is_entity_pub entity),
      +ℤ-zero (accounted g i s),
    )

-- When an entity appears, one more match is told, or waits for a callback, for each local entity of
-- the other side with its key expression, for each time it stands in the entries over all profiles.
pub matched_for_put-others :
    (zid : Bytes) (entity : Entity) (count : ℤ) (m : TopicQosMap) (s : GraphEvents) (g : ℕ)
    → accounted g
        (matched_event (not (is_entity_pub entity)))
        (matched_for_put zid entity count m s)
      ≡ accounted g (matched_event (not (is_entity_pub entity))) s
        +ℤ pos (all_occurrences zid entity g m)
unfolding matched_for_put
matched_for_put-others zid entity count [] s g =
    sym (+ℤ-zero (accounted g (matched_event (not (is_entity_pub entity))) s))
matched_for_put-others zid entity count ((q, topic) ∷ m) s g =
    let pub_side = is_entity_pub entity in
    let i = matched_event (not pub_side) in
    let j = matched_event pub_side in
    let xs = other_side pub_side topic in
    let count' = count +ℤ pos (capped_size xs) in
    let s' = notify_for_put zid entity xs s in
    let s'' =
      if is_entity_local zid entity && ltb_ℤ (pos 0) count'
      then update_event_counters entity j count' s'
      else s' in
    let own = own_elsewhere zid entity g count' s' in
    let one = notify_for_put-accounted zid entity xs s g i in
    let n =
      occurrences (λ x. same_keyexpr entity.topic_info x.topic_info && is_entity_local zid x) g
        xs in
    ground (
      arith,
      matched_for_put-others zid entity count' m s'' g,
      own,
      one,
      pos-+ℤ (accounted g i s) n (all_occurrences zid entity g m),
    )

-- The total that an entity is told of, summed over the profiles: each profile adds all that has been
-- counted so far.
abbrev pub running_totals : Entity → ℕ → TopicQosMap → ℕ
running_totals entity n [] = 0
running_totals entity n ((_, topic) ∷ m) =
    let n' = n + capped_size (other_side (is_entity_pub entity) topic) in
    n' + running_totals entity n' m

pos-pos : (m n : ℕ) → pos m +ℤ pos n ≡ pos (m + n)
unfolding ◌+ℤ◌
pos-pos m n = ground arith

notify_for_put-own :
    (zid : Bytes) (entity : Entity) (xs : EntitySet) (s : GraphEvents) (g : ℕ)
    → accounted g (matched_event (is_entity_pub entity)) (notify_for_put zid entity xs s)
      ≡ accounted g (matched_event (is_entity_pub entity)) s
notify_for_put-own zid entity xs s g =
    let i = matched_event (is_entity_pub entity) in
    ground (
      arith,
      notify_for_put-accounted zid entity xs s g i,
      events_differ (is_entity_pub entity),
      +ℤ-zero (accounted g i s),
    )

own_told :
    (zid : Bytes) (entity : Entity) (n : ℕ) (s : GraphEvents)
    → is_entity_local zid entity ≡ true
    → accounted entity.gid_hash (matched_event (is_entity_pub entity)) (
        if is_entity_local zid entity && ltb_ℤ (pos 0) (pos n)
        then update_event_counters entity (matched_event (is_entity_pub entity)) (pos n) s
        else s)
      ≡ accounted entity.gid_hash (matched_event (is_entity_pub entity)) s +ℤ pos n
own_told zid entity n s h =
    let i = matched_event (is_entity_pub entity) in
    ground (
      arith,
      update-accounted entity.gid_hash i entity i (pos n) s,
      +ℤ-zero (accounted entity.gid_hash i s),
    )

-- For a local entity that appears there are told, or wait for a callback, for each profile known for
-- its topic and type, all the matches counted up to that profile: with several profiles the first
-- ones count again and again.
pub matched_for_put-own :
    (zid : Bytes) (entity : Entity) (n : ℕ) (m : TopicQosMap) (s : GraphEvents)
    → is_entity_local zid entity ≡ true
    → accounted entity.gid_hash
        (matched_event (is_entity_pub entity))
        (matched_for_put zid entity (pos n) m s)
      ≡ accounted entity.gid_hash (matched_event (is_entity_pub entity)) s
        +ℤ pos (running_totals entity n m)
unfolding matched_for_put
matched_for_put-own zid entity n [] s h =
    sym (+ℤ-zero (accounted entity.gid_hash (matched_event (is_entity_pub entity)) s))
matched_for_put-own zid entity n ((q, topic) ∷ m) s h =
    let j = matched_event (is_entity_pub entity) in
    let g = entity.gid_hash in
    let xs = other_side (is_entity_pub entity) topic in
    let n' = n + capped_size xs in
    let s' = notify_for_put zid entity xs s in
    let next : ℤ → GraphEvents = λ c.
      if is_entity_local zid entity && ltb_ℤ (pos 0) c
      then update_event_counters entity j c s'
      else s' in
    ap (λ c. accounted g j (matched_for_put zid entity c m (next c))) (pos-pos n (capped_size xs))
    ∙ matched_for_put-own zid entity n' m (next (pos n')) h
    ∙ ap (λ a. a +ℤ pos (running_totals entity n' m))
        (own_told zid entity n' s' h ∙ ap (λ a. a +ℤ pos n') (notify_for_put-own zid entity xs s g))
    ∙ pos-+ℤ (accounted g j s) n' (running_totals entity n' m)
