-- ===== src/Graph/Topics/Pruned.antt =====
-- Topic maps keep no empty map and no entry without an endpoint: detail/graph_cache.cpp.
use rmw_zenoh.Common.{
  ◌≡◌, refl, sym, ◌∙◌, subst, Bool, false, List, [], ◌∷◌, ◌++◌, is_empty, arith, Option-branches,
  if-branches, inl, inr, All, All-append,
}
use rmw_zenoh.Common.Text.{Bytes, bytes_eq}
use rmw_zenoh.Common.Map.{find, append, assign, insert_sorted}
use rmw_zenoh.Common.Map.Laws.{All-find, All-assign, All-erase, All-insert_sorted}
use rmw_zenoh.Qos.{Rmw}
use rmw_zenoh.Liveliness.{TopicInfo}
use rmw_zenoh.Liveliness.Entity.{Entity}
use rmw_zenoh.Liveliness.Profile.{qos_to_keyexpr}
use rmw_zenoh.Graph.{
  insert, member, TopicData, TopicQosMap, TopicTypeMap, TopicMap, make_topic_data, add_entity,
  remove_entity,
}
use rmw_zenoh.Graph.Events.{GraphEvents}
use rmw_zenoh.Graph.Topics.Lookup.{Found, del_at-cases}
use rmw_zenoh.Graph.Topics.{
  put_qos, put_type, put_name, update_topic_map_for_put, update_topic_map_for_del, del_result,
  has_none, del_qos, erase_or_assign,
}

abbrev pub IsPrunedQos : TopicQosMap → Type 0
IsPrunedQos m = is_empty m ≡ false × All (λ p. has_none p.1 ≡ false) m

abbrev pub IsPrunedTypes : TopicTypeMap → Type 0
IsPrunedTypes m = is_empty m ≡ false × All (λ p. IsPrunedQos p.1) m

abbrev pub IsPruned : TopicMap → Type 0
IsPruned m = All (λ p. IsPrunedTypes p.1) m

make_topic_data-has_none :
    (info : TopicInfo) (entity : Entity) → has_none (make_topic_data info entity) ≡ false
unfolding make_topic_data has_none
make_topic_data-has_none info entity = ground arith

insert-is_empty : (x : Entity) (xs : List Entity) → is_empty (insert x xs) ≡ false
unfolding insert member
insert-is_empty x [] = refl
insert-is_empty x (y ∷ ys) = ground arith

add_entity-has_none :
    (entity : Entity) (topic : TopicData) → has_none (add_entity entity topic) ≡ false
unfolding add_entity has_none
add_entity-has_none entity topic =
    ground (arith, insert-is_empty entity topic.pubs, insert-is_empty entity topic.subs)

assign-is_empty {ℓ} :
    {V : Type ℓ} (k : Bytes) (v : V) (m : List (Bytes × V)) → is_empty (assign k v m) ≡ is_empty m
unfolding assign
assign-is_empty k v [] = refl
assign-is_empty k v ((i, x) ∷ m) = ground arith

append-is_empty {ℓ} : {A : Type ℓ} (m : List A) (x : A) → is_empty (m ++ x ∷ []) ≡ false
append-is_empty [] x = refl
append-is_empty (y ∷ m) x = refl

put_qos-IsPrunedQos :
    (q : Bytes) (info : TopicInfo) (entity : Entity) (m : TopicQosMap)
    → IsPrunedQos m
    → IsPrunedQos (put_qos q info entity m)
unfolding put_qos
put_qos-IsPrunedQos q info entity m (e, h) =
    Option-branches IsPrunedQos (find q m) (append q (make_topic_data info entity) m)
      (λ topic. assign q (add_entity entity topic) m)
      (λ _. (
        append-is_empty m (q, make_topic_data info entity),
        All-append _ m ((q, make_topic_data info entity) ∷ []) h
            (make_topic_data-has_none info entity, tt),
      ))
      (λ topic _. (
        assign-is_empty q (add_entity entity topic) m ∙ e,
        All-assign (λ d. has_none d ≡ false) q (add_entity entity topic) m
            (add_entity-has_none entity topic) h,
      ))

put_type-IsPrunedTypes :
    (q : Bytes) (info : TopicInfo) (entity : Entity) (m : TopicTypeMap)
    → IsPrunedTypes m
    → IsPrunedTypes (put_type q info entity m)
unfolding put_type
put_type-IsPrunedTypes q info entity m (e, h) =
    let fresh = (q, make_topic_data info entity) ∷ [] in
    Option-branches IsPrunedTypes (find info.type m) (append info.type fresh m)
      (λ qoss. assign info.type (put_qos q info entity qoss) m)
      (λ _. (
        append-is_empty m (info.type, fresh),
        All-append _ m ((info.type, fresh) ∷ []) h
            ((refl, (make_topic_data-has_none info entity, tt)), tt),
      ))
      (λ qoss f. (
        assign-is_empty info.type (put_qos q info entity qoss) m ∙ e,
        All-assign IsPrunedQos info.type (put_qos q info entity qoss) m
            (put_qos-IsPrunedQos q info entity qoss (All-find IsPrunedQos info.type qoss m h f)) h,
      ))

put_name-IsPruned :
    (q : Bytes) (info : TopicInfo) (entity : Entity) (m : TopicMap)
    → IsPruned m
    → IsPruned (put_name q info entity m)
unfolding put_name
put_name-IsPruned q info entity m h =
    let fresh = (info.type, (q, make_topic_data info entity) ∷ []) ∷ [] in
    Option-branches IsPruned (find info.name m) (insert_sorted info.name fresh m)
      (λ types. assign info.name (put_type q info entity types) m)
      (λ _.
        All-insert_sorted IsPrunedTypes info.name fresh m
          (refl, ((refl, (make_topic_data-has_none info entity, tt)), tt)) h)
      (λ types f.
        All-assign IsPrunedTypes info.name (put_type q info entity types) m
          (put_type-IsPrunedTypes q info entity types
            (All-find IsPrunedTypes info.name types m h f))
          h)

-- A put leaves no empty map and no entry without an endpoint.
pub update_topic_map_for_put-IsPruned :
    (r : Rmw) (zid : Bytes) (report : Bool) (entity : Entity) (m : TopicMap) (s : GraphEvents)
    → IsPruned m
    → IsPruned (update_topic_map_for_put r zid report entity (m, s)).0
unfolding update_topic_map_for_put
update_topic_map_for_put-IsPruned r zid report entity m s h =
    Option-branches (λ (c : TopicMap × GraphEvents). IsPruned c.0) entity.topic_info (m, s) _
      (λ _. h) (λ info _. put_name-IsPruned (qos_to_keyexpr r info.qos) info entity m h)

del_qos-IsPruned :
    (q : Bytes) (entity : Entity) (topic : TopicData) (m : TopicQosMap)
    → IsPrunedQos m
    → All (λ p. has_none p.1 ≡ false) (del_qos q entity topic m)
unfolding del_qos
del_qos-IsPruned q entity topic m (_, h) =
    if-branches (λ (n : TopicQosMap). All (λ p. has_none p.1 ≡ false) n)
      (has_none (remove_entity entity topic)) _ _ (λ _. All-erase (λ d. has_none d ≡ false) q m h)
      (λ e. All-assign (λ d. has_none d ≡ false) q (remove_entity entity topic) m e h)

abbrev IsFilled {ℓ κ} : {V : Type ℓ} → (V → Type κ) → List (Bytes × List V) → Type κ
IsFilled P m = All (λ p. is_empty p.1 ≡ false × All P p.1) m

-- The map under a key, when it holds what it should and is empty or not.
erase_or_assign-All {ℓ κ} :
    {V : Type ℓ} (P : V → Type κ) (k : Bytes) (v : List V) (m : List (Bytes × List V))
    → All P v
    → IsFilled P m
    → IsFilled P (erase_or_assign k v m)
unfolding erase_or_assign
erase_or_assign-All P k v m hv h =
    if-branches (IsFilled P) (is_empty v) _ _
      (λ _. All-erase (λ w. is_empty w ≡ false × All P w) k m h)
      (λ e. All-assign (λ w. is_empty w ≡ false × All P w) k v m (e, hv) h)

del-IsPruned :
    (q : Bytes) (info : TopicInfo) (entity : Entity) (m : TopicMap) (types : TopicTypeMap)
    (qoss : TopicQosMap) (topic : TopicData)
    → IsPruned m
    → Found q info m types qoss topic
    → IsPruned (
        erase_or_assign info.name (erase_or_assign info.type (del_qos q entity topic qoss) types) m)
unfolding Found
del-IsPruned q info entity m types qoss topic h (f, (g, _)) =
    let ht = All-find IsPrunedTypes info.name types m h f in
    let hq = All-find IsPrunedQos info.type qoss types ht.1 g in
    erase_or_assign-All (λ p. IsPrunedQos p.1) info.name
      (erase_or_assign info.type (del_qos q entity topic qoss) types) m
      (erase_or_assign-All (λ p. has_none p.1 ≡ false) info.type (del_qos q entity topic qoss) types
        (del_qos-IsPruned q entity topic qoss hq) ht.1)
      h

-- A deletion leaves no empty map and no entry without an endpoint.
pub update_topic_map_for_del-IsPruned :
    (r : Rmw) (zid : Bytes) (report : Bool) (entity : Entity) (m : TopicMap) (s : GraphEvents)
    → IsPruned m
    → IsPruned (update_topic_map_for_del r zid report entity (m, s)).0
unfolding update_topic_map_for_del del_result
update_topic_map_for_del-IsPruned r zid report entity m s h =
    Option-branches (λ (c : TopicMap × GraphEvents). IsPruned c.0) entity.topic_info (m, s) _
      (λ _. h)
      (λ info _.
        let q = qos_to_keyexpr r info.qos in
        elim (del_at-cases q info m) [
          | inl (d, _) ↦
              subst (λ o. IsPruned (del_result zid report entity q info m s o).0) (sym d) h
          | inr (types, qoss, topic, (d, f)) ↦
              subst (λ o. IsPruned (del_result zid report entity q info m s o).0) (sym d)
                (del-IsPruned q info entity m types qoss topic h f)
        ])
