-- ===== src/Graph/Endpoints/Lists.antt =====
-- The lists of endpoints of detail/graph_cache.cpp agree with its counts.
use rmw_zenoh.Common.{
  ℕ, zero, suc, ◌^◌, ◌<◌, ◌≡◌, ◌≢◌, refl, ap, ◌∙◌, sym, subst, true, List, [], ◌∷◌, ◌++◌, Option,
  none, some, arith, ◌⊎◌, inl, inr, length, length-append, append_assoc, append-nil,
}
use rmw_zenoh.Common.Text.{Bytes, bytes_eq}
use rmw_zenoh.Common.Map.{find}
use rmw_zenoh.Qos.{RmwRet}
use rmw_zenoh.Liveliness.{EntityType}
use rmw_zenoh.Graph.{EntitySet, TopicData, TopicQosMap, TopicTypeMap, TopicMap}
use rmw_zenoh.Graph.Nodes.{GraphCache}
use rmw_zenoh.Graph.Count.{subs_of, count_in, count_services}
use rmw_zenoh.Graph.Count.Laws.{total_qos, total_types, count_in_lem}
use rmw_zenoh.Graph.Endpoints.{
  Parsers, EndpointInfo, endpoint_of, Listed, listed, failed, then_list, unless_failed, call_all,
  list_entities, list_qos, list_types, list_in, service_setters, get_entities_info_by_service,
}

module _ (p : Parsers) (type : EntityType) (side : TopicData → EntitySet) where
  -- The endpoints of one side, in the order of the loops.
  abbrev pub entities_of : Bytes → TopicData → EntitySet → List EndpointInfo
  entities_of topic_type topic [] = []
  entities_of topic_type topic (entity ∷ entities) =
      endpoint_of p type topic_type topic entity ∷ entities_of topic_type topic entities

  abbrev pub qos_endpoints : Bytes → TopicQosMap → List EndpointInfo
  qos_endpoints topic_type [] = []
  qos_endpoints topic_type ((_, topic) ∷ m) =
      entities_of topic_type topic (side topic) ++ qos_endpoints topic_type m

  abbrev pub all_endpoints : TopicTypeMap → List EndpointInfo
  all_endpoints [] = []
  all_endpoints ((topic_type, m) ∷ types) = qos_endpoints topic_type m ++ all_endpoints types

  length-entities_of :
      (topic_type : Bytes) (topic : TopicData) (entities : EntitySet)
      → length (entities_of topic_type topic entities) ≡ length entities
  length-entities_of topic_type topic [] = refl
  length-entities_of topic_type topic (entity ∷ entities) =
      omega (arith, length-entities_of topic_type topic entities)

  length-qos_endpoints :
      (topic_type : Bytes) (m : TopicQosMap)
      → length (qos_endpoints topic_type m) ≡ total_qos side m
  length-qos_endpoints topic_type [] = refl
  length-qos_endpoints topic_type ((_, topic) ∷ m) = omega (
    arith,
    length-append (entities_of topic_type topic (side topic)) (qos_endpoints topic_type m),
    length-entities_of topic_type topic (side topic),
    length-qos_endpoints topic_type m,
  )

  length-all_endpoints :
      (types : TopicTypeMap) → length (all_endpoints types) ≡ total_types side types
  length-all_endpoints [] = refl
  length-all_endpoints ((topic_type, m) ∷ types) = omega (
    arith,
    length-append (qos_endpoints topic_type m) (all_endpoints types),
    length-qos_endpoints topic_type m,
    length-all_endpoints types,
  )

-- The list that a loop gives, or an error.
abbrev pub Lists : List EndpointInfo → Listed → Type 0
Lists es (listed es' n) = es' ≡ es
Lists es (failed ret) = ret ≢ RmwRet.ok

module _ (p : Parsers) (setters : Bytes → ℕ) (ret_of : ℕ → RmwRet) (type : EntityType)
    (side : TopicData → EntitySet) where
  -- A loop goes on from what the one before it has listed.
  then-Lists :
      (es fs : List EndpointInfo) (l : Listed) (f : List EndpointInfo → ℕ → Listed)
      → Lists es l
      → ((n : ℕ) → Lists fs (f es n))
      → Lists fs (then_list l f)
  then-Lists es fs (listed es' n) f e h = subst (λ x. Lists fs (f x n)) (sym e) (h n)
  then-Lists es fs (failed ret) f e h = e

  unless_failed-Lists :
      (es : List EndpointInfo) (ret : RmwRet) (l : Listed)
      → Lists es l
      → Lists es (unless_failed ret l)
  unless_failed-Lists es RmwRet.ok l h = h
  unless_failed-Lists es RmwRet.unsupported l h = ground arith
  unless_failed-Lists es RmwRet.error l h = ground arith
  unless_failed-Lists es RmwRet.invalid_argument l h = ground arith
  unless_failed-Lists es RmwRet.bad_alloc l h = ground arith
  unless_failed-Lists es RmwRet.node_name_non_existent l h = ground arith
  unless_failed-Lists es RmwRet.incorrect_rmw_implementation l h = ground arith
  unless_failed-Lists es RmwRet.timeout l h = ground arith

  call_all-Lists :
      (k : ℕ) (es : List EndpointInfo) (n : ℕ) → Lists es (call_all p setters ret_of type k es n)
  unfolding call_all
  call_all-Lists zero es n = refl
  call_all-Lists (suc k) es n =
      unless_failed-Lists es (ret_of n) (call_all p setters ret_of type k es (suc n))
        (call_all-Lists k es (suc n))

  list_entities-Lists :
      (topic_type : Bytes) (topic : TopicData) (entities : EntitySet) (es : List EndpointInfo)
      (n : ℕ)
      → Lists
          (es ++ entities_of p type side topic_type topic entities)
          (list_entities p setters ret_of type topic_type topic entities es n)
  unfolding list_entities
  list_entities-Lists topic_type topic [] es n = sym (append-nil es)
  list_entities-Lists topic_type topic (entity ∷ entities) es n =
      let e = endpoint_of p type topic_type topic entity in
      let rest = entities_of p type side topic_type topic entities in
      subst
        (λ x.
          Lists x (list_entities p setters ret_of type topic_type topic (entity ∷ entities) es n))
        (append_assoc es (e ∷ []) rest)
        (then-Lists (es ++ e ∷ []) (es ++ e ∷ [] ++ rest)
          (call_all p setters ret_of type (setters topic.info.type_hash) (es ++ e ∷ []) n)
          (list_entities p setters ret_of type topic_type topic entities)
          (call_all-Lists (setters topic.info.type_hash) (es ++ e ∷ []) n)
          (λ k. list_entities-Lists topic_type topic entities (es ++ e ∷ []) k))

  list_qos-Lists :
      (topic_type : Bytes) (m : TopicQosMap) (es : List EndpointInfo) (n : ℕ)
      → Lists
          (es ++ qos_endpoints p type side topic_type m)
          (list_qos p setters ret_of type side topic_type m es n)
  unfolding list_qos
  list_qos-Lists topic_type [] es n = sym (append-nil es)
  list_qos-Lists topic_type ((q, topic) ∷ m) es n =
      let xs = entities_of p type side topic_type topic (side topic) in
      let rest = qos_endpoints p type side topic_type m in
      subst (λ x. Lists x (list_qos p setters ret_of type side topic_type ((q, topic) ∷ m) es n))
        (append_assoc es xs rest)
        (then-Lists (es ++ xs) (es ++ xs ++ rest)
          (list_entities p setters ret_of type topic_type topic (side topic) es n)
          (list_qos p setters ret_of type side topic_type m)
          (list_entities-Lists topic_type topic (side topic) es n)
          (λ k. list_qos-Lists topic_type m (es ++ xs) k))

  list_types-Lists :
      (types : TopicTypeMap) (es : List EndpointInfo) (n : ℕ)
      → Lists
          (es ++ all_endpoints p type side types)
          (list_types p setters ret_of type side types es n)
  unfolding list_types
  list_types-Lists [] es n = sym (append-nil es)
  list_types-Lists ((topic_type, m) ∷ types) es n =
      let xs = qos_endpoints p type side topic_type m in
      let rest = all_endpoints p type side types in
      subst (λ x. Lists x (list_types p setters ret_of type side ((topic_type, m) ∷ types) es n))
        (append_assoc es xs rest)
        (then-Lists (es ++ xs) (es ++ xs ++ rest)
          (list_qos p setters ret_of type side topic_type m es n)
          (list_types p setters ret_of type side types) (list_qos-Lists topic_type m es n)
          (λ k. list_types-Lists types (es ++ xs) k))

  -- A code and a list: all endpoints, or an error and no list.
  abbrev pub IsListing : TopicTypeMap → RmwRet × Option (List EndpointInfo) → Type 0
  IsListing types (ret, es) =
      ((ret ≡ RmwRet.ok) × (es ≡ some (all_endpoints p type side types)))
      ⊎ ((ret ≢ RmwRet.ok) × (es ≡ none))

  Lists-IsListing :
      (types : TopicTypeMap) (l : Listed)
      → Lists (all_endpoints p type side types) l
      → IsListing types (elim l [ failed ret ↦ (ret, none) | listed es n ↦ (RmwRet.ok, some es) ])
  Lists-IsListing types (failed ret) h = inr (h, refl)
  Lists-IsListing types (listed es n) h = inl (refl, ap some h)

  list_in-IsListing :
      (name : Bytes) (m : TopicMap) (types : TopicTypeMap)
      → find name m ≡ some types
      → IsListing types (list_in p setters ret_of type side name m)
  unfolding list_in
  list_in-IsListing name m types e =
      let all = all_endpoints p type side types in
      let l =
        then_list (list_types p setters ret_of type side types [] 0)
          (call_all p setters ret_of type 1) in
      subst (IsListing types)
        (ap
          (λ (o : Option TopicTypeMap). elim o [
            | none ↦ (RmwRet.ok, none)
            | some ts ↦
                elim (then_list (list_types p setters ret_of type side ts [] 0)
                  (call_all p setters ret_of type 1)) [
                    | failed ret ↦ (ret, none)
                    | listed es n ↦ (RmwRet.ok, some es)
                  ]
          ])
          (sym e))
        (Lists-IsListing types l (
          then-Lists all all (list_types p setters ret_of type side types [] 0)
            (call_all p setters ret_of type 1) (list_types-Lists types [] 0)
            (λ k. call_all-Lists 1 all k)))

-- A code and a list: as many endpoints as a count says, or an error and no list.
abbrev pub AgreesWith : ℕ → RmwRet × Option (List EndpointInfo) → Type 0
AgreesWith count (ret, list) =
    ((ret ≡ RmwRet.ok) × (es : List EndpointInfo) × (list ≡ some es) × (length es ≡ count))
    ⊎ ((ret ≢ RmwRet.ok) × (list ≡ none))

list_in-AgreesWith :
    (p : Parsers) (setters : Bytes → ℕ) (ret_of : ℕ → RmwRet) (type : EntityType)
    (side : TopicData → EntitySet) (name : Bytes) (m : TopicMap) (types : TopicTypeMap)
    → find name m ≡ some types
    → total_types side types < 2 ^ 64
    → AgreesWith (count_in side name m) (list_in p setters ret_of type side name m)
list_in-AgreesWith p setters ret_of type side name m types e fits =
    elim (list_in-IsListing p setters ret_of type side name m types e) [
      | inl (ok, all) ↦ inl (
        ok,
        all_endpoints p type side types,
        all,
        length-all_endpoints p type side types ∙ sym (count_in_lem side name m types e fits),
      )
      | inr (bad, nothing) ↦ inr (bad, nothing)
    ]

-- For a service in the graph, with fewer than 2 ^ 64 servers, `get_entities_info_by_service` lists as
-- many servers as `count_services` counts, or returns an error of one of the calls and no list; the
-- allocator is valid.
pub services_info-count :
    (p : Parsers) (ret_of : ℕ → RmwRet) (name : Bytes) (c : GraphCache) (types : TopicTypeMap)
    → find name c.graph_services ≡ some types
    → total_types subs_of types < 2 ^ 64
    → AgreesWith
        (count_services name c)
        (get_entities_info_by_service p ret_of true EntityType.service name c)
unfolding get_entities_info_by_service count_services
services_info-count p ret_of name c types e fits =
    list_in-AgreesWith p (service_setters p) ret_of EntityType.service subs_of name c.graph_services
      types e fits
