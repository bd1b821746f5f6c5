-- ===== src/Liveliness/Entity/Errors.antt =====
-- Which tokens `Entity::make` of detail/liveliness_utils.cpp accepts, and what it does with others.
use rmw_zenoh.Common.{
  ℕ, ◌≡◌, ◌≢◌, refl, sym, subst, true, false, List, [], ◌∷◌, Option, none, some, arith, nat_eq,
  is_empty, Option-cases, inl, inr,
}
use rmw_zenoh.Common.Text.{Bytes, bytes_eq}
use rmw_zenoh.Qos.{Rmw}
use rmw_zenoh.Liveliness.{EntityType, NodeInfo, TopicInfo, slash, demangle_name}
use rmw_zenoh.Liveliness.Split.{split_keyexpr}
use rmw_zenoh.Liveliness.Gid.{Hashes, gid_of, hash_gid}
use rmw_zenoh.Liveliness.Entity.{
  Entity, str_to_entity, make_entity, make, has_value, parsed, any_empty, stoul, parse_topic,
  parse_typed, parse_domain, parse_parts, make_from_keyexpr,
}

-- What every entity satisfies, however it is made: it can be identified, its node is named, and it
-- has a topic unless it is a node.
pub record IsWellFormed (h : Hashes) (e : Entity) : Type 0 where
  pub id : e.id ≢ []
  pub ns : e.node_info.ns ≢ []
  pub name : e.node_info.name ≢ []
  pub topic : e.type ≢ EntityType.node → has_value e.topic_info ≡ true
  pub gid : e.gid ≡ gid_of h e.liveliness_keyexpr
  pub gid_hash : e.gid_hash ≡ hash_gid h e.gid

parsed_injective : {e f : Entity} → parsed e ≡ parsed f → e ≡ f
parsed_injective p = cc

make_entity-IsWellFormed :
    (r : Rmw) (h : Hashes) (zid nid id : Bytes) (type : EntityType) (node : NodeInfo)
    (topic : Option TopicInfo)
    → id ≢ []
    → node.ns ≢ []
    → node.name ≢ []
    → (type ≢ EntityType.node → has_value topic ≡ true)
    → IsWellFormed h (make_entity r h zid nid id type node topic)
unfolding make_entity
make_entity-IsWellFormed r h zid nid id type node topic hi hs hn ht = record {
  id = hi;
  ns = hs;
  name = hn;
  topic = ht;
  gid = refl;
  gid_hash = refl;
}

make_checks :
    (r : Rmw) (h : Hashes) (zid nid id : Bytes) (type : EntityType) (node : NodeInfo)
    (topic : Option TopicInfo) {e : Entity}
    → make r h zid nid id type node topic ≡ some e
    → (id ≢ [])
      × (node.ns ≢ [])
      × (node.name ≢ [])
      × (type ≢ EntityType.node → has_value topic ≡ true)
      × (make_entity r h zid nid id type node topic ≡ e)
unfolding make
make_checks r h zid nid id type node topic p =
    (ground arith, ground arith, ground arith, λ other. ground arith, ground arith)

-- What `Entity::make` makes from data has the data that it was given, an id, a node with a name and a
-- namespace, a topic unless it is a node, and the gid and the hash of its own token.
pub make-IsWellFormed :
    (r : Rmw) (h : Hashes) (zid nid id : Bytes) (type : EntityType) (node : NodeInfo)
    (topic : Option TopicInfo) {e : Entity}
    → make r h zid nid id type node topic ≡ some e
    → IsWellFormed h e × (e ≡ make_entity r h zid nid id type node topic)
make-IsWellFormed r h zid nid id type node topic p =
    let (hi, hs, hn, ht, same) = make_checks r h zid nid id type node topic p in
    (
      subst (IsWellFormed h) same
          (make_entity-IsWellFormed r h zid nid id type node topic hi hs hn ht),
      sym same,
    )

demangle_name-ne-nil : (s : Bytes) → is_empty s ≡ false → demangle_name s ≢ []
unfolding demangle_name
demangle_name-ne-nil [] h = cc
demangle_name-ne-nil (c ∷ s) h = ground arith

parse_typed-IsWellFormed :
    (r : Rmw) (h : Hashes) (zid nid id : Bytes) (type : EntityType) (node : NodeInfo)
    (rest : List Bytes) {e : Entity}
    → id ≢ []
    → node.ns ≢ []
    → node.name ≢ []
    → parse_typed r h zid nid id type node rest ≡ parsed e
    → IsWellFormed h e
unfolding parse_typed
parse_typed-IsWellFormed r h zid nid id EntityType.node node rest hi hs hn p =
    subst (IsWellFormed h) (parsed_injective p) (
      make_entity-IsWellFormed r h zid nid id EntityType.node node none hi hs hn
        (λ other. absurd (other refl)))
parse_typed-IsWellFormed r h zid nid id type node rest hi hs hn p =
    elim (Option-cases (parse_topic r node.domain_id rest)) [
      | inl bad ↦ ground arith
      | inr (t, good) ↦
          subst (IsWellFormed h) (ground arith)
            (make_entity-IsWellFormed r h zid nid id type node (some t) hi hs hn (λ other. refl))
    ]

parse_domain-IsWellFormed :
    (r : Rmw) (h : Hashes) (zid nid id : Bytes) (type : EntityType) (domain : Option ℕ)
    (enclave ns name : Bytes) (rest : List Bytes) {e : Entity}
    → is_empty id ≡ false
    → is_empty ns ≡ false
    → is_empty name ≡ false
    → parse_domain r h zid nid id type domain enclave ns name rest ≡ parsed e
    → IsWellFormed h e
unfolding parse_domain
parse_domain-IsWellFormed r h zid nid id type none enclave ns name rest hi hs hn p = cc
parse_domain-IsWellFormed r h zid nid id type (some d) enclave ns name rest hi hs hn p =
    parse_typed-IsWellFormed r h zid nid id type _ rest (ground arith) (demangle_name-ne-nil ns hs)
      (demangle_name-ne-nil name hn) p

parse_parts-IsWellFormed :
    (r : Rmw) (h : Hashes) (parts : List Bytes) {e : Entity}
    → parse_parts r h parts ≡ parsed e
    → IsWellFormed h e
unfolding parse_parts
parse_parts-IsWellFormed r h
      (admin ∷ domain ∷ zid ∷ nid ∷ id ∷ entity_str ∷ enclave ∷ ns ∷ name ∷ rest) p =
    elim (Option-cases (str_to_entity entity_str)) [
      | inl bad ↦ ground arith
      | inr (type, known) ↦
          parse_domain-IsWellFormed r h zid nid id type (stoul domain) enclave ns name rest
            (unfold any_empty in ground arith) (unfold any_empty in ground arith)
            (unfold any_empty in ground arith) (ground arith)
    ]
parse_parts-IsWellFormed r h _ p = cc

-- Every entity that is made from a token has an id, a node with a name and a namespace, a topic
-- unless it is a node, and the gid and the hash of its own token.
pub make_from_keyexpr-IsWellFormed :
    (r : Rmw) (h : Hashes) (keyexpr : Bytes) {e : Entity}
    → make_from_keyexpr r h keyexpr ≡ parsed e
    → IsWellFormed h e
unfolding make_from_keyexpr
make_from_keyexpr-IsWellFormed r h keyexpr p =
    parse_parts-IsWellFormed r h (split_keyexpr keyexpr slash) p
