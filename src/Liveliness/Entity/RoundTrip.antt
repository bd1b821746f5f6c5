-- ===== src/Liveliness/Entity/RoundTrip.antt =====
-- A printed token of detail/liveliness_utils.cpp is parsed to the entity that printed it.
use rmw_zenoh.Common.{◌≡◌, ◌≢◌, ◌∙◌, refl, List, [], ◌∷◌, none, some, arith, nat_eq}
use rmw_zenoh.Common.Text.{Bytes, bytes_eq, to_string}
use rmw_zenoh.Qos.{QosProfile, Rmw, IsDistinct}
use rmw_zenoh.Liveliness.{EntityType, NodeInfo, TopicInfo, slash, mangle_name, make_topic_info}
use rmw_zenoh.Liveliness.Mangle.{demangle-mangle}
use rmw_zenoh.Liveliness.Split.{split_keyexpr, join, split-join}
use rmw_zenoh.Liveliness.Profile.{qos_to_keyexpr}
use rmw_zenoh.Liveliness.Profile.RoundTrip.{
  IsSized, keyexpr_to_qos-qos_to_keyexpr, qos_to_keyexpr-Lacks, qos_to_keyexpr-ne-nil,
}
use rmw_zenoh.Liveliness.Gid.{Hashes}
use rmw_zenoh.Liveliness.Entity.{
  admin_space, entity_to_str, print_token, make_entity, parsed, parse_topic, parse_typed,
  parse_domain, parse_parts, make_from_keyexpr,
}
use rmw_zenoh.Liveliness.Entity.Parts.{
  IsName, IsNode, ArePart, join_parts-join, join_parts_cut, ArePart-Lacks, any_empty_of_ArePart,
  mangle_name-IsPart, to_string-IsPart, entity_to_str-IsPart, str_to_entity-entity_to_str,
  stoul-to_string, parse_endpoint,
}

module _ (r : Rmw) (h : Hashes) (zid nid id : Bytes) (node : NodeInfo)
    (ids : ArePart (zid ∷ nid ∷ id ∷ [])) (valid : IsNode node) where
  -- The parts of every token.
  abbrev head_parts : EntityType → List Bytes → List Bytes
  head_parts type rest =
      admin_space
      ∷ to_string node.domain_id
      ∷ zid
      ∷ nid
      ∷ id
      ∷ entity_to_str type
      ∷ mangle_name node.enclave
      ∷ mangle_name node.ns
      ∷ mangle_name node.name
      ∷ rest

  head_parts-ArePart :
      (type : EntityType) (rest : List Bytes) → ArePart rest → ArePart (head_parts type rest)
  head_parts-ArePart type rest more = (
    (cc, omega arith),
    (
      to_string-IsPart node.domain_id,
      (
        ids.0,
        (
          ids.1.0,
          (
            ids.1.1.0,
            (
              entity_to_str-IsPart type,
              (
                mangle_name-IsPart node.enclave valid.enclave,
                (
                  mangle_name-IsPart node.ns valid.ns,
                  (mangle_name-IsPart node.name valid.name, more),
                ),
              ),
            ),
          ),
        ),
      ),
    ),
  )

  split_head :
      (type : EntityType) (rest : List Bytes)
      → ArePart rest
      → split_keyexpr (join slash (head_parts type rest)) slash ≡ head_parts type rest
  split_head type rest more =
      split-join slash admin_space
        (to_string node.domain_id
          ∷ zid
          ∷ nid
          ∷ id
          ∷ entity_to_str type
          ∷ mangle_name node.enclave
          ∷ mangle_name node.ns
          ∷ mangle_name node.name
          ∷ rest)
        (ArePart-Lacks (head_parts type rest) (head_parts-ArePart type rest more))

  parse_head :
      (type : EntityType) (rest : List Bytes)
      → ArePart rest
      → parse_parts r h (head_parts type rest) ≡ parse_typed r h zid nid id type node rest
  unfolding parse_parts parse_domain
  parse_head type rest more = rw (
    any_empty_of_ArePart (head_parts type rest) (head_parts-ArePart type rest more),
    str_to_entity-entity_to_str type,
    stoul-to_string node.domain_id valid.domain_id,
    demangle-mangle node.enclave valid.enclave.1,
    demangle-mangle node.ns valid.ns.1,
    demangle-mangle node.name valid.name.1,
  )

  parse_token :
      (type : EntityType) (rest : List Bytes) (keyexpr : Bytes)
      → ArePart rest
      → keyexpr ≡ join slash (head_parts type rest)
      → make_from_keyexpr r h keyexpr ≡ parse_typed r h zid nid id type node rest
  unfolding make_from_keyexpr
  parse_token type rest keyexpr more e =
      rw (e, split_head type rest more) (parse_head type rest more)

  node_token :
      print_token r zid nid id EntityType.node node none
      ≡ join slash (head_parts EntityType.node [])
  unfolding print_token
  node_token =
      join_parts_cut admin_space
        (to_string node.domain_id
          ∷ zid
          ∷ nid
          ∷ id
          ∷ entity_to_str EntityType.node
          ∷ mangle_name node.enclave
          ∷ mangle_name node.ns
          ∷ mangle_name node.name
          ∷ [])
        ([] ∷ [] ∷ [] ∷ []) (head_parts-ArePart EntityType.node [] tt)

  -- The token of a node is parsed to the node that printed it, when its ids are not empty and hold no
  -- slash, its name, namespace and enclave are not empty and hold no "%", and its domain fits in 64
  -- bits.
  pub make_from_keyexpr-node :
      let e = make_entity r h zid nid id EntityType.node node none in
      make_from_keyexpr r h e.liveliness_keyexpr ≡ parsed e
  unfolding make_entity
  make_from_keyexpr-node =
      parse_token EntityType.node [] _ tt node_token ∙ unfold parse_typed in refl

  module _ (type : EntityType) (other : type ≢ EntityType.node) (name topic_type type_hash : Bytes)
      (qos : QosProfile) (distinct : IsDistinct r) (sized : IsSized qos) (is_name : IsName name)
      (is_type : IsName topic_type) (is_hash : IsName type_hash) where
    abbrev topic : TopicInfo
    topic = make_topic_info node.domain_id name topic_type type_hash qos

    abbrev topic_rest : List Bytes
    topic_rest =
        mangle_name name
        ∷ mangle_name topic_type
        ∷ mangle_name type_hash
        ∷ qos_to_keyexpr r qos
        ∷ []

    topic_rest-ArePart : ArePart topic_rest
    topic_rest-ArePart = (
      mangle_name-IsPart name is_name,
      (
        mangle_name-IsPart topic_type is_type,
        (
          mangle_name-IsPart type_hash is_hash,
          ((qos_to_keyexpr-ne-nil r qos, qos_to_keyexpr-Lacks r qos), tt),
        ),
      ),
    )

    endpoint_token :
        print_token r zid nid id type node (some topic) ≡ join slash (head_parts type topic_rest)
    unfolding print_token make_topic_info
    endpoint_token =
        join_parts-join admin_space
          (to_string node.domain_id
            ∷ zid
            ∷ nid
            ∷ id
            ∷ entity_to_str type
            ∷ mangle_name node.enclave
            ∷ mangle_name node.ns
            ∷ mangle_name node.name
            ∷ topic_rest)
          (head_parts-ArePart type topic_rest topic_rest-ArePart)

    parse_topic_rest : parse_topic r node.domain_id topic_rest ≡ some topic
    unfolding parse_topic
    parse_topic_rest = rw (
      keyexpr_to_qos-qos_to_keyexpr r qos distinct sized,
      demangle-mangle name is_name.1,
      demangle-mangle topic_type is_type.1,
      demangle-mangle type_hash is_hash.1,
      parse_topic,
    )

    -- The token of a publisher, subscription, service or client is parsed to the entity that printed
    -- it, when its ids are not empty and hold no slash, the names of its node, its enclave, its
    -- topic, its type and the type's hash are not empty and hold no "%", its numbers fit in 64 bits,
    -- and the enumerators of each policy have different numbers.
    pub make_from_keyexpr-endpoint :
        let e = make_entity r h zid nid id type node (some topic) in
        make_from_keyexpr r h e.liveliness_keyexpr ≡ parsed e
    unfolding make_entity
    make_from_keyexpr-endpoint =
        parse_token type topic_rest _ topic_rest-ArePart endpoint_token
        ∙ parse_endpoint r h zid nid id type node topic_rest topic other parse_topic_rest
