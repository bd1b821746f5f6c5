-- ===== src/Liveliness/Entity.antt =====
-- `Entity` of detail/liveliness_utils.cpp: the constructor, which prints a liveliness token, and the
-- two functions `make`, from data and from a token.
pub mod Parts
pub mod RoundTrip
pub mod Errors
use rmw_zenoh.Common.{
  ℕ, ◌≡◌, Bool, true, false, not, ◌||◌, ◌&&◌, List, [], ◌∷◌, ◌++◌, Option, none, some, ◌==◌, nat_eq,
  is_empty, if◌then◌else◌,
}
use rmw_zenoh.Common.Text.{Bytes, bytes_eq, codes, Conversion, strtoull, to_string}
use rmw_zenoh.Qos.{QosProfile, Rmw}
use rmw_zenoh.Liveliness.{
  EntityType, NodeInfo, TopicInfo, slash, mangle_name, demangle_name, make_topic_info,
}
use rmw_zenoh.Liveliness.Split.{split_keyexpr}
use rmw_zenoh.Liveliness.Profile.{qos_to_keyexpr, keyexpr_to_qos}
use rmw_zenoh.Liveliness.Gid.{Hashes, gid_of, hash_gid}

pub record Entity : Type 0 where
  pub zid : Bytes
  pub nid : Bytes
  pub id : Bytes
  pub gid_hash : ℕ
  pub type : EntityType
  pub node_info : NodeInfo
  pub topic_info : Option TopicInfo
  pub liveliness_keyexpr : Bytes
  pub gid : Bytes

abbrev pub admin_space : Bytes
admin_space = codes "@ros2_lv"

unfoldable pub entity_to_str : EntityType → Bytes
entity_to_str EntityType.node = codes "NN"
entity_to_str EntityType.publisher = codes "MP"
entity_to_str EntityType.subscription = codes "MS"
entity_to_str EntityType.service = codes "SS"
entity_to_str EntityType.client = codes "SC"

unfoldable pub str_to_entity : Bytes → Option EntityType
str_to_entity s =
    if s == codes "NN"
    then some EntityType.node
    else if s == codes "MP"
    then some EntityType.publisher
    else if s == codes "MS"
    then some EntityType.subscription
    else if s == codes "SS"
    then some EntityType.service
    else if s == codes "SC"
    then some EntityType.client
    else none

-- The loop over `keyexpr_parts`: it ends before the first empty part.
unfoldable pub join_parts : List Bytes → Bytes
join_parts [] = []
join_parts (p ∷ []) = p
join_parts (p ∷ q ∷ ps) =
    let rest = join_parts (q ∷ ps) in if is_empty q then p else p ++ slash ∷ rest

topic_parts : Rmw → Option TopicInfo → List Bytes
topic_parts r none = [] ∷ [] ∷ [] ∷ [] ∷ []
topic_parts r (some t) =
    mangle_name t.name ∷ mangle_name t.type ∷ mangle_name t.type_hash ∷ qos_to_keyexpr r t.qos ∷ []

-- The token of an entity.
unfoldable pub print_token :
    Rmw → Bytes → Bytes → Bytes → EntityType → NodeInfo → Option TopicInfo → Bytes
unfolding topic_parts join_parts entity_to_str
print_token r zid nid id type node_info topic_info = join_parts (
    admin_space
    ∷ to_string node_info.domain_id
    ∷ zid
    ∷ nid
    ∷ id
    ∷ entity_to_str type
    ∷ mangle_name node_info.enclave
    ∷ mangle_name node_info.ns
    ∷ mangle_name node_info.name
    ∷ topic_parts r topic_info)

-- The constructor `Entity::Entity`.
unfoldable pub make_entity :
    Rmw → Hashes → Bytes → Bytes → Bytes → EntityType → NodeInfo → Option TopicInfo → Entity
make_entity r h zid nid id type node_info topic_info = record {
  zid = zid;
  nid = nid;
  id = id;
  gid_hash = hash_gid h (gid_of h keyexpr);
  type = type;
  node_info = node_info;
  topic_info = topic_info;
  liveliness_keyexpr = keyexpr;
  gid = gid_of h keyexpr;
}
  where
    keyexpr : Bytes
    keyexpr = print_token r zid nid id type node_info topic_info

abbrev pub is_node : EntityType → Bool
is_node EntityType.node = true
is_node _ = false

abbrev pub has_value {ℓ} : {A : Type ℓ} → Option A → Bool
has_value none = false
has_value (some a) = true

-- `Entity::make` from data; every type is a key of `entity_to_str`.
unfoldable pub make :
    Rmw → Hashes → Bytes → Bytes → Bytes → EntityType → NodeInfo → Option TopicInfo → Option Entity
make r h zid nid id type node_info topic_info =
    if is_empty id
    then none
    else if is_empty node_info.ns || is_empty node_info.name
    then none
    else if not (is_node type) && not (has_value topic_info)
    then none
    else some (make_entity r h zid nid id type node_info topic_info)

-- What `Entity::make` does with a token: it may return an entity or `nullptr`, and `std::stoul` may
-- throw through it.
pub data Parsed {ℓ} (A : Type ℓ) : Type ℓ where
  parsed : A → Parsed A
  rejected : Parsed A
  thrown : Parsed A

unfoldable pub any_empty : List Bytes → Bool
any_empty [] = false
any_empty (p ∷ ps) = is_empty p || any_empty ps

in_range : Option Conversion → Option ℕ
in_range none = none
in_range (some v) = if v.out_of_range then none else some v.value

-- `std::stoul`; `none` stands for an exception. What follows the digits is not looked at.
unfoldable pub stoul : Bytes → Option ℕ
unfolding in_range
stoul s = in_range (strtoull s)

-- `topic_info` of a token for another entity than a node, from the parts behind the node name.
pub parse_topic : Rmw → ℕ → List Bytes → Option TopicInfo
parse_topic r domain_id (name ∷ type ∷ type_hash ∷ qos ∷ _) = elim (keyexpr_to_qos r qos) [
  | none ↦ none
  | some q ↦ some (
      make_topic_info domain_id (demangle_name name) (demangle_name type) (demangle_name type_hash)
        q)
]
parse_topic r domain_id _ = none

pub parse_typed :
    Rmw → Hashes → Bytes → Bytes → Bytes → EntityType → NodeInfo → List Bytes → Parsed Entity
parse_typed r h zid nid id EntityType.node node_info topic =
    parsed (make_entity r h zid nid id EntityType.node node_info none)
parse_typed r h zid nid id type node_info topic = elim (parse_topic r node_info.domain_id topic) [
  | none ↦ rejected
  | some t ↦ parsed (make_entity r h zid nid id type node_info (some t))
]

-- The steps behind the checks on the parts.
parse_domain :
    Rmw
    → Hashes
    → Bytes
    → Bytes
    → Bytes
    → EntityType
    → Option ℕ
    → Bytes
    → Bytes
    → Bytes
    → List Bytes
    → Parsed Entity
parse_domain r h zid nid id type none enclave ns name topic = thrown
parse_domain r h zid nid id type (some domain_id) enclave ns name topic =
    parse_typed r h zid nid id type
      (record {
        domain_id = domain_id;
        ns = demangle_name ns;
        name = demangle_name name;
        enclave = demangle_name enclave;
      })
      topic

parse_parts : Rmw → Hashes → List Bytes → Parsed Entity
parse_parts r h (admin ∷ domain ∷ zid ∷ nid ∷ id ∷ entity_str ∷ enclave ∷ ns ∷ name ∷ topic) =
    if any_empty (admin ∷ domain ∷ zid ∷ nid ∷ id ∷ entity_str ∷ enclave ∷ ns ∷ name ∷ topic)
    then rejected
    else if not (admin == admin_space)
    then rejected
    else elim (str_to_entity entity_str) [
      | none ↦ rejected
      | some type ↦ parse_domain r h zid nid id type (stoul domain) enclave ns name topic
    ]
parse_parts r h _ = rejected

-- `Entity::make` from a token.
pub make_from_keyexpr : Rmw → Hashes → Bytes → Parsed Entity
unfolding parse_parts
make_from_keyexpr r h keyexpr = parse_parts r h (split_keyexpr keyexpr slash)
