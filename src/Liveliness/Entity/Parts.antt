-- ===== src/Liveliness/Entity/Parts.antt =====
-- The parts of a token, and how each is read back.
use rmw_zenoh.Common.{
  ℕ, ◌^◌, ◌<◌, ◌≡◌, ◌≢◌, ap, refl, false, List, [], ◌∷◌, ◌++◌, some, arith, nat_eq, All,
}
use rmw_zenoh.Common.Text.{Bytes, Lacks, bytes_eq, to_string}
use rmw_zenoh.Common.Text.Decimal.{
  to_string-IsDigit, to_string-ne-nil, strtoull-to_string, digits-Lacks,
}
use rmw_zenoh.Qos.{Rmw}
use rmw_zenoh.Liveliness.{EntityType, NodeInfo, TopicInfo, slash, slash_replacement, mangle_name}
use rmw_zenoh.Liveliness.Mangle.{mangle_name-Lacks, mangle_name-ne-nil}
use rmw_zenoh.Liveliness.Split.{join}
use rmw_zenoh.Liveliness.Gid.{Hashes}
use rmw_zenoh.Liveliness.Entity.{
  entity_to_str, str_to_entity, join_parts, make_entity, parsed, any_empty, stoul, parse_topic,
  parse_typed,
}

-- A name that survives mangling.
abbrev pub IsName : Bytes → Type 0
IsName s = (s ≢ []) × Lacks slash_replacement s

-- A part that is written as it is.
abbrev IsPart : Bytes → Type 0
IsPart s = (s ≢ []) × Lacks slash s

pub record IsNode (n : NodeInfo) : Type 0 where
  pub domain_id : n.domain_id < 2 ^ 64
  pub ns : IsName n.ns
  pub name : IsName n.name
  pub enclave : IsName n.enclave

-- All of a token's parts can be split again.
abbrev pub ArePart : List Bytes → Type 0
ArePart = All IsPart

pub join_parts-join :
    (p : Bytes) (ps : List Bytes) → ArePart (p ∷ ps) → join_parts (p ∷ ps) ≡ join slash (p ∷ ps)
unfolding join_parts
join_parts-join p [] h = refl
join_parts-join p ([] ∷ ps) (hp, (hq, hs)) = absurd (hq.0 refl)
join_parts-join p ((c ∷ q) ∷ ps) (hp, h) = ap (λ s. p ++ slash ∷ s) (join_parts-join (c ∷ q) ps h)

pub join_parts_cut :
    (p : Bytes) (ps qs : List Bytes)
    → ArePart (p ∷ ps)
    → join_parts ((p ∷ ps) ++ [] ∷ qs) ≡ join slash (p ∷ ps)
unfolding join_parts
join_parts_cut p [] qs h = refl
join_parts_cut p ([] ∷ ps) qs (hp, (hq, hs)) = absurd (hq.0 refl)
join_parts_cut p ((c ∷ q) ∷ ps) qs (hp, h) =
    ap (λ s. p ++ slash ∷ s) (join_parts_cut (c ∷ q) ps qs h)

pub ArePart-Lacks : (ps : List Bytes) → ArePart ps → All (Lacks slash) ps
ArePart-Lacks [] h = tt
ArePart-Lacks (p ∷ ps) (hp, h) = (hp.1, ArePart-Lacks ps h)

pub any_empty_of_ArePart : (ps : List Bytes) → ArePart ps → any_empty ps ≡ false
unfolding any_empty
any_empty_of_ArePart [] h = refl
any_empty_of_ArePart ([] ∷ ps) (hp, h) = absurd (hp.0 refl)
any_empty_of_ArePart ((c ∷ p) ∷ ps) (hp, h) = any_empty_of_ArePart ps h

pub mangle_name-IsPart : (s : Bytes) → IsName s → IsPart (mangle_name s)
mangle_name-IsPart s h = (mangle_name-ne-nil s h.0, mangle_name-Lacks s)

pub to_string-IsPart : (n : ℕ) → IsPart (to_string n)
to_string-IsPart n =
    (to_string-ne-nil n, digits-Lacks slash (to_string n) (λ h. omega arith) (to_string-IsDigit n))

pub entity_to_str-IsPart : (t : EntityType) → IsPart (entity_to_str t)
unfolding entity_to_str
entity_to_str-IsPart t = ground arith

pub str_to_entity-entity_to_str : (t : EntityType) → str_to_entity (entity_to_str t) ≡ some t
unfolding str_to_entity entity_to_str
str_to_entity-entity_to_str t = ground arith

pub stoul-to_string : (n : ℕ) → n < 2 ^ 64 → stoul (to_string n) ≡ some n
unfolding stoul
stoul-to_string n h = rw (strtoull-to_string n h)

pub parse_endpoint :
    (r : Rmw) (h : Hashes) (zid nid id : Bytes) (type : EntityType) (node : NodeInfo)
    (rest : List Bytes) (topic : TopicInfo)
    → type ≢ EntityType.node
    → parse_topic r node.domain_id rest ≡ some topic
    → parse_typed r h zid nid id type node rest
      ≡ parsed (make_entity r h zid nid id type node (some topic))
unfolding parse_typed
parse_endpoint r h zid nid id EntityType.node node rest topic other e = absurd (other refl)
parse_endpoint r h zid nid id _ node rest topic other e = rw (e, parse_typed)
