-- ===== src/Liveliness/Profile.antt =====
-- `qos_to_keyexpr` and `keyexpr_to_qos` of detail/liveliness_utils.cpp: a profile as the last part
-- of a liveliness token. A policy that has its default is written as the empty text.
pub mod Reading
pub mod RoundTrip
use rmw_zenoh.Common.{
  ℕ, ◌-◌, ◌^◌, ◌≡◌, ◌↔◌, Bool, true, false, not, ◌||◌, List, [], ◌∷◌, ◌++◌, Option, none, some,
  arith, ◌==◌, Eq, nat_eq, nat_beq, ltb, is_empty, if◌then◌else◌, ◌>>=◌,
}
use rmw_zenoh.Common.Text.{Bytes, bytes_eq, bytes_beq, Conversion, strtoull, to_string}
use rmw_zenoh.Qos.{
  History, Reliability, Durability, LivelinessPolicy, RmwTime, QosProfile, Rmw, default_qos,
}
use rmw_zenoh.Liveliness.Split.{split_keyexpr}
use rmw_zenoh.Liveliness.Policies.{
  history_eq, reliability_eq, durability_eq, liveliness_eq, str_to_qos_history,
  str_to_qos_reliability, str_to_qos_durability, str_to_qos_liveliness, at_or_default,
}

abbrev pub size_max : ℕ
size_max = 2 ^ 64 - 1

checked_size : Option Conversion → Option ℕ
checked_size none = none
checked_size (some v) =
    if not (is_empty v.rest)
    then none
    else if v.out_of_range || ltb size_max v.value
    then none
    else some v.value

-- `str_to_size_t`, for a type of 64 bits.
unfoldable pub str_to_size_t : Bytes → ℕ → Option ℕ
unfolding checked_size
str_to_size_t [] default_value = some default_value
str_to_size_t (c ∷ s) default_value = if c == b'-' then none else checked_size (strtoull (c ∷ s))

abbrev pub qos_delimiter : ℕ
qos_delimiter = b':'

abbrev pub qos_component_delimiter : ℕ
qos_component_delimiter = b','

-- What `if (value != default) keyexpr += text` appends.
abbrev pub unless_default : Bool → Bytes → Bytes
unless_default is_default text = if is_default then [] else text

abbrev pub number_text : ℕ → ℕ → Bytes
number_text n default = unless_default (n == default) (to_string n)

abbrev pub reliability_text : Rmw → QosProfile → Bytes
reliability_text r q =
    unless_default (q.reliability == (default_qos r).reliability)
      (to_string (r.reliability_value q.reliability))

abbrev pub durability_text : Rmw → QosProfile → Bytes
durability_text r q =
    unless_default (q.durability == (default_qos r).durability)
      (to_string (r.durability_value q.durability))

abbrev pub history_text : Rmw → QosProfile → Bytes
history_text r q =
    unless_default (q.history == (default_qos r).history) (to_string (r.history_value q.history))

abbrev pub liveliness_text : Rmw → QosProfile → Bytes
liveliness_text r q =
    unless_default (q.liveliness == (default_qos r).liveliness)
      (to_string (r.liveliness_value q.liveliness))

-- "reliability:durability:history,depth:deadline,…:lifespan,…:liveliness,lease,…"
unfoldable pub qos_to_keyexpr : Rmw → QosProfile → Bytes
qos_to_keyexpr r q =
    reliability_text r q
    ++ qos_delimiter ∷ durability_text r q
    ++ qos_delimiter ∷ history_text r q
    ++ qos_component_delimiter ∷ number_text q.depth default.depth
    ++ qos_delimiter ∷ number_text q.deadline.sec default.deadline.sec
    ++ qos_component_delimiter ∷ number_text q.deadline.nsec default.deadline.nsec
    ++ qos_delimiter ∷ number_text q.lifespan.sec default.lifespan.sec
    ++ qos_component_delimiter ∷ number_text q.lifespan.nsec default.lifespan.nsec
    ++ qos_delimiter ∷ liveliness_text r q
    ++ qos_component_delimiter ∷ number_text q.liveliness_lease_duration.sec lease.sec
    ++ qos_component_delimiter ∷ number_text q.liveliness_lease_duration.nsec lease.nsec
  where
    default : QosProfile
    default = default_qos r

    lease : RmwTime
    lease = default.liveliness_lease_duration

-- The size checks on split parts, with the parts that are read.
abbrev pub two_parts : List Bytes → Option (Bytes × Bytes)
two_parts (a ∷ b ∷ _) = some (a, b)
two_parts _ = none

abbrev pub three_parts : List Bytes → Option (Bytes × Bytes × Bytes)
three_parts (a ∷ b ∷ c ∷ _) = some (a, b, c)
three_parts _ = none

pub record SixParts : Type 0 where
  pub reliability : Bytes
  pub durability : Bytes
  pub history : Bytes
  pub deadline : Bytes
  pub lifespan : Bytes
  pub liveliness : Bytes

abbrev pub six_parts : List Bytes → Option SixParts
six_parts (a ∷ b ∷ c ∷ d ∷ e ∷ f ∷ _) = some (record {
  reliability = a;
  durability = b;
  history = c;
  deadline = d;
  lifespan = e;
  liveliness = f;
})
six_parts _ = none

unfoldable pub keyexpr_to_qos : Rmw → Bytes → Option QosProfile
keyexpr_to_qos r keyexpr = do
  let default = default_qos r
  parts ← six_parts (split_keyexpr keyexpr qos_delimiter)
  history_parts ← two_parts (split_keyexpr parts.history qos_component_delimiter)
  deadline_parts ← two_parts (split_keyexpr parts.deadline qos_component_delimiter)
  lifespan_parts ← two_parts (split_keyexpr parts.lifespan qos_component_delimiter)
  liveliness_parts ← three_parts (split_keyexpr parts.liveliness qos_component_delimiter)
  history ← at_or_default history_parts.0 default.history (str_to_qos_history r)
  reliability ← at_or_default parts.reliability default.reliability (str_to_qos_reliability r)
  durability ← at_or_default parts.durability default.durability (str_to_qos_durability r)
  liveliness ← at_or_default liveliness_parts.0 default.liveliness (str_to_qos_liveliness r)
  depth ← str_to_size_t history_parts.1 default.depth
  deadline_s ← str_to_size_t deadline_parts.0 default.deadline.sec
  deadline_ns ← str_to_size_t deadline_parts.1 default.deadline.nsec
  lifespan_s ← str_to_size_t lifespan_parts.0 default.lifespan.sec
  lifespan_ns ← str_to_size_t lifespan_parts.1 default.lifespan.nsec
  liveliness_s ← str_to_size_t liveliness_parts.1 default.liveliness_lease_duration.sec
  liveliness_ns ← str_to_size_t liveliness_parts.2 default.liveliness_lease_duration.nsec
  some (record {
    history = history;
    depth = depth;
    reliability = reliability;
    durability = durability;
    deadline = record { sec = deadline_s; nsec = deadline_ns };
    lifespan = record { sec = lifespan_s; nsec = lifespan_ns };
    liveliness = liveliness;
    liveliness_lease_duration = record { sec = liveliness_s; nsec = liveliness_ns };
  })
