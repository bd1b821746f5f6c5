-- ===== src/Qos.antt =====
-- Quality-of-service profiles: detail/qos.cpp. The types `rmw_qos_profile_t` and its enumerations
-- are those of rmw/types.h, which the sources include; the numbers behind the enumerators, the
-- default durations and `rmw_time_equal` come from there and are the parameter `Rmw`.
pub mod Adapt
pub mod Compatible
mod Tests
use rmw_zenoh.Common.{
  ℕ, ◌^◌, ◌<◌, ◌≡◌, ◌↔◌, Bool, true, false, ◌&&◌, ◌||◌, not, ◌==◌, nat_eq, if◌then◌else◌,
}

pub data History : Type 0 where
  system_default keep_last keep_all unknown : History

pub data Reliability : Type 0 where
  system_default reliable best_effort unknown best_available : Reliability

pub data Durability : Type 0 where
  system_default transient_local volatile unknown best_available : Durability

pub data LivelinessPolicy : Type 0 where
  system_default automatic manual_by_topic unknown best_available : LivelinessPolicy

-- `rmw_time_t`: two unsigned 64-bit numbers.
pub record RmwTime : Type 0 where
  pub sec : ℕ
  pub nsec : ℕ

-- `rmw_qos_profile_t`, without `avoid_ros_namespace_conventions`, which no function here reads.
pub record QosProfile : Type 0 where
  pub history : History
  pub depth : ℕ
  pub reliability : Reliability
  pub durability : Durability
  pub deadline : RmwTime
  pub lifespan : RmwTime
  pub liveliness : LivelinessPolicy
  pub liveliness_lease_duration : RmwTime

-- What rmw/types.h and rmw/time.h give.
pub record Rmw : Type 0 where
  pub history_value : History → ℕ
  pub reliability_value : Reliability → ℕ
  pub durability_value : Durability → ℕ
  pub liveliness_value : LivelinessPolicy → ℕ
  pub duration_infinite : RmwTime
  pub deadline_default : RmwTime
  pub lifespan_default : RmwTime
  pub lease_duration_default : RmwTime
  pub time_equal : RmwTime → RmwTime → Bool

-- The enumerators of one enumeration have different numbers.
pub record IsDistinct (r : Rmw) : Type 0 where
  pub of_history : (a b : History) → r.history_value a ≡ r.history_value b → a ≡ b
  pub of_reliability : (a b : Reliability) → r.reliability_value a ≡ r.reliability_value b → a ≡ b
  pub of_durability : (a b : Durability) → r.durability_value a ≡ r.durability_value b → a ≡ b
  pub of_liveliness : (a b : LivelinessPolicy) → r.liveliness_value a ≡ r.liveliness_value b → a ≡ b

abbrev pub default_history_depth : ℕ
default_history_depth = 42

-- `QoS::QoS`: what a profile that leaves a policy open gets.
abbrev pub default_qos : Rmw → QosProfile
default_qos r = record {
  history = keep_last;
  depth = default_history_depth;
  reliability = reliable;
  durability = volatile;
  deadline = r.duration_infinite;
  lifespan = r.duration_infinite;
  liveliness = automatic;
  liveliness_lease_duration = r.duration_infinite;
}

abbrev history_unknown : History → Bool
history_unknown unknown = true
history_unknown _ = false

abbrev reliability_unknown : Reliability → Bool
reliability_unknown unknown = true
reliability_unknown _ = false

abbrev durability_unknown : Durability → Bool
durability_unknown unknown = true
durability_unknown _ = false

abbrev liveliness_unknown : LivelinessPolicy → Bool
liveliness_unknown unknown = true
liveliness_unknown _ = false

-- `QoS::is_supported`
unfoldable pub is_supported : QosProfile → Bool
is_supported q =
    if history_unknown q.history
      || reliability_unknown q.reliability
      || durability_unknown q.durability
      || liveliness_unknown q.liveliness
    then false
    else true

pub data RmwRet : Type 0 where
  ok unsupported error invalid_argument bad_alloc node_name_non_existent : RmwRet
  incorrect_rmw_implementation timeout : RmwRet

adapt_history : History → History
adapt_history system_default = keep_last
adapt_history unknown = keep_last
adapt_history h = h

adapt_reliability : Reliability → Reliability
adapt_reliability system_default = reliable
adapt_reliability unknown = reliable
adapt_reliability r = r

adapt_durability : Durability → Durability
adapt_durability system_default = volatile
adapt_durability unknown = volatile
adapt_durability d = d

adapt_liveliness : LivelinessPolicy → LivelinessPolicy
adapt_liveliness system_default = automatic
adapt_liveliness unknown = automatic
adapt_liveliness l = l

unfoldable pub adapt_time : Rmw → RmwTime → RmwTime → RmwTime
adapt_time r default t = if r.time_equal t default then r.duration_infinite else t

-- The assignments of `QoS::best_available_qos` to the profile.
unfoldable pub adapted : Rmw → QosProfile → QosProfile
unfolding adapt_history adapt_reliability adapt_durability adapt_liveliness adapt_time
adapted r q = record {
  history = adapt_history q.history;
  depth = if q.depth == 0 then default_history_depth else q.depth;
  reliability = adapt_reliability q.reliability;
  durability = adapt_durability q.durability;
  deadline = adapt_time r r.deadline_default q.deadline;
  lifespan = adapt_time r r.lifespan_default q.lifespan;
  liveliness = adapt_liveliness q.liveliness;
  liveliness_lease_duration = adapt_time r r.lease_duration_default q.liveliness_lease_duration;
}

-- `QoS::best_available_qos`: the code it returns and the profile as it leaves it. The node, the
-- topic and the endpoint callback are not read.
unfoldable pub best_available_qos : Rmw → QosProfile → RmwRet × QosProfile
unfolding is_supported
best_available_qos r q = if not (is_supported q) then (unsupported, q) else (ok, adapted r q)
