-- ===== src/Qos/Adapt.antt =====
-- What `QoS::best_available_qos` of detail/qos.cpp promises to its callers.
use rmw_zenoh.Common.{
  ℕ, ◌<◌, ◌≡◌, ◌≢◌, ◌∙◌, ap, ◌↔◌, ◌⊎◌, true, false, arith, if◌then◌else◌, nat_eq, ◌==◌,
}
use rmw_zenoh.Qos.{
  History, Reliability, Durability, LivelinessPolicy, RmwTime, QosProfile, Rmw, ok, unsupported,
  is_supported, adapt_history, adapt_reliability, adapt_durability, adapt_liveliness, adapt_time,
  adapted, default_history_depth, best_available_qos,
}

-- Every policy has a definite value and a queue can hold a message.
pub record IsResolved (q : QosProfile) : Type 0 where
  pub history : (q.history ≢ History.system_default) × (q.history ≢ History.unknown)
  pub depth : 0 < q.depth
  pub reliability :
      (q.reliability ≢ Reliability.system_default) × (q.reliability ≢ Reliability.unknown)
  pub durability : (q.durability ≢ Durability.system_default) × (q.durability ≢ Durability.unknown)
  pub liveliness :
      (q.liveliness ≢ LivelinessPolicy.system_default) × (q.liveliness ≢ LivelinessPolicy.unknown)

-- A policy of the profile is the unknown one.
abbrev pub HasUnknown : QosProfile → Type 0
HasUnknown q =
    (q.history ≡ History.unknown)
    ⊎ (q.reliability ≡ Reliability.unknown)
    ⊎ (q.durability ≡ Durability.unknown)
    ⊎ (q.liveliness ≡ LivelinessPolicy.unknown)

is_supported_iff : (q : QosProfile) → (is_supported q ≡ false) ↔ HasUnknown q
unfolding is_supported
is_supported_iff q = ground arith

-- A profile is refused with `unsupported` exactly when one of its four policies is the unknown one,
-- and the profile is then left as it was.
pub best_available_qos-unsupported :
    (r : Rmw) (q : QosProfile)
    → (((best_available_qos r q).0 ≡ unsupported) ↔ HasUnknown q)
      × (HasUnknown q → (best_available_qos r q).1 ≡ q)
unfolding best_available_qos
best_available_qos-unsupported r q = ground (arith, is_supported_iff q)

accepted-adapted :
    (r : Rmw) (q : QosProfile)
    → (best_available_qos r q).0 ≡ ok
    → best_available_qos r q ≡ (ok, adapted r q)
unfolding best_available_qos
accepted-adapted r q h = ground arith

adapted-IsResolved : (r : Rmw) (q : QosProfile) → IsResolved (adapted r q)
unfolding adapted
adapted-IsResolved r q = record {
  history = ground arith;
  depth = ground arith;
  reliability = ground arith;
  durability = ground arith;
  liveliness = ground arith;
}

-- An accepted profile comes back with every policy resolved.
pub best_available_qos-IsResolved :
    (r : Rmw) (q : QosProfile)
    → (best_available_qos r q).0 ≡ ok
    → IsResolved (best_available_qos r q).1
best_available_qos-IsResolved r q h = rw (accepted-adapted r q h) (adapted-IsResolved r q)

adapt_time-adapt_time :
    (r : Rmw) (d t : RmwTime) → adapt_time r d (adapt_time r d t) ≡ adapt_time r d t
unfolding adapt_time
adapt_time-adapt_time r d t = ground arith

supported_of_IsResolved : (q : QosProfile) → IsResolved q → is_supported q ≡ true
unfolding is_supported
supported_of_IsResolved q h = ground arith

keep_history :
    (h : History) → h ≢ History.system_default → h ≢ History.unknown → adapt_history h ≡ h
unfolding adapt_history
keep_history h a b = ground arith

keep_reliability :
    (p : Reliability)
    → p ≢ Reliability.system_default
    → p ≢ Reliability.unknown
    → adapt_reliability p ≡ p
unfolding adapt_reliability
keep_reliability p a b = ground arith

keep_durability :
    (p : Durability)
    → p ≢ Durability.system_default
    → p ≢ Durability.unknown
    → adapt_durability p ≡ p
unfolding adapt_durability
keep_durability p a b = ground arith

keep_liveliness :
    (p : LivelinessPolicy)
    → p ≢ LivelinessPolicy.system_default
    → p ≢ LivelinessPolicy.unknown
    → adapt_liveliness p ≡ p
unfolding adapt_liveliness
keep_liveliness p a b = ground arith

keep_depth : (n : ℕ) → 0 < n → (if n == 0 then default_history_depth else n) ≡ n
keep_depth n h = ground arith

abbrev pub with_times : Rmw → QosProfile → QosProfile
with_times r q = record q {
  deadline = adapt_time r r.deadline_default q.deadline;
  lifespan = adapt_time r r.lifespan_default q.lifespan;
  liveliness_lease_duration = adapt_time r r.lease_duration_default q.liveliness_lease_duration;
}

adapted_of_IsResolved : (r : Rmw) (q : QosProfile) → IsResolved q → adapted r q ≡ with_times r q
unfolding adapted
adapted_of_IsResolved r q h = λ i. record {
  history = keep_history q.history h.history.0 h.history.1 i;
  depth = keep_depth q.depth h.depth i;
  reliability = keep_reliability q.reliability h.reliability.0 h.reliability.1 i;
  durability = keep_durability q.durability h.durability.0 h.durability.1 i;
  deadline = adapt_time r r.deadline_default q.deadline;
  lifespan = adapt_time r r.lifespan_default q.lifespan;
  liveliness = keep_liveliness q.liveliness h.liveliness.0 h.liveliness.1 i;
  liveliness_lease_duration = adapt_time r r.lease_duration_default q.liveliness_lease_duration;
}

-- A profile that is resolved is accepted, and only a duration that equals its default is replaced.
pub best_available_qos-of-IsResolved :
    (r : Rmw) (q : QosProfile) → IsResolved q → best_available_qos r q ≡ (ok, with_times r q)
unfolding best_available_qos
best_available_qos-of-IsResolved r q h =
    rw (supported_of_IsResolved q h, adapted_of_IsResolved r q h)

with_times-adapted : (r : Rmw) (q : QosProfile) → with_times r (adapted r q) ≡ adapted r q
unfolding adapted
with_times-adapted r q = λ i. record (adapted r q) {
  deadline = adapt_time-adapt_time r r.deadline_default q.deadline i;
  lifespan = adapt_time-adapt_time r r.lifespan_default q.lifespan i;
  liveliness_lease_duration =
      adapt_time-adapt_time r r.lease_duration_default q.liveliness_lease_duration i;
}

-- Adapting an accepted profile a second time changes nothing.
pub best_available_qos_idempotent :
    (r : Rmw) (q : QosProfile)
    → (best_available_qos r q).0 ≡ ok
    → best_available_qos r (best_available_qos r q).1 ≡ best_available_qos r q
best_available_qos_idempotent r q h = rw (accepted-adapted r q h) (
    best_available_qos-of-IsResolved r (adapted r q) (adapted-IsResolved r q)
    ∙ ap (λ p. (ok, p)) (with_times-adapted r q))
