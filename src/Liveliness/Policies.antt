-- ===== src/Liveliness/Policies.antt =====
-- The enumerations of a profile in detail/liveliness_utils.cpp: comparison, and the tables between
-- enumerators and their printed numbers.
use rmw_zenoh.Common.{
  ℕ, ◌≡◌, ◌↔◌, true, List, [], ◌∷◌, Option, none, some, arith, ◌==◌, Eq, nat_beq, if◌then◌else◌,
}
use rmw_zenoh.Common.Text.{Bytes, bytes_eq, to_string}
use rmw_zenoh.Qos.{History, Reliability, Durability, LivelinessPolicy, Rmw}

-- The operator `!=` of the enumerations.
abbrev pub history_index : History → ℕ
history_index History.system_default = 0
history_index History.keep_last = 1
history_index History.keep_all = 2
history_index History.unknown = 3

abbrev pub reliability_index : Reliability → ℕ
reliability_index Reliability.system_default = 0
reliability_index Reliability.reliable = 1
reliability_index Reliability.best_effort = 2
reliability_index Reliability.unknown = 3
reliability_index Reliability.best_available = 4

abbrev pub durability_index : Durability → ℕ
durability_index Durability.system_default = 0
durability_index Durability.transient_local = 1
durability_index Durability.volatile = 2
durability_index Durability.unknown = 3
durability_index Durability.best_available = 4

abbrev pub liveliness_index : LivelinessPolicy → ℕ
liveliness_index LivelinessPolicy.system_default = 0
liveliness_index LivelinessPolicy.automatic = 1
liveliness_index LivelinessPolicy.manual_by_topic = 2
liveliness_index LivelinessPolicy.unknown = 3
liveliness_index LivelinessPolicy.best_available = 4

pub history_beq_iff :
    (a b : History) → (nat_beq (history_index a) (history_index b) ≡ true) ↔ (a ≡ b)
history_beq_iff a b = ground arith

pub reliability_beq_iff :
    (a b : Reliability) → (nat_beq (reliability_index a) (reliability_index b) ≡ true) ↔ (a ≡ b)
reliability_beq_iff a b = ground arith

pub durability_beq_iff :
    (a b : Durability) → (nat_beq (durability_index a) (durability_index b) ≡ true) ↔ (a ≡ b)
durability_beq_iff a b = ground arith

pub liveliness_beq_iff :
    (a b : LivelinessPolicy) → (nat_beq (liveliness_index a) (liveliness_index b) ≡ true) ↔ (a ≡ b)
liveliness_beq_iff a b = ground arith

instance abbrev pub history_eq : Eq History
history_eq = record {
  equal = λ a b. nat_beq (history_index a) (history_index b);
  equal_iff = history_beq_iff;
}

instance abbrev pub reliability_eq : Eq Reliability
reliability_eq = record {
  equal = λ a b. nat_beq (reliability_index a) (reliability_index b);
  equal_iff = reliability_beq_iff;
}

instance abbrev pub durability_eq : Eq Durability
durability_eq = record {
  equal = λ a b. nat_beq (durability_index a) (durability_index b);
  equal_iff = durability_beq_iff;
}

instance abbrev pub liveliness_eq : Eq LivelinessPolicy
liveliness_eq = record {
  equal = λ a b. nat_beq (liveliness_index a) (liveliness_index b);
  equal_iff = liveliness_beq_iff;
}

-- `str_to_qos_history` and its three siblings: the printed number of each enumerator.
abbrev pub str_to_qos_history : Rmw → List (Bytes × History)
str_to_qos_history r =
    (to_string (r.history_value History.system_default), History.system_default)
    ∷ (to_string (r.history_value History.keep_last), History.keep_last)
    ∷ (to_string (r.history_value History.keep_all), History.keep_all)
    ∷ (to_string (r.history_value History.unknown), History.unknown)
    ∷ []

abbrev pub str_to_qos_reliability : Rmw → List (Bytes × Reliability)
str_to_qos_reliability r =
    (to_string (r.reliability_value Reliability.system_default), Reliability.system_default)
    ∷ (to_string (r.reliability_value Reliability.reliable), Reliability.reliable)
    ∷ (to_string (r.reliability_value Reliability.best_effort), Reliability.best_effort)
    ∷ (to_string (r.reliability_value Reliability.unknown), Reliability.unknown)
    ∷ (to_string (r.reliability_value Reliability.best_available), Reliability.best_available)
    ∷ []

abbrev pub str_to_qos_durability : Rmw → List (Bytes × Durability)
str_to_qos_durability r =
    (to_string (r.durability_value Durability.system_default), Durability.system_default)
    ∷ (to_string (r.durability_value Durability.transient_local), Durability.transient_local)
    ∷ (to_string (r.durability_value Durability.volatile), Durability.volatile)
    ∷ (to_string (r.durability_value Durability.unknown), Durability.unknown)
    ∷ (to_string (r.durability_value Durability.best_available), Durability.best_available)
    ∷ []

abbrev pub str_to_qos_liveliness : Rmw → List (Bytes × LivelinessPolicy)
str_to_qos_liveliness r =
    (
      to_string (r.liveliness_value LivelinessPolicy.system_default),
      LivelinessPolicy.system_default,
    )
    ∷ (to_string (r.liveliness_value LivelinessPolicy.automatic), LivelinessPolicy.automatic)
    ∷ (
      to_string (r.liveliness_value LivelinessPolicy.manual_by_topic),
      LivelinessPolicy.manual_by_topic,
    )
    ∷ (to_string (r.liveliness_value LivelinessPolicy.unknown), LivelinessPolicy.unknown)
    ∷ (
      to_string (r.liveliness_value LivelinessPolicy.best_available),
      LivelinessPolicy.best_available,
    )
    ∷ []

-- `map.at(key)`; `none` stands for the exception that `keyexpr_to_qos` catches.
unfoldable pub at : {A : Type 0} → Bytes → List (Bytes × A) → Option A
at key [] = none
at key ((k, v) ∷ m) = if key == k then some v else at key m

-- `part.empty() ? default : map.at(part)`
abbrev pub at_or_default : {A : Type 0} → Bytes → A → List (Bytes × A) → Option A
at_or_default [] default m = some default
at_or_default (c ∷ s) default m = at (c ∷ s) m
