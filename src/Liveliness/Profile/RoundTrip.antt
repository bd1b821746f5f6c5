-- ===== src/Liveliness/Profile/RoundTrip.antt =====
-- A profile is read back from its text.
use rmw_zenoh.Common.{
  ℕ, ◌^◌, ◌<◌, ◌≡◌, ◌≢◌, ap, refl, Bool, List, [], ◌∷◌, ◌++◌, append_assoc, some, arith, ◌==◌,
  nat_eq, Has, All, bind_step,
}
use rmw_zenoh.Common.Text.{Bytes, Lacks, IsDigit, bytes_eq, to_string}
use rmw_zenoh.Qos.{
  History, Reliability, Durability, LivelinessPolicy, QosProfile, Rmw, IsDistinct, default_qos,
}
use rmw_zenoh.Liveliness.Split.{split_keyexpr, join, split-join}
use rmw_zenoh.Liveliness.Policies.{
  history_eq, reliability_eq, durability_eq, liveliness_eq, str_to_qos_history,
  str_to_qos_reliability, str_to_qos_durability, str_to_qos_liveliness, at_or_default,
}
use rmw_zenoh.Liveliness.Profile.{
  unless_default, number_text, reliability_text, durability_text, history_text, liveliness_text,
  qos_to_keyexpr, keyexpr_to_qos, six_parts, SixParts,
}
use rmw_zenoh.Liveliness.Profile.Reading.{
  at_or_default-unless_default, str_to_size_t-number_text, unless_default-Lacks, pair-Lacks,
  two_parts-split, three_parts-split, append_ne, join-Lacks,
}

-- The numbers of a profile fit their types.
pub record IsSized (q : QosProfile) : Type 0 where
  pub depth : q.depth < 2 ^ 64
  pub deadline : (q.deadline.sec < 2 ^ 64) × (q.deadline.nsec < 2 ^ 64)
  pub lifespan : (q.lifespan.sec < 2 ^ 64) × (q.lifespan.nsec < 2 ^ 64)
  pub lease :
      (q.liveliness_lease_duration.sec < 2 ^ 64) × (q.liveliness_lease_duration.nsec < 2 ^ 64)

module _ (r : Rmw) (q : QosProfile) where
  abbrev default : QosProfile
  default = default_qos r

  abbrev parts : SixParts
  parts = record {
    reliability = reliability_text r q;
    durability = durability_text r q;
    history = history_text r q ++ b',' ∷ number_text q.depth default.depth;
    deadline =
        number_text q.deadline.sec default.deadline.sec
        ++ b',' ∷ number_text q.deadline.nsec default.deadline.nsec;
    lifespan =
        number_text q.lifespan.sec default.lifespan.sec
        ++ b',' ∷ number_text q.lifespan.nsec default.lifespan.nsec;
    liveliness =
        liveliness_text r q
        ++ b','
          ∷ (number_text q.liveliness_lease_duration.sec default.liveliness_lease_duration.sec
              ++ b','
                ∷ number_text q.liveliness_lease_duration.nsec
                    default.liveliness_lease_duration.nsec);
  }

  abbrev parts_list : List Bytes
  parts_list =
      parts.reliability ∷ parts.durability ∷ parts.history ∷ parts.deadline ∷ parts.lifespan
      ∷ parts.liveliness ∷ []

  qos_to_keyexpr-join : qos_to_keyexpr r q ≡ join b':' parts_list
  unfolding qos_to_keyexpr
  qos_to_keyexpr-join = simp append_assoc

  parts_list-Lacks : (d : ℕ) → (IsDigit d → ⊥) → d ≢ b',' → All (Lacks d) parts_list
  parts_list-Lacks d no_digit no_comma = (
    u _ _,
    (
      u _ _,
      (
        p _ _ (u _ _) (u _ _),
        (
          p _ _ (u _ _) (u _ _),
          (p _ _ (u _ _) (u _ _), (p _ _ (u _ _) (p _ _ (u _ _) (u _ _)), tt)),
        ),
      ),
    ),
  )
    where
      u : (b : Bool) (n : ℕ) → Lacks d (unless_default b (to_string n))
      u = unless_default-Lacks d no_digit

      p : (a b : Bytes) → Lacks d a → Lacks d b → Lacks d (a ++ b',' ∷ b)
      p a b = pair-Lacks d a b no_comma

  six_parts-split : six_parts (split_keyexpr (qos_to_keyexpr r q) b':') ≡ some parts
  six_parts-split = rw qos_to_keyexpr-join (
      ap six_parts (
        split-join b':' parts.reliability
          (parts.durability ∷ parts.history ∷ parts.deadline ∷ parts.lifespan ∷ parts.liveliness
            ∷ [])
          (parts_list-Lacks b':' (λ h. omega arith) (omega arith))))

  comma_Lacks : (b : Bool) (n : ℕ) → Lacks b',' (unless_default b (to_string n))
  comma_Lacks = unless_default-Lacks b',' (λ h. omega arith)

-- The tables hold every enumerator.
abbrev history_all : List History
history_all = History.system_default ∷ History.keep_last ∷ History.keep_all ∷ History.unknown ∷ []

history_all-Has : (x : History) → Has x history_all
history_all-Has x = ground arith

abbrev reliability_all : List Reliability
reliability_all =
    Reliability.system_default ∷ Reliability.reliable ∷ Reliability.best_effort
    ∷ Reliability.unknown ∷ Reliability.best_available ∷ []

reliability_all-Has : (x : Reliability) → Has x reliability_all
reliability_all-Has x = ground arith

abbrev durability_all : List Durability
durability_all =
    Durability.system_default ∷ Durability.transient_local ∷ Durability.volatile
    ∷ Durability.unknown ∷ Durability.best_available ∷ []

durability_all-Has : (x : Durability) → Has x durability_all
durability_all-Has x = ground arith

abbrev liveliness_all : List LivelinessPolicy
liveliness_all =
    LivelinessPolicy.system_default ∷ LivelinessPolicy.automatic ∷ LivelinessPolicy.manual_by_topic
    ∷ LivelinessPolicy.unknown ∷ LivelinessPolicy.best_available ∷ []

liveliness_all-Has : (x : LivelinessPolicy) → Has x liveliness_all
liveliness_all-Has x = ground arith

-- A profile whose numbers fit in 64 bits is read back from its text, when the enumerators of each
-- policy have different numbers.
pub keyexpr_to_qos-qos_to_keyexpr :
    (r : Rmw) (q : QosProfile)
    → IsDistinct r
    → IsSized q
    → keyexpr_to_qos r (qos_to_keyexpr r q) ≡ some q
unfolding keyexpr_to_qos
keyexpr_to_qos-qos_to_keyexpr r q e z = bind_step _ (six_parts-split r q) (
    bind_step _ (two_parts-split _ _ (c _ _) (c _ _)) (
      bind_step _ (two_parts-split _ _ (c _ _) (c _ _)) (
        bind_step _ (two_parts-split _ _ (c _ _) (c _ _)) (
          bind_step _ (three_parts-split _ _ _ (c _ _) (c _ _) (c _ _)) (
            bind_step _ (history_read q.history) (
              bind_step _ (reliability_read q.reliability) (
                bind_step _ (durability_read q.durability) (
                  bind_step _ (liveliness_read q.liveliness) (
                    bind_step _ (str_to_size_t-number_text q.depth _ z.depth) (
                      bind_step _ (str_to_size_t-number_text q.deadline.sec _ z.deadline.0) (
                        bind_step _ (str_to_size_t-number_text q.deadline.nsec _ z.deadline.1) (
                          bind_step _ (str_to_size_t-number_text q.lifespan.sec _ z.lifespan.0) (
                            bind_step _ (str_to_size_t-number_text q.lifespan.nsec _ z.lifespan.1) (
                              bind_step _
                                (str_to_size_t-number_text q.liveliness_lease_duration.sec _
                                  z.lease.0)
                                (bind_step _
                                  (str_to_size_t-number_text q.liveliness_lease_duration.nsec _
                                    z.lease.1)
                                  refl)))))))))))))))
  where
    c : (b : Bool) (n : ℕ) → Lacks b',' (unless_default b (to_string n))
    c = comma_Lacks r q

    history_read :
        (x : History)
        → at_or_default
            (unless_default (x == (default_qos r).history) (to_string (r.history_value x)))
            (default_qos r).history
            (str_to_qos_history r)
          ≡ some x
    history_read x =
        at_or_default-unless_default r.history_value x (default_qos r).history history_all
          e.of_history (history_all-Has x)

    reliability_read :
        (x : Reliability)
        → at_or_default
            (unless_default (x == (default_qos r).reliability) (to_string (r.reliability_value x)))
            (default_qos r).reliability
            (str_to_qos_reliability r)
          ≡ some x
    reliability_read x =
        at_or_default-unless_default r.reliability_value x (default_qos r).reliability
          reliability_all e.of_reliability (reliability_all-Has x)

    durability_read :
        (x : Durability)
        → at_or_default
            (unless_default (x == (default_qos r).durability) (to_string (r.durability_value x)))
            (default_qos r).durability
            (str_to_qos_durability r)
          ≡ some x
    durability_read x =
        at_or_default-unless_default r.durability_value x (default_qos r).durability durability_all
          e.of_durability (durability_all-Has x)

    liveliness_read :
        (x : LivelinessPolicy)
        → at_or_default
            (unless_default (x == (default_qos r).liveliness) (to_string (r.liveliness_value x)))
            (default_qos r).liveliness
            (str_to_qos_liveliness r)
          ≡ some x
    liveliness_read x =
        at_or_default-unless_default r.liveliness_value x (default_qos r).liveliness liveliness_all
          e.of_liveliness (liveliness_all-Has x)

-- The text of a profile is a part of a token.
pub qos_to_keyexpr-ne-nil : (r : Rmw) (q : QosProfile) → qos_to_keyexpr r q ≢ []
qos_to_keyexpr-ne-nil r q = rw qos_to_keyexpr-join (append_ne (reliability_text r q) b':' _)

pub qos_to_keyexpr-Lacks : (r : Rmw) (q : QosProfile) → Lacks b'/' (qos_to_keyexpr r q)
qos_to_keyexpr-Lacks r q = rw qos_to_keyexpr-join (
    join-Lacks b'/' b':' (parts_list r q) (omega arith)
      (parts_list-Lacks r q b'/' (λ h. omega arith) (omega arith)))
