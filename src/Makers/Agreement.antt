-- ===== src/Makers/Agreement.antt =====
-- What a publisher and a subscription that `make` gives agree on: detail/rmw_publisher_data.cpp and
-- detail/rmw_subscription_data.cpp.
use rmw_zenoh.Common.{
  ◌≡◌, refl, ap, ◌∙◌, sym, Bool, true, ◌&&◌, ◌||◌, not, Bool-cases, subst, some, arith,
  Option-cases, inl, inr,
}
use rmw_zenoh.Qos.{Rmw, QosProfile}
use rmw_zenoh.Liveliness.{EntityType}
use rmw_zenoh.Liveliness.Gid.{Hashes}
use rmw_zenoh.Liveliness.Entity.{has_value, Entity}
use rmw_zenoh.Subscription.Session.{Subscriber, init}
use rmw_zenoh.Publisher.{PublisherData}
use rmw_zenoh.Graph.Events.{GraphEvents}
use rmw_zenoh.Makers.{
  new_subscription, PublisherOptions, SubscriberOptions, make_publisher_data,
  make_subscription_data, Description, adapted_profile, make_endpoint, publisher_options,
  subscriber_options, is_transient_local, is_reliable,
}
use rmw_zenoh.Makers.Services.{profile-make_endpoint}

-- What a publisher offers to late subscribers is what a subscriber asks for: each detects the other,
-- as many samples are kept as are asked for, and lost samples are recovered when heartbeats tell of
-- them.
abbrev pub Agree : PublisherOptions → SubscriberOptions → Type 0
Agree p s =
    (p.publisher_detection ≡ s.subscriber_detection)
    × ((p.cache ≡ s.history)
        × ((s.recovery ≡ has_value p.sample_miss_detection)
            × (not s.recovery || p.reliable && has_value p.cache) ≡ true))

options-Agree :
    (ignore_local : Bool) (q : QosProfile)
    → Agree (publisher_options q) (subscriber_options ignore_local q)
unfolding publisher_options subscriber_options
options-Agree ignore_local q = elim (Bool-cases (is_transient_local q.durability)) [
  | inl a ↦ elim (Bool-cases (is_reliable q.reliability)) [
    | inl b ↦ (refl, (refl, (ground (arith, a, b), ground (arith, a, b))))
    | inr b ↦ (refl, (refl, (ground (arith, a, b), ground (arith, a, b))))
  ]
  | inr a ↦ (refl, (refl, (ground (arith, a), ground (arith, a))))
]

publisher_profile :
    (r : Rmw) (h : Hashes) (pub_ok token_ok : Bool) (d : Description) (entity : Entity)
    (options : PublisherOptions) (p : PublisherData)
    → make_publisher_data r h pub_ok token_ok d ≡ some (entity, (options, p))
    → (q : QosProfile) × (adapted_profile r d.qos ≡ some q) × (options ≡ publisher_options q)
unfolding make_publisher_data
publisher_profile r h pub_ok token_ok d entity options p e =
    elim (Option-cases (make_endpoint r h EntityType.publisher d.type_name d)) [
      | inl b ↦ ground (arith, b)
      | inr ((made, qos), b) ↦ elim (Bool-cases (pub_ok && token_ok)) [
        | inl c ↦ (
          qos,
          profile-make_endpoint r h EntityType.publisher d.type_name d made qos b,
          ground (arith, b, c),
        )
        | inr c ↦ ground (arith, b, c)
      ]
    ]

subscriber_profile :
    (r : Rmw) (h : Hashes) (ignore_local keyexpr_ok sub_ok token_ok : Bool) (events : GraphEvents)
    (d : Description) (entity : Entity) (options : SubscriberOptions) (s : Subscriber)
    → make_subscription_data r h ignore_local keyexpr_ok sub_ok token_ok events d
      ≡ some (entity, (options, s))
    → (q : QosProfile) × (adapted_profile r d.qos ≡ some q)
      × (options ≡ subscriber_options ignore_local q)
unfolding make_subscription_data
subscriber_profile r h ignore_local keyexpr_ok sub_ok token_ok events d entity options s e =
    elim (Option-cases (make_endpoint r h EntityType.subscription d.type_name d)) [
      | inl b ↦ ground (arith, b)
      | inr ((made, qos), b) ↦
          elim (Bool-cases (init keyexpr_ok sub_ok token_ok (new_subscription qos made events)).1) [
            | inl c ↦ (
              qos,
              profile-make_endpoint r h EntityType.subscription d.type_name d made qos b,
              ground (arith, b, c),
            )
            | inr c ↦ ground (arith, b, c)
          ]
    ]

-- A publisher and a subscription that are made from descriptions with the same profile agree.
pub make-Agree :
    (r : Rmw) (h : Hashes) (pub_ok token_ok ignore_local keyexpr_ok sub_ok sub_token_ok : Bool)
    (events : GraphEvents) (d d' : Description) (e e' : Entity) (po : PublisherOptions)
    (p : PublisherData) (so : SubscriberOptions) (s : Subscriber)
    → d.qos ≡ d'.qos
    → make_publisher_data r h pub_ok token_ok d ≡ some (e, (po, p))
    → make_subscription_data r h ignore_local keyexpr_ok sub_ok sub_token_ok events d'
      ≡ some (e', (so, s))
    → Agree po so
make-Agree r h pub_ok token_ok ignore_local keyexpr_ok sub_ok sub_token_ok events d d' e e' po p so
      s same mp ms =
    let (q, a, x) = publisher_profile r h pub_ok token_ok d e po p mp in
    let (q', a', y) =
      subscriber_profile r h ignore_local keyexpr_ok sub_ok sub_token_ok events d' e' so s ms in
    let qq : q ≡ q' = ground (arith, sym a ∙ ap (adapted_profile r) same ∙ a') in
    subst (λ o. Agree o so) (sym x)
      (subst (λ o. Agree (publisher_options q) o) (sym y)
        (subst (λ w. Agree (publisher_options q) (subscriber_options ignore_local w)) qq
          (options-Agree ignore_local q)))
