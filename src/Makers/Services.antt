-- ===== src/Makers/Services.antt =====
-- Services and clients that `make` gives: detail/rmw_service_data.cpp and detail/rmw_client_data.cpp.
use rmw_zenoh.Common.{
  ℕ, ◌≡◌, ◌<◌, Bool, ◌&&◌, Bool-cases, subst, List, ◌++◌, Option, some, arith, ◌>>=◌, Option-cases,
  inl, inr,
}
use rmw_zenoh.Common.Text.{Bytes, to_string}
use rmw_zenoh.Qos.{Rmw, QosProfile, best_available_qos, adapted}
use rmw_zenoh.Liveliness.{TopicInfo, EntityType, make_topic_info}
use rmw_zenoh.Liveliness.Gid.{Hashes}
use rmw_zenoh.Liveliness.Entity.{Entity, make}
use rmw_zenoh.Services.Service.{ServiceData}
use rmw_zenoh.Attachments.{Codec}
use rmw_zenoh.Services.Service.Run.{Call, Seen, run}
use rmw_zenoh.Services.Service.WellFormed.{
  run-IsWellFormed, IsWellFormed, make_service-IsWellFormed,
}
use rmw_zenoh.Makers.{
  Description, adapted_profile, make_endpoint, before_last, response_suffix, request_suffix,
  make_service_data,
}

-- What the graph is told of an endpoint.
abbrev pub expected_topic_info : Rmw → Bytes → Description → Option TopicInfo
expected_topic_info r type_name d = do
  qos ← adapted_profile r d.qos
  hash ← d.type_hash
  some (make_topic_info d.node_info.domain_id d.name type_name hash qos)

-- A client of the service that is described, of any session and numbers.
abbrev pub client_of : Description → Bytes → ℕ → ℕ → Bytes → Description
client_of d zid node_id endpoint_id t = record d {
  zid = zid;
  node_id = node_id;
  endpoint_id = endpoint_id;
  type_name = t ++ request_suffix;
}

depth-adapted_profile : (r : Rmw) (q q' : QosProfile) → adapted_profile r q ≡ some q' → 0 < q'.depth
unfolding best_available_qos adapted
depth-adapted_profile r q q' e = ground arith

pub profile-make_endpoint :
    (r : Rmw) (h : Hashes) (type : EntityType) (type_name : Bytes) (d : Description)
    (entity : Entity) (qos : QosProfile)
    → make_endpoint r h type type_name d ≡ some (entity, qos)
    → adapted_profile r d.qos ≡ some qos
unfolding make_endpoint
profile-make_endpoint r h type type_name d entity qos e =
    elim (Option-cases (adapted_profile r d.qos)) [
      | inl a ↦ ground (arith, a)
      | inr (q, a) ↦ elim (Option-cases d.type_hash) [
        | inl b ↦ ground (arith, a, b)
        | inr (hash, b) ↦
            elim (Option-cases (
              make r h d.zid (to_string d.node_id) (to_string d.endpoint_id) type d.node_info
                (some (make_topic_info d.node_info.domain_id d.name type_name hash q)))) [
                  | inl c ↦ ground (arith, a, b, c)
                  | inr (made, c) ↦ ground (arith, a, b, c)
                ]
      ]
    ]

-- A service that `make` gives is well-formed, whatever the profile asks for.
pub make_service_data-IsWellFormed :
    (r : Rmw) (h : Hashes) (keyexpr_ok qable_ok token_ok : Bool) (d : Description) (entity : Entity)
    (s : ServiceData)
    → make_service_data r h keyexpr_ok qable_ok token_ok d ≡ some (entity, s)
    → IsWellFormed s
unfolding make_service_data
make_service_data-IsWellFormed r h keyexpr_ok qable_ok token_ok d entity s e =
    elim (Option-cases (before_last response_suffix d.type_name)) [
      | inl a ↦ ground (arith, a)
      | inr (service_type, a) ↦
          elim (Option-cases (make_endpoint r h EntityType.service service_type d)) [
            | inl b ↦ ground (arith, a, b)
            | inr ((made, qos), b) ↦ elim (Bool-cases (keyexpr_ok && (qable_ok && token_ok))) [
              | inl c ↦ subst IsWellFormed (ground (arith, a, b, c)) (
                  make_service-IsWellFormed qos.history qos.depth (
                    depth-adapted_profile r d.qos qos
                      (profile-make_endpoint r h EntityType.service service_type d made qos b)))
              | inr c ↦ ground (arith, a, b, c)
            ]
          ]
    ]

-- A service that `make` gives has no undefined behaviour in any later calls, and stays well-formed.
pub make_service_data-run {ℓ} :
    {A : Type ℓ} (c : Codec) (deserialize : Bytes → Option A) (xs : List Call) (r : Rmw)
    (h : Hashes) (keyexpr_ok qable_ok token_ok : Bool) (d : Description) (entity : Entity)
    (s : ServiceData)
    → make_service_data r h keyexpr_ok qable_ok token_ok d ≡ some (entity, s)
    → (result : ServiceData × List Seen) × (run c h deserialize xs s ≡ some result)
      × IsWellFormed result.0
make_service_data-run c deserialize xs r h keyexpr_ok qable_ok token_ok d entity s e =
    run-IsWellFormed c h deserialize xs s
      (make_service_data-IsWellFormed r h keyexpr_ok qable_ok token_ok d entity s e)
