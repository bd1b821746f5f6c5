-- ===== src/Liveliness/Tests.antt =====
-- Examples of detail/liveliness_utils.cpp.
use rmw_zenoh.Common.{◌*◌, ◌+◌, ◌≡◌, refl, arith, [], ◌∷◌, ◌++◌, none, some, nat_eq}
use rmw_zenoh.Common.Text.{codes, bytes_eq}
use rmw_zenoh.Liveliness.{EntityType, make_topic_info}
use rmw_zenoh.Liveliness.Profile.{qos_to_keyexpr, keyexpr_to_qos}
use rmw_zenoh.Liveliness.Profile.RoundTrip.{IsSized, keyexpr_to_qos-qos_to_keyexpr}
use rmw_zenoh.Liveliness.Gid.{hash_gid, hash_gid_collision}
use rmw_zenoh.Liveliness.Entity.{Entity, parsed, make, make_entity, make_from_keyexpr}
use rmw_zenoh.Liveliness.Entity.Parts.{IsNode}
use rmw_zenoh.Liveliness.Entity.RoundTrip.{make_from_keyexpr-endpoint}
use rmw_zenoh.Samples.{rmw, rmw-IsDistinct, hashes, node_info, qos, topic_info}

qos-IsSized : IsSized qos
qos-IsSized = record {
  depth = omega arith;
  deadline = (omega arith, omega arith);
  lifespan = (omega arith, omega arith);
  lease = (omega arith, omega arith);
}

node_info-IsNode : IsNode node_info
node_info-IsNode = record {
  domain_id = omega arith;
  ns = ground arith;
  name = ground arith;
  enclave = ground arith;
}

-- A node, and a publisher of it.
abbrev node : Entity
node = make_entity rmw hashes (codes "z1") (codes "0") (codes "0") EntityType.node node_info none

abbrev talker : Entity
talker =
    make_entity rmw hashes (codes "z1") (codes "0") (codes "1") EntityType.publisher node_info
      (some (make_topic_info 3 (codes "/chatter") (codes "String") (codes "h") qos))

make_from_keyexpr-endpoint_example :
    make_from_keyexpr rmw hashes talker.liveliness_keyexpr ≡ parsed talker
make_from_keyexpr-endpoint_example =
    make_from_keyexpr-endpoint rmw hashes (codes "z1") (codes "0") (codes "1") node_info
      (ground arith) node_info-IsNode EntityType.publisher (ground arith) (codes "/chatter")
      (codes "String") (codes "h") qos rmw-IsDistinct qos-IsSized (ground arith) (ground arith)
      (ground arith)

keyexpr_to_qos-qos_to_keyexpr_example : keyexpr_to_qos rmw (qos_to_keyexpr rmw qos) ≡ some qos
keyexpr_to_qos-qos_to_keyexpr_example =
    keyexpr_to_qos-qos_to_keyexpr rmw qos rmw-IsDistinct qos-IsSized

talker_made :
    make rmw hashes
      (codes "z1")
      (codes "0")
      (codes "1")
      EntityType.publisher
      node_info
      (some topic_info)
    ≡ some (
        make_entity rmw hashes
          (codes "z1")
          (codes "0")
          (codes "1")
          EntityType.publisher
          node_info
          (some topic_info))
unfolding make
talker_made = refl

hash_gid_collision_example :
    hash_gid hashes ([] ++ 1 ∷ (16 * 2 + 3) ∷ []) ≡ hash_gid hashes ([] ++ (16 * 1 + 2) ∷ 3 ∷ [])
hash_gid_collision_example =
    hash_gid_collision hashes [] 1 2 3 [] (omega arith) (omega arith) (omega arith) (omega arith)
      (omega arith)
