-- ===== src/Samples.antt =====
-- Concrete data for the examples: the numbers of rmw/types.h, two simple hashes, and a few entities.
use rmw_zenoh.Common.{
  ℕ, zero, suc, ◌+◌, ◌*◌, [], ◌∷◌, ◌++◌, Option, none, some, ◌&&◌, ◌==◌, nat_eq, arith, ◌≡◌, ◌∙◌,
  ap, sym, refl, ◌>>=◌, bind_step, length,
}
use rmw_zenoh.Common.Int.{ℤ, pos, negsuc}
use rmw_zenoh.Attachments.{Codec, IsCodec, gid_size}
use rmw_zenoh.Common.Text.{Bytes, codes}
use rmw_zenoh.Qos.{
  History, Reliability, Durability, LivelinessPolicy, RmwTime, QosProfile, Rmw, IsDistinct,
}
use rmw_zenoh.Liveliness.{EntityType, NodeInfo, TopicInfo}
use rmw_zenoh.Liveliness.Gid.{Hashes}
use rmw_zenoh.Liveliness.Entity.{Entity}

abbrev pub history_number : History → ℕ
history_number History.system_default = 0
history_number History.keep_last = 1
history_number History.keep_all = 2
history_number History.unknown = 3

abbrev pub reliability_number : Reliability → ℕ
reliability_number Reliability.system_default = 0
reliability_number Reliability.reliable = 1
reliability_number Reliability.best_effort = 2
reliability_number Reliability.unknown = 3
reliability_number Reliability.best_available = 4

abbrev pub durability_number : Durability → ℕ
durability_number Durability.system_default = 0
durability_number Durability.transient_local = 1
durability_number Durability.volatile = 2
durability_number Durability.unknown = 3
durability_number Durability.best_available = 4

abbrev pub liveliness_number : LivelinessPolicy → ℕ
liveliness_number LivelinessPolicy.system_default = 0
liveliness_number LivelinessPolicy.automatic = 1
liveliness_number LivelinessPolicy.manual_by_topic = 3
liveliness_number LivelinessPolicy.unknown = 4
liveliness_number LivelinessPolicy.best_available = 5

abbrev pub infinite : RmwTime
infinite = record { sec = 9223372036; nsec = 854775807 }

abbrev pub no_time : RmwTime
no_time = record { sec = 0; nsec = 0 }

abbrev pub rmw : Rmw
rmw = record {
  history_value = history_number;
  reliability_value = reliability_number;
  durability_value = durability_number;
  liveliness_value = liveliness_number;
  duration_infinite = infinite;
  deadline_default = no_time;
  lifespan_default = no_time;
  lease_duration_default = no_time;
  time_equal = λ s t. s.sec == t.sec && s.nsec == t.nsec;
}

pub rmw-IsDistinct : IsDistinct rmw
rmw-IsDistinct = record {
  of_history = λ a b h. ground arith;
  of_reliability = λ a b h. ground arith;
  of_durability = λ a b h. ground arith;
  of_liveliness = λ a b h. ground arith;
}

abbrev pub weighted : Bytes → ℕ
weighted [] = 0
weighted (c ∷ s) = c + 3 * weighted s

abbrev pub hashes : Hashes
hashes = record { xxh3_128 = λ s. (weighted s, 7); string_hash = weighted }

abbrev pub node_info : NodeInfo
node_info = record { domain_id = 3; ns = codes "/"; name = codes "talker"; enclave = codes "/" }

-- Reliability and depth are not the defaults.
abbrev pub qos : QosProfile
qos = record {
  history = History.keep_last;
  depth = 7;
  reliability = Reliability.best_effort;
  durability = Durability.volatile;
  deadline = infinite;
  lifespan = infinite;
  liveliness = LivelinessPolicy.automatic;
  liveliness_lease_duration = infinite;
}

abbrev pub open_qos : QosProfile
open_qos = record qos { history = History.system_default; depth = 0; deadline = no_time }

abbrev pub topic_info : TopicInfo
topic_info = record {
  name = codes "/chatter";
  type = codes "String";
  type_hash = codes "h";
  topic_keyexpr = codes "3/chatter/String/h";
  qos = qos;
}

abbrev pub publisher : Entity
publisher = record {
  zid = codes "z1";
  nid = codes "0";
  id = codes "1";
  gid_hash = 11;
  type = EntityType.publisher;
  node_info = node_info;
  topic_info = some topic_info;
  liveliness_keyexpr = codes "p";
  gid = codes "p";
}

abbrev pub subscription : Entity
subscription = record publisher { id = codes "2"; gid_hash = 12; type = EntityType.subscription }

abbrev pub gid : Bytes
gid = codes "0123456789abcdef"

-- An integer is written as its sign and its magnitude, and bytes as they are.
unfoldable pub write_int : ℤ → Bytes
write_int (pos n) = 0 ∷ n ∷ []
write_int (negsuc n) = 1 ∷ n ∷ []

unfoldable pub read_int : Bytes → Option (ℤ × Bytes)
read_int (zero ∷ n ∷ rest) = some (pos n, rest)
read_int (suc zero ∷ n ∷ rest) = some (negsuc n, rest)
read_int _ = none

unfoldable pub read_bytes : ℕ → Bytes → Option (Bytes × Bytes)
read_bytes zero bytes = some ([], bytes)
read_bytes (suc n) [] = none
read_bytes (suc n) (b ∷ bytes) = do (front, rest) ← read_bytes n bytes; some (b ∷ front, rest)

abbrev pub codec : Codec
codec = record {
  serialize_int = write_int;
  serialize_gid = λ g. g;
  deserialize_int = read_int;
  deserialize_gid = read_bytes gid_size;
}

read-write_int : (a : ℤ) (rest : Bytes) → read_int (write_int a ++ rest) ≡ some (a, rest)
unfolding read_int write_int
read-write_int (pos n) rest = refl
read-write_int (negsuc n) rest = refl

read_bytes-append : (g rest : Bytes) → read_bytes (length g) (g ++ rest) ≡ some (g, rest)
unfolding read_bytes
read_bytes-append [] rest = refl
read_bytes-append (b ∷ g) rest = bind_step _ (read_bytes-append g rest) refl

pub codec-IsCodec : IsCodec codec
codec-IsCodec = record {
  of_int = λ a rest h. read-write_int a rest;
  of_gid = λ g rest h. ap (λ n. read_bytes n (g ++ rest)) (sym h) ∙ read_bytes-append g rest;
}
