-- ===== src/Liveliness.antt =====
-- Liveliness tokens: detail/liveliness_utils.hpp and detail/liveliness_utils.cpp. This file has the
-- data and the mangling of names; the children have the codecs of profiles and of entities.
pub mod Split
pub mod Policies
pub mod Profile
pub mod Gid
pub mod Entity
pub mod Mangle
mod Tests
use rmw_zenoh.Common.{ℕ, ◌≡◌, Bool, List, [], ◌∷◌, ◌++◌, Option, if◌then◌else◌, ◌==◌, nat_eq}
use rmw_zenoh.Common.Text.{Bytes, to_string}
use rmw_zenoh.Qos.{QosProfile}

pub data EntityType : Type 0 where
  node publisher subscription service client : EntityType

pub record NodeInfo : Type 0 where
  pub domain_id : ℕ
  pub ns : Bytes
  pub name : Bytes
  pub enclave : Bytes

pub record TopicInfo : Type 0 where
  pub name : Bytes
  pub type : Bytes
  pub type_hash : Bytes
  pub topic_keyexpr : Bytes
  pub qos : QosProfile

abbrev pub slash : ℕ
slash = b'/'

abbrev pub slash_replacement : ℕ
slash_replacement = b'%'

-- Each byte of `input` in turn, a slash as "%".
unfoldable pub mangle_name : Bytes → Bytes
mangle_name [] = []
mangle_name (c ∷ s) = (if c == slash then slash_replacement else c) ∷ mangle_name s

unfoldable pub demangle_name : Bytes → Bytes
demangle_name [] = []
demangle_name (c ∷ s) = (if c == slash_replacement then slash else c) ∷ demangle_name s

drop_first_slash : Bytes → Bytes
drop_first_slash [] = []
drop_first_slash (c ∷ s) = if c == slash then s else c ∷ s

drop_last_slash : Bytes → Bytes
drop_last_slash [] = []
drop_last_slash (c ∷ []) = if c == slash then [] else c ∷ []
drop_last_slash (c ∷ d ∷ s) = c ∷ drop_last_slash (d ∷ s)

-- One slash at each end. On the text "/" both tests see the same byte, the length wraps around and
-- `substr` gives the empty text, as here. On the empty text the source reads a byte behind its end
-- and gives the empty text whatever that byte is.
unfoldable pub strip_slashes : Bytes → Bytes
unfolding drop_first_slash drop_last_slash
strip_slashes s = drop_last_slash (drop_first_slash s)

-- The constructor `TopicInfo::TopicInfo`.
unfoldable pub make_topic_info : ℕ → Bytes → Bytes → Bytes → QosProfile → TopicInfo
unfolding strip_slashes
make_topic_info domain_id name type type_hash qos = record {
  name = name;
  type = type;
  type_hash = type_hash;
  topic_keyexpr =
      to_string domain_id
      ++ (slash ∷ (strip_slashes name ++ (slash ∷ (type ++ (slash ∷ type_hash)))));
  qos = qos;
}
