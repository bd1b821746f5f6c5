-- ===== src/Attachments.antt =====
-- The attachment of each message, request and reply: detail/attachment_helpers.cpp. The serializer
-- and the deserializer of zenoh-cpp are the parameter `Codec`; an exception of the deserializer is
-- `none`.
pub mod RoundTrip
mod Tests
use rmw_zenoh.Common.{
  ℕ, ◌+◌, ◌-◌, ◌^◌, ◌≡◌, ◌<◌, ◌≤◌, List, [], ◌++◌, Option, none, some, ◌>>=◌, length, ltb,
  if◌then◌else◌,
}
use rmw_zenoh.Common.Text.{Bytes}
use rmw_zenoh.Common.Int.{ℤ, pos, negsuc, pos_part, neg_part}

-- What zenoh-cpp writes for an `int64_t` and for an array of bytes, and what it reads from the rest
-- of its input.
pub record Codec : Type 0 where
  pub serialize_int : ℤ → Bytes
  pub serialize_gid : Bytes → Bytes
  pub deserialize_int : Bytes → Option (ℤ × Bytes)
  pub deserialize_gid : Bytes → Option (Bytes × Bytes)

-- `RMW_GID_STORAGE_SIZE`
abbrev pub gid_size : ℕ
gid_size = 16

abbrev pub IsInt64 : ℤ → Type 0
IsInt64 a = pos_part a < 2 ^ 63 × neg_part a ≤ 2 ^ 63

-- What has been written is read back.
pub record IsCodec (c : Codec) : Type 0 where
  pub of_int :
      (a : ℤ) (rest : Bytes)
      → IsInt64 a
      → c.deserialize_int (c.serialize_int a ++ rest) ≡ some (a, rest)
  pub of_gid :
      (gid rest : Bytes)
      → length gid ≡ gid_size
      → c.deserialize_gid (c.serialize_gid gid ++ rest) ≡ some (gid, rest)

pub record AttachmentData : Type 0 where
  pub sequence_number : ℤ
  pub source_timestamp : ℤ
  pub source_gid : Bytes

unfoldable pub serialize_to_zbytes : Codec → AttachmentData → Bytes
serialize_to_zbytes c a =
    c.serialize_int a.sequence_number
    ++ c.serialize_int a.source_timestamp
    ++ c.serialize_gid a.source_gid

-- The constructor from bytes.
unfoldable pub attachment_of : Codec → Bytes → Option AttachmentData
attachment_of c bytes = do
  (sequence_number, bytes1) ← c.deserialize_int bytes
  (source_timestamp, bytes2) ← c.deserialize_int bytes1
  (source_gid, bytes3) ← c.deserialize_gid bytes2
  some (record {
    sequence_number = sequence_number;
    source_timestamp = source_timestamp;
    source_gid = source_gid;
  })

-- The conversion of a `size_t`, the type of the counters `sequence_number_`, to `int64_t`.
unfoldable pub to_int64 : ℕ → ℤ
to_int64 n = if ltb n (2 ^ 63) then pos n else negsuc (2 ^ 64 - n - 1)
