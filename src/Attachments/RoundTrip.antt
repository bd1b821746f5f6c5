-- ===== src/Attachments/RoundTrip.antt =====
-- Attachments of detail/attachment_helpers.cpp can be read back.
use rmw_zenoh.Common.{
  ◌≡◌, ◌∙◌, ap, ◌++◌, some, append-nil, append_assoc, sym, length, bind_step, refl, [],
}
use rmw_zenoh.Attachments.{
  Codec, IsCodec, IsInt64, gid_size, AttachmentData, serialize_to_zbytes, attachment_of,
}

-- The constructor from bytes gives back the attachment that was serialized, whenever the numbers are
-- 64-bit integers and the gid has 16 bytes, and the codec reads what it writes.
pub attachment_of-serialize :
    (c : Codec) (a : AttachmentData)
    → IsCodec c
    → IsInt64 a.sequence_number
    → IsInt64 a.source_timestamp
    → length a.source_gid ≡ gid_size
    → attachment_of c (serialize_to_zbytes c a) ≡ some a
unfolding attachment_of serialize_to_zbytes
attachment_of-serialize c a law n t g =
    let gid_bytes = c.serialize_gid a.source_gid in
    let time_bytes = c.serialize_int a.source_timestamp in
    bind_step _
      (ap (λ b. c.deserialize_int b)
          (append_assoc (c.serialize_int a.sequence_number) time_bytes gid_bytes)
        ∙ law.of_int a.sequence_number (time_bytes ++ gid_bytes) n)
      (bind_step _ (law.of_int a.source_timestamp gid_bytes t) (
        bind_step _
          (ap (λ b. c.deserialize_gid b) (sym (append-nil gid_bytes))
            ∙ law.of_gid a.source_gid [] g)
          refl))
