-- ===== src/Services.antt =====
-- Services and clients: detail/rmw_service_data.cpp and detail/rmw_client_data.cpp. What both share
-- is here: what a queue does when it is full, and the header of a request or a response.
pub mod Service
pub mod Client
use rmw_zenoh.Common.{
  ℕ, ◌-◌, Bool, true, false, not, ◌&&◌, List, [], ◌∷◌, ◌++◌, Option, none, some, leb, length,
  is_empty, if◌then◌else◌,
}
use rmw_zenoh.Common.Text.{Bytes}
use rmw_zenoh.Common.Int.{ℤ, pos, negsuc}
use rmw_zenoh.Qos.{History}
use rmw_zenoh.Attachments.{Codec, AttachmentData, attachment_of}

abbrev pub is_keep_all : History → Bool
is_keep_all History.keep_all = true
is_keep_all _ = false

-- `std::deque::pop_front`; `none` is its undefined behaviour on an empty queue.
abbrev pub pop_front {ℓ} : {A : Type ℓ} → List A → Option (List A)
pop_front [] = none
pop_front (x ∷ xs) = some xs

-- The guard of `add_new_query` and of `add_new_reply`: the oldest entry goes when the queue is full.
unfoldable pub make_room {ℓ} : {A : Type ℓ} → History → ℕ → List A → Option (List A)
make_room history depth q =
    if not (is_keep_all history) && leb depth (length q) then pop_front q else some q

abbrev pub is_negative : ℤ → Bool
is_negative (pos n) = false
is_negative (negsuc n) = true

-- `rmw_service_info_t`
pub record ServiceInfo : Type 0 where
  pub sequence_number : ℤ
  pub writer_guid : Bytes
  pub source_timestamp : ℤ
  pub received_timestamp : ℕ

-- What reading an entry of a queue gives: a value, `RMW_RET_ERROR`, or an exception of zenoh-cpp.
pub data Outcome {ℓ} (A : Type ℓ) : Type ℓ where
  done : A → Outcome A
  failed : Outcome A
  raised : Outcome A

infixl 5 ◌>>=◌
abbrev pub ◌>>=◌ {ℓ κ} : {A : Type ℓ} {B : Type κ} → Outcome A → (A → Outcome B) → Outcome B
done a >>= f = f a
failed >>= f = failed
raised >>= f = raised

-- An error for what is not there.
abbrev pub required {ℓ} : {A : Type ℓ} → Option A → Outcome A
required none = failed
required (some a) = done a

-- An error when the test holds.
abbrev pub reject : Bool → Outcome {0} Unit
reject true = failed
reject false = done tt

unfoldable pub parse_attachment : Codec → Bytes → Outcome AttachmentData
parse_attachment c bytes = elim (attachment_of c bytes) [ none ↦ raised | some a ↦ done a ]

-- The header that both takes fill in from the attachment, with their checks.
unfoldable pub header_of : AttachmentData → ℕ → Outcome ServiceInfo
header_of a received_timestamp = do
  _ ← reject (is_negative a.sequence_number)
  _ ← reject (is_negative a.source_timestamp)
  done (record {
    sequence_number = a.sequence_number;
    writer_guid = a.source_gid;
    source_timestamp = a.source_timestamp;
    received_timestamp = received_timestamp;
  })

-- What a take gives: a value with its header, nothing, or no result.
pub data Taken {ℓ} (A : Type ℓ) : Type ℓ where
  taken : ServiceInfo → A → Taken A
  nothing : Taken A
  take_failed : Taken A
  take_raised : Taken A
