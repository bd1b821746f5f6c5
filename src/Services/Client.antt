-- ===== src/Services/Client.antt =====
-- `ClientData` of detail/rmw_client_data.cpp. Each method is one critical section of `mutex_`, but
-- `send_request` leaves it before it calls `get`, and a reply is received by `is_shutdown` and then
-- `add_new_reply`. The type support is an argument, and so is what the allocator and zenoh answer.
pub mod Numbers
pub mod Exchange
pub mod RoundTrip
mod Tests
use rmw_zenoh.Common.{
  ℕ, ◌+◌, ◌^◌, ◌%◌, Bool, true, false, not, ◌&&◌, List, [], ◌∷◌, ◌++◌, Option, none, some, is_empty,
  if◌then◌else◌,
}
use rmw_zenoh.Common.Text.{Bytes}
use rmw_zenoh.Common.Int.{ℤ}
use rmw_zenoh.Qos.{History, RmwRet}
use rmw_zenoh.Event.{Callback, Effect, DataCallbackManager, set_callback, trigger_callback}
use rmw_zenoh.Subscription.{notify}
use rmw_zenoh.Attachments.{Codec, AttachmentData, serialize_to_zbytes, to_int64}
use rmw_zenoh.Services.{
  make_room, ServiceInfo, Outcome, done, failed, raised, ◌>>=◌, required, reject, parse_attachment,
  header_of, Taken, taken, nothing, take_failed, take_raised,
}

-- `zenoh::Sample`, as far as it is read.
pub record Sample : Type 0 where
  pub payload : Bytes
  pub attachment : Option Bytes

-- `ZenohReply`: the sample, when the reply is not an error, and when it was received.
pub record ZenohReply : Type 0 where
  pub sample : Option Sample
  pub received_timestamp : ℕ

-- `history` and `depth` are those of the entity's profile, and `gid` is the entity's. The last two
-- say whether the liveliness token and the querier are declared.
pub record ClientData : Type 0 where
  pub history : History
  pub depth : ℕ
  pub gid : Bytes
  pub reply_queue : List ZenohReply
  pub wait_set_data : Option ℕ
  pub data_callback_mgr : DataCallbackManager
  pub sequence_number : ℕ
  pub is_shutdown : Bool
  pub initialized : Bool
  pub token_declared : Bool
  pub querier_declared : Bool

-- The constructor, when the token can be declared.
unfoldable pub new_client : History → ℕ → Bytes → ClientData
new_client history depth gid = record {
  history = history;
  depth = depth;
  gid = gid;
  reply_queue = [];
  wait_set_data = none;
  data_callback_mgr = record { callback = none; unread_count = 0 };
  sequence_number = 1;
  is_shutdown = false;
  initialized = true;
  token_declared = true;
  querier_declared = true;
}

-- `none` is undefined behaviour, of `pop_front` on an empty queue.
unfoldable pub add_new_reply : ZenohReply → ClientData → Option (ClientData × List Effect)
add_new_reply reply s = elim (make_room s.history s.depth s.reply_queue) [
  | none ↦ none
  | some q ↦
      let (callbacks, calls) = trigger_callback s.data_callback_mgr in
      some (
        record s { reply_queue = q ++ reply ∷ []; data_callback_mgr = callbacks },
        calls ++ notify s.wait_set_data,
      )
]

-- The closure that `send_request` gives to `get`, while the client exists.
unfoldable pub on_reply : ZenohReply → ClientData → Option (ClientData × List Effect)
unfolding add_new_reply
on_reply reply s = elim reply.sample [
  | none ↦ some (s, [])
  | some _ ↦ if s.is_shutdown then some (s, []) else add_new_reply reply s
]

-- What `take_response` reads of a reply that has been popped, in the order of its checks.
unfoldable pub read_reply {ℓ} :
    {A : Type ℓ} → Codec → (Bytes → Option A) → ZenohReply → Outcome (ServiceInfo × A)
unfolding parse_attachment header_of
read_reply c deserialize reply = do
  sample ← required reply.sample
  _ ← reject (is_empty sample.payload)
  bytes ← required sample.attachment
  response ← required (deserialize sample.payload)
  attachment ← parse_attachment c bytes
  header ← header_of attachment reply.received_timestamp
  done (header, response)

abbrev pub taken_of {ℓ} : {A : Type ℓ} → Outcome (ServiceInfo × A) → Taken A
taken_of (done (header, response)) = taken header response
taken_of failed = take_failed
taken_of raised = take_raised

take_front {ℓ} :
    {A : Type ℓ} → Codec → (Bytes → Option A) → List ZenohReply → ClientData → ClientData × Taken A
unfolding read_reply
take_front c deserialize [] s = (s, nothing)
take_front c deserialize (reply ∷ rest) s =
    if s.is_shutdown
    then (s, nothing)
    else (record s { reply_queue = rest }, taken_of (read_reply c deserialize reply))

unfoldable pub take_response {ℓ} :
    {A : Type ℓ} → Codec → (Bytes → Option A) → ClientData → ClientData × Taken A
unfolding take_front
take_response c deserialize s = take_front c deserialize s.reply_queue s

-- What the context, the allocator, the type support, the clock and zenoh give `send_request`: the
-- bytes of the request when it can be serialized, the time, and whether `get` succeeds.
pub record Request : Type 0 where
  pub has_context : Bool
  pub allocated : Bool
  pub request : Option Bytes
  pub now : ℤ
  pub got : Bool

-- A call of `zenoh::Querier::get`, with its payload and attachment.
pub record GetCall : Type 0 where
  pub payload : Bytes
  pub attachment : Bytes

-- What `send_request` returns, the number that it writes to `*sequence_id`, when it does, and the
-- call of `get`, when it makes one.
pub record Sent : Type 0 where
  pub ret : RmwRet
  pub sequence_id : Option ℤ
  pub get_call : Option GetCall

abbrev pub not_sent : RmwRet → Sent
not_sent ret = record { ret = ret; sequence_id = none; get_call = none }

-- The part that follows the serialization.
unfoldable pub send_bytes : Codec → Bytes → Request → ClientData → ClientData × Sent
send_bytes c request_bytes r s =
    let sequence_id = to_int64 s.sequence_number in
    (
      record s { sequence_number = (s.sequence_number + 1) % 2 ^ 64 },
      record {
        ret = if r.got then RmwRet.ok else RmwRet.error;
        sequence_id = some sequence_id;
        get_call = some (record {
          payload = request_bytes;
          attachment = serialize_to_zbytes c (record {
            sequence_number = sequence_id;
            source_timestamp = r.now;
            source_gid = s.gid;
          });
        });
      },
    )

unfoldable pub send_request : Codec → Request → ClientData → ClientData × Sent
unfolding send_bytes
send_request c r s =
    if s.is_shutdown
    then (s, not_sent RmwRet.ok)
    else if not r.has_context
    then (s, not_sent RmwRet.invalid_argument)
    else if not r.allocated
    then (s, not_sent RmwRet.error)
    else elim r.request [
      | none ↦ (s, not_sent RmwRet.error)
      | some request_bytes ↦ send_bytes c request_bytes r s
    ]

unfoldable pub set_on_new_response_callback :
    Option Callback → ClientData → ClientData × List Effect
set_on_new_response_callback callback s =
    let (m, calls) = set_callback s.data_callback_mgr callback in
    (record s { data_callback_mgr = m }, calls)

unfoldable pub queue_has_data_and_attach : ℕ → ClientData → ClientData × Bool
queue_has_data_and_attach wait_set s =
    if not (is_empty s.reply_queue)
    then (s, true)
    else (record s { wait_set_data = some wait_set }, false)

unfoldable pub detach_and_queue_is_empty : ClientData → ClientData × Bool
detach_and_queue_is_empty s = (record s { wait_set_data = none }, is_empty s.reply_queue)

-- The session's answers to the two undeclarations are arguments, as in `Service.shutdown`.
unfoldable pub shutdown : Bool → Bool → ClientData → ClientData × RmwRet
shutdown token_ok querier_ok s =
    if s.is_shutdown
    then (s, RmwRet.ok)
    else if s.initialized && not token_ok
    then (record s { token_declared = false }, RmwRet.error)
    else let s' = if s.initialized then record s { token_declared = false } else s in
      if not querier_ok
      then (record s' { querier_declared = false }, RmwRet.error)
      else (record s' { querier_declared = false; is_shutdown = true }, RmwRet.ok)
