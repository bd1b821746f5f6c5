-- ===== src/Services/Service.antt =====
-- `ServiceData` of detail/rmw_service_data.cpp. Each method is one critical section of `mutex_`.
-- The type support is an argument, and so is what the allocator and zenoh answer.
pub mod Branches
pub mod Pending
pub mod Queries
pub mod Run
pub mod Answers
pub mod WellFormed
pub mod Respond
pub mod Declared
mod Tests
use rmw_zenoh.Common.{
  ℕ, Bool, true, false, not, ◌&&◌, List, [], ◌∷◌, ◌++◌, Option, none, some, ◌==◌, nat_eq, is_empty,
  if◌then◌else◌,
}
use rmw_zenoh.Common.Text.{Bytes}
use rmw_zenoh.Common.Int.{ℤ, ℤ_eq}
use rmw_zenoh.Common.Map.{find, append, assign, erase}
use rmw_zenoh.Qos.{History, RmwRet}
use rmw_zenoh.Liveliness.Gid.{Hashes, hash_gid}
use rmw_zenoh.Event.{Callback, Effect, DataCallbackManager, set_callback, trigger_callback}
use rmw_zenoh.Subscription.{notify}
use rmw_zenoh.Attachments.{Codec, AttachmentData, serialize_to_zbytes}
use rmw_zenoh.Services.{
  make_room, ServiceInfo, Outcome, done, failed, raised, ◌>>=◌, required, reject, parse_attachment,
  header_of, Taken, taken, nothing, take_failed, take_raised,
}

-- `ZenohQuery`: the query, named by a number, its payload and attachment when it has them, and when
-- it was received.
pub record ZenohQuery : Type 0 where
  pub query : ℕ
  pub payload : Option Bytes
  pub attachment : Option Bytes
  pub received_timestamp : ℕ

-- `SequenceToQuery`
abbrev pub SequenceToQuery : Type 0
SequenceToQuery = List (ℤ × ZenohQuery)

abbrev pub QueryMap : Type 0
QueryMap = List (ℕ × SequenceToQuery)

-- `history` and `depth` are those of the entity's profile. The last two say whether the liveliness
-- token and the queryable are declared.
pub record ServiceData : Type 0 where
  pub history : History
  pub depth : ℕ
  pub query_queue : List ZenohQuery
  pub sequence_to_query_map : QueryMap
  pub wait_set_data : Option ℕ
  pub data_callback_mgr : DataCallbackManager
  pub is_shutdown : Bool
  pub initialized : Bool
  pub token_declared : Bool
  pub qable_declared : Bool

-- What `ServiceData::make` returns when nothing fails: the constructor's state, with the queryable
-- and the token declared.
unfoldable pub make_service : History → ℕ → ServiceData
make_service history depth = record {
  history = history;
  depth = depth;
  query_queue = [];
  sequence_to_query_map = [];
  wait_set_data = none;
  data_callback_mgr = record { callback = none; unread_count = 0 };
  is_shutdown = false;
  initialized = false;
  token_declared = true;
  qable_declared = true;
}

-- `none` is undefined behaviour, of `pop_front` on an empty queue.
unfoldable pub add_new_query : ZenohQuery → ServiceData → Option (ServiceData × List Effect)
add_new_query query s =
    if s.is_shutdown then some (s, []) else elim (make_room s.history s.depth s.query_queue) [
      | none ↦ none
      | some q ↦
          let (callbacks, calls) = trigger_callback s.data_callback_mgr in
          some (
            record s { query_queue = q ++ query ∷ []; data_callback_mgr = callbacks },
            calls ++ notify s.wait_set_data,
          )
    ]

-- What `take_request` reads of a query that has been popped, in the order of its checks.
unfoldable pub read_query {ℓ} :
    {A : Type ℓ} → Codec → (Bytes → Option A) → ZenohQuery → Outcome (ServiceInfo × A)
unfolding parse_attachment header_of
read_query c deserialize query = do
  payload ← required query.payload
  _ ← reject (is_empty payload)
  request ← required (deserialize payload)
  bytes ← required query.attachment
  attachment ← parse_attachment c bytes
  header ← header_of attachment query.received_timestamp
  done (header, request)

-- The query is kept by the hash of its client and by its number; `none` when there is one already.
-- The `SequenceToQuery` of a new client goes into the map empty and is then filled.
unfoldable pub insert_query : ℕ → ℤ → ZenohQuery → QueryMap → Option QueryMap
insert_query hash sequence_number query m = elim (find hash m) [
  | none ↦ some (append hash ((sequence_number, query) ∷ []) m)
  | some inner ↦ elim (find sequence_number inner) [
    | none ↦ some (assign hash (append sequence_number query inner) m)
    | some _ ↦ none
  ]
]

unfoldable pub keep_query {ℓ} :
    {A : Type ℓ} → Hashes → ZenohQuery → ServiceInfo → A → ServiceData → ServiceData × Taken A
unfolding insert_query
keep_query h query header request s =
    elim (insert_query (hash_gid h header.writer_guid) header.sequence_number query
      s.sequence_to_query_map) [
        | none ↦ (s, take_failed)
        | some m ↦ (record s { sequence_to_query_map = m }, taken header request)
      ]

unfoldable pub take_query {ℓ} :
    {A : Type ℓ}
    → Codec
    → Hashes
    → (Bytes → Option A)
    → ZenohQuery
    → ServiceData
    → ServiceData × Taken A
unfolding read_query keep_query
take_query c h deserialize query s = elim (read_query c deserialize query) [
  | done (header, request) ↦ keep_query h query header request s
  | failed ↦ (s, take_failed)
  | raised ↦ (s, take_raised)
]

take_front {ℓ} :
    {A : Type ℓ}
    → Codec
    → Hashes
    → (Bytes → Option A)
    → List ZenohQuery
    → ServiceData
    → ServiceData × Taken A
unfolding take_query
take_front c h deserialize [] s = (s, nothing)
take_front c h deserialize (query ∷ rest) s =
    if s.is_shutdown
    then (s, nothing)
    else take_query c h deserialize query (record s { query_queue = rest })

unfoldable pub take_request {ℓ} :
    {A : Type ℓ} → Codec → Hashes → (Bytes → Option A) → ServiceData → ServiceData × Taken A
unfolding take_front
take_request c h deserialize s = take_front c h deserialize s.query_queue s

-- The query of a request, and the map without it; a client without queries is removed too.
unfoldable pub remove_query : ℕ → ℤ → QueryMap → Option (ZenohQuery × QueryMap)
remove_query hash sequence_number m = elim (find hash m) [
  | none ↦ none
  | some inner ↦ elim (find sequence_number inner) [
    | none ↦ none
    | some query ↦
        let inner' = erase sequence_number inner in
        some (query, if is_empty inner' then erase hash m else assign hash inner' m)
  ]
]

-- `rmw_request_id_t`
pub record RequestId : Type 0 where
  pub writer_guid : Bytes
  pub sequence_number : ℤ

-- What the response, the allocator, the clock and zenoh give `send_response`: the bytes of the
-- response when it can be serialized, the time, and whether the reply succeeds.
pub record Reply : Type 0 where
  pub allocated : Bool
  pub response : Option Bytes
  pub now : ℤ
  pub replied : Bool

-- A call of `zenoh::Query::reply`, with its payload and attachment.
pub record ReplyCall : Type 0 where
  pub query : ℕ
  pub payload : Bytes
  pub attachment : Bytes

-- The part of `send_response` that follows the removal of the query from the map.
unfoldable pub reply_to : Codec → RequestId → Reply → ZenohQuery → RmwRet × List ReplyCall
reply_to c id r query = if not r.allocated then (RmwRet.error, []) else elim r.response [
  | none ↦ (RmwRet.error, [])
  | some response_bytes ↦ (
    if r.replied then RmwRet.ok else RmwRet.error,
    record {
      query = query.query;
      payload = response_bytes;
      attachment = serialize_to_zbytes c (record {
        sequence_number = id.sequence_number;
        source_timestamp = r.now;
        source_gid = id.writer_guid;
      });
    }
        ∷ [],
  )
]

unfoldable pub send_response :
    Codec → Hashes → RequestId → Reply → ServiceData → ServiceData × RmwRet × List ReplyCall
unfolding remove_query reply_to
send_response c h id r s =
    if s.is_shutdown
    then (s, RmwRet.ok, [])
    else elim (remove_query (hash_gid h id.writer_guid) id.sequence_number
        s.sequence_to_query_map) [
          | none ↦ (s, RmwRet.ok, [])
          | some (query, m) ↦
              let (ret, calls) = reply_to c id r query in
              (record s { sequence_to_query_map = m }, ret, calls)
        ]

unfoldable pub set_on_new_request_callback :
    Option Callback → ServiceData → ServiceData × List Effect
set_on_new_request_callback callback s =
    let (m, calls) = set_callback s.data_callback_mgr callback in
    (record s { data_callback_mgr = m }, calls)

unfoldable pub queue_has_data_and_attach : ℕ → ServiceData → ServiceData × Bool
queue_has_data_and_attach wait_set s =
    if not (is_empty s.query_queue)
    then (s, true)
    else (record s { wait_set_data = some wait_set }, false)

unfoldable pub detach_and_queue_is_empty : ServiceData → ServiceData × Bool
detach_and_queue_is_empty s = (record s { wait_set_data = none }, is_empty s.query_queue)

-- The session's answers to the two undeclarations are arguments. An undeclaration takes the token or
-- the queryable away whatever it answers.
unfoldable pub shutdown : Bool → Bool → ServiceData → ServiceData × RmwRet
shutdown token_ok qable_ok s =
    if s.is_shutdown
    then (s, RmwRet.ok)
    else if not s.initialized
    then (record s { is_shutdown = true }, RmwRet.ok)
    else if not token_ok
    then (record s { token_declared = false }, RmwRet.error)
    else if not qable_ok
    then (record s { token_declared = false; qable_declared = false }, RmwRet.error)
    else (
      record s { token_declared = false; qable_declared = false; is_shutdown = true },
      RmwRet.ok,
    )
