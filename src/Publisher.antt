-- ===== src/Publisher.antt =====
-- Publishers: `PublisherData` of detail/rmw_publisher_data.cpp. Each method is one critical section of
-- `mutex_`. The type support, shared memory, the allocator and zenoh are arguments, by what they
-- answer; the pool of buffers is that of the context.
pub mod Numbers
pub mod Releases
pub mod Delivery
mod Tests
use rmw_zenoh.Common.{
  ℕ, ◌+◌, ◌^◌, ◌%◌, Bool, true, false, not, ◌&&◌, ◌||◌, List, [], ◌∷◌, Option, none, some, leb,
  if◌then◌else◌,
}
use rmw_zenoh.Common.Text.{Bytes}
use rmw_zenoh.Common.Int.{ℤ}
use rmw_zenoh.Qos.{RmwRet}
use rmw_zenoh.Attachments.{Codec, AttachmentData, serialize_to_zbytes, to_int64}
use rmw_zenoh.Buffers.{Buffer, BufferPool, allocate}

-- The last two fields say whether the liveliness token and the zenoh publisher are declared.
pub record PublisherData : Type 0 where
  pub gid : Bytes
  pub sequence_number : ℕ
  pub is_shutdown : Bool
  pub token_declared : Bool
  pub pub_declared : Bool

-- The constructor.
unfoldable pub new_publisher : Bytes → PublisherData
new_publisher gid = record {
  gid = gid;
  sequence_number = 1;
  is_shutdown = false;
  token_declared = true;
  pub_declared = true;
}

-- `ShmContext`, by its threshold, whether it has a provider and whether that can allocate.
pub record Shm : Type 0 where
  pub msgsize_threshold : ℕ
  pub provider : Bool
  pub allocated : Bool

-- What `put` answers: `Z_OK`, `Z_ESESSION_CLOSED`, or another error.
pub data PutResult : Type 0 where
  put_ok session_closed put_failed : PutResult

abbrev pub ret_of : PutResult → RmwRet
ret_of put_ok = RmwRet.ok
ret_of session_closed = RmwRet.ok
ret_of put_failed = RmwRet.error

-- Where the bytes of a message are: in shared memory, in a buffer of the pool, in a block of the
-- allocator, or, for `publish_serialized_message`, in a vector.
pub data Storage : Type 0 where
  shared : Storage
  pooled : Buffer → Storage
  heap : ℕ → Storage
  vector : Storage

-- A call of `put`, with its payload, which takes over the memory, and its attachment.
pub record PutCall : Type 0 where
  pub memory : Storage
  pub payload : Bytes
  pub attachment : Bytes

-- What `publish` is given.
pub record Publication : Type 0 where
  pub max_data_length : ℕ
  pub has_context : Bool
  pub shm : Option Shm
  -- the block that the pool gets when it asks the allocator, and the one that `publish` gets
  pub pool_answer : Option ℕ
  pub heap_answer : Option ℕ
  -- the serialized message, when the type support can serialize it
  pub message : Option Bytes
  pub now : ℤ
  pub put_result : PutResult

-- What `publish` returns, its call of `put`, and the blocks that it gives back to the allocator.
pub record Published : Type 0 where
  pub ret : RmwRet
  pub put_calls : List PutCall
  pub freed : List ℕ

unfoldable pub uses_shm : Option Shm → ℕ → Bool
uses_shm none n = false
uses_shm (some shm) n = leb shm.msgsize_threshold n && shm.provider && shm.allocated

-- Memory for the message; `none` when there is none.
unfoldable pub find_memory : Publication → BufferPool → BufferPool × Option Storage
unfolding uses_shm
find_memory p pool =
    if uses_shm p.shm p.max_data_length
    then (pool, some shared)
    else let (pool', buffer) = allocate p.max_data_length p.pool_answer pool in
      elim buffer [
        | some b ↦ (pool', some (pooled b))
        | none ↦ elim p.heap_answer [
          | none ↦ (pool', none)
          | some block ↦ (pool', some (heap block))
        ]
      ]

-- What the scope exit `always_free_msg_bytes` frees.
unfoldable pub always_free : Storage → List ℕ
always_free (heap block) = block ∷ []
always_free _ = []

-- `sequence_number_++`
abbrev pub next_number : PublisherData → PublisherData
next_number s = record s { sequence_number = (s.sequence_number + 1) % 2 ^ 64 }

unfoldable pub put_call : Codec → PublisherData → ℤ → Storage → Bytes → PutCall
put_call c s now memory bytes = record {
  memory = memory;
  payload = bytes;
  attachment = serialize_to_zbytes c (record {
    sequence_number = to_int64 s.sequence_number;
    source_timestamp = now;
    source_gid = s.gid;
  });
}

-- The part of `publish` that has memory.
unfoldable pub publish_in :
    Codec → Publication → Storage → PublisherData → PublisherData × Published
unfolding always_free put_call
publish_in c p memory s = elim p.message [
  | none ↦ (s, record { ret = RmwRet.error; put_calls = []; freed = always_free memory })
  | some bytes ↦ (
    next_number s,
    record {
      ret = ret_of p.put_result;
      put_calls = put_call c s p.now memory bytes ∷ [];
      freed = [];
    },
  )
]

abbrev pub not_published : RmwRet → Published
not_published ret = record { ret = ret; put_calls = []; freed = [] }

unfoldable pub publish :
    Codec → Publication → PublisherData × BufferPool → PublisherData × BufferPool × Published
unfolding find_memory publish_in
publish c p (s, pool) =
    if s.is_shutdown || not p.has_context
    then (s, pool, not_published RmwRet.error)
    else let (pool', memory) = find_memory p pool in
      elim memory [
        | none ↦ (s, pool', not_published RmwRet.bad_alloc)
        | some m ↦ let (s', published) = publish_in c p m s in (s', pool', published)
      ]

-- What `publish_serialized_message` is given; `jumps` says whether the buffer can be set.
pub record Serialized : Type 0 where
  pub jumps : Bool
  pub shm : Option Shm
  pub bytes : Bytes
  pub length : ℕ
  pub now : ℤ
  pub put_result : PutResult

-- It does not look whether the publisher is shut down.
unfoldable pub publish_serialized_message :
    Codec → Serialized → PublisherData → PublisherData × Published
unfolding uses_shm put_call
publish_serialized_message c p s = if not p.jumps then (s, not_published RmwRet.error) else (
  next_number s,
  record {
    ret = ret_of p.put_result;
    put_calls =
        put_call c s p.now (if uses_shm p.shm p.length then shared else vector) p.bytes ∷ [];
    freed = [];
  },
)

-- The session's answers to the two undeclarations are arguments.
unfoldable pub shutdown : Bool → Bool → PublisherData → PublisherData × RmwRet
shutdown token_ok pub_ok s =
    if s.is_shutdown
    then (s, RmwRet.ok)
    else if not token_ok
    then (record s { token_declared = false }, RmwRet.error)
    else if not pub_ok
    then (record s { token_declared = false; pub_declared = false }, RmwRet.error)
    else (record s { token_declared = false; pub_declared = false; is_shutdown = true }, RmwRet.ok)
