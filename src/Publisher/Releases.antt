-- ===== src/Publisher/Releases.antt =====
-- What becomes of the memory that `publish` of detail/rmw_publisher_data.cpp gets.
use rmw_zenoh.Common.{ℕ, ◌≡◌, List, [], ◌∷◌, ◌++◌, none, some, arith, not, ◌||◌, if◌then◌else◌}
use rmw_zenoh.Attachments.{Codec}
use rmw_zenoh.Buffers.{BufferPool, allocate}
use rmw_zenoh.Publisher.{
  PublisherData, Publication, PutCall, uses_shm, find_memory, publish_in, publish, always_free,
  put_call,
}

-- The blocks of the allocator that calls of `put` take over.
abbrev pub blocks : List PutCall → List ℕ
blocks [] = []
blocks (put ∷ puts) = always_free put.memory ++ blocks puts

-- A block is taken for a message when there is no shared memory and the pool has no buffer.
abbrev pub requested : Publication → PublisherData → BufferPool → List ℕ
requested p s pool =
    if s.is_shutdown || not p.has_context || uses_shm p.shm p.max_data_length
    then []
    else elim (allocate p.max_data_length p.pool_answer pool).1 [
      | some b ↦ []
      | none ↦ elim p.heap_answer [ none ↦ [] | some block ↦ block ∷ [] ]
    ]

-- Each block that `publish` gets from the allocator is either handed to zenoh with the message or given
-- back, and not both.
pub publish-releases :
    (c : Codec) (p : Publication) (s : PublisherData) (pool : BufferPool)
    → blocks (publish c p (s, pool)).2.put_calls ++ (publish c p (s, pool)).2.freed
      ≡ requested p s pool
unfolding publish find_memory publish_in always_free put_call
publish-releases c p s pool = ground arith
