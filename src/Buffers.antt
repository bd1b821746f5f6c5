-- ===== src/Buffers.antt =====
-- The pool of buffers for outgoing messages: `BufferPool` of detail/zenoh_utils.cpp. Each method is
-- one critical section of `mutex_`. A block of memory is an opaque number, and what the allocator
-- answers is an argument: `none` for a null pointer.
pub mod Bounds
pub mod Drain
mod Tests
use rmw_zenoh.Common.{
  ℕ, ◌+◌, ◌-◌, ◌*◌, ◌^◌, ◌%◌, Bool, List, [], ◌∷◌, Option, none, some, ltb, if◌then◌else◌,
}

pub record Buffer : Type 0 where
  pub block : ℕ
  pub size : ℕ

-- The last buffer of `buffers_` comes first.
pub record BufferPool : Type 0 where
  pub buffers : List Buffer
  pub max_size : ℕ
  pub size : ℕ

abbrev pub default_max_size : ℕ
default_max_size = 8 * 1024 * 1024

-- The constructor. `configured` is what `std::atoll` gives, as a `size_t`, for RMW_ZENOH_BUFFER_POOL_MAX_SIZE_BYTES, when it can be
-- read and is not empty.
unfoldable pub new_pool : Option ℕ → BufferPool
new_pool configured = record {
  buffers = [];
  max_size = elim configured [ none ↦ default_max_size | some n ↦ n ];
  size = 0;
}

abbrev add : ℕ → ℕ → ℕ
add a b = (a + b) % 2 ^ 64

-- `allocate` when there is no buffer to reuse, and when there is one.
unfoldable pub allocate_new : ℕ → Option ℕ → BufferPool → BufferPool × Option Buffer
allocate_new n answer pool =
    if ltb pool.max_size (add pool.size n)
    then (pool, none)
    else let pool' = record pool { size = add pool.size n } in
      elim answer [
        | none ↦ (pool', none)
        | some block ↦ (pool', some (record { block = block; size = n }))
      ]

unfoldable pub reuse : ℕ → Option ℕ → Buffer → BufferPool → BufferPool × Option Buffer
reuse n answer buffer pool =
    if ltb buffer.size n
    then if ltb pool.max_size (add pool.size (n - buffer.size)) then (pool, none) else elim answer [
      | none ↦ (pool, none)
      | some block ↦ (
        record pool { size = add pool.size (n - buffer.size) },
        some (record { block = block; size = n }),
      )
    ]
    else (pool, some buffer)

allocate_from : ℕ → Option ℕ → List Buffer → BufferPool → BufferPool × Option Buffer
unfolding allocate_new reuse
allocate_from n answer [] pool = allocate_new n answer pool
allocate_from n answer (buffer ∷ rest) pool = reuse n answer buffer (record pool { buffers = rest })

unfoldable pub allocate : ℕ → Option ℕ → BufferPool → BufferPool × Option Buffer
unfolding allocate_from
allocate n answer pool = allocate_from n answer pool.buffers pool

unfoldable pub deallocate : Buffer → BufferPool → BufferPool
deallocate buffer pool = record pool { buffers = buffer ∷ pool.buffers }
