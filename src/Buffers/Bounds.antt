-- ===== src/Buffers/Bounds.antt =====
-- The memory that `BufferPool` of detail/zenoh_utils.cpp holds and hands out stays in its bound.
use rmw_zenoh.Common.{
  ℕ, ◌+◌, ◌^◌, ◌≤◌, ◌<◌, ◌≡◌, refl, List, [], ◌∷◌, ◌++◌, Option, none, some, arith,
}
use rmw_zenoh.Buffers.{
  Buffer, BufferPool, new_pool, allocate_from, allocate_new, reuse, allocate, deallocate,
}

abbrev pub total_size : List Buffer → ℕ
total_size [] = 0
total_size (b ∷ bs) = b.size + total_size bs

total_size-append : (xs ys : List Buffer) → total_size (xs ++ ys) ≡ total_size xs + total_size ys
total_size-append [] ys = omega arith
total_size-append (x ∷ xs) ys = omega (arith, total_size-append xs ys)

allocate_from-size :
    (n : ℕ) (answer : Option ℕ) (buffers : List Buffer) (pool : BufferPool) (b : Buffer)
    → (allocate_from n answer buffers pool).1 ≡ some b
    → n ≤ b.size
unfolding allocate_from allocate_new reuse
allocate_from-size n answer [] pool b h = ground arith
allocate_from-size n answer (buffer ∷ rest) pool b h = ground arith

-- A buffer that is handed out is at least as large as was asked for.
pub allocate-size :
    (n : ℕ) (answer : Option ℕ) (pool : BufferPool) (b : Buffer)
    → (allocate n answer pool).1 ≡ some b
    → n ≤ b.size
unfolding allocate
allocate-size n answer pool b h = allocate_from-size n answer pool.buffers pool b h

-- A pool with the buffers that are in use.
pub record World : Type 0 where
  pub pool : BufferPool
  pub in_use : List Buffer

abbrev pub hand_out : Option Buffer → List Buffer → List Buffer
hand_out none bs = bs
hand_out (some b) bs = b ∷ bs

abbrev pub allocated : ℕ → Option ℕ → World → World
allocated n answer w =
    let (pool, b) = allocate n answer w.pool in record { pool = pool; in_use = hand_out b w.in_use }

-- What users of a pool do: ask for a buffer, of a size that does not overflow the counter, and give
-- one back that is in use.
pub data Reach (configured : Option ℕ) : World → Type 0 where
  start : Reach configured (record { pool = new_pool configured; in_use = [] })
  ask :
      (w : World) (n : ℕ) (answer : Option ℕ)
      → Reach configured w
      → w.pool.max_size + n < 2 ^ 64
      → Reach configured (allocated n answer w)
  give_back :
      (pool : BufferPool) (xs ys : List Buffer) (b : Buffer)
      → Reach configured (record { pool = pool; in_use = xs ++ b ∷ ys })
      → Reach configured (record { pool = deallocate b pool; in_use = xs ++ ys })

-- The counter is in its bound, and it covers the pool and the buffers in use.
abbrev pub IsBounded : World → Type 0
IsBounded w =
    w.pool.size ≤ w.pool.max_size × total_size w.pool.buffers + total_size w.in_use ≤ w.pool.size

allocate_from-IsBounded :
    (n : ℕ) (answer : Option ℕ) (buffers in_use : List Buffer) (pool : BufferPool)
    → pool.max_size + n < 2 ^ 64
    → pool.buffers ≡ buffers
    → pool.size ≤ pool.max_size
    → total_size buffers + total_size in_use ≤ pool.size
    → IsBounded (record {
      pool = (allocate_from n answer buffers pool).0;
      in_use = hand_out (allocate_from n answer buffers pool).1 in_use;
    })
unfolding allocate_from allocate_new reuse
allocate_from-IsBounded n answer [] in_use pool fits e h t = (ground arith, ground arith)
allocate_from-IsBounded n answer (b ∷ bs) in_use pool fits e h t = (ground arith, ground arith)

-- When no request is so large that with the maximum it reaches 2 ^ 64, the buffers in the pool and in use
-- together are never larger than the maximum, in whatever order buffers are asked for and given back, and
-- also when the allocator fails.
pub Reach-IsBounded : (configured : Option ℕ) (w : World) → Reach configured w → IsBounded w
unfolding new_pool allocate deallocate
Reach-IsBounded configured _ start = (omega arith, omega arith)
Reach-IsBounded configured _ (ask w n answer s fits) =
    let (h, t) = Reach-IsBounded configured w s in
    allocate_from-IsBounded n answer w.pool.buffers w.in_use w.pool fits refl h t
Reach-IsBounded configured _ (give_back pool xs ys b s) =
    let (h, t) = Reach-IsBounded configured (record { pool = pool; in_use = xs ++ b ∷ ys }) s in
    (h, omega (arith, t, total_size-append xs (b ∷ ys), total_size-append xs ys))
