-- ===== src/Buffers/Drain.antt =====
-- What requests that are refused do to `BufferPool` of detail/zenoh_utils.cpp.
use rmw_zenoh.Common.{
  ℕ, ◌+◌, ◌-◌, ◌^◌, ◌<◌, ◌≡◌, refl, ap, ◌∙◌, List, [], ◌∷◌, Option, none, arith, All, length,
}
use rmw_zenoh.Buffers.{Buffer, BufferPool, allocate_from, reuse, allocate}

-- The pool after asking once for each of some answers of the allocator.
unfoldable pub ask_all : ℕ → List (Option ℕ) → BufferPool → BufferPool
ask_all n [] pool = pool
ask_all n (a ∷ answers) pool = ask_all n answers (allocate n a pool).0

allocate-refused :
    (n : ℕ) (answer : Option ℕ) (b : Buffer) (bs : List Buffer) (max_size size : ℕ)
    → b.size < n
    → max_size < size + (n - b.size)
    → size + n < 2 ^ 64
    → allocate n answer (record { buffers = b ∷ bs; max_size = max_size; size = size })
      ≡ (record { buffers = bs; max_size = max_size; size = size }, none)
unfolding allocate allocate_from reuse
allocate-refused n answer b bs max_size size small big fits = ground arith

-- When a request needs more than the pool may have and would enlarge each of its buffers, asking as
-- often as there are buffers empties the pool and leaves its counter as it was: each refused request
-- drops one buffer, whose memory is neither in the pool nor in use and still counts.
pub ask_all-drains :
    (n max_size size : ℕ) (buffers : List Buffer) (answers : List (Option ℕ))
    → length answers ≡ length buffers
    → All (λ b. b.size < n × max_size < size + (n - b.size)) buffers
    → size + n < 2 ^ 64
    → ask_all n answers (record { buffers = buffers; max_size = max_size; size = size })
      ≡ record { buffers = []; max_size = max_size; size = size }
unfolding ask_all
ask_all-drains n max_size size [] [] e h fits = refl
ask_all-drains n max_size size [] (a ∷ answers) e h fits = ground arith
ask_all-drains n max_size size (b ∷ bs) [] e h fits = ground arith
ask_all-drains n max_size size (b ∷ bs) (a ∷ answers) e ((small, big), h) fits =
    ap (λ c. ask_all n answers c.0) (allocate-refused n a b bs max_size size small big fits)
    ∙ ask_all-drains n max_size size bs answers (omega (arith, e)) h fits
