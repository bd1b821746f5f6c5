-- ===== src/Buffers/Tests.antt =====
-- Examples of `BufferPool` of detail/zenoh_utils.cpp.
use rmw_zenoh.Common.{◌≡◌, refl, [], ◌∷◌, none, some, arith}
use rmw_zenoh.Buffers.{new_pool, allocate, allocate_from, allocate_new}
use rmw_zenoh.Buffers.Bounds.{World, Reach, start, ask, allocated, IsBounded, Reach-IsBounded}
use rmw_zenoh.Buffers.Drain.{ask_all, ask_all-drains}

abbrev fresh : World
fresh = record { pool = new_pool (some 100); in_use = [] }

asked : Reach (some 100) (allocated 60 (some 1) fresh)
unfolding new_pool
asked = ask fresh 60 (some 1) start (omega arith)

Reach-IsBounded_example : IsBounded (allocated 60 (some 1) fresh)
Reach-IsBounded_example = Reach-IsBounded (some 100) (allocated 60 (some 1) fresh) asked

handed_out : (allocate 60 (some 1) (new_pool (some 100))).1 ≡ some (record { block = 1; size = 60 })
unfolding allocate allocate_from allocate_new new_pool
handed_out = refl

ask_all-drains_example :
    ask_all 90 (some 7 ∷ none ∷ []) (record {
      buffers = (record { block = 1; size = 40 }) ∷ (record { block = 2; size = 50 }) ∷ [];
      max_size = 100;
      size = 90;
    })
    ≡ record { buffers = []; max_size = 100; size = 90 }
ask_all-drains_example =
    ask_all-drains 90 100 90
      ((record { block = 1; size = 40 }) ∷ (record { block = 2; size = 50 }) ∷ [])
      (some 7 ∷ none ∷ []) refl (ground arith) (omega arith)
