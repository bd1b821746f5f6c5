-- ===== src/Publisher/Numbers.antt =====
-- The numbers of the messages of a publisher of detail/rmw_publisher_data.cpp.
use rmw_zenoh.Common.{
  ℕ, ◌+◌, ◌^◌, ◌<◌, ◌≤◌, ◌≡◌, refl, ap, List, [], ◌∷◌, ◌++◌, arith, length, length-append, All,
  Option-branches, if-branches, subst, ◌||◌, not,
}
use rmw_zenoh.Common.Text.{Bytes}
use rmw_zenoh.Common.Int.{ℤ, pos}
use rmw_zenoh.Qos.{RmwRet}
use rmw_zenoh.Attachments.{Codec, IsInt64, serialize_to_zbytes, to_int64}
use rmw_zenoh.Buffers.{BufferPool}
use rmw_zenoh.Publisher.{
  PublisherData, Publication, Published, PutCall, Storage, publish_in, publish, find_memory,
  not_published,
}

-- Messages that are published one after another, and the calls of `put`.
unfoldable pub publish_all :
    Codec
    → List Publication
    → PublisherData × BufferPool
    → PublisherData × BufferPool × List PutCall
publish_all c [] (s, pool) = (s, pool, [])
publish_all c (p ∷ ps) (s, pool) =
    let (s', pool', published) = publish c p (s, pool) in
    let (s'', pool'', rest) = publish_all c ps (s', pool') in
    (s'', pool'', published.put_calls ++ rest)

-- Calls of `put` with the gid and with numbers from one on, in order and without a gap.
abbrev pub IsNumbered : Codec → Bytes → ℕ → List PutCall → Type 0
IsNumbered c gid n [] = Unit
IsNumbered c gid n (put ∷ puts) =
    ((t : ℤ) × IsInt64 t
      × (put.attachment
          ≡ serialize_to_zbytes c
              (record { sequence_number = pos n; source_timestamp = t; source_gid = gid })))
    × IsNumbered c gid (n + 1) puts

-- What a call of `publish` does to the counter.
abbrev Counts : Codec → PublisherData → PublisherData × Published → Type 0
Counts c s (s', published) =
    (s'.gid ≡ s.gid)
    × (s'.is_shutdown ≡ s.is_shutdown)
    × IsNumbered c s.gid s.sequence_number published.put_calls
    × (s'.sequence_number ≡ s.sequence_number + length published.put_calls)
    × (length published.put_calls ≤ 1)

publish_in-Counts :
    (c : Codec) (p : Publication) (m : Storage) (s : PublisherData)
    → s.sequence_number < 2 ^ 63
    → IsInt64 p.now
    → Counts c s (publish_in c p m s)
unfolding publish_in to_int64
publish_in-Counts c p m s small time =
    Option-branches (Counts c s) p.message _ _ (λ _. (refl, refl, tt, omega arith, omega arith))
      (λ bytes _. (
        refl,
        refl,
        (
          (
            p.now,
            time,
            ap
                (λ n.
                  serialize_to_zbytes c
                    (record { sequence_number = n; source_timestamp = p.now; source_gid = s.gid }))
                (ground (arith, small)),
          ),
          tt,
        ),
        omega (arith, small),
        omega arith,
      ))

publish-Counts :
    (c : Codec) (p : Publication) (s : PublisherData) (pool : BufferPool)
    → s.sequence_number < 2 ^ 63
    → IsInt64 p.now
    → Counts c s ((publish c p (s, pool)).0, (publish c p (s, pool)).2)
unfolding publish
publish-Counts c p s pool small time =
    let P : PublisherData × BufferPool × Published → Type 0 = λ r. Counts c s (r.0, r.2) in
    let same : Counts c s (s, not_published RmwRet.error) =
      (refl, refl, tt, omega arith, omega arith) in
    if-branches P (s.is_shutdown || not p.has_context) (s, pool, not_published RmwRet.error) _
      (λ _. same)
      (λ _.
        Option-branches P (find_memory p pool).1 _ _ (λ _. same)
          (λ m _. publish_in-Counts c p m s small time))

IsNumbered-append :
    (c : Codec) (gid : Bytes) (n : ℕ) (xs ys : List PutCall)
    → IsNumbered c gid n xs
    → IsNumbered c gid (n + length xs) ys
    → IsNumbered c gid n (xs ++ ys)
IsNumbered-append c gid n [] ys hx hy = subst (λ k. IsNumbered c gid k ys) (omega arith) hy
IsNumbered-append c gid n (x ∷ xs) ys (h, hx) hy = (
  h,
  IsNumbered-append c gid (n + 1) xs ys hx (subst (λ k. IsNumbered c gid k ys) (omega arith) hy),
)

-- While the counter is below 2 ^ 63, the messages that are handed to zenoh carry the publisher's gid
-- and the numbers from the counter on, in order and without a gap, whatever fails in between; the
-- counter ends behind the last one, and each publication hands over one message at most. The times are 64-bit integers.
pub publish_all-IsNumbered :
    (c : Codec) (ps : List Publication) (s : PublisherData) (pool : BufferPool)
    → s.sequence_number + length ps ≤ 2 ^ 63
    → All (λ p. IsInt64 p.now) ps
    → IsNumbered c s.gid s.sequence_number (publish_all c ps (s, pool)).2
      × ((publish_all c ps (s, pool)).0.sequence_number
          ≡ s.sequence_number + length (publish_all c ps (s, pool)).2)
      × (length (publish_all c ps (s, pool)).2 ≤ length ps)
unfolding publish_all
publish_all-IsNumbered c [] s pool h _ = (tt, omega arith, omega arith)
publish_all-IsNumbered c (p ∷ ps) s pool h (time, times) =
    let (s', pool', published) = publish c p (s, pool) in
    let (gid, _, first, count, one) = publish-Counts c p s pool (omega arith) time in
    let (numbered, total, fewer) =
      publish_all-IsNumbered c ps s' pool' (omega (arith, count, one)) times in
    let rest = (publish_all c ps (s', pool')).2 in
    (
      IsNumbered-append c s.gid s.sequence_number published.put_calls rest first (
          subst (λ k. IsNumbered c s.gid k rest) count
            (subst (λ g. IsNumbered c g s'.sequence_number rest) gid numbered)),
      omega (arith, total, count, length-append published.put_calls rest),
      omega (arith, one, fewer, length-append published.put_calls rest),
    )
