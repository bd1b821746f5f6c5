-- ===== src/Publisher/Delivery.antt =====
-- A publisher of detail/rmw_publisher_data.cpp and a subscription of detail/rmw_subscription_data.cpp
-- to which zenoh delivers all that is published, in order.
use rmw_zenoh.Common.{
  ℕ, ◌+◌, ◌^◌, ◌<◌, ◌≤◌, ◌≡◌, refl, subst, ap, ◌∙◌, false, List, [], ◌∷◌, Option, none, some, arith,
  length, nat_eq, All,
}
use rmw_zenoh.Common.Text.{Bytes}
use rmw_zenoh.Common.Int.{ℤ, pos, ◌-ℤ◌}
use rmw_zenoh.Common.Map.{find}
use rmw_zenoh.Liveliness.Gid.{Hashes, hash_gid}
use rmw_zenoh.Attachments.{Codec, IsCodec, IsInt64, gid_size, serialize_to_zbytes, attachment_of}
use rmw_zenoh.Attachments.RoundTrip.{attachment_of-serialize}
use rmw_zenoh.Buffers.{BufferPool}
use rmw_zenoh.Subscription.{Message, SubscriptionData, messages_lost, add_new_message}
use rmw_zenoh.Subscription.Queue.{is_shutdown-add}
use rmw_zenoh.Subscription.Lost.{total_lost, total-add, known-add}
use rmw_zenoh.Subscription.Session.{on_sample, message_of}
use rmw_zenoh.Publisher.{PublisherData, Publication, PutCall}
use rmw_zenoh.Publisher.Numbers.{publish_all, IsNumbered, publish_all-IsNumbered}

-- The samples of some calls of `put` arrive, at the times that a clock gives.
unfoldable pub deliver_all :
    Codec → Hashes → (PutCall → ℕ) → List PutCall → SubscriptionData → Option SubscriptionData
deliver_all c h clock [] s = some s
deliver_all c h clock (put ∷ puts) s =
    elim (on_sample c h (clock put) put.payload (some put.attachment) s) [
      | none ↦ none
      | some (s', _) ↦ deliver_all c h clock puts s'
    ]

module _ (c : Codec) (law : IsCodec c) (h : Hashes) (clock : PutCall → ℕ) (gid : Bytes)
    (long : length gid ≡ gid_size) where
  message_at : ℕ → ℤ → PutCall → Message
  message_at n t put =
      message_of put.payload (clock put)
        (record { sequence_number = pos n; source_timestamp = t; source_gid = gid })

  on_sample-numbered :
      (n : ℕ) (t : ℤ) (put : PutCall) (s : SubscriptionData)
      → n < 2 ^ 63
      → IsInt64 t
      → put.attachment
        ≡ serialize_to_zbytes c
            (record { sequence_number = pos n; source_timestamp = t; source_gid = gid })
      → on_sample c h (clock put) put.payload (some put.attachment) s
        ≡ some (add_new_message h (message_at n t put) s)
  unfolding on_sample message_at
  on_sample-numbered n t put s small time e = ground (
    arith,
    ap (λ b. attachment_of c b) e
        ∙ attachment_of-serialize c
            (record { sequence_number = pos n; source_timestamp = t; source_gid = gid }) law
            (small, omega arith) time long,
  )

  -- Nothing is reported as lost, and the subscription knows the last number.
  abbrev LosesNone : SubscriptionData → ℕ → SubscriptionData → Type 0
  LosesNone s n s' =
      (total_lost s'.events_mgr ≡ total_lost s.events_mgr)
      × (find (hash_gid h gid) s'.last_known_published_msg ≡ some (pos n))

  add-LosesNone :
      (n : ℕ) (t : ℤ) (put : PutCall) (s : SubscriptionData)
      → s.is_shutdown ≡ false
      → total_lost s.events_mgr < 2 ^ 64
      → find (hash_gid h gid) s.last_known_published_msg ≡ some (pos n)
      → LosesNone s (n + 1) (add_new_message h (message_at (n + 1) t put) s).0
  unfolding message_at messages_lost ◌-ℤ◌
  add-LosesNone n t put s up fits known =
      let one_ahead : messages_lost (some (pos n)) (pos (n + 1)) ≡ 0 = ground arith in
      let m = message_at (n + 1) t put in
      let none_lost : messages_lost (find (hash_gid h gid) s.last_known_published_msg) (pos (n + 1))
          ≡ 0 =
        ap (λ o. messages_lost o (pos (n + 1))) known ∙ one_ahead in
      (omega (arith, total-add h m s up fits, none_lost), known-add h m s up)

  deliver-LosesNone :
      (n : ℕ) (puts : List PutCall) (s : SubscriptionData)
      → n + 1 + length puts ≤ 2 ^ 63
      → IsNumbered c gid (n + 1) puts
      → s.is_shutdown ≡ false
      → total_lost s.events_mgr < 2 ^ 64
      → find (hash_gid h gid) s.last_known_published_msg ≡ some (pos n)
      → (s' : SubscriptionData) × (deliver_all c h clock puts s ≡ some s')
        × LosesNone s (n + length puts) s'
  unfolding deliver_all
  deliver-LosesNone n [] s small _ up fits known =
      (s, refl, (refl, known ∙ ap (λ k. some (pos k)) (omega arith)))
  deliver-LosesNone n (put ∷ puts) s small ((t, time, e), numbered) up fits known =
      let m = message_at (n + 1) t put in
      let s1 = (add_new_message h m s).0 in
      let (same, known1) = add-LosesNone n t put s up fits known in
      let arrives = on_sample-numbered (n + 1) t put s (omega arith) time e in
      let (s', rest, (same', known')) =
        deliver-LosesNone (n + 1) puts s1 (omega arith) numbered (is_shutdown-add h m s ∙ up)
          (omega (arith, same)) known1 in
      (
        s',
        ground (arith, arrives, rest),
        (same' ∙ same, known' ∙ ap (λ k. some (pos k)) (omega arith)),
      )

  -- When zenoh delivers all that a publisher hands to it, in order, to a subscription that is not shut
  -- down and knows the number before the publisher's next, the subscription reports no lost message and
  -- knows the publisher's last number, whatever publications fail in between. The publisher's gid has
  -- 16 bytes, its numbers stay below 2 ^ 63, times are 64-bit integers, and the codec reads what it writes.
  pub publish-deliver_lossless :
      (ps : List Publication) (publisher : PublisherData) (pool : BufferPool) (n : ℕ)
      (s : SubscriptionData)
      → publisher.gid ≡ gid
      → publisher.sequence_number ≡ n + 1
      → n + 1 + length ps ≤ 2 ^ 63
      → All (λ p. IsInt64 p.now) ps
      → s.is_shutdown ≡ false
      → total_lost s.events_mgr < 2 ^ 64
      → find (hash_gid h gid) s.last_known_published_msg ≡ some (pos n)
      → (s' : SubscriptionData) × (deliver_all c h clock (publish_all c ps (publisher, pool)).2 s
          ≡ some s')
        × (total_lost s'.events_mgr ≡ total_lost s.events_mgr)
        × (find (hash_gid h gid) s'.last_known_published_msg
            ≡ some (pos (n + length (publish_all c ps (publisher, pool)).2)))
  publish-deliver_lossless ps publisher pool n s same next small times up fits known =
      let (numbered, count, fewer) =
        publish_all-IsNumbered c ps publisher pool (omega (arith, next)) times in
      let puts = (publish_all c ps (publisher, pool)).2 in
      let (s', delivered, (same_total, last)) =
        deliver-LosesNone n puts s (omega (arith, fewer))
          (subst (λ k. IsNumbered c gid k puts) next
            (subst (λ g. IsNumbered c g publisher.sequence_number puts) same numbered))
          up fits known in
      (s', delivered, same_total, last)
