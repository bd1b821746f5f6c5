-- ===== src/Subscription/Lost.antt =====
-- The messages that a subscription of detail/rmw_subscription_data.cpp reports as lost.
use rmw_zenoh.Common.{
  ℕ, ◌+◌, ◌-◌, ◌^◌, ◌%◌, ◌≤◌, ◌<◌, ◌≡◌, refl, sym, ap, ◌∙◌, false, List, [], ◌∷◌, ◌++◌, some, arith,
  length, nat_eq, beq_refl,
}
use rmw_zenoh.Common.Int.{ℤ, pos, ◌+ℤ◌, ◌-ℤ◌}
use rmw_zenoh.Common.Map.{find}
use rmw_zenoh.Common.Map.Laws.{find-put}
use rmw_zenoh.Liveliness.Gid.{Hashes, hash_gid}
use rmw_zenoh.Event.{
  event_message_lost, EventsManager, trigger_event_callback, update_event_status, write_status,
  changed_status,
}
use rmw_zenoh.Subscription.{
  Message, SubscriptionData, discard_oldest, messages_lost, report_lost, add_new_message,
}
use rmw_zenoh.Subscription.Queue.{add_all, is_shutdown-add}

-- The total of the status for lost messages.
abbrev pub total_lost : EventsManager → ℕ
total_lost m = (m.event_statuses event_message_lost).total_count

statuses-trigger :
    (m : EventsManager) (i : ℕ) → (trigger_event_callback m i).0.event_statuses ≡ m.event_statuses
unfolding trigger_event_callback
statuses-trigger m i = ground arith

total-report :
    (n : ℕ) (m : EventsManager)
    → total_lost m < 2 ^ 64
    → total_lost (report_lost n m).0 ≡ (total_lost m + n) % 2 ^ 64
unfolding report_lost update_event_status write_status changed_status trigger_event_callback
total-report n m fits = ground arith

pub total-add :
    (h : Hashes) (m : Message) (s : SubscriptionData)
    → s.is_shutdown ≡ false
    → total_lost s.events_mgr < 2 ^ 64
    → total_lost (add_new_message h m s).0.events_mgr
      ≡ (total_lost s.events_mgr
          + messages_lost (find (hash_gid h m.gid) s.last_known_published_msg) m.sequence_number)
        % 2 ^ 64
unfolding add_new_message
total-add h m s up fits = rw up (
    total-report
      (messages_lost (find (hash_gid h m.gid) s.last_known_published_msg) m.sequence_number)
      s.events_mgr fits)

pub known-add :
    (h : Hashes) (m : Message) (s : SubscriptionData)
    → s.is_shutdown ≡ false
    → find (hash_gid h m.gid) (add_new_message h m s).0.last_known_published_msg
      ≡ some m.sequence_number
unfolding add_new_message
known-add h m s up =
    let g = hash_gid h m.gid in
    ground (arith, up, find-put g g m.sequence_number s.last_known_published_msg, beq_refl g)

pub messages_lost-ahead :
    (a : ℤ) (d : ℕ) → 0 < d → d ≤ 2 ^ 31 → messages_lost (some a) (a +ℤ pos d) ≡ d - 1
unfolding messages_lost ◌+ℤ◌ ◌-ℤ◌
messages_lost-ahead a d p h = ground arith

pub messages_lost-behind :
    (a : ℤ) (k : ℕ) → 0 < k → k ≤ 2 ^ 31 → messages_lost (some (a +ℤ pos k)) a ≡ k - 1
unfolding messages_lost ◌+ℤ◌ ◌-ℤ◌
messages_lost-behind a k p h = ground arith

queue-add :
    (h : Hashes) (m : Message) (s : SubscriptionData)
    → s.is_shutdown ≡ false
    → (add_new_message h m s).0.message_queue ≡ discard_oldest s ++ m ∷ []
unfolding add_new_message
queue-add h m s up = ground (arith, up)

-- A message that arrives at a subscription that is not shut down, with a number that is smaller by `k`
-- than the one known of its publisher, is put at the end of the queue, and yet the total of lost messages
-- grows by `k - 1`, modulo 2 ^ 64, and the number known is set back to the smaller one; `k` is at most
-- 2 ^ 31, and the total is below 2 ^ 64.
pub add_new_message-late :
    (h : Hashes) (m : Message) (s : SubscriptionData) (k : ℕ)
    → s.is_shutdown ≡ false
    → total_lost s.events_mgr < 2 ^ 64
    → find (hash_gid h m.gid) s.last_known_published_msg ≡ some (m.sequence_number +ℤ pos k)
    → 0 < k
    → k ≤ 2 ^ 31
    → let after = (add_new_message h m s).0 in
      (after.message_queue ≡ discard_oldest s ++ m ∷ [])
      × (total_lost after.events_mgr ≡ (total_lost s.events_mgr + (k - 1)) % 2 ^ 64)
      × (find (hash_gid h m.gid) after.last_known_published_msg ≡ some m.sequence_number)
add_new_message-late h m s k up fits known p l = (
  queue-add h m s up,
  total-add h m s up fits
      ∙ ap (λ n. (total_lost s.events_mgr + n) % 2 ^ 64)
          (ap (λ o. messages_lost o m.sequence_number) known
            ∙ messages_lost-behind m.sequence_number k p l),
  known-add h m s up,
)

-- Messages of one publisher whose numbers grow by some steps from a number.
abbrev pub InOrder : Hashes → ℕ → ℤ → List ℕ → List Message → Type 0
InOrder h g a [] [] = Unit
InOrder h g a (d ∷ ds) (m ∷ ms) =
    (hash_gid h m.gid ≡ g)
    × (m.sequence_number ≡ a +ℤ pos d)
    × (0 < d)
    × (d ≤ 2 ^ 31)
    × InOrder h g m.sequence_number ds ms
InOrder h g a _ _ = ⊥

abbrev pub sum : List ℕ → ℕ
sum [] = 0
sum (d ∷ ds) = d + sum ds

-- When messages of one publisher arrive with growing numbers, by steps of at most 2 ^ 31, at a
-- subscription that is not shut down and knows a number of it, the total of lost messages grows by
-- the numbers that are missing, modulo 2 ^ 64: what the steps add up to less the messages.
pub add_all-lost :
    (h : Hashes) (g : ℕ) (a : ℤ) (ds : List ℕ) (ms : List Message) (s : SubscriptionData)
    → s.is_shutdown ≡ false
    → total_lost s.events_mgr < 2 ^ 64
    → find g s.last_known_published_msg ≡ some a
    → InOrder h g a ds ms
    → (total_lost (add_all h ms s).events_mgr + length ms) % 2 ^ 64
      ≡ (total_lost s.events_mgr + sum ds) % 2 ^ 64
unfolding add_all
add_all-lost h g a [] [] s up fits known order = refl
add_all-lost h g a [] (m ∷ ms) s up fits known order = absurd order
add_all-lost h g a (d ∷ ds) [] s up fits known order = absurd order
add_all-lost h g a (d ∷ ds) (m ∷ ms) s up fits known (same, number, p, l, order) =
    let s' = (add_new_message h m s).0 in
    let step : total_lost s'.events_mgr ≡ (total_lost s.events_mgr + (d - 1)) % 2 ^ 64 =
      total-add h m s up fits
      ∙ ap (λ n. (total_lost s.events_mgr + n) % 2 ^ 64)
          (ap (λ k. messages_lost (find k s.last_known_published_msg) m.sequence_number) same
            ∙ ap (λ o. messages_lost o m.sequence_number) known
            ∙ ap (λ n. messages_lost (some a) n) number
            ∙ messages_lost-ahead a d p l) in
    let rest =
      add_all-lost h g m.sequence_number ds ms s' (is_shutdown-add h m s ∙ up) (omega (arith, step))
        (ap (λ k. find k s'.last_known_published_msg) (sym same) ∙ known-add h m s up) order in
    omega (arith, step, rest, p)
