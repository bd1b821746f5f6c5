-- ===== src/Subscription.antt =====
-- The queue of a subscription: `SubscriptionData` of detail/rmw_subscription_data.cpp, from a message
-- that arrives to the take. Each method is one critical section of `mutex_`. The type support's
-- deserialization and whether a buffer can be resized are arguments. The numbers of messages are
-- `int64_t`, whose overflow has no defined behaviour in the source.
pub mod Queue
pub mod Lost
pub mod Take
pub mod Session
mod Tests
use rmw_zenoh.Common.{
  ℕ, ◌+◌, ◌-◌, ◌^◌, ◌%◌, Bool, true, false, not, ◌&&◌, ◌||◌, List, [], ◌∷◌, ◌++◌, Option, none,
  some, ltb, leb, ◌==◌, nat_eq, is_empty, length, if◌then◌else◌,
}
use rmw_zenoh.Common.Text.{Bytes}
use rmw_zenoh.Common.Int.{ℤ, pos, negsuc, pos_part, neg_part, ◌-ℤ◌}
use rmw_zenoh.Common.Map.{find, put}
use rmw_zenoh.Qos.{History}
use rmw_zenoh.Liveliness.Gid.{Hashes, hash_gid}
use rmw_zenoh.Event.{
  Callback, Effect, called, notified, DataCallbackManager, set_callback, trigger_callback,
  EventsManager, event_message_lost, update_event_status,
}

-- `Message`, with the fields of its attachment. An empty payload stands for a `Payload` without data.
pub record Message : Type 0 where
  pub payload : Bytes
  pub recv_timestamp : ℕ
  pub sequence_number : ℤ
  pub source_timestamp : ℤ
  pub gid : Bytes

-- `history` and `depth` are those of the entity's profile.
pub record SubscriptionData : Type 0 where
  pub history : History
  pub depth : ℕ
  pub message_queue : List Message
  pub last_known_published_msg : List (ℕ × ℤ)
  pub reception_sn : ℕ
  pub wait_set_data : Option ℕ
  pub data_callback_mgr : DataCallbackManager
  pub events_mgr : EventsManager
  pub is_shutdown : Bool

abbrev is_keep_all : History → Bool
is_keep_all History.keep_all = true
is_keep_all _ = false

abbrev pub pop_front : List Message → List Message
pop_front [] = []
pop_front (m ∷ ms) = ms

-- The oldest message goes when the queue is full.
unfoldable pub discard_oldest : SubscriptionData → List Message
discard_oldest s =
    if not (is_keep_all s.history) && leb s.depth (length s.message_queue)
    then pop_front s.message_queue
    else s.message_queue

abbrev pub abs : ℤ → ℕ
abs a = pos_part a + neg_part a

-- `num_msg_lost`, from the number that is known of a publisher and the one that has arrived; 0 when
-- no event is reported. `std::clamp` bounds it by the greatest `int32_t`.
unfoldable pub messages_lost : Option ℤ → ℤ → ℕ
messages_lost none sequence_number = 0
messages_lost (some last) sequence_number =
    let lost = abs (sequence_number -ℤ last) - 1 in
    if ltb (2 ^ 31 - 1) lost then 2 ^ 31 - 1 else lost

report_lost : ℕ → EventsManager → EventsManager × List Effect
report_lost lost m =
    if lost == 0 then (m, []) else update_event_status m event_message_lost (pos lost)

abbrev pub notify : Option ℕ → List Effect
notify none = []
notify (some w) = notified w ∷ []

unfoldable pub add_new_message :
    Hashes → Message → SubscriptionData → SubscriptionData × List Effect
unfolding discard_oldest messages_lost report_lost
add_new_message h msg s =
    if s.is_shutdown
    then (s, [])
    else let g = hash_gid h msg.gid in
      let lost = messages_lost (find g s.last_known_published_msg) msg.sequence_number in
      let (events, reported) = report_lost lost s.events_mgr in
      let (callbacks, calls) = trigger_callback s.data_callback_mgr in
      (
        record s {
          message_queue = discard_oldest s ++ msg ∷ [];
          last_known_published_msg = put g msg.sequence_number s.last_known_published_msg;
          data_callback_mgr = callbacks;
          events_mgr = events;
        },
        reported ++ calls ++ notify s.wait_set_data,
      )

unfoldable pub queue_has_data_and_attach : ℕ → SubscriptionData → SubscriptionData × Bool
queue_has_data_and_attach wait_set s =
    if not (is_empty s.message_queue)
    then (s, true)
    else (record s { wait_set_data = some wait_set }, false)

unfoldable pub detach_and_queue_is_empty : SubscriptionData → SubscriptionData × Bool
detach_and_queue_is_empty s = (record s { wait_set_data = none }, is_empty s.message_queue)

unfoldable pub set_on_new_message_callback :
    Option Callback → SubscriptionData → SubscriptionData × List Effect
set_on_new_message_callback callback s =
    let (m, calls) = set_callback s.data_callback_mgr callback in
    (record s { data_callback_mgr = m }, calls)

-- `rmw_message_info_t`
pub record MessageInfo : Type 0 where
  pub source_timestamp : ℤ
  pub received_timestamp : ℕ
  pub publication_sequence_number : ℤ
  pub reception_sequence_number : ℕ
  pub publisher_gid : Bytes

-- What a take gives: a message, with its information when that is asked for; nothing; or an error,
-- for which the message is gone from the queue.
pub data Taken {ℓ} (A : Type ℓ) : Type ℓ where
  taken : A → Option MessageInfo → Taken A
  nothing : Taken A
  failed : Taken A

unfoldable pub info_of : Message → ℕ → MessageInfo
info_of m reception_sn = record {
  source_timestamp = m.source_timestamp;
  received_timestamp = m.recv_timestamp;
  publication_sequence_number = m.sequence_number;
  reception_sequence_number = reception_sn;
  publisher_gid = m.gid;
}

-- What is done with the message that has been popped; `read` is what can fail. The counter of takes
-- goes up only when information is asked for.
unfoldable pub take_popped {ℓ} :
    {A : Type ℓ}
    → (Bytes → Option A)
    → Bool
    → Message
    → SubscriptionData
    → SubscriptionData × Taken A
unfolding info_of
take_popped read wants_info m s =
    if is_empty m.payload then (s, failed) else elim (read m.payload) [
      | none ↦ (s, failed)
      | some value ↦
          if wants_info
          then (
            record s { reception_sn = (s.reception_sn + 1) % 2 ^ 64 },
            taken value (some (info_of m s.reception_sn)),
          )
          else (s, taken value none)
    ]

unfoldable pub take_front {ℓ} :
    {A : Type ℓ}
    → (Bytes → Option A)
    → Bool
    → List Message
    → SubscriptionData
    → SubscriptionData × Taken A
unfolding take_popped
take_front read wants_info [] s = (s, nothing)
take_front read wants_info (m ∷ ms) s =
    if s.is_shutdown
    then (s, nothing)
    else take_popped read wants_info m (record s { message_queue = ms })

unfoldable pub take_one_message {ℓ} :
    {A : Type ℓ} → (Bytes → Option A) → Bool → SubscriptionData → SubscriptionData × Taken A
unfolding take_front
take_one_message deserialize wants_info s = take_front deserialize wants_info s.message_queue s

-- `fits` says whether the buffer is large enough or can be resized.
unfoldable pub take_serialized_message :
    (Bytes → Bool) → Bool → SubscriptionData → SubscriptionData × Taken Bytes
unfolding take_front
take_serialized_message fits wants_info s =
    take_front (λ payload. if fits payload then some payload else none) wants_info s.message_queue s
