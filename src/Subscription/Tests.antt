-- ===== src/Subscription/Tests.antt =====
-- Examples of detail/rmw_subscription_data.cpp.
use rmw_zenoh.Common.{
  ℕ, ◌+◌, ◌-◌, ◌^◌, ◌%◌, ◌≡◌, refl, arith, false, List, [], ◌∷◌, ◌++◌, none, some, length, nat_eq,
  Has,
}
use rmw_zenoh.Common.Text.{codes}
use rmw_zenoh.Common.Int.{pos, ◌+ℤ◌}
use rmw_zenoh.Common.Map.{find}
use rmw_zenoh.Qos.{History}
use rmw_zenoh.Liveliness.Gid.{hash_gid}
use rmw_zenoh.Event.{init_manager, notified}
use rmw_zenoh.Subscription.{
  Message, SubscriptionData, add_new_message, queue_has_data_and_attach, detach_and_queue_is_empty,
  discard_oldest,
}
use rmw_zenoh.Subscription.Queue.{add_all, last, add_all-keep_last, attach_no_lost_message}
use rmw_zenoh.Subscription.Lost.{total_lost, sum, add_new_message-late, add_all-lost}
use rmw_zenoh.Samples.{hashes}

abbrev message : ℕ → Message
message n = record {
  payload = n ∷ [];
  recv_timestamp = n;
  sequence_number = pos n;
  source_timestamp = pos n;
  gid = codes "g";
}

abbrev g : ℕ
g = hash_gid hashes (codes "g")

abbrev empty_queue : SubscriptionData
empty_queue = record {
  history = History.keep_last;
  depth = 2;
  message_queue = [];
  last_known_published_msg = (g, pos 3) ∷ [];
  reception_sn = 0;
  wait_set_data = none;
  data_callback_mgr = record { callback = none; unread_count = 0 };
  events_mgr = init_manager;
  is_shutdown = false;
}

abbrev keeps_all : SubscriptionData
keeps_all = record empty_queue { history = History.keep_all }

abbrev filled : SubscriptionData
filled = record empty_queue { message_queue = message 4 ∷ message 5 ∷ [] }

abbrev arriving : List Message
arriving = message 4 ∷ message 7 ∷ message 8 ∷ []

add_all-keep_last_example :
    (add_all hashes arriving empty_queue).message_queue ≡ last 2 ([] ++ arriving)
add_all-keep_last_example =
    add_all-keep_last hashes arriving empty_queue refl (ground arith) (omega arith) (omega arith)

attached :
    queue_has_data_and_attach 6 empty_queue ≡ (record empty_queue { wait_set_data = some 6 }, false)
unfolding queue_has_data_and_attach
attached = refl

attach_no_lost_message_example :
    let s' = record empty_queue { wait_set_data = some 6 } in
    Has (notified 6) (add_new_message hashes (message 4) s').1
    × ((detach_and_queue_is_empty (add_new_message hashes (message 4) s').0).1 ≡ false)
attach_no_lost_message_example =
    attach_no_lost_message hashes 6 empty_queue (record empty_queue { wait_set_data = some 6 })
      (message 4) refl attached

-- The number 7 is known, and the message 3 arrives.
abbrev ahead : SubscriptionData
ahead = record empty_queue { last_known_published_msg = (g, pos 7) ∷ [] }

known_ahead : find g ahead.last_known_published_msg ≡ some (pos 3 +ℤ pos 4)
unfolding find hash_gid ◌+ℤ◌
known_ahead = ground arith

add_new_message-late_example :
    ((add_new_message hashes (message 3) ahead).0.message_queue ≡ message 3 ∷ [])
    × (total_lost (add_new_message hashes (message 3) ahead).0.events_mgr
        ≡ (total_lost ahead.events_mgr + (4 - 1)) % 2 ^ 64)
    × (find g (add_new_message hashes (message 3) ahead).0.last_known_published_msg ≡ some (pos 3))
unfolding discard_oldest
add_new_message-late_example =
    add_new_message-late hashes (message 3) ahead 4 refl (omega arith) known_ahead (omega arith)
      (omega arith)

known : find g empty_queue.last_known_published_msg ≡ some (pos 3)
unfolding find hash_gid
known = ground arith

step : (n d m : ℕ) → n + d ≡ m → pos m ≡ pos n +ℤ pos d
unfolding ◌+ℤ◌
step n d m h = ground arith

add_all-lost_example :
    (total_lost (add_all hashes arriving empty_queue).events_mgr + length arriving) % 2 ^ 64
    ≡ (total_lost empty_queue.events_mgr + sum (1 ∷ 3 ∷ 1 ∷ [])) % 2 ^ 64
add_all-lost_example =
    add_all-lost hashes g (pos 3) (1 ∷ 3 ∷ 1 ∷ []) arriving empty_queue refl (omega arith) known (
      refl,
      step 3 1 4 refl,
      omega arith,
      omega arith,
      (
        refl,
        step 4 3 7 refl,
        omega arith,
        omega arith,
        (refl, step 7 1 8 refl, omega arith, omega arith, tt),
      ),
    )
