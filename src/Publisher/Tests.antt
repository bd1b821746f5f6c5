-- ===== src/Publisher/Tests.antt =====
-- Examples of detail/rmw_publisher_data.cpp.
use rmw_zenoh.Common.{
  ◌+◌, ◌≡◌, refl, arith, true, false, List, [], ◌∷◌, ◌++◌, none, some, length, nat_eq,
}
use rmw_zenoh.Common.Int.{pos}
use rmw_zenoh.Common.Map.{find}
use rmw_zenoh.Qos.{History}
use rmw_zenoh.Liveliness.Gid.{hash_gid}
use rmw_zenoh.Event.{init_manager}
use rmw_zenoh.Buffers.{BufferPool}
use rmw_zenoh.Subscription.{SubscriptionData}
use rmw_zenoh.Subscription.Lost.{total_lost}
use rmw_zenoh.Publisher.{PublisherData, Publication, put_ok, put_failed, new_publisher, publish}
use rmw_zenoh.Publisher.Numbers.{publish_all}
use rmw_zenoh.Publisher.Releases.{blocks, requested, publish-releases}
use rmw_zenoh.Publisher.Delivery.{deliver_all, publish-deliver_lossless}
use rmw_zenoh.Samples.{hashes, codec, codec-IsCodec, gid}

abbrev publisher : PublisherData
publisher = new_publisher gid

-- The pool has one buffer.
abbrev pool : BufferPool
pool = record { buffers = (record { block = 40; size = 64 }) ∷ []; max_size = 100; size = 64 }

abbrev message : Publication
message = record {
  max_data_length = 8;
  has_context = true;
  shm = none;
  pool_answer = some 41;
  heap_answer = some 42;
  message = some (1 ∷ 2 ∷ []);
  now = pos 6;
  put_result = put_ok;
}

abbrev bad_message : Publication
bad_message = record message { message = none }

abbrev messages : List Publication
messages =
    message
    ∷ bad_message
    ∷ record message { max_data_length = 200 }
    ∷ record message { put_result = put_failed }
    ∷ []

publish-releases_example :
    blocks (publish codec message (publisher, pool)).2.put_calls
      ++ (publish codec message (publisher, pool)).2.freed
    ≡ requested message publisher pool
publish-releases_example = publish-releases codec message publisher pool

abbrev subscription : SubscriptionData
subscription = record {
  history = History.keep_last;
  depth = 2;
  message_queue = [];
  last_known_published_msg = (hash_gid hashes gid, pos 0) ∷ [];
  reception_sn = 0;
  wait_set_data = none;
  data_callback_mgr = record { callback = none; unread_count = 0 };
  events_mgr = init_manager;
  is_shutdown = false;
}

known : find (hash_gid hashes gid) subscription.last_known_published_msg ≡ some (pos 0)
unfolding find hash_gid
known = ground arith

publish-deliver_lossless_example :
    (s' : SubscriptionData) × (deliver_all codec hashes
        (λ put. 9)
        (publish_all codec messages (publisher, pool)).2
        subscription
      ≡ some s')
    × (total_lost s'.events_mgr ≡ total_lost subscription.events_mgr)
    × (find (hash_gid hashes gid) s'.last_known_published_msg
        ≡ some (pos (0 + length (publish_all codec messages (publisher, pool)).2)))
unfolding new_publisher
publish-deliver_lossless_example =
    publish-deliver_lossless codec codec-IsCodec hashes (λ put. 9) gid refl messages publisher pool
      0 subscription refl refl (omega arith)
      (
        (omega arith, omega arith),
        (
          (omega arith, omega arith),
          ((omega arith, omega arith), ((omega arith, omega arith), tt)),
        ),
      )
      refl (omega arith) known
