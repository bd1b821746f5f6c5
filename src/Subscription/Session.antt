-- ===== src/Subscription/Session.antt =====
-- How a subscription of detail/rmw_subscription_data.cpp meets zenoh: the callback for a sample, and
-- the end in `shutdown`.
use rmw_zenoh.Common.{ℕ, Bool, true, false, not, ◌||◌, List, [], Option, none, some, if◌then◌else◌}
use rmw_zenoh.Common.Text.{Bytes}
use rmw_zenoh.Qos.{RmwRet}
use rmw_zenoh.Liveliness.Gid.{Hashes}
use rmw_zenoh.Event.{Effect}
use rmw_zenoh.Graph.Events.{GraphEvents, remove_qos_event_callbacks}
use rmw_zenoh.Attachments.{Codec, AttachmentData, attachment_of}
use rmw_zenoh.Subscription.{Message, SubscriptionData, add_new_message}

-- The message made of a sample.
abbrev pub message_of : Bytes → ℕ → AttachmentData → Message
message_of payload now a = record {
  payload = payload;
  recv_timestamp = now;
  sequence_number = a.sequence_number;
  source_timestamp = a.source_timestamp;
  gid = a.source_gid;
}

-- The callback `on_sample`, with the payload and the attachment of the sample, while the subscription
-- exists; `none` is an exception of the deserializer.
unfoldable pub on_sample :
    Codec
    → Hashes
    → ℕ
    → Bytes
    → Option Bytes
    → SubscriptionData
    → Option (SubscriptionData × List Effect)
on_sample c h now payload attachment s = elim attachment [
  | none ↦ some (s, [])
  | some bytes ↦ elim (attachment_of c bytes) [
    | none ↦ none
    | some a ↦ some (add_new_message h (message_of payload now a) s)
  ]
]

-- A subscription with what `init` and `shutdown` change besides: `initialized_`, whether the token and
-- the zenoh subscriber are declared, and the callbacks of the graph cache. `gid_hash` is the entity's.
pub record Subscriber : Type 0 where
  pub sub_data : SubscriptionData
  pub gid_hash : ℕ
  pub initialized : Bool
  pub token_declared : Bool
  pub sub_declared : Bool
  pub graph_events : GraphEvents

-- The session's answers to the key expression and the two declarations are arguments.
unfoldable pub init : Bool → Bool → Bool → Subscriber → Subscriber × Bool
init keyexpr_ok sub_ok token_ok s =
    if not keyexpr_ok
    then (s, false)
    else if not sub_ok
    then (s, false)
    else if not token_ok
    then (record s { sub_declared = true }, false)
    else (record s { sub_declared = true; token_declared = true; initialized = true }, true)

-- The session's answers to the two undeclarations are arguments.
unfoldable pub shutdown : Bool → Bool → Subscriber → Subscriber × RmwRet
shutdown token_ok sub_ok s =
    if s.sub_data.is_shutdown || not s.initialized
    then (s, RmwRet.ok)
    else let s' = record s {
      graph_events = remove_qos_event_callbacks s.gid_hash s.graph_events;
      token_declared = false;
    } in
      if not token_ok
      then (s', RmwRet.error)
      else if not sub_ok
      then (record s' { sub_declared = false }, RmwRet.error)
      else (
        record s' {
          sub_declared = false;
          initialized = false;
          sub_data = record s.sub_data { is_shutdown = true };
        },
        RmwRet.ok,
      )
