-- ===== src/Services/Service/Run.antt =====
-- Calls of the methods of `ServiceData` of detail/rmw_service_data.cpp, one after another.
use rmw_zenoh.Common.{ℕ, Bool, List, [], ◌∷◌, ◌++◌, Option, none, some, map}
use rmw_zenoh.Common.Text.{Bytes}
use rmw_zenoh.Liveliness.Gid.{Hashes}
use rmw_zenoh.Event.{Callback}
use rmw_zenoh.Attachments.{Codec}
use rmw_zenoh.Services.{ServiceInfo, Taken, taken}
use rmw_zenoh.Services.Service.{
  ZenohQuery, ServiceData, RequestId, Reply, ReplyCall, add_new_query, take_request, send_response,
  set_on_new_request_callback, queue_has_data_and_attach, detach_and_queue_is_empty, shutdown,
}

pub data Call : Type 0 where
  arrive : ZenohQuery → Call
  take_next : Call
  respond : RequestId → Reply → Call
  set_callback : Option Callback → Call
  attach : ℕ → Call
  detach : Call
  shut_down : Bool → Bool → Call

-- What the user and the clients see of a call.
pub data Seen : Type 0 where
  took : ServiceInfo → Seen
  replied : RequestId → ReplyCall → Seen

abbrev pub seen_of_take {ℓ} : {A : Type ℓ} → Taken A → List Seen
seen_of_take (taken header request) = took header ∷ []
seen_of_take _ = []

module _ {ℓ} {A : Type ℓ} (c : Codec) (h : Hashes) (deserialize : Bytes → Option A) where
  unfoldable pub step : Call → ServiceData → Option (ServiceData × List Seen)
  step (arrive query) s = elim (add_new_query query s) [
    | none ↦ none
    | some (s', _) ↦ some (s', [])
  ]
  step take_next s = let (s', t) = take_request c h deserialize s in some (s', seen_of_take t)
  step (respond id r) s =
      let (s', ret, calls) = send_response c h id r s in some (s', map (replied id) calls)
  step (set_callback callback) s = some ((set_on_new_request_callback callback s).0, [])
  step (attach w) s = some ((queue_has_data_and_attach w s).0, [])
  step detach s = some ((detach_and_queue_is_empty s).0, [])
  step (shut_down t q) s = some ((shutdown t q s).0, [])

  -- `none` when a call has undefined behaviour.
  unfoldable pub run : List Call → ServiceData → Option (ServiceData × List Seen)
  run [] s = some (s, [])
  run (x ∷ xs) s = elim (step x s) [
    | none ↦ none
    | some (s', seen) ↦ elim (run xs s') [
      | none ↦ none
      | some (s'', rest) ↦ some (s'', seen ++ rest)
    ]
  ]
