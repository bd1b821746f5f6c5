-- ===== src/Services/Client/Exchange.antt =====
-- One request and its response, as detail/rmw_client_data.cpp and detail/rmw_service_data.cpp handle
-- them. Between the two, zenoh delivers payloads and attachments as they are.
use rmw_zenoh.Common.{ℕ, List, [], ◌∷◌, Option, none, some, nat_eq, ◌>>=◌}
use rmw_zenoh.Common.Text.{Bytes}
use rmw_zenoh.Common.Int.{ℤ, ℤ_eq}
use rmw_zenoh.Liveliness.Gid.{Hashes}
use rmw_zenoh.Attachments.{Codec}
use rmw_zenoh.Services.{ServiceInfo, Taken, taken}
use rmw_zenoh.Services.Service.{
  ZenohQuery, ServiceData, RequestId, Reply, ReplyCall, add_new_query, take_request, send_response,
}
use rmw_zenoh.Services.Client.{ClientData, Request, Sent, send_request, on_reply, take_response}

abbrev pub result_of : {A : Type 0} → Taken A → Option (ServiceInfo × A)
result_of (taken header a) = some (header, a)
result_of _ = none

abbrev pub first {ℓ} : {A : Type ℓ} → List A → Option A
first [] = none
first (x ∷ xs) = some x

-- `request_header->request_id`
abbrev pub request_id : ServiceInfo → RequestId
request_id header = record {
  writer_guid = header.writer_guid;
  sequence_number = header.sequence_number;
}

-- A service that receives a query, takes it, and replies to what it has taken.
unfoldable pub serve :
    {A : Type 0}
    → Codec
    → Hashes
    → (Bytes → Option A)
    → Reply
    → ZenohQuery
    → ServiceData
    → Option (ServiceInfo × A × ReplyCall)
serve c h deserialize reply q s = do
  (s1, _) ← add_new_query q s
  let (s2, t) = take_request c h deserialize s1
  (header, request) ← result_of t
  call ← first (send_response c h (request_id header) reply s2).2
  some (header, request, call)

-- A request that has been sent is served and answered: its number, what the service takes and what the
-- client takes. The query is named `k`; the two other numbers are the times of arrival.
unfoldable pub deliver :
    {A B : Type 0}
    → Codec
    → Hashes
    → (Bytes → Option A)
    → (Bytes → Option B)
    → Reply
    → ℕ
    → ℕ × ℕ
    → ServiceData
    → ClientData × Sent
    → Option (ℤ × (ServiceInfo × A) × (ServiceInfo × B))
unfolding serve
deliver c h read_request read_response reply k (at_service, at_client) service (client, sent) = do
  number ← sent.sequence_id
  call ← sent.get_call
  (header, a, answer) ←
      serve c h read_request reply
        (record {
          query = k;
          payload = some call.payload;
          attachment = some call.attachment;
          received_timestamp = at_service;
        })
        service
  (client2, _) ←
      on_reply
        (record {
          sample = some (record { payload = answer.payload; attachment = some answer.attachment });
          received_timestamp = at_client;
        })
        client
  (header', b) ← result_of (take_response c read_response client2).1
  some (number, (header, a), (header', b))

-- A request from the call of `send_request` to the one of `take_response`.
abbrev pub exchange :
    {A B : Type 0}
    → Codec
    → Hashes
    → (Bytes → Option A)
    → (Bytes → Option B)
    → Request
    → Reply
    → ℕ
    → ℕ × ℕ
    → ClientData
    → ServiceData
    → Option (ℤ × (ServiceInfo × A) × (ServiceInfo × B))
exchange c h read_request read_response request reply k times client service =
    deliver c h read_request read_response reply k times service (send_request c request client)
