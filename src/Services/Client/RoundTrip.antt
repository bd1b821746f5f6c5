-- ===== src/Services/Client/RoundTrip.antt =====
-- A request from a client to a service and the response back: detail/rmw_client_data.cpp with
-- detail/rmw_service_data.cpp.
use rmw_zenoh.Common.{
  ℕ, ◌+◌, ◌%◌, ◌^◌, ◌<◌, ◌≡◌, refl, ap, ◌∙◌, Bool, true, false, List, [], ◌∷◌, ◌++◌, Option, none,
  some, arith, nat_eq, length, is_empty, ◌>>=◌, bind_step, if◌then◌else◌,
}
use rmw_zenoh.Common.Text.{Bytes}
use rmw_zenoh.Common.Int.{pos, ℤ_eq}
use rmw_zenoh.Qos.{RmwRet, History}
use rmw_zenoh.Liveliness.Gid.{Hashes, hash_gid}
use rmw_zenoh.Attachments.{Codec, IsCodec, gid_size, AttachmentData, serialize_to_zbytes, to_int64}
use rmw_zenoh.Attachments.RoundTrip.{attachment_of-serialize}
use rmw_zenoh.Services.{
  ServiceInfo, Outcome, done, Taken, taken, nothing, make_room, parse_attachment, header_of,
}
use rmw_zenoh.Services.Service.{
  ZenohQuery, ServiceData, Reply, ReplyCall, reply_to, add_new_query, read_query, send_response,
}
use rmw_zenoh.Services.Service.Respond.{waiting_query, take_request-taken, send_response-answers}
use rmw_zenoh.Services.Service.Pending.{find_query-inserted}
use rmw_zenoh.Event.{trigger_callback}
use rmw_zenoh.Subscription.{notify}
use rmw_zenoh.Services.Client.Exchange.{result_of, first, request_id, serve, deliver, exchange}
use rmw_zenoh.Services.Client.{
  take_front, taken_of, Sample, ZenohReply, ClientData, send_request, send_bytes, on_reply,
  read_reply, take_response,
}

abbrev pub header_with : AttachmentData → ℕ → ServiceInfo
header_with a received = record {
  sequence_number = a.sequence_number;
  writer_guid = a.source_gid;
  source_timestamp = a.source_timestamp;
  received_timestamp = received;
}

-- The attachment has numbers that both takes accept.
abbrev pub attachment_at : ℕ → ℕ → Bytes → AttachmentData
attachment_at n t g = record { sequence_number = pos n; source_timestamp = pos t; source_gid = g }

module _ (c : Codec) (law : IsCodec c) where
  parse_attachment-serialize :
      (n t : ℕ) (g : Bytes)
      → n < 2 ^ 63
      → t < 2 ^ 63
      → length g ≡ gid_size
      → parse_attachment c (serialize_to_zbytes c (attachment_at n t g))
        ≡ done (attachment_at n t g)
  unfolding parse_attachment
  parse_attachment-serialize n t g hn ht hg = ground (
    arith,
    attachment_of-serialize c (attachment_at n t g) law (hn, omega arith) (ht, omega arith) hg,
  )

  read_query-done :
      {A : Type 0} (deserialize : Bytes → Option A) (value : A) (k : ℕ) (p bytes : Bytes)
      (n t received : ℕ) (g : Bytes)
      → is_empty p ≡ false
      → deserialize p ≡ some value
      → parse_attachment c bytes ≡ done (attachment_at n t g)
      → read_query c deserialize (record {
        query = k;
        payload = some p;
        attachment = some bytes;
        received_timestamp = received;
      })
        ≡ done (header_with (attachment_at n t g) received, value)
  unfolding read_query header_of parse_attachment
  read_query-done deserialize value k p bytes n t received g full read parse =
      ground (arith, full, read, parse)

  read_reply-done :
      {A : Type 0} (deserialize : Bytes → Option A) (value : A) (p bytes : Bytes) (n t received : ℕ)
      (g : Bytes)
      → is_empty p ≡ false
      → deserialize p ≡ some value
      → parse_attachment c bytes ≡ done (attachment_at n t g)
      → read_reply c deserialize (record {
        sample = some (record { payload = p; attachment = some bytes });
        received_timestamp = received;
      })
        ≡ done (header_with (attachment_at n t g) received, value)
  unfolding read_reply header_of parse_attachment
  read_reply-done deserialize value p bytes n t received g full read parse =
      ground (arith, full, read, parse)

room_in_empty :
    {A : Type 0} (history : History) (depth : ℕ)
    → 0 < depth
    → make_room {A = A} history depth [] ≡ some []
unfolding make_room
room_in_empty history depth p = ground arith

arrive-empty :
    (q : ZenohQuery) (s : ServiceData)
    → s.is_shutdown ≡ false
    → s.query_queue ≡ []
    → 0 < s.depth
    → add_new_query q s
      ≡ some (
        record s {
          query_queue = q ∷ [];
          data_callback_mgr = (trigger_callback s.data_callback_mgr).0;
        },
        (trigger_callback s.data_callback_mgr).1 ++ notify s.wait_set_data,
      )
unfolding add_new_query
arrive-empty q s up queue p =
    ground
      (arith, up, ap (λ x. make_room s.history s.depth x) queue ∙ room_in_empty s.history s.depth p)

on_reply-empty :
    (sample : Sample) (at : ℕ) (s : ClientData)
    → s.is_shutdown ≡ false
    → s.reply_queue ≡ []
    → 0 < s.depth
    → on_reply (record { sample = some sample; received_timestamp = at }) s
      ≡ some (
        record s {
          reply_queue = (record { sample = some sample; received_timestamp = at }) ∷ [];
          data_callback_mgr = (trigger_callback s.data_callback_mgr).0;
        },
        (trigger_callback s.data_callback_mgr).1 ++ notify s.wait_set_data,
      )
unfolding on_reply
on_reply-empty sample at s up queue p =
    ground
      (arith, up, ap (λ x. make_room s.history s.depth x) queue ∙ room_in_empty s.history s.depth p)

take_response-single :
    {A : Type 0} (c : Codec) (deserialize : Bytes → Option A) (reply : ZenohReply) (s : ClientData)
    (header : ServiceInfo) (value : A)
    → s.is_shutdown ≡ false
    → s.reply_queue ≡ reply ∷ []
    → read_reply c deserialize reply ≡ done (header, value)
    → take_response c deserialize s ≡ (record s { reply_queue = [] }, taken header value)
unfolding take_response take_front
take_response-single {A} c deserialize reply s header value up queue read =
    let s' = record s { reply_queue = [] } in
    ap (λ x. take_front c deserialize x s) queue
    ∙ ap (λ (b : Bool). if b then (s, nothing) else (s', taken_of (read_reply c deserialize reply)))
        up
    ∙ ap (λ (o : Outcome (ServiceInfo × A)). (s', taken_of o)) read

serve-done :
    {A : Type 0} (c : Codec) (h : Hashes) (deserialize : Bytes → Option A) (bytes : Bytes) (now : ℕ)
    (replied : Bool) (q : ZenohQuery) (s : ServiceData) (header : ServiceInfo) (request : A)
    → s.is_shutdown ≡ false
    → s.query_queue ≡ []
    → 0 < s.depth
    → waiting_query s (hash_gid h header.writer_guid) header.sequence_number ≡ none
    → read_query c deserialize q ≡ done (header, request)
    → serve c h deserialize
        (record { allocated = true; response = some bytes; now = pos now; replied = replied })
        q
        s
      ≡ some (
        header,
        request,
        record {
          query = q.query;
          payload = bytes;
          attachment = serialize_to_zbytes c (record {
            sequence_number = header.sequence_number;
            source_timestamp = pos now;
            source_gid = header.writer_guid;
          });
        },
      )
unfolding serve reply_to
serve-done {A} c h deserialize bytes now replied q s header request up queue p free read =
    let reply : Reply = record {
      allocated = true;
      response = some bytes;
      now = pos now;
      replied = replied;
    } in
    let g = hash_gid h header.writer_guid in
    let n = header.sequence_number in
    let s1 : ServiceData = record s {
      query_queue = q ∷ [];
      data_callback_mgr = (trigger_callback s.data_callback_mgr).0;
    } in
    let (m, inserted, took) =
      take_request-taken c h deserialize s1 q [] header request refl up read free in
    let s2 : ServiceData = record s1 { query_queue = []; sequence_to_query_map = m } in
    let bound : waiting_query s2 g n ≡ some q =
      find_query-inserted g n q s.sequence_to_query_map m inserted in
    let answer = send_response-answers c h (request_id header) reply s2 q up bound in
    bind_step _ (arrive-empty q s up queue p) (
      ap
        (λ (x : ServiceData × Taken A). result_of x.1 >>= (λ (p : ServiceInfo × A).
          first (send_response c h (request_id p.0) reply x.0).2
          >>= (λ call. some (p.0, p.1, call))))
        took
      ∙ bind_step _ (ap (λ (x : RmwRet × List ReplyCall). first x.1) answer.0) refl)

sent_bytes :
    (c : Codec) (s : ClientData) (request : Bytes) (t : ℕ)
    → s.is_shutdown ≡ false
    → s.sequence_number < 2 ^ 63
    → send_request c
        (record {
          has_context = true;
          allocated = true;
          request = some request;
          now = pos t;
          got = true;
        })
        s
      ≡ (
        record s { sequence_number = (s.sequence_number + 1) % 2 ^ 64 },
        record {
          ret = RmwRet.ok;
          sequence_id = some (pos s.sequence_number);
          get_call = some (record {
            payload = request;
            attachment = serialize_to_zbytes c (attachment_at s.sequence_number t s.gid);
          });
        },
      )
unfolding send_request send_bytes to_int64
sent_bytes c s request t up small = ground (arith, up, small)

module _ {A B : Type 0} (c : Codec) (law : IsCodec c) (h : Hashes) (read_request : Bytes → Option A)
    (read_response : Bytes → Option B) where
  -- A request of a client with an empty queue to a service with an empty queue that has none waiting
  -- under the client's hash and number, both not shut down and with a depth that is not 0: the service
  -- takes what the client sent, with the client's gid and number, and the client takes what the service
  -- answered, with the same gid and number. The bytes on both ways are not empty and can be read, the
  -- gid has 16 bytes, the number and the times are below 2 ^ 63, the codec reads what it writes, and no
  -- allocation and no call of zenoh fails.
  pub exchange-done :
      (client : ClientData) (service : ServiceData) (k at_service at_client sent_at replied_at : ℕ)
      (request response : Bytes) (a : A) (b : B)
      → client.is_shutdown ≡ false
      → client.reply_queue ≡ []
      → 0 < client.depth
      → client.sequence_number < 2 ^ 63
      → length client.gid ≡ gid_size
      → service.is_shutdown ≡ false
      → service.query_queue ≡ []
      → 0 < service.depth
      → waiting_query service (hash_gid h client.gid) (pos client.sequence_number) ≡ none
      → (is_empty request ≡ false) × (read_request request ≡ some a)
      → (is_empty response ≡ false) × (read_response response ≡ some b)
      → sent_at < 2 ^ 63
      → replied_at < 2 ^ 63
      → exchange c h read_request read_response
          (record {
            has_context = true;
            allocated = true;
            request = some request;
            now = pos sent_at;
            got = true;
          })
          (record {
            allocated = true;
            response = some response;
            now = pos replied_at;
            replied = true;
          })
          k
          (at_service, at_client)
          client
          service
        ≡ some (
          pos client.sequence_number,
          (header_with (attachment_at client.sequence_number sent_at client.gid) at_service, a),
          (header_with (attachment_at client.sequence_number replied_at client.gid) at_client, b),
        )
  unfolding deliver
  exchange-done client service k at_service at_client sent_at replied_at request response a b up
        empty p small long up' empty' p' free (full, read) (full', read') t t' =
      let n = client.sequence_number in
      let client1 : ClientData = record client { sequence_number = (n + 1) % 2 ^ 64 } in
      let bytes = serialize_to_zbytes c (attachment_at n sent_at client.gid) in
      let bytes' = serialize_to_zbytes c (attachment_at n replied_at client.gid) in
      let header = header_with (attachment_at n sent_at client.gid) at_service in
      let header' = header_with (attachment_at n replied_at client.gid) at_client in
      let sample : Sample = record { payload = response; attachment = some bytes' } in
      let query : ZenohQuery = record {
        query = k;
        payload = some request;
        attachment = some bytes;
        received_timestamp = at_service;
      } in
      let reply : ZenohReply = record { sample = some sample; received_timestamp = at_client } in
      let client2 : ClientData = record client1 {
        reply_queue = reply ∷ [];
        data_callback_mgr = (trigger_callback client.data_callback_mgr).0;
      } in
      ap
        (deliver c h read_request read_response
          (record {
            allocated = true;
            response = some response;
            now = pos replied_at;
            replied = true;
          })
          k (at_service, at_client) service)
        (sent_bytes c client request sent_at up small)
      ∙ bind_step _
          (serve-done c h read_request response replied_at true query service header a up' empty' p'
            free
            (read_query-done c law read_request a k request bytes n sent_at at_service client.gid
              full read (parse_attachment-serialize c law n sent_at client.gid small t long)))
          (bind_step _ (on_reply-empty sample at_client client1 up empty p) (
            bind_step _
              (ap (λ (x : ClientData × Taken B). result_of x.1)
                (take_response-single c read_response reply client2 header' b up refl (
                  read_reply-done c law read_response b response bytes' n replied_at at_client
                    client.gid full' read'
                    (parse_attachment-serialize c law n replied_at client.gid small t' long))))
              refl))
