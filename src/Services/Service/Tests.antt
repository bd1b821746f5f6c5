-- ===== src/Services/Service/Tests.antt =====
-- Examples of detail/rmw_service_data.cpp.
use rmw_zenoh.Common.{
  ℕ, ◌+◌, ◌≤◌, ◌≡◌, refl, arith, true, List, [], ◌∷◌, Option, none, some, nat_eq,
}
use rmw_zenoh.Common.Text.{Bytes}
use rmw_zenoh.Common.Int.{ℤ, pos, ℤ_eq}
use rmw_zenoh.Qos.{History}
use rmw_zenoh.Liveliness.Gid.{hash_gid}
use rmw_zenoh.Attachments.{serialize_to_zbytes, attachment_of}
use rmw_zenoh.Services.{make_room, ServiceInfo, done, parse_attachment, header_of}
use rmw_zenoh.Common.Map.{find, erase}
use rmw_zenoh.Event.{trigger_callback}
use rmw_zenoh.Services.Service.Pending.{find_query}
use rmw_zenoh.Services.Service.{
  ZenohQuery, ServiceData, RequestId, Reply, ReplyCall, add_new_query, shutdown, make_service,
  read_query, take_request, reply_to, send_response,
}
use rmw_zenoh.Services.Service.Run.{
  Call, arrive, take_next, respond, shut_down, Seen, took, replied, step, run,
}
use rmw_zenoh.Services.Service.Answers.{waiting, takes, replies, run-answers}
use rmw_zenoh.Services.Service.Respond.{
  waiting_query, bind_to, TakeBinds, take_request-binds, send_response-answers,
}
use rmw_zenoh.Services.Service.Declared.{IsDeclared, run-IsDeclared}
use rmw_zenoh.Samples.{hashes, codec, gid, write_int, read_int, read_bytes}

abbrev read_all : Bytes → Option Bytes
read_all bytes = some bytes

abbrev query_of : ℕ → ZenohQuery
query_of n = record {
  query = n;
  payload = some (n ∷ []);
  attachment = some (
      serialize_to_zbytes codec
        (record { sequence_number = pos n; source_timestamp = pos 5; source_gid = gid }));
  received_timestamp = 8;
}

abbrev service : ServiceData
service = make_service History.keep_last 2

abbrev id : RequestId
id = record { writer_guid = gid; sequence_number = pos 4 }

abbrev answer : Reply
answer = record { allocated = true; response = some (9 ∷ []); now = pos 6; replied = true }

abbrev calls : List Call
calls =
    arrive (query_of 4)
    ∷ arrive (query_of 5)
    ∷ take_next
    ∷ respond id answer
    ∷ respond id answer
    ∷ shut_down true true
    ∷ []

-- A service with a waiting query.
abbrev busy : ServiceData
busy = record service {
  query_queue = query_of 5 ∷ [];
  sequence_to_query_map = (hash_gid hashes gid, (pos 4, query_of 4) ∷ []) ∷ [];
}

abbrev header_5 : ServiceInfo
header_5 = record {
  sequence_number = pos 5;
  writer_guid = gid;
  source_timestamp = pos 5;
  received_timestamp = 8;
}

abbrev header_4 : ServiceInfo
header_4 = record {
  sequence_number = pos 4;
  writer_guid = gid;
  source_timestamp = pos 5;
  received_timestamp = 8;
}

abbrev answered : ReplyCall
answered = record {
  query = 4;
  payload = 9 ∷ [];
  attachment =
      serialize_to_zbytes codec
        (record { sequence_number = pos 4; source_timestamp = pos 6; source_gid = gid });
}

abbrev seen_4 : List Seen
seen_4 = took header_4 ∷ replied id answered ∷ []

abbrev left : ServiceData
left = record service {
  query_queue = query_of 5 ∷ [];
  data_callback_mgr = record { callback = none; unread_count = 2 };
  is_shutdown = true;
}

-- The second response is not sent, since the first one has used up the query.
ran : run codec hashes read_all calls service ≡ some (left, seen_4)
unfolding run step add_new_query take_request send_response shutdown serialize_to_zbytes
    attachment_of write_int read_int read_bytes hash_gid find erase make_service make_room
    trigger_callback
ran = refl

run-answers_example :
    replies hashes (hash_gid hashes gid) (pos 4) seen_4 + waiting (hash_gid hashes gid) (pos 4) left
    ≤ takes hashes (hash_gid hashes gid) (pos 4) seen_4
      + waiting (hash_gid hashes gid) (pos 4) service
run-answers_example =
    run-answers hashes (hash_gid hashes gid) (pos 4) codec read_all calls service left seen_4 ran

declared : IsDeclared service
unfolding make_service
declared = (refl, refl, refl)

run-IsDeclared_example : IsDeclared left
run-IsDeclared_example = run-IsDeclared codec hashes read_all calls service left seen_4 ran declared

take_request-binds_example :
    TakeBinds codec hashes read_all busy (take_request codec hashes read_all busy)
take_request-binds_example = take_request-binds codec hashes read_all busy

read_5 : read_query codec read_all (query_of 5) ≡ done (header_5, 5 ∷ [])
unfolding read_query parse_attachment header_of serialize_to_zbytes attachment_of write_int read_int
    read_bytes
read_5 = refl

free_5 : waiting_query busy (hash_gid hashes gid) (pos 5) ≡ none
unfolding find_query find hash_gid
free_5 = ground arith

waits_4 : waiting_query busy (hash_gid hashes gid) (pos 4) ≡ some (query_of 4)
unfolding find_query find
waits_4 = ground arith

send_response-answers_example :
    (((send_response codec hashes id answer busy).1, (send_response codec hashes id answer busy).2)
      ≡ reply_to codec id answer (query_of 4))
    × ((hash : ℕ) (n : ℤ)
        → waiting_query (send_response codec hashes id answer busy).0 hash n
          ≡ bind_to none (hash_gid hashes gid) (pos 4) (waiting_query busy) hash n)
unfolding make_service
send_response-answers_example =
    send_response-answers codec hashes id answer busy (query_of 4) refl waits_4
