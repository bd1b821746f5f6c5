-- ===== src/Services/Client/Tests.antt =====
-- Examples of detail/rmw_client_data.cpp.
use rmw_zenoh.Common.{◌≡◌, refl, arith, true, false, List, [], ◌∷◌, Option, none, some}
use rmw_zenoh.Common.Text.{Bytes}
use rmw_zenoh.Common.Int.{pos}
use rmw_zenoh.Qos.{History}
use rmw_zenoh.Services.Service.{ServiceData, make_service}
use rmw_zenoh.Services.Client.{ClientData, Request, new_client}
use rmw_zenoh.Services.Client.Exchange.{exchange}
use rmw_zenoh.Services.Client.RoundTrip.{header_with, attachment_at, exchange-done}
use rmw_zenoh.Common.Map.{find}
use rmw_zenoh.Services.Service.Pending.{find_query}
use rmw_zenoh.Samples.{hashes, codec, codec-IsCodec, gid}

abbrev read_all : Bytes → Option Bytes
read_all bytes = some bytes

abbrev service : ServiceData
service = make_service History.keep_last 2

abbrev client : ClientData
client = new_client History.keep_last 3 gid

abbrev request : Request
request = record {
  has_context = true;
  allocated = true;
  request = some (7 ∷ []);
  now = pos 6;
  got = true;
}

abbrev requests : List Request
requests = request ∷ record request { request = none } ∷ record request { got = false } ∷ []

exchange-done_example :
    exchange codec hashes read_all read_all request
      (record { allocated = true; response = some (9 ∷ []); now = pos 8; replied = true })
      4
      (10, 11)
      client
      service
    ≡ some (
      pos 1,
      (header_with (attachment_at 1 6 gid) 10, 7 ∷ []),
      (header_with (attachment_at 1 8 gid) 11, 9 ∷ []),
    )
unfolding new_client make_service find_query find
exchange-done_example =
    exchange-done codec codec-IsCodec hashes read_all read_all client service 4 10 11 6 8 (7 ∷ [])
      (9 ∷ []) (7 ∷ []) (9 ∷ []) refl refl (omega arith) (omega arith) refl refl refl (omega arith)
      refl (refl, refl) (refl, refl) (omega arith) (omega arith)
