-- ===== src/Nodes/Tests.antt =====
-- Examples of detail/rmw_node_data.cpp.
use rmw_zenoh.Common.{◌≡◌, refl, true, false, List, [], ◌∷◌, none, some, nat_eq}
use rmw_zenoh.Common.Map.{find}
use rmw_zenoh.Qos.{History}
use rmw_zenoh.Publisher.{new_publisher}
use rmw_zenoh.Services.Service.{ServiceData, make_service}
use rmw_zenoh.Nodes.{
  NodeData, make_node, create_entry, create_service_data, create_pub_data, shutdown,
}
use rmw_zenoh.Nodes.Endpoints.{Represents, make_node-run}
use rmw_zenoh.Nodes.Run.{
  Call, create_pub, delete_pub, create_service, shut_down, step, run, abstract_run, empty_node,
}
use rmw_zenoh.Samples.{publisher, gid}

abbrev service : ServiceData
service = make_service History.keep_last 2

abbrev calls : List Call
calls =
    create_pub 1 (some (new_publisher gid))
    ∷ create_pub 1 (some (new_publisher gid))
    ∷ create_service 2 (some service)
    ∷ create_service 3 none
    ∷ shut_down true
    ∷ create_service 4 (some service)
    ∷ delete_pub 1
    ∷ []

abbrev node : NodeData
node = record {
  id = 5;
  entity = publisher;
  token_declared = true;
  is_shutdown = false;
  pubs = [];
  subs = [];
  services = [];
  clients = [];
}

made : make_node 5 (some publisher) true ≡ some node
unfolding make_node
made = refl

-- A second publisher under the same pointer, a service that cannot be made, and one after the shutdown
-- are refused.
answers_of_calls : (run calls node).1 ≡ true ∷ false ∷ true ∷ false ∷ true ∷ false ∷ true ∷ []
unfolding run step create_entry create_pub_data create_service_data shutdown find
answers_of_calls = refl

make_node-run_example :
    Represents (run calls node).0 (abstract_run calls empty_node).0
    × (run calls node).1 ≡ (abstract_run calls empty_node).1
make_node-run_example = make_node-run calls 5 (some publisher) true node made
