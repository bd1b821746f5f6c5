-- ===== src/Nodes/Endpoints.antt =====
-- The endpoints of a node as maps: what the methods of detail/rmw_node_data.cpp do to the maps of a
-- node, against a node whose maps are functions.
use rmw_zenoh.Common.{
  ℕ, ◌≡◌, refl, ap, ◌∙◌, subst, Bool, true, false, ◌||◌, List, [], ◌∷◌, Option, none, some, arith,
  nat_eq, Option-cases, inl, inr,
}
use rmw_zenoh.Common.Map.{find, erase}
use rmw_zenoh.Common.Map.Laws.{find-append, find-erase}
use rmw_zenoh.Liveliness.Entity.{Entity}
use rmw_zenoh.Nodes.{
  make_node, NodeData, create_entry, create_pub_data, delete_pub_data, create_sub_data,
  delete_sub_data, create_service_data, delete_service_data, create_client_data, delete_client_data,
  shutdown,
}
use rmw_zenoh.Nodes.Run.{
  Call, is_ok, step, run, AbstractNode, may_create, override, abstract_step, abstract_run,
  empty_node, pubs-shutdown, subs-shutdown, services-shutdown, clients-shutdown,
}

pub record Represents (n : NodeData) (a : AbstractNode) : Type 0 where
  pub is_shutdown : n.is_shutdown ≡ a.is_shutdown
  pub pubs : (j : ℕ) → find j n.pubs ≡ a.pubs j
  pub subs : (j : ℕ) → find j n.subs ≡ a.subs j
  pub services : (j : ℕ) → find j n.services ≡ a.services j
  pub clients : (j : ℕ) → find j n.clients ≡ a.clients j

find-create_entry :
    {D : Type 0} (b : Bool) (k : ℕ) (made : Option D) (m : List (ℕ × D)) (f : ℕ → Option D)
    → find k m ≡ f k
    → (j : ℕ) → find j m ≡ f j
    → find j (create_entry b k made m).0 ≡ override (may_create b k made f) k made f j
unfolding create_entry
find-create_entry true k made m f hk j hj = ground (arith, hk, hj)
find-create_entry false k none m f hk j hj = elim (Option-cases (f k)) [
  | inl a ↦ ground (arith, hk, hj, a)
  | inr (d, a) ↦ ground (arith, hk, hj, a)
]
find-create_entry false k (some d) m f hk j hj = elim (Option-cases (f k)) [
  | inl a ↦ ground (arith, hk, hj, a, find-append j k d m)
  | inr (_, a) ↦ ground (arith, hk, hj, a)
]

created-create_entry :
    {D : Type 0} (b : Bool) (k : ℕ) (made : Option D) (m : List (ℕ × D)) (f : ℕ → Option D)
    → find k m ≡ f k
    → (create_entry b k made m).1 ≡ may_create b k made f
unfolding create_entry
created-create_entry true k made m f hk = ground (arith, hk)
created-create_entry false k none m f hk = elim (Option-cases (f k)) [
  | inl a ↦ ground (arith, hk, a)
  | inr (d, a) ↦ ground (arith, hk, a)
]
created-create_entry false k (some d) m f hk = elim (Option-cases (f k)) [
  | inl a ↦ ground (arith, hk, a)
  | inr (_, a) ↦ ground (arith, hk, a)
]

find-erase_entry :
    {D : Type 0} (k : ℕ) (m : List (ℕ × D)) (f : ℕ → Option D) (j : ℕ)
    → find j m ≡ f j
    → find j (erase k m) ≡ override true k none f j
find-erase_entry k m f j h = ground (arith, h, find-erase j k m)

create_entry_lem :
    {D : Type 0} (b b' : Bool) (k : ℕ) (made : Option D) (m : List (ℕ × D)) (f : ℕ → Option D)
    → b ≡ b'
    → ((j : ℕ) → find j m ≡ f j)
    → ((j : ℕ) → find j (create_entry b k made m).0 ≡ override (may_create b' k made f) k made f j)
      × (create_entry b k made m).1 ≡ may_create b' k made f
create_entry_lem b b' k made m f e h =
    subst
      (λ x.
        ((j : ℕ) → find j (create_entry b k made m).0 ≡ override (may_create x k made f) k made f j)
        × (create_entry b k made m).1 ≡ may_create x k made f)
      e (λ j. find-create_entry b k made m f (h k) j (h j), created-create_entry b k made m f (h k))

shutdown-Represents :
    (token_ok : Bool) (n : NodeData) (a : AbstractNode)
    → Represents n a
    → Represents (shutdown token_ok n).0 (record a { is_shutdown = a.is_shutdown || token_ok })
      × is_ok (shutdown token_ok n).1 ≡ (a.is_shutdown || token_ok)
unfolding shutdown
shutdown-Represents token_ok n a w = (
  record {
    is_shutdown = ground (arith, w.is_shutdown);
    pubs = λ j. ap (find j) (pubs-shutdown token_ok n) ∙ w.pubs j;
    subs = λ j. ap (find j) (subs-shutdown token_ok n) ∙ w.subs j;
    services = λ j. ap (find j) (services-shutdown token_ok n) ∙ w.services j;
    clients = λ j. ap (find j) (clients-shutdown token_ok n) ∙ w.clients j;
  },
  ground (arith, w.is_shutdown),
)

-- A call does to the node what it does to the functions, and answers the same.
step-Represents :
    (c : Call) (n : NodeData) (a : AbstractNode)
    → Represents n a
    → Represents (step c n).0 (abstract_step c a).0 × (step c n).1 ≡ (abstract_step c a).1
unfolding step abstract_step create_pub_data delete_pub_data create_sub_data delete_sub_data
    create_service_data delete_service_data create_client_data delete_client_data
step-Represents (Call.create_pub k made) n a w =
    let (entries, created) =
      create_entry_lem n.is_shutdown a.is_shutdown k made n.pubs a.pubs w.is_shutdown w.pubs in
    (
      record {
        is_shutdown = w.is_shutdown;
        pubs = entries;
        subs = w.subs;
        services = w.services;
        clients = w.clients;
      },
      created,
    )
step-Represents (Call.delete_pub k) n a w = (
  record {
    is_shutdown = w.is_shutdown;
    pubs = λ j. find-erase_entry k n.pubs a.pubs j (w.pubs j);
    subs = w.subs;
    services = w.services;
    clients = w.clients;
  },
  refl,
)
step-Represents (Call.create_sub k made) n a w =
    let (entries, created) =
      create_entry_lem n.is_shutdown a.is_shutdown k made n.subs a.subs w.is_shutdown w.subs in
    (
      record {
        is_shutdown = w.is_shutdown;
        pubs = w.pubs;
        subs = entries;
        services = w.services;
        clients = w.clients;
      },
      created,
    )
step-Represents (Call.delete_sub k) n a w = (
  record {
    is_shutdown = w.is_shutdown;
    pubs = w.pubs;
    subs = λ j. find-erase_entry k n.subs a.subs j (w.subs j);
    services = w.services;
    clients = w.clients;
  },
  refl,
)
step-Represents (Call.create_service k made) n a w =
    let (entries, created) =
      create_entry_lem n.is_shutdown a.is_shutdown k made n.services a.services w.is_shutdown
        w.services in
    (
      record {
        is_shutdown = w.is_shutdown;
        pubs = w.pubs;
        subs = w.subs;
        services = entries;
        clients = w.clients;
      },
      created,
    )
step-Represents (Call.delete_service k) n a w = (
  record {
    is_shutdown = w.is_shutdown;
    pubs = w.pubs;
    subs = w.subs;
    services = λ j. find-erase_entry k n.services a.services j (w.services j);
    clients = w.clients;
  },
  refl,
)
step-Represents (Call.create_client k made) n a w =
    let (entries, created) =
      create_entry_lem n.is_shutdown a.is_shutdown k made n.clients a.clients w.is_shutdown
        w.clients in
    (
      record {
        is_shutdown = w.is_shutdown;
        pubs = w.pubs;
        subs = w.subs;
        services = w.services;
        clients = entries;
      },
      created,
    )
step-Represents (Call.delete_client k) n a w = (
  record {
    is_shutdown = w.is_shutdown;
    pubs = w.pubs;
    subs = w.subs;
    services = w.services;
    clients = λ j. find-erase_entry k n.clients a.clients j (w.clients j);
  },
  refl,
)
step-Represents (Call.shut_down token_ok) n a w = shutdown-Represents token_ok n a w

-- After any calls, a node holds what the functions hold, and every call has answered the same.
pub run-Represents :
    (cs : List Call) (n : NodeData) (a : AbstractNode)
    → Represents n a
    → Represents (run cs n).0 (abstract_run cs a).0 × (run cs n).1 ≡ (abstract_run cs a).1
unfolding run abstract_run
run-Represents [] n a w = (w, refl)
run-Represents (c ∷ cs) n a w =
    let (w1, b) = step-Represents c n a w in
    let (w2, bs) = run-Represents cs (step c n).0 (abstract_step c a).0 w1 in (w2, cc)

make_node-Represents :
    (id : ℕ) (made : Option Entity) (token_ok : Bool) (n : NodeData)
    → make_node id made token_ok ≡ some n
    → Represents n empty_node
unfolding make_node find
make_node-Represents id none token_ok n e = ground (arith, e)
make_node-Represents id (some entity) false n e = ground (arith, e)
make_node-Represents id (some entity) true n e =
    let made_node : NodeData = record {
      id = id;
      entity = entity;
      token_declared = true;
      is_shutdown = false;
      pubs = [];
      subs = [];
      services = [];
      clients = [];
    } in
    let same : made_node ≡ n = ground (arith, e) in
    subst (λ m. Represents m empty_node) same
      (record {
        is_shutdown = refl;
        pubs = λ _. refl;
        subs = λ _. refl;
        services = λ _. refl;
        clients = λ _. refl;
      })

-- After any calls on a node that has been made, each map holds for every pointer what four functions
-- hold that start without an entry, and every call has answered the same. In these functions an entry is
-- only created in a node that is not shut down, where there is none, from an endpoint that could be made.
pub make_node-run :
    (cs : List Call) (id : ℕ) (made : Option Entity) (token_ok : Bool) (n : NodeData)
    → make_node id made token_ok ≡ some n
    → Represents (run cs n).0 (abstract_run cs empty_node).0
      × (run cs n).1 ≡ (abstract_run cs empty_node).1
make_node-run cs id made token_ok n e =
    run-Represents cs n empty_node (make_node-Represents id made token_ok n e)
