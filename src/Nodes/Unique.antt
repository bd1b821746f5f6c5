-- ===== src/Nodes/Unique.antt =====
-- The keys of the maps of a node: detail/rmw_node_data.cpp.
use rmw_zenoh.Common.{
  ℕ, sym, subst, Bool, true, false, List, [], ◌∷◌, Option, none, some, arith, nat_eq, Option-cases,
  inl, inr,
}
use rmw_zenoh.Common.Map.{find}
use rmw_zenoh.Common.Map.Unique.{IsUnique, append-IsUnique, erase-IsUnique}
use rmw_zenoh.Nodes.{
  NodeData, create_entry, create_pub_data, delete_pub_data, create_sub_data, delete_sub_data,
  create_service_data, delete_service_data, create_client_data, delete_client_data,
}
use rmw_zenoh.Nodes.Run.{
  Call, step, run, pubs-shutdown, subs-shutdown, services-shutdown, clients-shutdown,
}

-- Each map has one entry for a pointer.
abbrev pub IsUniqueNode : NodeData → Type 0
IsUniqueNode n = IsUnique n.pubs × (IsUnique n.subs × (IsUnique n.services × IsUnique n.clients))

create_entry-IsUnique :
    {D : Type 0} (b : Bool) (k : ℕ) (made : Option D) (m : List (ℕ × D))
    → IsUnique m
    → IsUnique (create_entry b k made m).0
unfolding create_entry
create_entry-IsUnique true k made m u = u
create_entry-IsUnique false k none m u = elim (Option-cases (find k m)) [
  | inl a ↦ subst IsUnique (ground (arith, a)) u
  | inr (d, a) ↦ subst IsUnique (ground (arith, a)) u
]
create_entry-IsUnique false k (some d) m u = elim (Option-cases (find k m)) [
  | inl a ↦ subst IsUnique (ground (arith, a)) (append-IsUnique k d m a u)
  | inr (d', a) ↦ subst IsUnique (ground (arith, a)) u
]

step-IsUnique : (c : Call) (n : NodeData) → IsUniqueNode n → IsUniqueNode (step c n).0
unfolding step create_pub_data delete_pub_data create_sub_data delete_sub_data create_service_data
    delete_service_data create_client_data delete_client_data
step-IsUnique (Call.create_pub k made) n (p, (s, (v, c))) =
    (create_entry-IsUnique n.is_shutdown k made n.pubs p, (s, (v, c)))
step-IsUnique (Call.delete_pub k) n (p, (s, (v, c))) = (erase-IsUnique k n.pubs p, (s, (v, c)))
step-IsUnique (Call.create_sub k made) n (p, (s, (v, c))) =
    (p, (create_entry-IsUnique n.is_shutdown k made n.subs s, (v, c)))
step-IsUnique (Call.delete_sub k) n (p, (s, (v, c))) = (p, (erase-IsUnique k n.subs s, (v, c)))
step-IsUnique (Call.create_service k made) n (p, (s, (v, c))) =
    (p, (s, (create_entry-IsUnique n.is_shutdown k made n.services v, c)))
step-IsUnique (Call.delete_service k) n (p, (s, (v, c))) =
    (p, (s, (erase-IsUnique k n.services v, c)))
step-IsUnique (Call.create_client k made) n (p, (s, (v, c))) =
    (p, (s, (v, create_entry-IsUnique n.is_shutdown k made n.clients c)))
step-IsUnique (Call.delete_client k) n (p, (s, (v, c))) =
    (p, (s, (v, erase-IsUnique k n.clients c)))
step-IsUnique (Call.shut_down token_ok) n (p, (s, (v, c))) = (
  subst IsUnique (sym (pubs-shutdown token_ok n)) p,
  (
    subst IsUnique (sym (subs-shutdown token_ok n)) s,
    (
      subst IsUnique (sym (services-shutdown token_ok n)) v,
      subst IsUnique (sym (clients-shutdown token_ok n)) c,
    ),
  ),
)

-- Calls leave each map with one entry for a pointer.
pub run-IsUnique : (cs : List Call) (n : NodeData) → IsUniqueNode n → IsUniqueNode (run cs n).0
unfolding run
run-IsUnique [] n u = u
run-IsUnique (c ∷ cs) n u = run-IsUnique cs (step c n).0 (step-IsUnique c n u)
