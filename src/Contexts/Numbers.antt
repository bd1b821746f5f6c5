-- ===== src/Contexts/Numbers.antt =====
-- The calls of a context in a sequence, and the numbers that they give out: the methods of
-- detail/rmw_context_impl_s.cpp.
use rmw_zenoh.Common.{
  ℕ, suc, ◌+◌, ◌%◌, ◌^◌, ◌≤◌, ◌<◌, ◌≡◌, refl, sym, subst, Bool, false, List, [], ◌∷◌, Option, none,
  some, arith, nat_eq, ◌==◌, Option-cases, Bool-cases, inl, inr, length, if-branches,
}
use rmw_zenoh.Common.Text.{Bytes}
use rmw_zenoh.Common.Map.{find, append, erase}
use rmw_zenoh.Qos.{Rmw}
use rmw_zenoh.Liveliness.Gid.{Hashes}
use rmw_zenoh.Liveliness.Entity.{Entity}
use rmw_zenoh.Graph.Nodes.{parse_put, parse_del}
use rmw_zenoh.Nodes.{NodeData, make_node}
use rmw_zenoh.Contexts.{
  Context, shutdown, get_next_entity_id, create_node_data, insert_node, make_next_node,
  delete_node_data, SampleKind, graph_changed, update_graph_cache,
}

pub data Call : Type 0 where
  next_id : Call
  create : Bool → Bool → ℕ → Bytes → Bytes → Call
  remove : ℕ → Call
  sample : SampleKind → Bytes → Call
  shut_down : Bool → Call

module _ (r : Rmw) (h : Hashes) where
  -- A call, as far as it changes the context.
  unfoldable pub step : Call → Context → Option Context
  step next_id c = some (get_next_entity_id c).0
  step (create closed token_ok node ns name) c =
      elim (create_node_data r h closed token_ok node ns name c) [
        | none ↦ none
        | some (c', _) ↦ some c'
      ]
  step (remove node) c = some (delete_node_data node c)
  step (sample kind keystr) c = elim (update_graph_cache r h kind keystr c) [
    | none ↦ none
    | some (c', _) ↦ some c'
  ]
  step (shut_down undeclared) c = some (shutdown undeclared c).0

  unfoldable pub run : List Call → Context → Option Context
  run [] c = some c
  run (x ∷ xs) c = elim (step x c) [ none ↦ none | some c' ↦ run xs c' ]

-- The numbers of the nodes increase, from the first bound on and below the second.
abbrev pub Increases : ℕ → ℕ → List (ℕ × NodeData) → Type 0
Increases low high [] = low ≤ high
Increases low high ((_, n) ∷ m) = low ≤ n.id × Increases (suc n.id) high m

abbrev pub IsNumbered : Context → Type 0
IsNumbered c = Increases 0 c.next_entity_id c.nodes

lower :
    (low low' high : ℕ) (m : List (ℕ × NodeData))
    → low' ≤ low
    → Increases low high m
    → Increases low' high m
lower low low' high [] l u = omega arith
lower low low' high ((k, n) ∷ m) l (a, u) = (omega arith, u)

raise :
    (low high high' : ℕ) (m : List (ℕ × NodeData))
    → high ≤ high'
    → Increases low high m
    → Increases low high' m
raise low high high' [] l u = omega arith
raise low high high' ((k, n) ∷ m) l (a, u) = (a, raise (suc n.id) high high' m l u)

append-Increases :
    (low high k : ℕ) (n : NodeData) (m : List (ℕ × NodeData))
    → n.id ≡ high
    → Increases low high m
    → Increases low (suc high) (append k n m)
append-Increases low high k n [] e u = (omega arith, omega arith)
append-Increases low high k n ((j, x) ∷ m) e (a, u) =
    (a, append-Increases (suc x.id) high k n m e u)

erase-Increases :
    (low high k : ℕ) (m : List (ℕ × NodeData))
    → Increases low high m
    → Increases low high (erase k m)
unfolding erase
erase-Increases low high k [] u = u
erase-Increases low high k ((j, x) ∷ m) (a, u) =
    if-branches (Increases low high) (k == j) (erase k m) ((j, x) ∷ erase k m)
      (λ _.
        lower (suc x.id) low high (erase k m) (omega arith) (erase-Increases (suc x.id) high k m u))
      (λ _. (a, erase-Increases (suc x.id) high k m u))

id-make_node :
    (id : ℕ) (e : Option Entity) (token_ok : Bool) (n : NodeData)
    → make_node id e token_ok ≡ some n
    → n.id ≡ id
unfolding make_node
id-make_node id none token_ok n e = ground (arith, e)
id-make_node id (some entity) token_ok n e = ground (arith, e)

-- A call gives out one number at most, and keeps the numbers of the nodes apart.
abbrev Advances : Context → Context → Type 0
Advances c c' = IsNumbered c' × c'.next_entity_id ≤ suc c.next_entity_id

moved : (c c1 c' : Context) → c1 ≡ c' → Advances c c1 → Advances c c'
moved c c1 c' e a = subst (Advances c) e a

kept :
    (c c' : Context)
    → c.nodes ≡ c'.nodes
    → c.next_entity_id ≡ c'.next_entity_id
    → IsNumbered c
    → Advances c c'
kept c c' e n u = (
  subst (λ m. Increases 0 c'.next_entity_id m) e (subst (λ high. Increases 0 high c.nodes) n u),
  omega (arith, n),
)

next_entity_id-Advances :
    (c : Context)
    → suc c.next_entity_id < 2 ^ 64
    → IsNumbered c
    → Advances c (get_next_entity_id c).0
unfolding get_next_entity_id
next_entity_id-Advances c b u =
    let same : (c.next_entity_id + 1) % 2 ^ 64 ≡ suc c.next_entity_id = omega (arith, b) in
    subst (λ high. Increases 0 high c.nodes × high ≤ suc c.next_entity_id) (sym same)
      (raise 0 c.next_entity_id (suc c.next_entity_id) c.nodes (omega arith) u, omega arith)

insert_node-Advances :
    (c : Context) (node : ℕ) (made : Option NodeData)
    → suc c.next_entity_id < 2 ^ 64
    → IsNumbered c
    → ((n : NodeData) → made ≡ some n → n.id ≡ c.next_entity_id)
    → Advances c (insert_node node made (get_next_entity_id c).0).0
unfolding insert_node get_next_entity_id
insert_node-Advances c node none b u ids = next_entity_id-Advances c b u
insert_node-Advances c node (some n) b u ids =
    let same : (c.next_entity_id + 1) % 2 ^ 64 ≡ suc c.next_entity_id = omega (arith, b) in
    subst (λ high. Increases 0 high (append node n c.nodes) × high ≤ suc c.next_entity_id)
      (sym same) (append-Increases 0 c.next_entity_id node n c.nodes (ids n refl) u, omega arith)

module _ (r : Rmw) (h : Hashes) where
  id-make_next_node :
      (token_ok : Bool) (zid ns name : Bytes) (c : Context) (n : NodeData)
      → make_next_node r h token_ok zid ns name c ≡ some n
      → n.id ≡ c.next_entity_id
  unfolding make_next_node
  id-make_next_node token_ok zid ns name c n e = id-make_node c.next_entity_id _ token_ok n e

  create-Advances :
      (closed token_ok : Bool) (node : ℕ) (ns name : Bytes) (c c' : Context)
      → suc c.next_entity_id < 2 ^ 64
      → IsNumbered c
      → step r h (create closed token_ok node ns name) c ≡ some c'
      → Advances c c'
  unfolding step create_node_data
  create-Advances closed token_ok node ns name c c' b u e =
      elim (Option-cases (find node c.nodes)) [
        | inr (_, f) ↦ kept c c' (ground (arith, e, f)) (ground (arith, e, f)) u
        | inl f ↦ elim (Option-cases c.session) [
          | inl s ↦ ground (arith, e, f, s)
          | inr (zid, s) ↦ elim (Bool-cases closed) [
            | inl t ↦ kept c c' (ground (arith, e, f, s, t)) (ground (arith, e, f, s, t)) u
            | inr t ↦
                moved c
                  (insert_node node (make_next_node r h token_ok zid ns name c)
                    (get_next_entity_id c).0).0
                  c' (ground (arith, e, f, s, t))
                  (insert_node-Advances c node (make_next_node r h token_ok zid ns name c) b u
                    (id-make_next_node token_ok zid ns name c))
          ]
        ]
      ]

  sample-Advances :
      (kind : SampleKind) (keystr : Bytes) (c c' : Context)
      → IsNumbered c
      → step r h (sample kind keystr) c ≡ some c'
      → Advances c c'
  unfolding step update_graph_cache graph_changed
  sample-Advances SampleKind.put keystr c c' u e = elim (Bool-cases c.is_shutdown) [
    | inl t ↦ kept c c' (ground (arith, e, t)) (ground (arith, e, t)) u
    | inr t ↦ elim (Option-cases (parse_put r h keystr false c.graph_cache)) [
      | inl a ↦ ground (arith, e, t, a)
      | inr (g, a) ↦ kept c c' (ground (arith, e, t, a)) (ground (arith, e, t, a)) u
    ]
  ]
  sample-Advances SampleKind.delete keystr c c' u e = elim (Bool-cases c.is_shutdown) [
    | inl t ↦ kept c c' (ground (arith, e, t)) (ground (arith, e, t)) u
    | inr t ↦ elim (Option-cases (parse_del r h keystr false c.graph_cache)) [
      | inl a ↦ ground (arith, e, t, a)
      | inr (g, a) ↦ kept c c' (ground (arith, e, t, a)) (ground (arith, e, t, a)) u
    ]
  ]
  sample-Advances SampleKind.other keystr c c' u e = elim (Bool-cases c.is_shutdown) [
    | inl t ↦ kept c c' (ground (arith, e, t)) (ground (arith, e, t)) u
    | inr t ↦ kept c c' (ground (arith, e, t)) (ground (arith, e, t)) u
  ]

  shut_down-Advances :
      (undeclared : Bool) (c : Context) → IsNumbered c → Advances c (shutdown undeclared c).0
  unfolding shutdown
  shut_down-Advances undeclared c u =
      kept c (shutdown undeclared c).0 (ground arith) (ground arith) u

  step-Advances :
      (x : Call) (c c' : Context)
      → suc c.next_entity_id < 2 ^ 64
      → IsNumbered c
      → step r h x c ≡ some c'
      → Advances c c'
  unfolding step delete_node_data
  step-Advances next_id c c' b u e =
      moved c (get_next_entity_id c).0 c' (ground (arith, e)) (next_entity_id-Advances c b u)
  step-Advances (create closed token_ok node ns name) c c' b u e =
      create-Advances closed token_ok node ns name c c' b u e
  step-Advances (remove node) c c' b u e =
      moved c (delete_node_data node c) c' (ground (arith, e))
        (erase-Increases 0 c.next_entity_id node c.nodes u, omega arith)
  step-Advances (sample kind keystr) c c' b u e = sample-Advances kind keystr c c' u e
  step-Advances (shut_down undeclared) c c' b u e =
      moved c (shutdown undeclared c).0 c' (ground (arith, e)) (shut_down-Advances undeclared c u)

  -- Until 2 ^ 64 calls are made, the nodes of a context have different numbers.
  pub run-IsNumbered :
      (xs : List Call) (c c' : Context)
      → c.next_entity_id + length xs < 2 ^ 64
      → IsNumbered c
      → run r h xs c ≡ some c'
      → IsNumbered c'
  unfolding run
  run-IsNumbered [] c c' b u e = subst IsNumbered (let same : c ≡ c' = ground (arith, e) in same) u
  run-IsNumbered (x ∷ xs) c c' b u e = elim (Option-cases (step r h x c)) [
    | inl a ↦ ground (arith, a, e)
    | inr (c1, a) ↦
        let (u1, n1) = step-Advances x c c1 (omega arith) u a in
        run-IsNumbered xs c1 c' (omega (arith, n1, b)) u1 (ground (arith, a, e))
  ]
