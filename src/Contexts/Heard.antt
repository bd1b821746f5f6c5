-- ===== src/Contexts/Heard.antt =====
-- What single calls of detail/rmw_context_impl_s.cpp do to the graph cache, by the tokens that they bring.
use rmw_zenoh.Common.{
  Bool, not, refl, ap, sym, ◌∙◌, ◌++◌, ◌≡◌, true, false, List, [], ◌∷◌, Option, none, some, arith,
  nat_eq, Option-cases, Bool-cases, inl, inr, ℕ,
}
use rmw_zenoh.Common.Text.{Bytes}
use rmw_zenoh.Common.Map.{find}
use rmw_zenoh.Qos.{Rmw}
use rmw_zenoh.Liveliness.Gid.{Hashes}
use rmw_zenoh.Graph.Nodes.{GraphCache, parse_put, parse_del}
use rmw_zenoh.Contexts.{
  Context, put_replies, shutdown, get_next_entity_id, create_node_data, insert_node, make_next_node,
  delete_node_data, SampleKind, graph_changed, update_graph_cache,
}
use rmw_zenoh.Contexts.Numbers.{Call, next_id, create, remove, sample, shut_down, step, run}

-- What a context hears: tokens that appear, with the flag to leave those of its own session aside, and
-- tokens that go.
pub data Heard : Type 0 where
  appeared : Bool → Bytes → Heard
  gone : Bytes → Heard

-- The tokens that the session knew before.
abbrev pub heard_before : List (Option Bytes) → List Heard
heard_before [] = []
heard_before (none ∷ replies) = heard_before replies
heard_before (some keyexpr ∷ replies) = appeared true keyexpr ∷ heard_before replies

-- The samples up to the first shutdown that succeeds.
abbrev pub heard : List Call → List Heard
heard [] = []
heard (sample SampleKind.put keyexpr ∷ xs) = appeared false keyexpr ∷ heard xs
heard (sample SampleKind.delete keyexpr ∷ xs) = gone keyexpr ∷ heard xs
heard (shut_down true ∷ xs) = []
heard (_ ∷ xs) = heard xs

module _ (r : Rmw) (h : Hashes) where
  abbrev pub hear : Heard → GraphCache → Option GraphCache
  hear (appeared ignore keyexpr) c = parse_put r h keyexpr ignore c
  hear (gone keyexpr) c = parse_del r h keyexpr false c

  abbrev pub hear_all : List Heard → GraphCache → Option GraphCache
  hear_all [] c = some c
  hear_all (x ∷ xs) c = elim (hear x c) [ none ↦ none | some c' ↦ hear_all xs c' ]

  pub hear_all-append :
      (xs ys : List Heard) (c c' : GraphCache)
      → hear_all xs c ≡ some c'
      → hear_all (xs ++ ys) c ≡ hear_all ys c'
  hear_all-append [] ys c c' e = ap (hear_all ys) (ground (arith, e))
  hear_all-append (x ∷ xs) ys c c' e = elim (Option-cases (hear x c)) [
    | inl a ↦ ground (arith, a, e)
    | inr (c1, a) ↦ ground (arith, a, hear_all-append xs ys c1 c' (ground (arith, a, e)))
  ]

  pub put_replies-hear :
      (replies : List (Option Bytes)) (c : GraphCache)
      → put_replies r h replies c ≡ hear_all (heard_before replies) c
  unfolding put_replies
  put_replies-hear [] c = refl
  put_replies-hear (none ∷ replies) c = put_replies-hear replies c
  put_replies-hear (some keyexpr ∷ replies) c = elim (Option-cases (parse_put r h keyexpr true c)) [
    | inl a ↦ ground (arith, a)
    | inr (c1, a) ↦ ground (arith, a, put_replies-hear replies c1)
  ]

  graph_cache-create :
      (closed token_ok : Bool) (node : ℕ) (ns name : Bytes) (c c' : Context)
      → step r h (create closed token_ok node ns name) c ≡ some c'
      → c.graph_cache ≡ c'.graph_cache
  unfolding step create_node_data insert_node get_next_entity_id
  graph_cache-create closed token_ok node ns name c c' e = elim (Option-cases (find node c.nodes)) [
    | inr (_, f) ↦ ground (arith, e, f)
    | inl f ↦ elim (Option-cases c.session) [
      | inl s ↦ ground (arith, e, f, s)
      | inr (z, s) ↦ elim (Bool-cases closed) [
        | inl t ↦ ground (arith, e, f, s, t)
        | inr t ↦ elim (Option-cases (make_next_node r h token_ok z ns name c)) [
          | inl m ↦ ground (arith, e, f, s, t, m)
          | inr (n, m) ↦ ground (arith, e, f, s, t, m)
        ]
      ]
    ]
  ]

  shutdown-create :
      (closed token_ok : Bool) (node : ℕ) (ns name : Bytes) (c c' : Context)
      → step r h (create closed token_ok node ns name) c ≡ some c'
      → c.is_shutdown ≡ c'.is_shutdown
  unfolding step create_node_data insert_node get_next_entity_id
  shutdown-create closed token_ok node ns name c c' e = elim (Option-cases (find node c.nodes)) [
    | inr (_, f) ↦ ground (arith, e, f)
    | inl f ↦ elim (Option-cases c.session) [
      | inl s ↦ ground (arith, e, f, s)
      | inr (z, s) ↦ elim (Bool-cases closed) [
        | inl t ↦ ground (arith, e, f, s, t)
        | inr t ↦ elim (Option-cases (make_next_node r h token_ok z ns name c)) [
          | inl m ↦ ground (arith, e, f, s, t, m)
          | inr (n, m) ↦ ground (arith, e, f, s, t, m)
        ]
      ]
    ]
  ]

  -- A call after the shutdown leaves the cache alone, and the context shut down.
  step_down :
      (x : Call) (c c' : Context)
      → c.is_shutdown ≡ true
      → step r h x c ≡ some c'
      → (c'.is_shutdown ≡ true) × (c.graph_cache ≡ c'.graph_cache)
  unfolding step update_graph_cache get_next_entity_id delete_node_data shutdown
  step_down (create closed token_ok node ns name) c c' d e = (
    sym (shutdown-create closed token_ok node ns name c c' e) ∙ d,
    graph_cache-create closed token_ok node ns name c c' e,
  )
  step_down next_id c c' d e = (ground (arith, d, e), ground (arith, d, e))
  step_down (remove node) c c' d e = (ground (arith, d, e), ground (arith, d, e))
  step_down (shut_down undeclared) c c' d e = (ground (arith, d, e), ground (arith, d, e))
  step_down (sample kind keystr) c c' d e = (ground (arith, d, e), ground (arith, d, e))

  pub run_down :
      (xs : List Call) (c c' : Context)
      → c.is_shutdown ≡ true
      → run r h xs c ≡ some c'
      → c.graph_cache ≡ c'.graph_cache
  unfolding run
  run_down [] c c' d e = ground (arith, e)
  run_down (x ∷ xs) c c' d e = elim (Option-cases (step r h x c)) [
    | inl a ↦ ground (arith, a, e)
    | inr (c1, a) ↦
        let (d1, same) = step_down x c c1 d a in same ∙ run_down xs c1 c' d1 (ground (arith, a, e))
  ]

  -- A call that brings no token, before the shutdown.
  abbrev pub is_quiet : Call → Bool
  is_quiet (sample SampleKind.other keyexpr) = true
  is_quiet (sample _ keyexpr) = false
  is_quiet (shut_down undeclared) = not undeclared
  is_quiet _ = true

  pub step_quiet :
      (x : Call) (c c' : Context)
      → is_quiet x ≡ true
      → c.is_shutdown ≡ false
      → step r h x c ≡ some c'
      → (c'.is_shutdown ≡ false) × (c.graph_cache ≡ c'.graph_cache)
  unfolding step update_graph_cache get_next_entity_id delete_node_data shutdown
  step_quiet (create closed token_ok node ns name) c c' q u e = (
    sym (shutdown-create closed token_ok node ns name c c' e) ∙ u,
    graph_cache-create closed token_ok node ns name c c' e,
  )
  step_quiet next_id c c' q u e = (ground (arith, u, e), ground (arith, u, e))
  step_quiet (remove node) c c' q u e = (ground (arith, u, e), ground (arith, u, e))
  step_quiet (shut_down undeclared) c c' q u e = (ground (arith, q, u, e), ground (arith, q, u, e))
  step_quiet (sample SampleKind.other keystr) c c' q u e =
      (ground (arith, u, e), ground (arith, u, e))
  step_quiet (sample SampleKind.put keystr) c c' q u e = ground (arith, q)
  step_quiet (sample SampleKind.delete keystr) c c' q u e = ground (arith, q)

  pub step_shut :
      (c c' : Context)
      → step r h (shut_down true) c ≡ some c'
      → (c'.is_shutdown ≡ true) × (c.graph_cache ≡ c'.graph_cache)
  unfolding step shutdown
  step_shut c c' e = (ground (arith, e), ground (arith, e))

  pub step_sample :
      (kind : SampleKind) (keystr : Bytes) (c c' : Context)
      → c.is_shutdown ≡ false
      → step r h (sample kind keystr) c ≡ some c'
      → (c'.is_shutdown ≡ false)
        × (hear_all (heard (sample kind keystr ∷ [])) c.graph_cache ≡ some c'.graph_cache)
  unfolding step update_graph_cache graph_changed
  step_sample SampleKind.put keystr c c' u e =
      elim (Option-cases (parse_put r h keystr false c.graph_cache)) [
        | inl a ↦ ground (arith, u, e, a)
        | inr (g, a) ↦ (ground (arith, u, e, a), ground (arith, u, e, a))
      ]
  step_sample SampleKind.delete keystr c c' u e =
      elim (Option-cases (parse_del r h keystr false c.graph_cache)) [
        | inl a ↦ ground (arith, u, e, a)
        | inr (g, a) ↦ (ground (arith, u, e, a), ground (arith, u, e, a))
      ]
  step_sample SampleKind.other keystr c c' u e = (ground (arith, u, e), ground (arith, u, e))
