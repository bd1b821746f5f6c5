-- ===== src/Contexts/Discovery.antt =====
-- The graph cache of a context: the constructor and update_graph_cache of
-- detail/rmw_context_impl_s.cpp.
use rmw_zenoh.Common.{
  refl, ap, sym, ◌∙◌, ◌++◌, ◌≡◌, subst, true, false, List, [], ◌∷◌, Option, some, arith, nat_eq,
  Option-cases, inl, inr, ℕ,
}
use rmw_zenoh.Common.Text.{Bytes}
use rmw_zenoh.Qos.{Rmw}
use rmw_zenoh.Liveliness.Gid.{Hashes}
use rmw_zenoh.Graph.Nodes.{GraphCache, new_cache, parse_put, parse_del}
use rmw_zenoh.Graph.Nodes.Reach.{Reach, start, put, del}
use rmw_zenoh.Contexts.{Context, put_replies, make_context, SampleKind}
use rmw_zenoh.Contexts.Numbers.{Call, next_id, create, remove, sample, shut_down, step, run}
use rmw_zenoh.Contexts.Heard.{
  Heard, appeared, gone, heard_before, heard, hear_all, hear_all-append, put_replies-hear, run_down,
  step_quiet, step_shut, step_sample,
}

module _ (r : Rmw) (h : Hashes) where
  run-hear :
      (xs : List Call) (c c' : Context)
      → c.is_shutdown ≡ false
      → run r h xs c ≡ some c'
      → hear_all r h (heard xs) c.graph_cache ≡ some c'.graph_cache
  unfolding run
  run-hear [] c c' u e = ground (arith, e)
  run-hear (next_id ∷ xs) c c' u e = elim (Option-cases (step r h (next_id) c)) [
    | inl a ↦ ground (arith, a, e)
    | inr (c1, a) ↦
        let (u1, same) = step_quiet r h (next_id) c c1 refl u a in
        ap (hear_all r h (heard xs)) same ∙ run-hear xs c1 c' u1 (ground (arith, a, e))
  ]
  run-hear ((create closed token_ok node ns name) ∷ xs) c c' u e =
      elim (Option-cases (step r h (create closed token_ok node ns name) c)) [
        | inl a ↦ ground (arith, a, e)
        | inr (c1, a) ↦
            let (u1, same) = step_quiet r h (create closed token_ok node ns name) c c1 refl u a in
            ap (hear_all r h (heard xs)) same ∙ run-hear xs c1 c' u1 (ground (arith, a, e))
      ]
  run-hear ((remove node) ∷ xs) c c' u e = elim (Option-cases (step r h (remove node) c)) [
    | inl a ↦ ground (arith, a, e)
    | inr (c1, a) ↦
        let (u1, same) = step_quiet r h (remove node) c c1 refl u a in
        ap (hear_all r h (heard xs)) same ∙ run-hear xs c1 c' u1 (ground (arith, a, e))
  ]
  run-hear ((shut_down false) ∷ xs) c c' u e = elim (Option-cases (step r h (shut_down false) c)) [
    | inl a ↦ ground (arith, a, e)
    | inr (c1, a) ↦
        let (u1, same) = step_quiet r h (shut_down false) c c1 refl u a in
        ap (hear_all r h (heard xs)) same ∙ run-hear xs c1 c' u1 (ground (arith, a, e))
  ]
  run-hear ((sample SampleKind.other keystr) ∷ xs) c c' u e =
      elim (Option-cases (step r h (sample SampleKind.other keystr) c)) [
        | inl a ↦ ground (arith, a, e)
        | inr (c1, a) ↦
            let (u1, same) = step_quiet r h (sample SampleKind.other keystr) c c1 refl u a in
            ap (hear_all r h (heard xs)) same ∙ run-hear xs c1 c' u1 (ground (arith, a, e))
      ]
  run-hear ((shut_down true) ∷ xs) c c' u e = elim (Option-cases (step r h (shut_down true) c)) [
    | inl a ↦ ground (arith, a, e)
    | inr (c1, a) ↦
        let (d, same) = step_shut r h c c1 a in
        ap some (same ∙ run_down r h xs c1 c' d (ground (arith, a, e)))
  ]
  run-hear ((sample SampleKind.put keystr) ∷ xs) c c' u e =
      elim (Option-cases (step r h (sample SampleKind.put keystr) c)) [
        | inl a ↦ ground (arith, a, e)
        | inr (c1, a) ↦
            let (u1, hears) = step_sample r h SampleKind.put keystr c c1 u a in
            hear_all-append r h (heard (sample SampleKind.put keystr ∷ [])) (heard xs) c.graph_cache
              c1.graph_cache hears
            ∙ run-hear xs c1 c' u1 (ground (arith, a, e))
      ]
  run-hear ((sample SampleKind.delete keystr) ∷ xs) c c' u e =
      elim (Option-cases (step r h (sample SampleKind.delete keystr) c)) [
        | inl a ↦ ground (arith, a, e)
        | inr (c1, a) ↦
            let (u1, hears) = step_sample r h SampleKind.delete keystr c c1 u a in
            hear_all-append r h (heard (sample SampleKind.delete keystr ∷ [])) (heard xs)
              c.graph_cache c1.graph_cache hears
            ∙ run-hear xs c1 c' u1 (ground (arith, a, e))
      ]

  made-hear :
      (domain_id : ℕ) (enclave zid : Bytes) (replies : List (Option Bytes)) (c : Context)
      → make_context r h domain_id enclave zid replies ≡ some c
      → (hear_all r h (heard_before replies) (new_cache zid) ≡ some c.graph_cache)
        × (c.is_shutdown ≡ false)
  unfolding make_context
  made-hear domain_id enclave zid replies c e =
      elim (Option-cases (put_replies r h replies (new_cache zid))) [
        | inl a ↦ ground (arith, a, e)
        | inr (g, a) ↦ (
          sym (put_replies-hear r h replies (new_cache zid)) ∙ ground (arith, a, e),
          ground (arith, a, e),
        )
      ]

  hear_all-Reach :
      (zid : Bytes) (xs : List Heard) (c c' : GraphCache)
      → Reach r h zid c
      → hear_all r h xs c ≡ some c'
      → Reach r h zid c'
  hear_all-Reach zid [] c c' s e =
      subst (Reach r h zid) (let same : c ≡ c' = ground (arith, e) in same) s
  hear_all-Reach zid (appeared ignore keyexpr ∷ xs) c c' s e =
      elim (Option-cases (parse_put r h keyexpr ignore c)) [
        | inl a ↦ ground (arith, a, e)
        | inr (c1, a) ↦
            hear_all-Reach zid xs c1 c' (put c c1 keyexpr ignore s a) (ground (arith, a, e))
      ]
  hear_all-Reach zid (gone keyexpr ∷ xs) c c' s e =
      elim (Option-cases (parse_del r h keyexpr false c)) [
        | inl a ↦ ground (arith, a, e)
        | inr (c1, a) ↦
            hear_all-Reach zid xs c1 c' (del c c1 keyexpr false s a) (ground (arith, a, e))
      ]

  -- After any calls on a context that has been constructed, without an exception, its graph cache is the
  -- empty one after the tokens that it heard, in their order: those that the session knew before, which
  -- are not of its own session, and then, up to the shutdown, each token that appears is put and each
  -- that goes is deleted. So it is a cache that the session can reach.
  pub make_context-hears :
      (domain_id : ℕ) (enclave zid : Bytes) (replies : List (Option Bytes)) (xs : List Call)
      (c c' : Context)
      → make_context r h domain_id enclave zid replies ≡ some c
      → run r h xs c ≡ some c'
      → hear_all r h (heard_before replies ++ heard xs) (new_cache zid) ≡ some c'.graph_cache
        × Reach r h zid c'.graph_cache
  make_context-hears domain_id enclave zid replies xs c c' m e =
      let (before, up) = made-hear domain_id enclave zid replies c m in
      let hears =
        hear_all-append r h (heard_before replies) (heard xs) (new_cache zid) c.graph_cache before
        ∙ run-hear xs c c' up e in
      (
        hears,
        hear_all-Reach zid (heard_before replies ++ heard xs) (new_cache zid) c'.graph_cache start
            hears,
      )
