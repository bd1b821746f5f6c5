-- ===== src/Graph/Events/Totals.antt =====
-- No change of a matched count is lost or made up on its way to a callback: the event counters of
-- detail/graph_cache.cpp.
use rmw_zenoh.Common.{
  ℕ, ◌≡◌, sym, ap, ◌∙◌, ◌&&◌, List, [], ◌∷◌, ◌++◌, ◌==◌, nat_eq, arith, if◌then◌else◌, Option-cases,
  inl, inr,
}
use rmw_zenoh.Common.Int.{ℤ, ◌+ℤ◌, +ℤ_assoc, +ℤ_comm, +ℤ-zero, zero-+ℤ}
use rmw_zenoh.Graph.Events.Conservation.{
  find_in-put_in, find_in-erase_in, told, waiting, accounted, told-append, EventOp, update, set,
  remove, step, run, reported, all_reported,
}
use rmw_zenoh.Graph.Events.{
  Call, GraphEvents, find_in, add_change, update_event_counters, set_qos_event_callback,
  remove_qos_event_callbacks,
}

told_last :
    (g i : ℕ) (log : List Call) (c : Call)
    → told g i (log ++ c ∷ [])
      ≡ (if g == c.entity && i == c.event then told g i log +ℤ c.change else told g i log)
unfolding told
told_last g i log c =
    ground (arith, told-append g i log (c ∷ []), +ℤ-zero c.change, +ℤ-zero (told g i log))

waiting_add :
    (g i g' j : ℕ) (change : ℤ) (s : GraphEvents)
    → waiting g i (record s { unregistered = add_change g' j change s.unregistered })
      ≡ (if g == g' && i == j then waiting g i s +ℤ change else waiting g i s)
unfolding waiting add_change
waiting_add g i g' j change s = elim (Option-cases (find_in g' j s.unregistered)) [
  | inl h ↦ ground (arith, h, find_in-put_in g i g' j change s.unregistered, zero-+ℤ change)
  | inr (c, h) ↦ ground (arith, h, find_in-put_in g i g' j (c +ℤ change) s.unregistered)
]

+ℤ_swap : (a b c : ℤ) → a +ℤ b +ℤ c ≡ a +ℤ c +ℤ b
+ℤ_swap a b c = ground (arith, +ℤ_assoc a b c, +ℤ_assoc a c b, +ℤ_comm b c)

pub step-accounted :
    (g i : ℕ) (op : EventOp) (s : GraphEvents)
    → accounted g i (step op s) ≡ accounted g i s +ℤ reported g i op
unfolding step reported update_event_counters set_qos_event_callback remove_qos_event_callbacks
    waiting
step-accounted g i (update entity j change) s =
    let g' = entity.gid_hash in
    let zero_case = +ℤ-zero (accounted g i s) in
    elim (Option-cases (find_in g' j s.event_callbacks)) [
      | inl h ↦ ground (
        arith,
        h,
        zero_case,
        waiting_add g i g' j change s,
        +ℤ_assoc (told g i s.log) (waiting g i s) change,
      )
      | inr (c, h) ↦ ground (
        arith,
        h,
        zero_case,
        told_last g i s.log (record { entity = g'; event = j; callback = c; change = change }),
        +ℤ_swap (told g i s.log) change (waiting g i s),
      )
    ]
step-accounted g i (set g' j c) s =
    let zero_case = +ℤ-zero (accounted g i s) in
    elim (Option-cases (find_in g' j s.unregistered)) [
      | inl h ↦ ground (arith, h, zero_case)
      | inr (change, h) ↦ ground (
        arith,
        h,
        zero_case,
        told_last g i s.log (record { entity = g'; event = j; callback = c; change = change }),
        find_in-erase_in g i g' j s.unregistered,
        +ℤ-zero (told g i s.log +ℤ change),
      )
    ]
step-accounted g i (remove g') s = sym (+ℤ-zero (accounted g i s))

-- Whatever callbacks are set and removed in between, what the callbacks of an entity and an event
-- have been told and what waits for a callback add up to what was reported for them.
pub run-accounted :
    (g i : ℕ) (ops : List EventOp) (s : GraphEvents)
    → accounted g i (run ops s) ≡ accounted g i s +ℤ all_reported g i ops
unfolding run all_reported
run-accounted g i [] s = sym (+ℤ-zero (accounted g i s))
run-accounted g i (op ∷ ops) s =
    run-accounted g i ops (step op s)
    ∙ ap (λ a. a +ℤ all_reported g i ops) (step-accounted g i op s)
    ∙ +ℤ_assoc (accounted g i s) (reported g i op) (all_reported g i ops)
