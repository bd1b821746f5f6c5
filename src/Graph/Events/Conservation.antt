-- ===== src/Graph/Events/Conservation.antt =====
-- No change of a matched count is lost or made up on its way to a callback: the event counters of
-- detail/graph_cache.cpp.
use rmw_zenoh.Common.{
  ℕ, ◌≡◌, sym, not, ◌&&◌, List, [], ◌∷◌, ◌++◌, none, some, ◌==◌, nat_eq, ltb, arith, is_empty,
  if◌then◌else◌, Option-cases, inl, inr,
}
use rmw_zenoh.Common.Int.{ℤ, pos, ◌+ℤ◌, +ℤ_assoc, zero-+ℤ}
use rmw_zenoh.Common.Map.{find, erase, put}
use rmw_zenoh.Common.Map.Laws.{find-put, find-erase}
use rmw_zenoh.Event.{event_id_max}
use rmw_zenoh.Liveliness.Entity.{Entity}
use rmw_zenoh.Graph.Events.{
  Call, GraphEvents, find_in, put_in, erase_in, update_event_counters, set_qos_event_callback,
  remove_qos_event_callbacks,
}

pub find_in-put_in {ℓ} :
    {V : Type ℓ} (g' i' g i : ℕ) (v : V) (m : List (ℕ × List (ℕ × V)))
    → find_in g' i' (put_in g i v m) ≡ (if g' == g && i' == i then some v else find_in g' i' m)
unfolding find_in put_in find
find_in-put_in g' i' g i v m = elim (Option-cases (find g m)) [
  | inl h ↦ ground (arith, h, find-put g' g ((i, v) ∷ []) m)
  | inr (inner, h) ↦ ground (arith, h, find-put g' g (put i v inner) m, find-put i' i v inner)
]

find_in-shrunk {ℓ} :
    {V : Type ℓ} (g' i' g : ℕ) (inner : List (ℕ × V)) (m : List (ℕ × List (ℕ × V)))
    → find_in g' i' (if is_empty inner then erase g m else put g inner m)
      ≡ (if g' == g then find i' inner else find_in g' i' m)
unfolding find_in find
find_in-shrunk g' i' g [] m = ground (arith, find-erase g' g m)
find_in-shrunk g' i' g (p ∷ inner) m = ground (arith, find-put g' g (p ∷ inner) m)

pub find_in-erase_in {ℓ} :
    {V : Type ℓ} (g' i' g i : ℕ) (m : List (ℕ × List (ℕ × V)))
    → find_in g' i' (erase_in g i m) ≡ (if g' == g && i' == i then none else find_in g' i' m)
unfolding find_in erase_in
find_in-erase_in g' i' g i m = elim (Option-cases (find g m)) [
  | inl h ↦ ground (arith, h)
  | inr (inner, h) ↦
      ground (arith, h, find_in-shrunk g' i' g (erase i inner) m, find-erase i' i inner)
]

-- The sum of the changes that the callback of an entity and an event has been called with.
unfoldable pub told : ℕ → ℕ → List Call → ℤ
told g i [] = pos 0
told g i (c ∷ log) =
    let rest = told g i log in if g == c.entity && i == c.event then c.change +ℤ rest else rest

-- The change that waits for a callback.
unfoldable pub waiting : ℕ → ℕ → GraphEvents → ℤ
waiting g i s = elim (find_in g i s.unregistered) [ none ↦ pos 0 | some change ↦ change ]

abbrev pub accounted : ℕ → ℕ → GraphEvents → ℤ
accounted g i s = told g i s.log +ℤ waiting g i s

pub told-append : (g i : ℕ) (xs ys : List Call) → told g i (xs ++ ys) ≡ told g i xs +ℤ told g i ys
unfolding told
told-append g i [] ys = sym (zero-+ℤ (told g i ys))
told-append g i (c ∷ xs) ys =
    ground (arith, told-append g i xs ys, +ℤ_assoc c.change (told g i xs) (told g i ys))

-- An operation on the counters.
pub data EventOp : Type 0 where
  update : Entity → ℕ → ℤ → EventOp
  set : ℕ → ℕ → ℕ → EventOp
  remove : ℕ → EventOp

unfoldable pub step : EventOp → GraphEvents → GraphEvents
step (update entity i change) s = update_event_counters entity i change s
step (set g i c) s = set_qos_event_callback g i c s
step (remove g) s = remove_qos_event_callbacks g s

unfoldable pub run : List EventOp → GraphEvents → GraphEvents
run [] s = s
run (op ∷ ops) s = run ops (step op s)

-- What an operation reports for an entity and an event; an id that is not supported is dropped.
unfoldable pub reported : ℕ → ℕ → EventOp → ℤ
reported g i (update entity j change) =
    if g == entity.gid_hash && i == j && not (ltb event_id_max j) then change else pos 0
reported g i (set _ _ _) = pos 0
reported g i (remove _) = pos 0

unfoldable pub all_reported : ℕ → ℕ → List EventOp → ℤ
all_reported g i [] = pos 0
all_reported g i (op ∷ ops) = reported g i op +ℤ all_reported g i ops
