-- ===== src/Event/Callbacks.antt =====
-- No event is lost or made up on its way to a user's callback: detail/event.cpp.
use rmw_zenoh.Common.{
  ℕ, ◌+◌, ◌^◌, ◌%◌, ◌<◌, ◌≤◌, ◌≡◌, ◌≢◌, refl, List, [], ◌∷◌, ◌++◌, Option, none, some, arith,
  nat_eq,
}
use rmw_zenoh.Event.{
  Callback, Effect, called, notified, DataCallbackManager, set_callback, trigger_callback,
  EventsManager, event_id_max, update, event_set_callback, trigger_event_callback,
}

-- How many events the callbacks have been told of.
abbrev pub delivered : List Effect → ℕ
delivered [] = 0
delivered (called c n ∷ es) = n + delivered es
delivered (notified w ∷ es) = delivered es

delivered-append : (xs ys : List Effect) → delivered (xs ++ ys) ≡ delivered xs + delivered ys
delivered-append [] ys = omega arith
delivered-append (called c n ∷ xs) ys = omega (arith, delivered-append xs ys)
delivered-append (notified w ∷ xs) ys = delivered-append xs ys

-- The calls of a `DataCallbackManager`.
pub data DataOp : Type 0 where
  set : Option Callback → DataOp
  trigger : DataOp

abbrev pub step : DataCallbackManager → DataOp → DataCallbackManager × List Effect
step m (set c) = set_callback m c
step m trigger = trigger_callback m

pub run : DataCallbackManager → List DataOp → DataCallbackManager × List Effect
run m [] = (m, [])
run m (op ∷ ops) = let (m', es) = step m op in let (m'', rest) = run m' ops in (m'', es ++ rest)

-- 1 for a trigger.
abbrev pub weight : DataOp → ℕ
weight (set c) = 0
weight trigger = 1

abbrev pub triggers : List DataOp → ℕ
triggers [] = 0
triggers (op ∷ ops) = weight op + triggers ops

step-delivered :
    (m : DataCallbackManager) (op : DataOp)
    → m.unread_count + weight op < 2 ^ 64
    → delivered (step m op).1 + (step m op).0.unread_count ≡ m.unread_count + weight op
unfolding set_callback trigger_callback
step-delivered m op h = ground arith

-- As long as the counter does not wrap around, each trigger is either told to a callback or still
-- unread, whatever callbacks are set and removed in between.
pub run-delivered :
    (m : DataCallbackManager) (ops : List DataOp)
    → m.unread_count + triggers ops < 2 ^ 64
    → delivered (run m ops).1 + (run m ops).0.unread_count ≡ m.unread_count + triggers ops
unfolding run
run-delivered m [] h = omega arith
run-delivered m (op ∷ ops) h =
    let one = step-delivered m op (omega arith) in
    let m' = (step m op).0 in
    omega (
      arith,
      one,
      run-delivered m' ops (omega (arith, one)),
      delivered-append (step m op).1 (run m' ops).1,
    )

-- While a callback is set, nothing is unread.
abbrev pub IsFlushed : DataCallbackManager → Type 0
IsFlushed m = m.callback ≢ none → m.unread_count ≡ 0

step-IsFlushed : (m : DataCallbackManager) (op : DataOp) → IsFlushed m → IsFlushed (step m op).0
unfolding set_callback trigger_callback
step-IsFlushed m (set none) h = λ c. absurd (c refl)
step-IsFlushed m (set (some c)) h = λ _. refl
step-IsFlushed m trigger h = ground arith

-- When nothing is unread while a callback is set, the same holds after any calls.
pub run-IsFlushed :
    (m : DataCallbackManager) (ops : List DataOp) → IsFlushed m → IsFlushed (run m ops).0
unfolding run
run-IsFlushed m [] h = h
run-IsFlushed m (op ∷ ops) h = run-IsFlushed (step m op).0 ops (step-IsFlushed m op h)

-- All that an `EventsManager` has not told of yet.
abbrev pub pending : (ℕ → ℕ) → ℕ
pending f = f 0 + f 1 + f 2 + f 3 + f 4 + f 5 + f 6 + f 7

pending-update :
    (f : ℕ → ℕ) (i v : ℕ) → i ≤ event_id_max → pending (update f i v) + f i ≡ pending f + v
pending-update f i v h = ground arith

-- Setting a callback tells it of the events of its id and forgets none: with the guard's id the
-- manager is left alone.
pub event_set_callback-delivered :
    (m : EventsManager) (i : ℕ) (c : Option Callback)
    → delivered (event_set_callback m i c).1
        + pending (event_set_callback m i c).0.event_unread_count
      ≡ pending m.event_unread_count
unfolding event_set_callback
event_set_callback-delivered m i c = ground (arith, pending-update m.event_unread_count i 0)

-- A trigger of a supported event is told or counted, once, as long as the counter of the event does
-- not wrap around.
pub trigger_event_callback-delivered :
    (m : EventsManager) (i : ℕ)
    → i ≤ event_id_max
    → m.event_unread_count i + 1 < 2 ^ 64
    → delivered (trigger_event_callback m i).1
        + pending (trigger_event_callback m i).0.event_unread_count
      ≡ pending m.event_unread_count + 1
unfolding trigger_event_callback
trigger_event_callback-delivered m i h fits =
    ground (arith, pending-update m.event_unread_count i ((m.event_unread_count i + 1) % 2 ^ 64) h)
