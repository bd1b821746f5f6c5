-- ===== src/Event/Waiting.antt =====
-- The protocol of `rmw_wait` with an `EventsManager` of detail/event.cpp: between attaching to an
-- event and detaching from it, no update goes unnoticed.
use rmw_zenoh.Common.{
  ℕ, ◌≤◌, ◌≡◌, ◌⊎◌, ◌∙◌, true, false, List, [], ◌∷◌, ◌++◌, some, arith, nat_eq, inl, inr, Has,
  Has-append_left, Has-append_right, sym, subst, ap,
}
use rmw_zenoh.Common.Int.{ℤ}
use rmw_zenoh.Event.{
  Effect, EventsManager, event_id_max, update_event_status, write_status, notified,
  queue_has_data_and_attach_condition_if_not, detach_condition_and_event_queue_is_empty,
}

-- Updates of any events, in order.
pub run_updates : EventsManager → List (ℕ × ℤ) → EventsManager × List Effect
run_updates m [] = (m, [])
run_updates m ((i, c) ∷ us) =
    let (m', es) = update_event_status m i c in
    let (m'', rest) = run_updates m' us in (m'', es ++ rest)

-- The list has an update of the event.
abbrev pub Touches : ℕ → List (ℕ × ℤ) → Type 0
Touches i [] = ⊥
Touches i ((j, c) ∷ us) = (i ≡ j) ⊎ Touches i us

-- An update keeps every attached wait set.
waits-update :
    (m : EventsManager) (i : ℕ) (c : ℤ)
    → (update_event_status m i c).0.wait_set_data ≡ m.wait_set_data
unfolding update_event_status write_status
waits-update m i c = ground arith

-- It leaves its event changed, and leaves every changed event so.
changed-update :
    (m : EventsManager) (i : ℕ) (c : ℤ)
    → i ≤ event_id_max
    → ((update_event_status m i c).0.event_statuses i).changed ≡ true
unfolding update_event_status write_status
changed-update m i c h = ground arith

changed-update_any :
    (m : EventsManager) (i j : ℕ) (c : ℤ)
    → (m.event_statuses j).changed ≡ true
    → ((update_event_status m i c).0.event_statuses j).changed ≡ true
unfolding update_event_status write_status
changed-update_any m i j c h = ground arith

-- It wakes the wait set that is attached to its event.
notifies-update :
    (m : EventsManager) (i w : ℕ) (c : ℤ)
    → i ≤ event_id_max
    → m.wait_set_data i ≡ some w
    → Has (notified w) (update_event_status m i c).1
unfolding update_event_status write_status
notifies-update m i w c h attached = ground arith

changed-run_updates_any :
    (m : EventsManager) (i : ℕ) (us : List (ℕ × ℤ))
    → (m.event_statuses i).changed ≡ true
    → ((run_updates m us).0.event_statuses i).changed ≡ true
unfolding run_updates
changed-run_updates_any m i [] h = h
changed-run_updates_any m i ((j, c) ∷ us) h =
    changed-run_updates_any (update_event_status m j c).0 i us (changed-update_any m j i c h)

changed-run_updates :
    (m : EventsManager) (i : ℕ) (us : List (ℕ × ℤ))
    → i ≤ event_id_max
    → Touches i us
    → ((run_updates m us).0.event_statuses i).changed ≡ true
unfolding run_updates
changed-run_updates m i [] h t = absurd t
changed-run_updates m i ((j, c) ∷ us) h (inl e) =
    changed-run_updates_any (update_event_status m j c).0 i us (
      subst (λ k. ((update_event_status m j c).0.event_statuses k).changed ≡ true) (sym e)
        (changed-update m j c (subst (λ k. k ≤ event_id_max) e h)))
changed-run_updates m i ((j, c) ∷ us) h (inr t) =
    changed-run_updates (update_event_status m j c).0 i us h t

notifies-run_updates :
    (m : EventsManager) (i w : ℕ) (us : List (ℕ × ℤ))
    → i ≤ event_id_max
    → m.wait_set_data i ≡ some w
    → Touches i us
    → Has (notified w) (run_updates m us).1
unfolding run_updates
notifies-run_updates m i w [] h attached t = absurd t
notifies-run_updates m i w ((j, c) ∷ us) h attached (inl e) =
    Has-append_left (notified w) (update_event_status m j c).1
      (run_updates (update_event_status m j c).0 us).1
      (notifies-update m j w c (subst (λ k. k ≤ event_id_max) e h)
        (subst (λ k. m.wait_set_data k ≡ some w) e attached))
notifies-run_updates m i w ((j, c) ∷ us) h attached (inr t) =
    Has-append_right (notified w) (update_event_status m j c).1
      (run_updates (update_event_status m j c).0 us).1
      (notifies-run_updates (update_event_status m j c).0 i w us h
        (ap (λ f. f i) (waits-update m j c) ∙ attached) t)

attached_lem :
    (m m' : EventsManager) (i w : ℕ)
    → i ≤ event_id_max
    → queue_has_data_and_attach_condition_if_not m i w ≡ (m', false)
    → m'.wait_set_data i ≡ some w
unfolding queue_has_data_and_attach_condition_if_not
attached_lem m m' i w h attach = ground arith

detach_lem :
    (m : EventsManager) (i : ℕ)
    → i ≤ event_id_max
    → (m.event_statuses i).changed ≡ true
    → (detach_condition_and_event_queue_is_empty m i).1 ≡ false
unfolding detach_condition_and_event_queue_is_empty
detach_lem m i h changed = ground arith

-- Attaching to a supported event that has not changed, and then any updates of which one is of that event:
-- the wait set is notified, and detaching reports that there is something to take.
pub attach_no_lost_update :
    (m m' : EventsManager) (i w : ℕ) (us : List (ℕ × ℤ))
    → i ≤ event_id_max
    → queue_has_data_and_attach_condition_if_not m i w ≡ (m', false)
    → Touches i us
    → Has (notified w) (run_updates m' us).1
      × ((detach_condition_and_event_queue_is_empty (run_updates m' us).0 i).1 ≡ false)
attach_no_lost_update m m' i w us h attach t = (
  notifies-run_updates m' i w us h (attached_lem m m' i w h attach) t,
  detach_lem (run_updates m' us).0 i h (changed-run_updates m' i us h t),
)
