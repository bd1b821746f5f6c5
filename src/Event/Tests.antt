-- ===== src/Event/Tests.antt =====
-- Examples of detail/event.cpp.
use rmw_zenoh.Common.{
  ◌+◌, ◌≡◌, refl, arith, List, [], ◌∷◌, none, some, false, nat_eq, inl, inr, Has,
}
use rmw_zenoh.Common.Int.{ℤ, pos, negsuc}
use rmw_zenoh.Event.{
  Callback, DataCallbackManager, EventsManager, init_manager, init_status, update, notified,
  take_event_status, queue_has_data_and_attach_condition_if_not,
  detach_condition_and_event_queue_is_empty,
}
use rmw_zenoh.Event.Callbacks.{DataOp, set, trigger, run, triggers, delivered, run-delivered}
use rmw_zenoh.Event.Waiting.{run_updates, attach_no_lost_update}

abbrev callback : Callback
callback = record { function = 1; user_data = 2 }

abbrev fresh : DataCallbackManager
fresh = record { callback = none; unread_count = 0 }

-- Two triggers, of which one comes before the callback.
abbrev ops : List DataOp
ops = trigger ∷ set (some callback) ∷ trigger ∷ set none ∷ trigger ∷ []

run-delivered_example :
    delivered (run fresh ops).1 + (run fresh ops).0.unread_count ≡ fresh.unread_count + triggers ops
run-delivered_example = run-delivered fresh ops (omega arith)

-- Five unread events of the id 4.
abbrev unread : EventsManager
unread = record init_manager { event_unread_count = update init_manager.event_unread_count 4 5 }

abbrev changes : List ℤ
changes = pos 3 ∷ negsuc 0 ∷ []

abbrev taken : EventsManager
taken = record init_manager { event_statuses = update init_manager.event_statuses 4 init_status }

first_take : take_event_status init_manager 4 ≡ some (taken, init_status)
unfolding take_event_status
first_take = refl

abbrev attached : EventsManager
attached = record init_manager { wait_set_data = update init_manager.wait_set_data 4 (some 9) }

attached_first : queue_has_data_and_attach_condition_if_not init_manager 4 9 ≡ (attached, false)
unfolding queue_has_data_and_attach_condition_if_not
attached_first = refl

attach_no_lost_update_example :
    Has (notified 9) (run_updates attached ((7, pos 1) ∷ (4, pos 1) ∷ [])).1
    × ((detach_condition_and_event_queue_is_empty
          (run_updates attached ((7, pos 1) ∷ (4, pos 1) ∷ [])).0
          4).1
        ≡ false)
attach_no_lost_update_example =
    attach_no_lost_update init_manager attached 4 9 ((7, pos 1) ∷ (4, pos 1) ∷ []) (omega arith)
      attached_first (inr (inl refl))
