-- ===== src/WaitSets/Tests.antt =====
-- Examples of rmw_wait of rmw_zenoh.cpp.
use rmw_zenoh.Common.{◌≡◌, refl, true, false, [], ◌∷◌, none, some}
use rmw_zenoh.Qos.{RmwTime, RmwRet, History}
use rmw_zenoh.Services.Service.{make_service}
use rmw_zenoh.Services.Service
use rmw_zenoh.WaitSets.{
  GuardCondition, null, full, cleared, new_guard_condition, detach_array, attach_array,
  attach_unchecked, check_and_attach_condition_if_not, detach_condition_and_is_trigger_set,
}
use rmw_zenoh.WaitSets.Kinds.{
  guard_condition_waitable, service_waitable, event_waitable, subscription_waitable,
  client_waitable,
}
use rmw_zenoh.WaitSets.Wait.{
  Entities, Waiting, Others, has_data, sleep_for, check_and_attach_condition, begin_wait, with_data,
  rmw_wait, returned, undefined,
}
use rmw_zenoh.WaitSets.Ready.{
  some_ready, AllAttached, begin_wait-attached, rmw_wait-ready, rmw_wait-woken,
}

abbrev triggered : GuardCondition
triggered = record { has_triggered = true; wait_set_data = none }

abbrev idle : Entities
idle = record {
  guard_conditions = null ∷ full new_guard_condition ∷ [];
  events = [];
  subscriptions = [];
  services = full (make_service History.keep_last 2) ∷ [];
  clients = [];
}

abbrev busy : Entities
busy = record idle { guard_conditions = full triggered ∷ full new_guard_condition ∷ [] }

abbrev second : RmwTime
second = record { sec = 1; nsec = 5 }

-- The guard condition without data is set to null.
left :
    detach_array busy.guard_conditions
    ≡ (full new_guard_condition ∷ cleared new_guard_condition ∷ [], true)
unfolding detach_array detach_condition_and_is_trigger_set guard_condition_waitable
left = refl

busy_ready : some_ready busy ≡ true
unfolding guard_condition_waitable detach_condition_and_is_trigger_set
busy_ready = refl

-- The flag is still set by a notification before.
abbrev waiting_idle : Waiting
waiting_idle = record { entities = idle; triggered = true }

abbrev waiting_busy : Waiting
waiting_busy = record { entities = busy; triggered = true }

abbrev nobody : Others
nobody = record { asleep = λ sleep s. (true, s); awake = λ s. s }

-- While `rmw_wait` sleeps, another thread triggers the guard condition that is attached.
abbrev a_trigger : Others
a_trigger = record {
  asleep = λ sleep s. (false, record { entities = busy; triggered = true });
  awake = λ s. s;
}

idle_lacks : some_ready idle ≡ false
unfolding guard_condition_waitable detach_condition_and_is_trigger_set service_waitable
    Service.detach_and_queue_is_empty make_service
idle_lacks = refl

begin_wait-attached_example :
    (s' : Waiting) × (begin_wait 3 (some second) waiting_idle ≡ some (s', sleep_for (some second)))
    × (s'.triggered ≡ false)
    × AllAttached 3 s'.entities
begin_wait-attached_example = begin_wait-attached 3 (some second) waiting_idle refl idle_lacks

rmw_wait-ready_example :
    (s1 : Waiting) × (s2 : Waiting) × (begin_wait 3 none waiting_busy ≡ some (s1, has_data))
    × (rmw_wait (with_data 3) none nobody waiting_busy ≡ returned RmwRet.ok s2)
rmw_wait-ready_example = rmw_wait-ready 3 none nobody waiting_busy (refl, busy_ready) (λ s' h. h)

rmw_wait-woken_example :
    (s' : Waiting) × (rmw_wait (with_data 3) none a_trigger waiting_idle ≡ returned RmwRet.ok s')
rmw_wait-woken_example =
    rmw_wait-woken 3 a_trigger waiting_idle refl idle_lacks
      (λ s1 all reset. (refl, (refl, busy_ready)))

-- A null event is read.
null_event :
    rmw_wait
      (with_data 3)
      none
      nobody
      (record { entities = record idle { events = null ∷ [] }; triggered = false })
    ≡ undefined
unfolding rmw_wait begin_wait check_and_attach_condition attach_array attach_unchecked
    guard_condition_waitable check_and_attach_condition_if_not
null_event = refl
