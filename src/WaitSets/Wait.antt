-- ===== src/WaitSets/Wait.antt =====
-- rmw_wait of rmw_zenoh.cpp. It holds `condition_mutex` of the wait set from the checks to the end of
-- its sleep. Other threads act on the entities while it sleeps and up to the last part; what they do
-- is an argument. An array that is null is empty.
use rmw_zenoh.Common.{
  ℕ, ◌+◌, ◌*◌, ◌^◌, ◌%◌, Bool, true, false, ◌&&◌, ◌||◌, List, Option, none, some, ◌==◌, nat_eq,
  if◌then◌else◌,
}
use rmw_zenoh.Common.Int.{ℤ}
use rmw_zenoh.Qos.{RmwTime, RmwRet}
use rmw_zenoh.Attachments.{to_int64}
use rmw_zenoh.Subscription.{SubscriptionData}
use rmw_zenoh.Services.Service.{ServiceData}
use rmw_zenoh.Services.Client.{ClientData}
use rmw_zenoh.WaitSets.{
  GuardCondition, Slot, attach_array, detach_array, attach_unchecked, detach_unchecked,
}
use rmw_zenoh.WaitSets.Kinds.{
  RmwEvent, guard_condition_waitable, event_waitable, subscription_waitable, service_waitable,
  client_waitable,
}

pub record Entities : Type 0 where
  pub guard_conditions : List (Slot GuardCondition)
  pub events : List (Slot RmwEvent)
  pub subscriptions : List (Slot SubscriptionData)
  pub services : List (Slot ServiceData)
  pub clients : List (Slot ClientData)

-- The entities, and `triggered` of the wait set, which each notification of the wait set sets.
pub record Waiting : Type 0 where
  pub entities : Entities
  pub triggered : Bool

-- The loops behind the one over events; when no entity has data the flag is reset.
unfoldable pub attach_rest : ℕ → Bool → Waiting → Waiting × Bool
attach_rest w found1 s =
    let es2 = s.entities in
    if found1
    then (s, true)
    else let (subscriptions, found2) = attach_array w es2.subscriptions in
      let es3 = record es2 { subscriptions = subscriptions } in
      if found2
      then (record s { entities = es3 }, true)
      else let (services, found3) = attach_array w es3.services in
        let es4 = record es3 { services = services } in
        if found3
        then (record s { entities = es4 }, true)
        else let (clients, found4) = attach_array w es4.clients in
          let es5 = record es4 { clients = clients } in
          (record { entities = es5; triggered = if found4 then s.triggered else false }, found4)

-- The five loops, each of which returns when it finds an entity with data; `none` for a null event.
unfoldable pub check_and_attach_condition : ℕ → Waiting → Option (Waiting × Bool)
unfolding attach_rest
check_and_attach_condition w s =
    let (guard_conditions, found) = attach_array w s.entities.guard_conditions in
    let es1 = record (s.entities) { guard_conditions = guard_conditions } in
    if found
    then some (record s { entities = es1 }, true)
    else elim (attach_unchecked w es1.events) [
      | none ↦ none
      | some (events, found1) ↦
          some (attach_rest w found1 (record s { entities = record es1 { events = events } }))
    ]

-- How `rmw_wait` sleeps: not, as there is data or the timeout is 0; until it is triggered; or up to some
-- nanoseconds.
pub data Sleep : Type 0 where
  has_data at_once forever : Sleep
  up_to : ℤ → Sleep

unfoldable pub sleep_for : Option RmwTime → Sleep
sleep_for none = forever
sleep_for (some timeout) =
    if timeout.sec == 0 && timeout.nsec == 0
    then at_once
    else up_to (to_int64 ((timeout.nsec + timeout.sec * 1000000000) % 2 ^ 64))

-- Up to the sleep.
unfoldable pub begin_wait : ℕ → Option RmwTime → Waiting → Option (Waiting × Sleep)
begin_wait w timeout s = elim (check_and_attach_condition w s) [
  | none ↦ none
  | some (s', skip_wait) ↦ some (s', if skip_wait then has_data else sleep_for timeout)
]

-- Whether a sleep ends, from whether its time is over and the flag.
abbrev pub ends : Sleep → Bool → Bool → Bool
ends forever time_over triggered = triggered
ends (up_to t) time_over triggered = triggered || time_over
ends _ time_over triggered = true

-- The flag is reset behind a wait, still with the lock.
abbrev pub after_sleep : Sleep → Waiting → Waiting
after_sleep has_data s = s
after_sleep _ s = record s { triggered = false }

-- What other threads do: while `rmw_wait` sleeps, with whether the time is over at the end, and from
-- there to the last part. Without a sleep the lock is not given back in between.
pub record Others : Type 0 where
  pub asleep : Sleep → Waiting → Bool × Waiting
  pub awake : Waiting → Waiting

abbrev pub slept : Others → Sleep → Waiting → Bool × Waiting
slept others has_data s = (true, s)
slept others at_once s = (true, s)
slept others sleep s = others.asleep sleep s

-- The last part; `none` for a null event.
unfoldable pub end_wait : Entities → Option (Entities × RmwRet)
end_wait es = elim (detach_unchecked es.events) [
  | none ↦ none
  | some (events, r2) ↦
      let (guard_conditions, r1) = detach_array es.guard_conditions in
      let (subscriptions, r3) = detach_array es.subscriptions in
      let (services, r4) = detach_array es.services in
      let (clients, r5) = detach_array es.clients in
      some (
        record {
          guard_conditions = guard_conditions;
          events = events;
          subscriptions = subscriptions;
          services = services;
          clients = clients;
        },
        if r1 || (r2 || (r3 || (r4 || r5))) then RmwRet.ok else RmwRet.timeout,
      )
]

-- The argument `wait_set`: null, of another implementation, without data, or with the data that the
-- number names.
pub data WaitSet : Type 0 where
  null_set foreign without_data : WaitSet
  with_data : ℕ → WaitSet

-- What becomes of a call: the use of a null pointer, a sleep that does not end, or a code.
pub data Waited : Type 0 where
  undefined sleeping : Waited
  returned : RmwRet → Waiting → Waited

abbrev pub finish : Waiting → Waited
finish s = elim (end_wait s.entities) [
  | none ↦ undefined
  | some (es, ret) ↦ returned ret (record s { entities = es })
]

abbrev pub wake : Others → Sleep → Bool × Waiting → Waited
wake others sleep (time_over, s) =
    if ends sleep time_over s.triggered
    then finish (others.awake (after_sleep sleep s))
    else sleeping

unfoldable pub rmw_wait : WaitSet → Option RmwTime → Others → Waiting → Waited
unfolding begin_wait end_wait
rmw_wait null_set timeout others s = returned RmwRet.invalid_argument s
rmw_wait foreign timeout others s = returned RmwRet.incorrect_rmw_implementation s
rmw_wait without_data timeout others s = returned RmwRet.error s
rmw_wait (with_data w) timeout others s = elim (begin_wait w timeout s) [
  | none ↦ undefined
  | some (s', sleep) ↦ wake others sleep (slept others sleep s')
]
