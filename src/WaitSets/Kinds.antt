-- ===== src/WaitSets/Kinds.antt =====
-- The entities that rmw_wait of rmw_zenoh.cpp waits for.
use rmw_zenoh.Common.{
  ℕ, ◌≡◌, ◌↔◌, Bool, true, false, not, Option, none, some, arith, if◌then◌else◌, ◌==◌, nat_eq,
}
use rmw_zenoh.Event.{
  RmwEventType, zenoh_event_from_rmw_event, event_invalid, EventsManager,
  queue_has_data_and_attach_condition_if_not, detach_condition_and_event_queue_is_empty,
}
use rmw_zenoh.Subscription
use rmw_zenoh.Subscription.{SubscriptionData}
use rmw_zenoh.Services.Service
use rmw_zenoh.Services.Service.{ServiceData}
use rmw_zenoh.Services.Client
use rmw_zenoh.Services.Client.{ClientData}
use rmw_zenoh.WaitSets.{
  GuardCondition, check_and_attach_condition_if_not, detach_condition_and_is_trigger_set, Status,
  ready, empty, ignored, Waitable,
}

abbrev of_trigger : Bool → Status
of_trigger true = ready
of_trigger false = empty

abbrev of_empty : Bool → Status
of_empty true = empty
of_empty false = ready

instance unfoldable pub guard_condition_waitable : Waitable GuardCondition
unfolding check_and_attach_condition_if_not detach_condition_and_is_trigger_set
guard_condition_waitable = record {
  attach = check_and_attach_condition_if_not;
  detach = λ gc. let (gc', set) = detach_condition_and_is_trigger_set gc in (gc', of_trigger set);
  attached = λ gc. gc.wait_set_data;
  can_wait = λ gc. true;
  attach_status = λ w gc. ground arith;
  ready_iff = λ w gc. ground arith;
  attach_lem = λ w gc can none. ground arith;
}

instance pub subscription_waitable : Waitable SubscriptionData
unfolding Subscription.queue_has_data_and_attach Subscription.detach_and_queue_is_empty
subscription_waitable = record {
  attach = Subscription.queue_has_data_and_attach;
  detach = λ s.
      let (s', none_left) = Subscription.detach_and_queue_is_empty s in (s', of_empty none_left);
  attached = λ s. s.wait_set_data;
  can_wait = λ s. true;
  attach_status = λ w s. ground arith;
  ready_iff = λ w s. ground arith;
  attach_lem = λ w s can none. ground arith;
}

instance unfoldable pub service_waitable : Waitable ServiceData
unfolding Service.queue_has_data_and_attach Service.detach_and_queue_is_empty
service_waitable = record {
  attach = Service.queue_has_data_and_attach;
  detach =
      λ s. let (s', none_left) = Service.detach_and_queue_is_empty s in (s', of_empty none_left);
  attached = λ s. s.wait_set_data;
  can_wait = λ s. true;
  attach_status = λ w s. ground arith;
  ready_iff = λ w s. ground arith;
  attach_lem = λ w s can none. ground arith;
}

instance pub client_waitable : Waitable ClientData
unfolding Client.queue_has_data_and_attach Client.detach_and_queue_is_empty
client_waitable = record {
  attach = Client.queue_has_data_and_attach;
  detach =
      λ s. let (s', none_left) = Client.detach_and_queue_is_empty s in (s', of_empty none_left);
  attached = λ s. s.wait_set_data;
  can_wait = λ s. true;
  attach_status = λ w s. ground arith;
  ready_iff = λ w s. ground arith;
  attach_lem = λ w s can none. ground arith;
}

-- `rmw_event_t`, with the manager when its `data` is not null.
pub record RmwEvent : Type 0 where
  pub event_type : RmwEventType
  pub data_mgr : Option EventsManager

-- An event of a type that is not known, or without data, is passed over by both loops.
unfoldable pub attach_event : ℕ → RmwEvent → RmwEvent × Bool
attach_event w event = elim event.data_mgr [
  | none ↦ (event, false)
  | some m ↦
      let id = zenoh_event_from_rmw_event event.event_type in
      if id == event_invalid
      then (event, false)
      else let (m', changed) = queue_has_data_and_attach_condition_if_not m id w in
        (record event { data_mgr = some m' }, changed)
]

unfoldable pub detach_event : RmwEvent → RmwEvent × Status
detach_event event = elim event.data_mgr [
  | none ↦ (event, ignored)
  | some m ↦
      let id = zenoh_event_from_rmw_event event.event_type in
      if id == event_invalid
      then (event, ignored)
      else let (m', unchanged) = detach_condition_and_event_queue_is_empty m id in
        (record event { data_mgr = some m' }, of_empty unchanged)
]

-- The wait set that is attached for the event.
abbrev attached_event : RmwEvent → Option ℕ
attached_event event = elim event.data_mgr [
  | none ↦ none
  | some m ↦ m.wait_set_data (zenoh_event_from_rmw_event event.event_type)
]

abbrev is_known : RmwEvent → Bool
is_known event = elim event.data_mgr [
  | none ↦ false
  | some m ↦ not (zenoh_event_from_rmw_event event.event_type == event_invalid)
]

attach-detach_event :
    (w : ℕ) (event : RmwEvent) → (detach_event (attach_event w event).0).1 ≡ (detach_event event).1
unfolding attach_event detach_event queue_has_data_and_attach_condition_if_not
    detach_condition_and_event_queue_is_empty
attach-detach_event w event = ground arith

event-ready_iff :
    (w : ℕ) (event : RmwEvent)
    → ((attach_event w event).1 ≡ true) ↔ ((detach_event event).1 ≡ ready)
unfolding attach_event detach_event queue_has_data_and_attach_condition_if_not
    detach_condition_and_event_queue_is_empty
event-ready_iff w event = ground arith

attached-attach_event :
    (w : ℕ) (event : RmwEvent)
    → is_known (attach_event w event).0 ≡ true
    → (attach_event w event).1 ≡ false
    → attached_event (attach_event w event).0 ≡ some w
unfolding attach_event queue_has_data_and_attach_condition_if_not zenoh_event_from_rmw_event
attached-attach_event w event known h = ground arith

instance pub event_waitable : Waitable RmwEvent
event_waitable = record {
  attach = attach_event;
  detach = detach_event;
  attached = attached_event;
  can_wait = is_known;
  attach_status = attach-detach_event;
  ready_iff = event-ready_iff;
  attach_lem = attached-attach_event;
}
