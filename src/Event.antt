-- ===== src/Event.antt =====
-- Events of endpoints: detail/event.hpp and detail/event.cpp. Each method is one critical section of
-- its mutex. What a method does to the outside, calling a user's callback or waking a wait set, is
-- the list of effects that it returns.
pub mod Callbacks
pub mod Status
pub mod Waiting
mod Tests
use rmw_zenoh.Common.{
  ℕ, zero, suc, ◌+◌, ◌^◌, ◌%◌, Bool, true, false, not, List, [], ◌∷◌, ◌++◌, Option, none, some, ltb,
  ◌==◌, nat_eq, if◌then◌else◌,
}
use rmw_zenoh.Common.Int.{ℤ, pos, negsuc, pos_part, ◌+ℤ◌, add_size}

-- The enumerators of `rmw_event_type_t` that the sources name; the others are numbered.
pub data RmwEventType : Type 0 where
  requested_qos_incompatible offered_qos_incompatible message_lost subscription_matched :
      RmwEventType
  publication_matched subscription_incompatible_type publisher_incompatible_type : RmwEventType
  other : ℕ → RmwEventType

-- `rmw_zenoh_event_type_t` as its number.
abbrev pub event_invalid : ℕ
event_invalid = 0

abbrev pub event_requested_qos_incompatible : ℕ
event_requested_qos_incompatible = 1

abbrev pub event_message_lost : ℕ
event_message_lost = 2

abbrev pub event_subscription_incompatible_type : ℕ
event_subscription_incompatible_type = 3

abbrev pub event_subscription_matched : ℕ
event_subscription_matched = 4

abbrev pub event_offered_qos_incompatible : ℕ
event_offered_qos_incompatible = 5

abbrev pub event_publisher_incompatible_type : ℕ
event_publisher_incompatible_type = 6

abbrev pub event_publication_matched : ℕ
event_publication_matched = 7

-- `ZENOH_EVENT_ID_MAX`
abbrev pub event_id_max : ℕ
event_id_max = event_publication_matched

-- `zenoh_event_from_rmw_event`, with the table `event_map`.
unfoldable pub zenoh_event_from_rmw_event : RmwEventType → ℕ
zenoh_event_from_rmw_event requested_qos_incompatible = event_requested_qos_incompatible
zenoh_event_from_rmw_event offered_qos_incompatible = event_offered_qos_incompatible
zenoh_event_from_rmw_event message_lost = event_message_lost
zenoh_event_from_rmw_event subscription_matched = event_subscription_matched
zenoh_event_from_rmw_event publication_matched = event_publication_matched
zenoh_event_from_rmw_event subscription_incompatible_type = event_subscription_incompatible_type
zenoh_event_from_rmw_event publisher_incompatible_type = event_publisher_incompatible_type
zenoh_event_from_rmw_event (other n) = event_invalid

-- A function pointer and the data that it is called with, as opaque numbers.
pub record Callback : Type 0 where
  pub function : ℕ
  pub user_data : ℕ

pub data Effect : Type 0 where
  -- the callback is called with a number of events
  called : Callback → ℕ → Effect
  -- `triggered` of the wait set becomes true and its condition variable is notified
  notified : ℕ → Effect

-- `DataCallbackManager`. A callback that is set comes with its user data; when none is set the
-- pointer to the data is null and is not read.
pub record DataCallbackManager : Type 0 where
  pub callback : Option Callback
  pub unread_count : ℕ

-- `if (unread_count_) callback(user_data, unread_count_)`
abbrev pub flush : Callback → ℕ → List Effect
flush c n = if n == 0 then [] else called c n ∷ []

unfoldable pub set_callback :
    DataCallbackManager → Option Callback → DataCallbackManager × List Effect
set_callback m (some c) = (record { callback = some c; unread_count = 0 }, flush c m.unread_count)
set_callback m none = (record m { callback = none }, [])

unfoldable pub trigger_callback : DataCallbackManager → DataCallbackManager × List Effect
trigger_callback m = elim m.callback [
  | some c ↦ (m, called c 1 ∷ [])
  | none ↦ (record m { unread_count = (m.unread_count + 1) % 2 ^ 64 }, [])
]

-- `rmw_zenoh_event_status_t`, without `data`, which the sources do not write.
pub record EventStatus : Type 0 where
  pub total_count : ℕ
  pub total_count_change : ℕ
  pub current_count : ℕ
  pub current_count_change : ℤ
  pub changed : Bool

abbrev pub init_status : EventStatus
init_status = record {
  total_count = 0;
  total_count_change = 0;
  current_count = 0;
  current_count_change = pos 0;
  changed = false;
}

-- `EventsManager`: arrays over the event ids.
pub record EventsManager : Type 0 where
  pub wait_set_data : ℕ → Option ℕ
  -- `event_callback_` with `event_data_`
  pub event_callback : ℕ → Option Callback
  pub event_unread_count : ℕ → ℕ
  pub event_statuses : ℕ → EventStatus

abbrev pub init_manager : EventsManager
init_manager = record {
  wait_set_data = λ i. none;
  event_callback = λ i. none;
  event_unread_count = λ i. 0;
  event_statuses = λ i. init_status;
}

-- `array[i] = v`
abbrev pub update {ℓ} : {A : Type ℓ} → (ℕ → A) → ℕ → A → ℕ → A
update f i v j = if i == j then v else f j

-- The guard with which each method begins.
abbrev pub unsupported_event : ℕ → Bool
unsupported_event event_id = ltb event_id_max event_id

unfoldable pub event_set_callback :
    EventsManager → ℕ → Option Callback → EventsManager × List Effect
event_set_callback m event_id callback =
    if unsupported_event event_id then (m, []) else elim callback [
      | none ↦ (record m { event_callback = update m.event_callback event_id none }, [])
      | some c ↦ (
        record m {
          event_callback = update m.event_callback event_id (some c);
          event_unread_count = update m.event_unread_count event_id 0;
        },
        flush c (m.event_unread_count event_id),
      )
    ]

unfoldable pub trigger_event_callback : EventsManager → ℕ → EventsManager × List Effect
trigger_event_callback m event_id =
    if unsupported_event event_id then (m, []) else elim (m.event_callback event_id) [
      | some c ↦ (m, called c 1 ∷ [])
      | none ↦ (
        record m {
          event_unread_count =
              update m.event_unread_count event_id ((m.event_unread_count event_id + 1) % 2 ^ 64);
        },
        [],
      )
    ]

unfoldable pub notify_event : EventsManager → ℕ → List Effect
notify_event m event_id =
    if unsupported_event event_id
    then []
    else elim (m.wait_set_data event_id) [ none ↦ [] | some w ↦ notified w ∷ [] ]

-- The copy that is returned, and the counters that are reset; `none` is the exception.
unfoldable pub take_event_status : EventsManager → ℕ → Option (EventsManager × EventStatus)
take_event_status m event_id =
    if unsupported_event event_id
    then none
    else let status = m.event_statuses event_id in
      some (
        record m {
          event_statuses = update m.event_statuses event_id (record status {
            current_count_change = pos 0;
            total_count_change = 0;
            changed = false;
          });
        },
        status,
      )

-- The five assignments of `update_event_status`; `std::max(0, change)` is the positive part.
unfoldable pub changed_status : EventStatus → ℤ → EventStatus
changed_status s current_count_change = record {
  total_count = (s.total_count + pos_part current_count_change) % 2 ^ 64;
  total_count_change = (s.total_count_change + pos_part current_count_change) % 2 ^ 64;
  current_count = add_size s.current_count current_count_change;
  current_count_change = s.current_count_change +ℤ current_count_change;
  changed = true;
}

-- The first of its three critical sections, that of `event_mutex_`.
unfoldable pub write_status : EventsManager → ℕ → ℤ → EventsManager
unfolding changed_status
write_status m event_id current_count_change = record m {
  event_statuses =
      update m.event_statuses event_id
        (changed_status (m.event_statuses event_id) current_count_change);
}

-- The three critical sections one after another, with no other call in between: the status, the
-- callback, and the notification of a wait set.
unfoldable pub update_event_status : EventsManager → ℕ → ℤ → EventsManager × List Effect
unfolding write_status trigger_event_callback notify_event
update_event_status m event_id current_count_change =
    if unsupported_event event_id
    then (m, [])
    else let (m', calls) =
        trigger_event_callback (write_status m event_id current_count_change) event_id in
      (m', calls ++ notify_event m' event_id)

unfoldable pub queue_has_data_and_attach_condition_if_not :
    EventsManager → ℕ → ℕ → EventsManager × Bool
queue_has_data_and_attach_condition_if_not m event_id wait_set =
    if unsupported_event event_id
    then (m, false)
    else if (m.event_statuses event_id).changed
    then (m, true)
    else (record m { wait_set_data = update m.wait_set_data event_id (some wait_set) }, false)

unfoldable pub detach_condition_and_event_queue_is_empty : EventsManager → ℕ → EventsManager × Bool
detach_condition_and_event_queue_is_empty m event_id =
    if unsupported_event event_id then (m, true) else (
      record m { wait_set_data = update m.wait_set_data event_id none },
      not (m.event_statuses event_id).changed,
    )
