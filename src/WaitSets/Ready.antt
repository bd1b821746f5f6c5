-- ===== src/WaitSets/Ready.antt =====
-- rmw_wait of rmw_zenoh.cpp finds what is ready, and is woken by what becomes ready.
use rmw_zenoh.Common.{
  ℕ, ◌≡◌, refl, ap, ◌∙◌, Bool, true, false, ◌||◌, Option, none, some, arith, if◌then◌else◌,
}
use rmw_zenoh.Qos.{RmwTime, RmwRet}
use rmw_zenoh.WaitSets.{attach_array, detach_array}
use rmw_zenoh.WaitSets.Kinds.{
  guard_condition_waitable, event_waitable, subscription_waitable, service_waitable,
  client_waitable,
}
use rmw_zenoh.WaitSets.Wait.{
  Entities, Waiting, attach_rest, check_and_attach_condition, Sleep, has_data, forever, sleep_for,
  begin_wait, end_wait, with_data, rmw_wait, Others, slept, wake, finish, returned, sleeping,
}
use rmw_zenoh.WaitSets.Arrays.{
  any_ready, IsAttached, attach_array-found, any_ready-attach, attach_array-IsAttached,
  detach_array-found, no_null, no_null-attach, attach_unchecked_lem, detach_unchecked_lem,
}

-- An entity has data.
abbrev pub some_ready : Entities → Bool
some_ready es =
    any_ready es.guard_conditions
    || (any_ready es.events
        || (any_ready es.subscriptions || (any_ready es.services || any_ready es.clients)))

-- Each entity that can be waited for notifies the wait set.
abbrev pub AllAttached : ℕ → Entities → Type 0
AllAttached w es =
    IsAttached w es.guard_conditions
    × IsAttached w es.events
    × IsAttached w es.subscriptions
    × IsAttached w es.services
    × IsAttached w es.clients

-- What the checks do when no event is null.
checked : ℕ → Waiting → Waiting × Bool
checked w s =
    let (guard_conditions, found) = attach_array w s.entities.guard_conditions in
    let es1 = record (s.entities) { guard_conditions = guard_conditions } in
    if found
    then (record s { entities = es1 }, true)
    else let (events, found1) = attach_array w es1.events in
      attach_rest w found1 (record s { entities = record es1 { events = events } })

check_lem :
    (w : ℕ) (s : Waiting)
    → no_null s.entities.events ≡ true
    → check_and_attach_condition w s ≡ some (checked w s)
unfolding check_and_attach_condition checked
check_lem w s h = ground (arith, attach_unchecked_lem w s.entities.events h)

checked-found : (w : ℕ) (s : Waiting) → (checked w s).1 ≡ some_ready s.entities
unfolding checked attach_rest
checked-found w s = ground (
  arith,
  attach_array-found w s.entities.guard_conditions,
  attach_array-found w s.entities.events,
  attach_array-found w s.entities.subscriptions,
  attach_array-found w s.entities.services,
  attach_array-found w s.entities.clients,
)

some_ready-checked :
    (w : ℕ) (s : Waiting) → some_ready (checked w s).0.entities ≡ some_ready s.entities
unfolding checked attach_rest
some_ready-checked w s = ground (
  arith,
  any_ready-attach w s.entities.guard_conditions,
  any_ready-attach w s.entities.events,
  any_ready-attach w s.entities.subscriptions,
  any_ready-attach w s.entities.services,
  any_ready-attach w s.entities.clients,
)

no_null-checked :
    (w : ℕ) (s : Waiting)
    → no_null s.entities.events ≡ true
    → no_null (checked w s).0.entities.events ≡ true
unfolding checked attach_rest
no_null-checked w s h = ground (arith, h, no_null-attach w s.entities.events h)

-- What the loops do when none of them finds data.
abbrev all_arrays : ℕ → Entities → Entities
all_arrays w es = record {
  guard_conditions = (attach_array w es.guard_conditions).0;
  events = (attach_array w es.events).0;
  subscriptions = (attach_array w es.subscriptions).0;
  services = (attach_array w es.services).0;
  clients = (attach_array w es.clients).0;
}

checked-missed :
    (w : ℕ) (s : Waiting)
    → some_ready s.entities ≡ false
    → (checked w s).0 ≡ record { entities = all_arrays w s.entities; triggered = false }
unfolding checked attach_rest
checked-missed w s lacks = ground (
  arith,
  attach_array-found w s.entities.guard_conditions,
  attach_array-found w s.entities.events,
  attach_array-found w s.entities.subscriptions,
  attach_array-found w s.entities.services,
  attach_array-found w s.entities.clients,
)

missed : (w : ℕ) (es : Entities) → some_ready es ≡ false → AllAttached w (all_arrays w es)
missed w es lacks = (
  attach_array-IsAttached w es.guard_conditions
      (ground (arith, attach_array-found w es.guard_conditions)),
  attach_array-IsAttached w es.events (ground (arith, attach_array-found w es.events)),
  attach_array-IsAttached w es.subscriptions
      (ground (arith, attach_array-found w es.subscriptions)),
  attach_array-IsAttached w es.services (ground (arith, attach_array-found w es.services)),
  attach_array-IsAttached w es.clients (ground (arith, attach_array-found w es.clients)),
)

-- When no event is null and no entity has data, `rmw_wait` sleeps as its timeout says, with each known
-- entity attached to the wait set and the flag of the wait set reset.
pub begin_wait-attached :
    (w : ℕ) (timeout : Option RmwTime) (s : Waiting)
    → no_null s.entities.events ≡ true
    → some_ready s.entities ≡ false
    → (s' : Waiting) × (begin_wait w timeout s ≡ some (s', sleep_for timeout))
      × (s'.triggered ≡ false)
      × AllAttached w s'.entities
unfolding begin_wait
begin_wait-attached w timeout s given lacks =
    let missing = checked-missed w s lacks in
    (
      record { entities = all_arrays w s.entities; triggered = false },
      ground (arith, check_lem w s given, checked-found w s, lacks, missing),
      refl,
      missed w s.entities lacks,
    )

all_detached : Entities → Entities
all_detached es = record {
  guard_conditions = (detach_array es.guard_conditions).0;
  events = (detach_array es.events).0;
  subscriptions = (detach_array es.subscriptions).0;
  services = (detach_array es.services).0;
  clients = (detach_array es.clients).0;
}

finish_lem :
    (s : Waiting)
    → no_null s.entities.events ≡ true
    → finish s
      ≡ returned
          (if some_ready s.entities then RmwRet.ok else RmwRet.timeout)
          (record s { entities = all_detached s.entities })
unfolding end_wait all_detached
finish_lem s given = ground (
  arith,
  detach_unchecked_lem s.entities.events given,
  detach_array-found s.entities.guard_conditions,
  detach_array-found s.entities.events,
  detach_array-found s.entities.subscriptions,
  detach_array-found s.entities.services,
  detach_array-found s.entities.clients,
)

-- No event is null, and an entity has data.
abbrev pub IsServed : Waiting → Type 0
IsServed s = (no_null s.entities.events ≡ true) × (some_ready s.entities ≡ true)

finish-ok :
    (s : Waiting)
    → IsServed s
    → finish s ≡ returned RmwRet.ok (record s { entities = all_detached s.entities })
finish-ok s (given, has) =
    finish_lem s given
    ∙ ap
        (λ b.
          returned (if b then RmwRet.ok else RmwRet.timeout)
            (record s { entities = all_detached s.entities }))
        has

rmw_wait-wake :
    (w : ℕ) (timeout : Option RmwTime) (others : Others) (s s1 : Waiting) (sleep : Sleep)
    → begin_wait w timeout s ≡ some (s1, sleep)
    → rmw_wait (with_data w) timeout others s ≡ wake others sleep (slept others sleep s1)
unfolding rmw_wait
rmw_wait-wake w timeout others s s1 sleep begins = ground (arith, begins)

-- When no event is null and an entity has data, and other threads do not take the last data away,
-- `rmw_wait` with data in its wait set does not sleep and returns OK.
pub rmw_wait-ready :
    (w : ℕ) (timeout : Option RmwTime) (others : Others) (s : Waiting)
    → IsServed s
    → ((s' : Waiting) → IsServed s' → IsServed (others.awake s'))
    → (s1 : Waiting) × (s2 : Waiting) × (begin_wait w timeout s ≡ some (s1, has_data))
      × (rmw_wait (with_data w) timeout others s ≡ returned RmwRet.ok s2)
unfolding begin_wait
rmw_wait-ready w timeout others s (given, has) keep =
    let s1 = (checked w s).0 in
    let found : checked w s ≡ (s1, true) = ap (λ b. (s1, b)) (checked-found w s ∙ has) in
    let served = keep s1 (no_null-checked w s given, some_ready-checked w s ∙ has) in
    let last = others.awake s1 in
    let s2 = record last { entities = all_detached last.entities } in
    let begins : begin_wait w timeout s ≡ some (s1, has_data) =
      ground (arith, check_lem w s given, found) in
    (s1, s2, begins, rmw_wait-wake w timeout others s s1 has_data begins ∙ finish-ok last served)

-- When no event is null and no entity has data, `rmw_wait` without a timeout returns OK if, while it sleeps
-- with each known entity attached and the flag reset, other threads notify the wait set and up to the last
-- part leave an entity with data.
pub rmw_wait-woken :
    (w : ℕ) (others : Others) (s : Waiting)
    → no_null s.entities.events ≡ true
    → some_ready s.entities ≡ false
    → ((s1 : Waiting)
        → AllAttached w s1.entities
        → s1.triggered ≡ false
        → let s2 = (others.asleep forever s1).1 in
          (s2.triggered ≡ true) × IsServed (others.awake (record s2 { triggered = false })))
    → (s' : Waiting) × (rmw_wait (with_data w) none others s ≡ returned RmwRet.ok s')
unfolding sleep_for
rmw_wait-woken w others s given lacks notify =
    let (s1, begins, reset, attached) = begin_wait-attached w none s given lacks in
    let (set, served) = notify s1 attached reset in
    let s2 = (others.asleep forever s1).1 in
    let last = others.awake (record s2 { triggered = false }) in
    (
      record last { entities = all_detached last.entities },
      rmw_wait-wake w none others s s1 forever begins
          ∙ ap (λ b. if b then finish last else sleeping) set
          ∙ finish-ok last served,
    )
