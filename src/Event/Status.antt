-- ===== src/Event/Status.antt =====
-- `update_event_status` and `take_event_status` of detail/event.cpp: what is taken is what has been
-- counted since the last take.
use rmw_zenoh.Common.{
  ℕ, ◌+◌, ◌^◌, ◌%◌, ◌<◌, ◌≤◌, ◌≡◌, ◌≢◌, ◌∙◌, refl, sym, ap, true, false, not, List, [], ◌∷◌, some,
  arith, nat_eq, is_empty,
}
use rmw_zenoh.Common.Int.{ℤ, pos, pos_part, ◌+ℤ◌, +ℤ_assoc, +ℤ-zero, zero-+ℤ, sum_ℤ}
use rmw_zenoh.Event.{
  EventStatus, EventsManager, update, event_id_max, changed_status, trigger_event_callback,
  update_event_status, write_status, take_event_status,
}

-- Updates of one event.
abbrev pub updates : EventsManager → ℕ → List ℤ → EventsManager
updates m i [] = m
updates m i (c ∷ cs) = updates (update_event_status m i c).0 i cs

abbrev pub status_updates : EventStatus → List ℤ → EventStatus
status_updates s [] = s
status_updates s (c ∷ cs) = status_updates (changed_status s c) cs

-- The positive parts, which are what the total counts.
abbrev pub gains : List ℤ → ℕ
gains [] = 0
gains (c ∷ cs) = pos_part c + gains cs

statuses-trigger :
    (m : EventsManager) (i : ℕ) → (trigger_event_callback m i).0.event_statuses ≡ m.event_statuses
unfolding trigger_event_callback
statuses-trigger m i = ground arith

statuses-update_event_status :
    (m : EventsManager) (i : ℕ) (c : ℤ)
    → i ≤ event_id_max
    → (update_event_status m i c).0.event_statuses
      ≡ update m.event_statuses i (changed_status (m.event_statuses i) c)
unfolding update_event_status write_status
statuses-update_event_status m i c h = ground arith

status-update_event_status :
    (m : EventsManager) (i : ℕ) (c : ℤ)
    → i ≤ event_id_max
    → (update_event_status m i c).0.event_statuses i ≡ changed_status (m.event_statuses i) c
status-update_event_status m i c h = rw (statuses-update_event_status m i c h) (ground arith)

status-updates :
    (m : EventsManager) (i : ℕ) (cs : List ℤ)
    → i ≤ event_id_max
    → (updates m i cs).event_statuses i ≡ status_updates (m.event_statuses i) cs
status-updates m i [] h = refl
status-updates m i (c ∷ cs) h =
    status-updates (update_event_status m i c).0 i cs h
    ∙ ap (λ s. status_updates s cs) (status-update_event_status m i c h)

other-update_event_status :
    (m : EventsManager) (i j : ℕ) (c : ℤ)
    → i ≢ j
    → (update_event_status m i c).0.event_statuses j ≡ m.event_statuses j
unfolding update_event_status write_status
other-update_event_status m i j c h = ground (arith)

-- Another event's status is not touched.
pub updates_other :
    (m : EventsManager) (i j : ℕ) (cs : List ℤ)
    → i ≢ j
    → (updates m i cs).event_statuses j ≡ m.event_statuses j
updates_other m i j [] h = refl
updates_other m i j (c ∷ cs) h =
    updates_other (update_event_status m i c).0 i j cs h ∙ other-update_event_status m i j c h

total_changed :
    (s : EventStatus) (c : ℤ)
    → (changed_status s c).total_count ≡ (s.total_count + pos_part c) % 2 ^ 64
unfolding changed_status
total_changed s c = refl

change_changed :
    (s : EventStatus) (c : ℤ)
    → (changed_status s c).total_count_change ≡ (s.total_count_change + pos_part c) % 2 ^ 64
unfolding changed_status
change_changed s c = refl

stays_changed :
    (s : EventStatus) (cs : List ℤ) → s.changed ≡ true → (status_updates s cs).changed ≡ true
stays_changed s [] h = h
stays_changed s (c ∷ cs) h = stays_changed (changed_status s c) cs (unfold changed_status in refl)

-- What a take leaves.
abbrev reset : EventStatus → EventStatus
reset s = record s { current_count_change = pos 0; total_count_change = 0; changed = false }

-- The manager that a take leaves.
abbrev after_take : EventsManager → ℕ → EventsManager
after_take m i = record m {
  event_statuses = update m.event_statuses i (reset (m.event_statuses i));
}

take_lem :
    (m : EventsManager) (i : ℕ)
    → i ≤ event_id_max
    → take_event_status m i ≡ some (after_take m i, m.event_statuses i)
unfolding take_event_status
take_lem m i h = ground arith

taken-status :
    (m m' : EventsManager) (i : ℕ) (s : EventStatus)
    → i ≤ event_id_max
    → take_event_status m i ≡ some (m', s)
    → m'.event_statuses i ≡ reset s
unfolding take_event_status
taken-status m m' i s h took = ground arith

total-status_updates :
    (s : EventStatus) (cs : List ℤ)
    → s.total_count < 2 ^ 64
    → (status_updates s cs).total_count ≡ (s.total_count + gains cs) % 2 ^ 64
total-status_updates s [] h = omega arith
total-status_updates s (c ∷ cs) h = omega (
  arith,
  total-status_updates (changed_status s c) cs (unfold changed_status in omega arith),
  total_changed s c,
)

change-status_updates :
    (s : EventStatus) (cs : List ℤ)
    → s.total_count_change < 2 ^ 64
    → (status_updates s cs).total_count_change ≡ (s.total_count_change + gains cs) % 2 ^ 64
change-status_updates s [] h = omega arith
change-status_updates s (c ∷ cs) h = omega (
  arith,
  change-status_updates (changed_status s c) cs (unfold changed_status in omega arith),
  change_changed s c,
)

current-status_updates :
    (s : EventStatus) (cs : List ℤ)
    → (status_updates s cs).current_count_change ≡ s.current_count_change +ℤ sum_ℤ cs
unfolding sum_ℤ
current-status_updates s [] = sym (+ℤ-zero s.current_count_change)
current-status_updates s (c ∷ cs) =
    current-status_updates (changed_status s c) cs
    ∙ (unfold changed_status in +ℤ_assoc s.current_count_change c (sum_ℤ cs))

changed-status_updates :
    (s : EventStatus) (cs : List ℤ)
    → s.changed ≡ false
    → (status_updates s cs).changed ≡ not (is_empty cs)
changed-status_updates s [] h = h
changed-status_updates s (c ∷ cs) h =
    stays_changed (changed_status s c) cs (unfold changed_status in refl)

-- A take of a supported event returns, of each counter, exactly what the updates of its event have
-- added since the take before it, and the total over all time, modulo 2 ^ 64.
pub take_event_status-updates :
    (m m' : EventsManager) (i : ℕ) (cs : List ℤ) (before : EventStatus)
    → i ≤ event_id_max
    → before.total_count < 2 ^ 64
    → take_event_status m i ≡ some (m', before)
    → (m'' : EventsManager) × (status : EventStatus) × (take_event_status (updates m' i cs) i
        ≡ some (m'', status))
      × (status.total_count ≡ (before.total_count + gains cs) % 2 ^ 64)
      × (status.total_count_change ≡ gains cs % 2 ^ 64)
      × (status.current_count_change ≡ sum_ℤ cs)
      × (status.changed ≡ not (is_empty cs))
take_event_status-updates m m' i cs before h fits took =
    let fresh = taken-status m m' i before h took in
    let eq = status-updates m' i cs h ∙ ap (λ s. status_updates s cs) fresh in
    (
      after_take (updates m' i cs) i,
      (updates m' i cs).event_statuses i,
      take_lem (updates m' i cs) i h,
      ap (λ s. s.total_count) eq ∙ total-status_updates (reset before) cs fits,
      ap (λ s. s.total_count_change) eq
          ∙ change-status_updates (reset before) cs (omega arith)
          ∙ omega arith,
      ap (λ s. s.current_count_change) eq
          ∙ current-status_updates (reset before) cs
          ∙ zero-+ℤ (sum_ℤ cs),
      ap (λ s. s.changed) eq ∙ changed-status_updates (reset before) cs refl,
    )
