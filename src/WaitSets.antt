-- ===== src/WaitSets.antt =====
-- What rmw_wait of rmw_zenoh.cpp waits for: `GuardCondition` of detail/guard_condition.cpp, and the
-- loops over arrays of guard conditions, events, subscriptions, services and clients, by an interface
-- that each of these fills. Each call of an entity is one critical section of its mutex.
pub mod Kinds
pub mod Wait
pub mod Arrays
pub mod Ready
mod Tests
use rmw_zenoh.Common.{
  ℕ, ◌≡◌, ◌↔◌, Bool, true, false, ◌||◌, List, [], ◌∷◌, Option, none, some, if◌then◌else◌,
}
use rmw_zenoh.Event.{Effect}
use rmw_zenoh.Subscription.{notify}

pub record GuardCondition : Type 0 where
  pub has_triggered : Bool
  pub wait_set_data : Option ℕ

-- The constructor.
abbrev pub new_guard_condition : GuardCondition
new_guard_condition = record { has_triggered = false; wait_set_data = none }

unfoldable pub trigger : GuardCondition → GuardCondition × List Effect
trigger gc = (record gc { has_triggered = true }, notify gc.wait_set_data)

unfoldable pub check_and_attach_condition_if_not : ℕ → GuardCondition → GuardCondition × Bool
check_and_attach_condition_if_not w gc =
    if gc.has_triggered then (gc, true) else (record gc { wait_set_data = some w }, false)

unfoldable pub detach_condition_and_is_trigger_set : GuardCondition → GuardCondition × Bool
detach_condition_and_is_trigger_set gc =
    (record { has_triggered = false; wait_set_data = none }, gc.has_triggered)

-- What the last part of `rmw_wait` finds of an entity.
pub data Status : Type 0 where
  ready empty ignored : Status

abbrev pub is_ready : Status → Bool
is_ready ready = true
is_ready _ = false

-- What `rmw_wait` asks of an entity: whether it has data, with the wait set attached if not; and, at
-- the end, to detach and to say what it has.
pub record Waitable (S : Type 0) : Type 0 where
  pub attach : ℕ → S → S × Bool
  pub detach : S → S × Status
  -- the wait set that the entity notifies
  pub attached : S → Option ℕ
  -- an entity that can be waited for at all
  pub can_wait : S → Bool
  pub attach_status : (w : ℕ) (s : S) → (detach (attach w s).0).1 ≡ (detach s).1
  pub ready_iff : (w : ℕ) (s : S) → ((attach w s).1 ≡ true) ↔ ((detach s).1 ≡ ready)
  pub attach_lem :
      (w : ℕ) (s : S)
      → can_wait (attach w s).0 ≡ true
      → (attach w s).1 ≡ false
      → attached (attach w s).0 ≡ some w

-- An entry of an array: a null pointer, a pointer to an entity, or one that has been set to null, with
-- the entity that it pointed to.
pub data Slot (S : Type 0) : Type 0 where
  null : Slot S
  full : S → Slot S
  cleared : S → Slot S

module _ {S : Type 0} ⦃e : Waitable S⦄ where
  -- A loop of `check_and_attach_condition` over pointers that may be null, which ends at the first entity with data.
  unfoldable pub attach_array : ℕ → List (Slot S) → List (Slot S) × Bool
  attach_array w [] = ([], false)
  attach_array w (full s ∷ slots) =
      let rest = attach_array w slots in
      if (e.attach w s).1
      then (full (e.attach w s).0 ∷ slots, true)
      else (full (e.attach w s).0 ∷ rest.0, rest.1)
  attach_array w (slot ∷ slots) = let (rest, found) = attach_array w slots in (slot ∷ rest, found)

  abbrev pub slot_after : S × Status → Slot S
  slot_after (s, empty) = cleared s
  slot_after (s, _) = full s

  -- A loop of the last part of `rmw_wait`.
  unfoldable pub detach_array : List (Slot S) → List (Slot S) × Bool
  detach_array [] = ([], false)
  detach_array (full s ∷ slots) =
      let (rest, found) = detach_array slots in
      (slot_after (e.detach s) ∷ rest, is_ready (e.detach s).1 || found)
  detach_array (slot ∷ slots) = let (rest, found) = detach_array slots in (slot ∷ rest, found)

  -- The same loops over an array whose pointers are read without a test for null, as those to events
  -- are; `none` is the use of a null pointer.
  unfoldable pub attach_unchecked : ℕ → List (Slot S) → Option (List (Slot S) × Bool)
  attach_unchecked w [] = some ([], false)
  attach_unchecked w (full s ∷ slots) =
      let rest = attach_unchecked w slots in
      if (e.attach w s).1 then some (full (e.attach w s).0 ∷ slots, true) else elim rest [
        | none ↦ none
        | some (slots', found) ↦ some (full (e.attach w s).0 ∷ slots', found)
      ]
  attach_unchecked w (_ ∷ slots) = none

  unfoldable pub detach_unchecked : List (Slot S) → Option (List (Slot S) × Bool)
  detach_unchecked [] = some ([], false)
  detach_unchecked (full s ∷ slots) = elim (detach_unchecked slots) [
    | none ↦ none
    | some (rest, found) ↦ some (slot_after (e.detach s) ∷ rest, is_ready (e.detach s).1 || found)
  ]
  detach_unchecked (_ ∷ slots) = none
