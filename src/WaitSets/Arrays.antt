-- ===== src/WaitSets/Arrays.antt =====
-- What the loops of rmw_wait of rmw_zenoh.cpp do to one array of entities.
use rmw_zenoh.Common.{
  ℕ, ◌≡◌, ◌↔◌, refl, ap, Bool, true, false, ◌||◌, List, [], ◌∷◌, some, arith, if-branches,
}
use rmw_zenoh.WaitSets.{
  Status, ready, empty, ignored, is_ready, Waitable, Slot, null, full, cleared, attach_array,
  detach_array, attach_unchecked, detach_unchecked,
}
use rmw_zenoh.WaitSets.Kinds.{
  guard_condition_waitable, event_waitable, subscription_waitable, service_waitable,
  client_waitable,
}

ready_of : (b : Bool) (st : Status) → ((b ≡ true) ↔ (st ≡ ready)) → b ≡ is_ready st
ready_of true ready h = refl
ready_of true empty h = ground (arith, h.0 refl)
ready_of true ignored h = ground (arith, h.0 refl)
ready_of false ready h = h.1 refl
ready_of false empty h = refl
ready_of false ignored h = refl

module _ {S : Type 0} ⦃e : Waitable S⦄ where
  -- An entity of the array has data.
  abbrev pub any_ready : List (Slot S) → Bool
  any_ready [] = false
  any_ready (full s ∷ slots) = is_ready (e.detach s).1 || any_ready slots
  any_ready (slot ∷ slots) = any_ready slots

  -- Each entity that can be waited for is attached.
  abbrev pub IsAttached : ℕ → List (Slot S) → Type 0
  IsAttached w [] = Unit
  IsAttached w (full s ∷ slots) = (e.can_wait s ≡ true → e.attached s ≡ some w) × IsAttached w slots
  IsAttached w (slot ∷ slots) = IsAttached w slots

  pub attach_array-found :
      (w : ℕ) (slots : List (Slot S)) → (attach_array w slots).1 ≡ any_ready slots
  unfolding attach_array
  attach_array-found w [] = refl
  attach_array-found w (full s ∷ slots) = ground (
    arith,
    ready_of (e.attach w s).1 (e.detach s).1 (e.ready_iff w s),
    attach_array-found w slots,
  )
  attach_array-found w (null ∷ slots) = attach_array-found w slots
  attach_array-found w (cleared s ∷ slots) = attach_array-found w slots

  pub any_ready-attach :
      (w : ℕ) (slots : List (Slot S)) → any_ready (attach_array w slots).0 ≡ any_ready slots
  unfolding attach_array
  any_ready-attach w [] = refl
  any_ready-attach w (full s ∷ slots) =
      ground (arith, e.attach_status w s, any_ready-attach w slots)
  any_ready-attach w (null ∷ slots) = any_ready-attach w slots
  any_ready-attach w (cleared s ∷ slots) = any_ready-attach w slots

  pub attach_array-IsAttached :
      (w : ℕ) (slots : List (Slot S))
      → (attach_array w slots).1 ≡ false
      → IsAttached w (attach_array w slots).0
  unfolding attach_array
  attach_array-IsAttached w [] h = tt
  attach_array-IsAttached w (full s ∷ slots) h =
      if-branches (λ (r : List (Slot S) × Bool). r.1 ≡ false → IsAttached w r.0) (e.attach w s).1
        (full (e.attach w s).0 ∷ slots, true)
        (full (e.attach w s).0 ∷ (attach_array w slots).0, (attach_array w slots).1)
        (λ _ lacks. absurd (ground (arith, lacks)))
        (λ lacks h'. (λ can. e.attach_lem w s can lacks, attach_array-IsAttached w slots h')) h
  attach_array-IsAttached w (null ∷ slots) h = attach_array-IsAttached w slots h
  attach_array-IsAttached w (cleared s ∷ slots) h = attach_array-IsAttached w slots h

  pub detach_array-found : (slots : List (Slot S)) → (detach_array slots).1 ≡ any_ready slots
  unfolding detach_array
  detach_array-found [] = refl
  detach_array-found (full s ∷ slots) =
      ap (λ b. is_ready (e.detach s).1 || b) (detach_array-found slots)
  detach_array-found (null ∷ slots) = detach_array-found slots
  detach_array-found (cleared s ∷ slots) = detach_array-found slots

  -- No pointer is null.
  abbrev pub no_null : List (Slot S) → Bool
  no_null [] = true
  no_null (full s ∷ slots) = no_null slots
  no_null (slot ∷ slots) = false

  pub no_null-attach :
      (w : ℕ) (slots : List (Slot S))
      → no_null slots ≡ true
      → no_null (attach_array w slots).0 ≡ true
  unfolding attach_array
  no_null-attach w [] h = refl
  no_null-attach w (full s ∷ slots) h = ground (arith, h, no_null-attach w slots)
  no_null-attach w (null ∷ slots) h = ground (arith, h)
  no_null-attach w (cleared s ∷ slots) h = ground (arith, h)

  pub attach_unchecked_lem :
      (w : ℕ) (slots : List (Slot S))
      → no_null slots ≡ true
      → attach_unchecked w slots ≡ some (attach_array w slots)
  unfolding attach_unchecked attach_array
  attach_unchecked_lem w [] h = refl
  attach_unchecked_lem w (full s ∷ slots) h = ground (arith, h, attach_unchecked_lem w slots)
  attach_unchecked_lem w (null ∷ slots) h = ground (arith, h)
  attach_unchecked_lem w (cleared s ∷ slots) h = ground (arith, h)

  pub detach_unchecked_lem :
      (slots : List (Slot S))
      → no_null slots ≡ true
      → detach_unchecked slots ≡ some (detach_array slots)
  unfolding detach_unchecked detach_array
  detach_unchecked_lem [] h = refl
  detach_unchecked_lem (full s ∷ slots) h = ground (arith, h, detach_unchecked_lem slots)
  detach_unchecked_lem (null ∷ slots) h = ground (arith, h)
  detach_unchecked_lem (cleared s ∷ slots) h = ground (arith, h)
