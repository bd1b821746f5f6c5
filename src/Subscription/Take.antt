-- ===== src/Subscription/Take.antt =====
-- Takes from the queue of a subscription of detail/rmw_subscription_data.cpp.
use rmw_zenoh.Common.{
  ℕ, ◌+◌, ◌^◌, ◌%◌, ◌<◌, ◌≡◌, refl, ap, ◌∙◌, Bool, true, false, List, [], ◌∷◌, Option, none, some,
  arith, length, is_empty, All, if◌then◌else◌,
}
use rmw_zenoh.Common.Text.{Bytes}
use rmw_zenoh.Subscription.{
  Message, SubscriptionData, Taken, taken, nothing, failed, info_of, take_popped, take_front,
  take_one_message,
}

module _ {ℓ} {A : Type ℓ} (deserialize : Bytes → Option A) where
  -- Takes with information, one for each element of a list.
  unfoldable pub take_all : List Message → SubscriptionData → SubscriptionData × List (Taken A)
  take_all [] s = (s, [])
  take_all (_ ∷ turns) s =
      let (s', t) = take_one_message deserialize true s in
      let (s'', ts) = take_all turns s' in (s'', t ∷ ts)

  -- Messages in order, with numbers of reception that go up from a number.
  abbrev pub in_turn : (Message → A) → ℕ → List Message → List (Taken A)
  in_turn value n [] = []
  in_turn value n (m ∷ ms) = taken (value m) (some (info_of m n)) ∷ in_turn value (n + 1) ms

  take-front :
      (value : Message → A) (m : Message) (ms : List Message) (s : SubscriptionData)
      → s.message_queue ≡ m ∷ ms
      → s.is_shutdown ≡ false
      → is_empty m.payload ≡ false
      → deserialize m.payload ≡ some (value m)
      → s.reception_sn + 1 < 2 ^ 64
      → take_one_message deserialize true s ≡ (
        record s { message_queue = ms; reception_sn = s.reception_sn + 1 },
        taken (value m) (some (info_of m s.reception_sn)),
      )
  unfolding take_one_message take_front take_popped
  take-front value m ms s q up full good fits =
      let s' = record s { message_queue = ms } in
      let info = info_of m s.reception_sn in
      ap (λ x. take_front deserialize true x s) q
      ∙ ap (λ b. if b then (s, nothing) else take_popped deserialize true m s') up
      ∙ ap
          (λ (c : Bool × Option A). if c.0 then (s', failed) else elim c.1 [
            | none ↦ (s', failed)
            | some a ↦
                (record s' { reception_sn = (s.reception_sn + 1) % 2 ^ 64 }, taken a (some info))
          ])
          (λ i. (full i, good i))
      ∙ ap (λ n. (record s' { reception_sn = n }, taken (value m) (some info))) (omega arith)

  -- When each message in the queue has data that can be deserialized and the subscription is not shut
  -- down, taking as often as there are messages gives them all, in the order of the queue, numbers
  -- the receptions without a gap, and leaves the queue empty; the counter does not wrap around.
  pub take_all-in_turn :
      (value : Message → A) (ms : List Message) (s : SubscriptionData)
      → s.message_queue ≡ ms
      → s.is_shutdown ≡ false
      → All (λ m. is_empty m.payload ≡ false × (deserialize m.payload ≡ some (value m))) ms
      → s.reception_sn + length ms < 2 ^ 64
      → take_all ms s ≡ (
        record s { message_queue = []; reception_sn = s.reception_sn + length ms },
        in_turn value s.reception_sn ms,
      )
  unfolding take_all
  take_all-in_turn value [] s q up good fits =
      λ i. (record s { message_queue = q i; reception_sn = grow i }, [])
    where
      grow : s.reception_sn ≡ s.reception_sn + length {A = Message} []
      grow = omega arith
  take_all-in_turn value (m ∷ ms) s q up ((full, read), good) fits =
      ap (λ (r : SubscriptionData × Taken A). ((take_all ms r.0).0, r.1 ∷ (take_all ms r.0).1))
        (take-front value m ms s q up full read (omega arith))
      ∙ ap
          (λ (r : SubscriptionData × List (Taken A)).
            (r.0, taken (value m) (some (info_of m s.reception_sn)) ∷ r.1))
          (take_all-in_turn value ms
            (record s { message_queue = ms; reception_sn = s.reception_sn + 1 }) refl up good
            (omega arith))
      ∙ ap
          (λ n. (
            record s { message_queue = []; reception_sn = n },
            in_turn value s.reception_sn (m ∷ ms),
          ))
          (omega arith)
