-- ===== src/Subscription/Queue.antt =====
-- The queue of a subscription of detail/rmw_subscription_data.cpp keeps the newest messages in order,
-- and no message arrives unnoticed by a wait set.
use rmw_zenoh.Common.{
  ℕ, zero, suc, ◌+◌, ◌-◌, ◌≤◌, ◌<◌, ◌≡◌, ◌≢◌, refl, sym, ap, ◌∙◌, false, List, [], ◌∷◌, ◌++◌, some,
  leb, arith, length, length-append, is_empty, append_assoc, append-nil, if◌then◌else◌, Has,
  Has-append_right, inl,
}
use rmw_zenoh.Common.{nat_eq}
use rmw_zenoh.Common.Map.{find}
use rmw_zenoh.Qos.{History}
use rmw_zenoh.Liveliness.Gid.{Hashes, hash_gid}
use rmw_zenoh.Event.{Effect, notified, trigger_callback}
use rmw_zenoh.Subscription.{
  Message, SubscriptionData, pop_front, discard_oldest, add_new_message, notify, messages_lost,
  report_lost, queue_has_data_and_attach, detach_and_queue_is_empty,
}

-- Messages that arrive one after another.
unfoldable pub add_all : Hashes → List Message → SubscriptionData → SubscriptionData
add_all h [] s = s
add_all h (m ∷ ms) s = add_all h ms (add_new_message h m s).0

-- All but the first messages of a list.
unfoldable pub drop : ℕ → List Message → List Message
drop zero ms = ms
drop (suc n) [] = []
drop (suc n) (m ∷ ms) = drop n ms

-- The last messages of a list.
abbrev pub last : ℕ → List Message → List Message
last n ms = drop (length ms - n) ms

queue-add :
    (h : Hashes) (m : Message) (s : SubscriptionData)
    → s.is_shutdown ≡ false
    → (add_new_message h m s).0.message_queue ≡ discard_oldest s ++ m ∷ []
unfolding add_new_message
queue-add h m s e = ground arith

history-add :
    (h : Hashes) (m : Message) (s : SubscriptionData)
    → (add_new_message h m s).0.history ≡ s.history
unfolding add_new_message
history-add h m s = ground arith

depth-add :
    (h : Hashes) (m : Message) (s : SubscriptionData) → (add_new_message h m s).0.depth ≡ s.depth
unfolding add_new_message
depth-add h m s = ground arith

pub is_shutdown-add :
    (h : Hashes) (m : Message) (s : SubscriptionData)
    → (add_new_message h m s).0.is_shutdown ≡ s.is_shutdown
unfolding add_new_message
is_shutdown-add h m s = ground arith

drop-zero : (n : ℕ) (ms : List Message) → n ≡ 0 → drop n ms ≡ ms
unfolding drop
drop-zero zero ms h = refl
drop-zero (suc n) ms h = ground arith

drop-cons : (n k : ℕ) (x : Message) (xs : List Message) → n ≡ suc k → drop n (x ∷ xs) ≡ drop k xs
unfolding drop
drop-cons n k x xs h = ap (λ i. drop i (x ∷ xs)) h

length-append_cons :
    (xs : List Message) (m : Message) (ms : List Message)
    → length (xs ++ m ∷ ms) ≡ length xs + suc (length ms)
length-append_cons xs m ms = omega (arith, length-append xs (m ∷ ms))

abbrev kept : ℕ → List Message → List Message
kept depth q = if leb depth (length q) then pop_front q else q

kept-length :
    (depth : ℕ) (q : List Message)
    → 0 < depth
    → length q ≤ depth
    → suc (length (kept depth q)) ≤ depth
kept-length depth [] p h = ground arith
kept-length depth (x ∷ q) p h = ground arith

last-kept :
    (depth : ℕ) (q : List Message) (m : Message) (ms : List Message)
    → 0 < depth
    → length q ≤ depth
    → last depth (kept depth q ++ m ∷ ms) ≡ last depth (q ++ m ∷ ms)
last-kept depth [] m ms p h = ground arith
last-kept depth (x ∷ q) m ms p h =
    let l = length-append_cons q m ms in
    let rest = q ++ m ∷ ms in
    ground (arith, l, drop-cons (suc (length rest) - depth) (length rest - depth) x rest)

discard_oldest-kept :
    (s : SubscriptionData)
    → s.history ≢ History.keep_all
    → discard_oldest s ≡ kept s.depth s.message_queue
unfolding discard_oldest
discard_oldest-kept s h = ground arith

-- While the subscription is not shut down and does not keep all messages, its queue is the last
-- `depth` of the messages that were there and that have arrived, in their order; the depth is not 0
-- and the queue was not longer to begin with.
pub add_all-keep_last :
    (h : Hashes) (ms : List Message) (s : SubscriptionData)
    → s.is_shutdown ≡ false
    → s.history ≢ History.keep_all
    → 0 < s.depth
    → length s.message_queue ≤ s.depth
    → (add_all h ms s).message_queue ≡ last s.depth (s.message_queue ++ ms)
unfolding add_all
add_all-keep_last h [] s up keep p l = sym (
    ap (λ q. last s.depth q) (append-nil s.message_queue)
    ∙ drop-zero (length s.message_queue - s.depth) s.message_queue (omega arith))
add_all-keep_last h (m ∷ ms) s up keep p l =
    let s' = (add_new_message h m s).0 in
    let d = depth-add h m s in
    let q = queue-add h m s up ∙ ap (λ x. x ++ m ∷ []) (discard_oldest-kept s keep) in
    let k = kept s.depth s.message_queue in
    let shorter : length s'.message_queue ≤ s'.depth = omega (
      arith,
      d,
      ap (λ x. length x) q,
      length-append_cons k m [],
      kept-length s.depth s.message_queue p l,
    ) in
    add_all-keep_last h ms s' (is_shutdown-add h m s ∙ up) (λ e. keep (sym (history-add h m s) ∙ e))
      (omega (arith, d)) shorter
    ∙ ap (λ n. last n (s'.message_queue ++ ms)) d
    ∙ ap (λ x. last s.depth (x ++ ms)) q
    ∙ ap (λ x. last s.depth x) (append_assoc k (m ∷ []) ms)
    ∙ last-kept s.depth s.message_queue m ms p l

discard_oldest-keep_all :
    (s : SubscriptionData) → s.history ≡ History.keep_all → discard_oldest s ≡ s.message_queue
unfolding discard_oldest
discard_oldest-keep_all s h = ground arith

-- A subscription that keeps all messages and is not shut down loses none, and keeps their order.
pub add_all-keep_all :
    (h : Hashes) (ms : List Message) (s : SubscriptionData)
    → s.is_shutdown ≡ false
    → s.history ≡ History.keep_all
    → (add_all h ms s).message_queue ≡ s.message_queue ++ ms
unfolding add_all
add_all-keep_all h [] s up keep = sym (append-nil s.message_queue)
add_all-keep_all h (m ∷ ms) s up keep =
    let s' = (add_new_message h m s).0 in
    add_all-keep_all h ms s' (is_shutdown-add h m s ∙ up) (history-add h m s ∙ keep)
    ∙ ap (λ x. x ++ ms)
        (queue-add h m s up ∙ ap (λ x. x ++ m ∷ []) (discard_oldest-keep_all s keep))
    ∙ append_assoc s.message_queue (m ∷ []) ms

waits-add :
    (h : Hashes) (m : Message) (s : SubscriptionData)
    → (add_new_message h m s).0.wait_set_data ≡ s.wait_set_data
unfolding add_new_message
waits-add h m s = ground arith

notified_last : (w : ℕ) (xs : List Effect) → Has (notified w) (xs ++ notify (some w))
notified_last w xs = Has-append_right (notified w) xs (notify (some w)) (inl refl)

notified-add :
    (h : Hashes) (m : Message) (s : SubscriptionData) (w : ℕ)
    → s.is_shutdown ≡ false
    → s.wait_set_data ≡ some w
    → Has (notified w) (add_new_message h m s).1
unfolding add_new_message
notified-add h m s w up e =
    let lost =
      messages_lost (find (hash_gid h m.gid) s.last_known_published_msg) m.sequence_number in
    rw (up, e)
      (notified_last w
        ((report_lost lost s.events_mgr).1 ++ (trigger_callback s.data_callback_mgr).1))

empty-last : (xs : List Message) (m : Message) → is_empty (xs ++ m ∷ []) ≡ false
empty-last [] m = refl
empty-last (x ∷ xs) m = refl

attached-wait :
    (w : ℕ) (s s' : SubscriptionData)
    → queue_has_data_and_attach w s ≡ (s', false)
    → (s'.wait_set_data ≡ some w) × (s'.is_shutdown ≡ s.is_shutdown)
unfolding queue_has_data_and_attach
attached-wait w s s' h = (ground arith, ground arith)

-- A wait set that has been attached to the empty queue of a subscription that is not shut down is
-- notified by each message that arrives, and finds the queue not empty when it detaches.
pub attach_no_lost_message :
    (h : Hashes) (w : ℕ) (s s' : SubscriptionData) (m : Message)
    → s.is_shutdown ≡ false
    → queue_has_data_and_attach w s ≡ (s', false)
    → Has (notified w) (add_new_message h m s').1
      × ((detach_and_queue_is_empty (add_new_message h m s').0).1 ≡ false)
unfolding detach_and_queue_is_empty
attach_no_lost_message h w s s' m up attach =
    let (waits, same) = attached-wait w s s' attach in
    let up' = same ∙ up in
    (
      notified-add h m s' w up' waits,
      ap (λ q. is_empty q) (queue-add h m s' up') ∙ empty-last (discard_oldest s') m,
    )
