-- ===== src/Services/Service/WellFormed.antt =====
-- What holds of a service of detail/rmw_service_data.cpp between two calls, and that no call has
-- undefined behaviour.
use rmw_zenoh.Common.{
  ℕ, ◌≤◌, ◌<◌, ◌≡◌, ◌≢◌, refl, ap, ◌∙◌, sym, subst, Bool, List, [], ◌∷◌, ◌++◌, Option, none, some,
  arith, nat_eq, Option-cases, inl, inr, length, length-append, leb, Option-branches, if-branches,
  if◌then◌else◌,
}
use rmw_zenoh.Common.Text.{Bytes}
use rmw_zenoh.Common.Int.{ℤ_eq}
use rmw_zenoh.Qos.{History, RmwRet}
use rmw_zenoh.Event.{Callback, Effect, trigger_callback}
use rmw_zenoh.Subscription.{notify}
use rmw_zenoh.Liveliness.Gid.{Hashes, hash_gid}
use rmw_zenoh.Attachments.{Codec}
use rmw_zenoh.Services.{ServiceInfo, Taken, taken, take_failed, make_room, pop_front}
use rmw_zenoh.Services.Service.{
  ZenohQuery, ServiceData, RequestId, reply_to, Reply, ReplyCall, make_service, add_new_query,
  insert_query, keep_query, take_request, remove_query, send_response, set_on_new_request_callback,
  queue_has_data_and_attach, detach_and_queue_is_empty, shutdown,
}
use rmw_zenoh.Services.Service.Queries.{IsQueryMap, insert-IsQueryMap, remove-IsQueryMap}
use rmw_zenoh.Services.Service.Branches.{take_request-branches}
use rmw_zenoh.Services.Service.Run.{
  Call, arrive, take_next, respond, set_callback, attach, detach, shut_down, Seen, step, run,
}

pub record IsWellFormed (s : ServiceData) : Type 0 where
  pub depth : 0 < s.depth
  pub fits : s.history ≢ History.keep_all → length s.query_queue ≤ s.depth
  pub queries : IsQueryMap s.sequence_to_query_map

-- The option has a value, of which a predicate holds.
abbrev pub Succeeds {ℓ} : {A : Type ℓ} → (A → Type 0) → Option A → Type 0
Succeeds P none = ⊥
Succeeds P (some a) = P a

room_when_full :
    (depth : ℕ) (q : List ZenohQuery)
    → 0 < depth
    → length q ≤ depth
    → Succeeds (λ q'. length q' < depth) (if leb depth (length q) then pop_front q else some q)
room_when_full depth [] p h = ground arith
room_when_full depth (x ∷ q) p h = ground arith

weaken :
    {P Q : List ZenohQuery → Type 0} (o : Option (List ZenohQuery))
    → ((q : List ZenohQuery) → P q → Q q)
    → Succeeds P o
    → Succeeds Q o
weaken none f h = absurd h
weaken (some q) f h = f q h

room :
    (history : History) (depth : ℕ) (q : List ZenohQuery)
    → 0 < depth
    → (history ≢ History.keep_all → length q ≤ depth)
    → Succeeds (λ q'. history ≢ History.keep_all → length q' < depth) (make_room history depth q)
unfolding make_room
room History.keep_all depth q p h = λ other. absurd (other refl)
room History.system_default depth q p h =
    weaken (make_room History.system_default depth q) (λ q' f other. f)
      (room_when_full depth q p (h (ground arith)))
room History.keep_last depth q p h =
    weaken (make_room History.keep_last depth q) (λ q' f other. f)
      (room_when_full depth q p (h (ground arith)))
room History.unknown depth q p h =
    weaken (make_room History.unknown depth q) (λ q' f other. f)
      (room_when_full depth q p (h (ground arith)))

arrive-IsWellFormed :
    (q : ZenohQuery) (s : ServiceData)
    → IsWellFormed s
    → Succeeds (λ r. IsWellFormed r.0) (add_new_query q s)
unfolding add_new_query
arrive-IsWellFormed q s w =
    let enough = room s.history s.depth s.query_queue w.depth w.fits in
    let GoesOn : Option (ServiceData × List Effect) → Type 0 = Succeeds (λ r. IsWellFormed r.0) in
    if-branches GoesOn s.is_shutdown (some (s, []))
      (elim (make_room s.history s.depth s.query_queue) [
        | none ↦ none
        | some q' ↦
            let (callbacks, calls) = trigger_callback s.data_callback_mgr in
            some (
              record s { query_queue = q' ++ q ∷ []; data_callback_mgr = callbacks },
              calls ++ notify s.wait_set_data,
            )
      ])
      (λ _. w)
      (λ _.
        Option-branches GoesOn (make_room s.history s.depth s.query_queue) none _
          (λ e. subst (Succeeds _) e enough)
          (λ q' e. record {
            depth = w.depth;
            fits = λ other.
                omega (arith, length-append q' (q ∷ []), subst (Succeeds _) e enough other);
            queries = w.queries;
          }))

keep_query-IsWellFormed {ℓ} :
    {A : Type ℓ} (h : Hashes) (q : ZenohQuery) (header : ServiceInfo) (request : A)
    (s : ServiceData)
    → IsWellFormed s
    → IsWellFormed (keep_query h q header request s).0
unfolding keep_query
keep_query-IsWellFormed {A} h q header request s w =
    let g = hash_gid h header.writer_guid in
    Option-branches (λ (r : ServiceData × Taken A). IsWellFormed r.0)
      (insert_query g header.sequence_number q s.sequence_to_query_map) (s, take_failed)
      (λ m. (record s { sequence_to_query_map = m }, taken header request)) (λ _. w)
      (λ m e. record {
        depth = w.depth;
        fits = w.fits;
        queries =
            insert-IsQueryMap g header.sequence_number q s.sequence_to_query_map m e w.queries;
      })

take-IsWellFormed {ℓ} :
    {A : Type ℓ} (c : Codec) (h : Hashes) (deserialize : Bytes → Option A) (s : ServiceData)
    → IsWellFormed s
    → IsWellFormed (take_request c h deserialize s).0
take-IsWellFormed c h deserialize s w =
    take_request-branches c h deserialize (λ r. IsWellFormed r.0) s w
      (λ q rest e up.
        let w' : IsWellFormed (record s { query_queue = rest }) = record {
          depth = w.depth;
          fits = λ other. omega (arith, w.fits other, ap (λ x. length x) e);
          queries = w.queries;
        } in
        (w', w', λ header request read. keep_query-IsWellFormed h q header request _ w'))

respond-IsWellFormed :
    (c : Codec) (h : Hashes) (id : RequestId) (r : Reply) (s : ServiceData)
    → IsWellFormed s
    → IsWellFormed (send_response c h id r s).0
unfolding send_response
respond-IsWellFormed c h id r s w =
    let g = hash_gid h id.writer_guid in
    if-branches (λ (x : ServiceData × RmwRet × List ReplyCall). IsWellFormed x.0) s.is_shutdown
      (s, RmwRet.ok, []) _ (λ _. w)
      (λ _.
        Option-branches (λ (x : ServiceData × RmwRet × List ReplyCall). IsWellFormed x.0)
          (remove_query g id.sequence_number s.sequence_to_query_map) (s, RmwRet.ok, [])
          (λ p.
            let (ret, calls) = reply_to c id r p.0 in
            (record s { sequence_to_query_map = p.1 }, ret, calls))
          (λ _. w)
          (λ (q, m) e. record {
            depth = w.depth;
            fits = w.fits;
            queries =
                remove-IsQueryMap g id.sequence_number q s.sequence_to_query_map m e w.queries;
          }))

-- A service that has been made with a depth that is not 0, as `best_available_qos` leaves it.
pub make_service-IsWellFormed :
    (history : History) (depth : ℕ) → 0 < depth → IsWellFormed (make_service history depth)
unfolding make_service
make_service-IsWellFormed history depth p = record {
  depth = p;
  fits = λ _. omega arith;
  queries = (tt, tt);
}

-- The parts that the invariant reads.
abbrev SameQueries : ServiceData → ServiceData → Type 0
SameQueries s s' =
    (s'.history ≡ s.history)
    × (s'.depth ≡ s.depth)
    × (s'.query_queue ≡ s.query_queue)
    × (s'.sequence_to_query_map ≡ s.sequence_to_query_map)

same-IsWellFormed : (s s' : ServiceData) → SameQueries s s' → IsWellFormed s → IsWellFormed s'
same-IsWellFormed s s' (history, depth, queue, queries) w = record {
  depth = omega (arith, depth, w.depth);
  fits = λ other. omega (arith, depth, ap (λ q. length q) queue, w.fits (λ e. other (history ∙ e)));
  queries = subst IsQueryMap (sym queries) w.queries;
}

set_callback-same :
    (callback : Option Callback) (s : ServiceData)
    → SameQueries s (set_on_new_request_callback callback s).0
unfolding set_on_new_request_callback
set_callback-same callback s = (refl, refl, refl, refl)

attach-same : (w : ℕ) (s : ServiceData) → SameQueries s (queue_has_data_and_attach w s).0
unfolding queue_has_data_and_attach
attach-same w s = ground arith

detach-same : (s : ServiceData) → SameQueries s (detach_and_queue_is_empty s).0
unfolding detach_and_queue_is_empty
detach-same s = (refl, refl, refl, refl)

shutdown-same : (t q : Bool) (s : ServiceData) → SameQueries s (shutdown t q s).0
unfolding shutdown
shutdown-same t q s = ground arith

module _ {ℓ} {A : Type ℓ} (c : Codec) (h : Hashes) (deserialize : Bytes → Option A) where
  step-IsWellFormed :
      (x : Call) (s : ServiceData)
      → IsWellFormed s
      → Succeeds (λ r. IsWellFormed r.0) (step c h deserialize x s)
  unfolding step
  step-IsWellFormed (arrive q) s w =
      Option-branches (λ (o : Option (ServiceData × List Seen)). Succeeds (λ r. IsWellFormed r.0) o)
        (add_new_query q s) none (λ p. some (p.0, []))
        (λ e. subst (Succeeds (λ r. IsWellFormed r.0)) e (arrive-IsWellFormed q s w))
        (λ p e. subst (Succeeds (λ r. IsWellFormed r.0)) e (arrive-IsWellFormed q s w))
  step-IsWellFormed take_next s w = take-IsWellFormed c h deserialize s w
  step-IsWellFormed (respond id r) s w = respond-IsWellFormed c h id r s w
  step-IsWellFormed (set_callback callback) s w =
      same-IsWellFormed s _ (set_callback-same callback s) w
  step-IsWellFormed (attach i) s w = same-IsWellFormed s _ (attach-same i s) w
  step-IsWellFormed detach s w = same-IsWellFormed s _ (detach-same s) w
  step-IsWellFormed (shut_down t q) s w = same-IsWellFormed s _ (shutdown-same t q s) w

  -- From a well-formed service, no calls have undefined behaviour, and they leave it well-formed: the
  -- depth is not 0, the queue is not longer than the depth unless all queries are kept, and each client
  -- that has requests waiting has one entry of the map, which is not empty and holds each number once.
  pub run-IsWellFormed :
      (xs : List Call) (s : ServiceData)
      → IsWellFormed s
      → (r : ServiceData × List Seen) × (run c h deserialize xs s ≡ some r) × IsWellFormed r.0
  unfolding run
  run-IsWellFormed [] s w = ((s, []), refl, w)
  run-IsWellFormed (x ∷ xs) s w = elim (Option-cases (step c h deserialize x s)) [
    | inl a ↦ absurd (subst (Succeeds (λ r. IsWellFormed r.0)) a (step-IsWellFormed x s w))
    | inr ((s1, seen), a) ↦
        let ((s2, rest), b, w2) =
          run-IsWellFormed xs s1
            (subst (Succeeds (λ r. IsWellFormed r.0)) a (step-IsWellFormed x s w)) in
        ((s2, seen ++ rest), ground (arith, a, b), w2)
  ]
