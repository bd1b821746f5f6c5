-- ===== src/Services/Service/Answers.antt =====
-- Each request that a service of detail/rmw_service_data.cpp takes is answered at most once.
use rmw_zenoh.Common.{
  ℕ, ◌+◌, ◌≤◌, ◌≡◌, ◌&&◌, Bool, List, [], ◌∷◌, ◌++◌, Option, none, some, arith, ◌==◌, nat_eq,
  if◌then◌else◌, Option-cases, inl, inr, map,
}
use rmw_zenoh.Common.Text.{Bytes}
use rmw_zenoh.Common.Int.{ℤ, ℤ_eq}
use rmw_zenoh.Liveliness.Gid.{Hashes, hash_gid}
use rmw_zenoh.Attachments.{Codec}
use rmw_zenoh.Services.{ServiceInfo}
use rmw_zenoh.Services.Service.{
  ZenohQuery, ServiceData, RequestId, Reply, add_new_query, take_request, take_front, take_query,
  keep_query, insert_query, remove_query, reply_to, send_response, set_on_new_request_callback,
  queue_has_data_and_attach, detach_and_queue_is_empty, shutdown,
}
use rmw_zenoh.Services.Service.Branches.{take_request-branches}
use rmw_zenoh.Services.Service.Pending.{
  find_query, find_query-insert, find_query-remove, remove_query-some,
}
use rmw_zenoh.Services.Service.Run.{
  Call, arrive, take_next, respond, set_callback, attach, detach, shut_down, Seen, took, replied,
  seen_of_take, step, run,
}

abbrev present {ℓ} : {A : Type ℓ} → Option A → ℕ
present none = 0
present (some a) = 1

-- 1 when a request is taken and not yet answered.
abbrev pub waiting : ℕ → ℤ → ServiceData → ℕ
waiting hash n s = present (find_query hash n s.sequence_to_query_map)

module _ (h : Hashes) (hash : ℕ) (n : ℤ) where
  abbrev is_key : Bytes → ℤ → Bool
  is_key guid m = hash == hash_gid h guid && n == m

  -- How often a request has been taken, and how often a reply to it was sent.
  abbrev pub takes : List Seen → ℕ
  takes [] = 0
  takes (took header ∷ seen) =
      (if is_key header.writer_guid header.sequence_number then 1 else 0) + takes seen
  takes (replied id call ∷ seen) = takes seen

  abbrev pub replies : List Seen → ℕ
  replies [] = 0
  replies (took header ∷ seen) = replies seen
  replies (replied id call ∷ seen) =
      (if is_key id.writer_guid id.sequence_number then 1 else 0) + replies seen

  takes-append : (xs ys : List Seen) → takes (xs ++ ys) ≡ takes xs + takes ys
  takes-append [] ys = omega arith
  takes-append (took header ∷ xs) ys = omega (arith, takes-append xs ys)
  takes-append (replied id call ∷ xs) ys = takes-append xs ys

  replies-append : (xs ys : List Seen) → replies (xs ++ ys) ≡ replies xs + replies ys
  replies-append [] ys = omega arith
  replies-append (took header ∷ xs) ys = replies-append xs ys
  replies-append (replied id call ∷ xs) ys = omega (arith, replies-append xs ys)

  -- Takes and replies balance, up to queries that are lost without a reply.
  abbrev IsBalanced : ServiceData → ServiceData → List Seen → Type 0
  IsBalanced s s' seen = replies seen + waiting hash n s' ≤ takes seen + waiting hash n s

  -- One reply at most.
  reply_to-balance :
      (c : Codec) (id : RequestId) (r : Reply) (q : ZenohQuery)
      → (takes (map (replied id) (reply_to c id r q).1) ≡ 0)
        × (replies (map (replied id) (reply_to c id r q).1)
            ≤ (if is_key id.writer_guid id.sequence_number then 1 else 0))
  unfolding reply_to
  reply_to-balance c id r q = ground arith

  respond-balance :
      (c : Codec) (id : RequestId) (r : Reply) (s : ServiceData)
      → IsBalanced s (send_response c h id r s).0 (map (replied id) (send_response c h id r s).2)
  unfolding send_response
  respond-balance c id r s =
      elim (Option-cases
        (remove_query (hash_gid h id.writer_guid) id.sequence_number s.sequence_to_query_map)) [
          | inl a ↦ ground (arith, a)
          | inr ((q, m), a) ↦
              let g = hash_gid h id.writer_guid in
              let k = id.sequence_number in
              ground (
                arith,
                a,
                find_query-remove hash g n k q s.sequence_to_query_map m a,
                remove_query-some g k q s.sequence_to_query_map m a,
                reply_to-balance c id r q,
              )
        ]

  keep_query-balance {ℓ} :
      {A : Type ℓ} (q : ZenohQuery) (header : ServiceInfo) (request : A) (s : ServiceData)
      → IsBalanced s
          (keep_query h q header request s).0
          (seen_of_take (keep_query h q header request s).1)
  unfolding keep_query
  keep_query-balance q header request s =
      let g = hash_gid h header.writer_guid in
      let k = header.sequence_number in
      elim (Option-cases (insert_query g k q s.sequence_to_query_map)) [
        | inl a ↦ ground (arith, a)
        | inr (m, a) ↦ ground (arith, a, find_query-insert hash g n k q s.sequence_to_query_map m a)
      ]

  take-balance {ℓ} :
      {A : Type ℓ} (c : Codec) (deserialize : Bytes → Option A) (s : ServiceData)
      → IsBalanced s
          (take_request c h deserialize s).0
          (seen_of_take (take_request c h deserialize s).1)
  unfolding take_request take_front take_query
  take-balance c deserialize s =
      take_request-branches c h deserialize (λ r. IsBalanced s r.0 (seen_of_take r.1)) s
        (omega arith)
        (λ q rest e up. (
          omega arith,
          omega arith,
          λ header request read.
              keep_query-balance q header request (record s { query_queue = rest }),
        ))

  module _ {ℓ} {A : Type ℓ} (c : Codec) (deserialize : Bytes → Option A) where
    step-balance :
        (x : Call) (s s' : ServiceData) (seen : List Seen)
        → step c h deserialize x s ≡ some (s', seen)
        → IsBalanced s s' seen
    unfolding step add_new_query set_on_new_request_callback queue_has_data_and_attach
        detach_and_queue_is_empty shutdown
    step-balance (arrive q) s s' seen e = ground arith
    step-balance take_next s s' seen e = ground (arith, take-balance c deserialize s)
    step-balance (respond id r) s s' seen e = ground (arith, respond-balance c id r s)
    step-balance (set_callback callback) s s' seen e = ground arith
    step-balance (attach w) s s' seen e = ground arith
    step-balance detach s s' seen e = ground arith
    step-balance (shut_down t q) s s' seen e = ground arith

    -- After any calls that have defined behaviour, as many replies at most have been sent to a request
    -- as it was taken, where a request that still waits counts as one; a request is named by the hash of
    -- its client and its number.
    pub run-answers :
        (xs : List Call) (s s' : ServiceData) (seen : List Seen)
        → run c h deserialize xs s ≡ some (s', seen)
        → replies seen + waiting hash n s' ≤ takes seen + waiting hash n s
    unfolding run
    run-answers [] s s' seen e = ground arith
    run-answers (x ∷ xs) s s' seen e = elim (Option-cases (step c h deserialize x s)) [
      | inl a ↦ ground (arith, a)
      | inr ((s1, seen1), a) ↦ elim (Option-cases (run c h deserialize xs s1)) [
        | inl b ↦ ground (arith, a, b)
        | inr ((s2, seen2), b) ↦ ground (
          arith,
          a,
          b,
          step-balance x s s1 seen1 a,
          run-answers xs s1 s2 seen2 b,
          takes-append seen1 seen2,
          replies-append seen1 seen2,
        )
      ]
    ]
