-- ===== src/Services/Service/Respond.antt =====
-- The map of waiting requests as a service of detail/rmw_service_data.cpp promises it: a take binds a
-- request to its query, and a response uses up the binding.
use rmw_zenoh.Common.{
  ℕ, ◌≡◌, refl, ap, ◌∙◌, true, false, ◌&&◌, List, [], ◌∷◌, Option, none, some, arith, ◌==◌,
  Option-branches, ◌⊎◌, nat_eq, if◌then◌else◌, Option-cases, inl, inr,
}
use rmw_zenoh.Common.Text.{Bytes}
use rmw_zenoh.Common.Int.{ℤ, ℤ_eq}
use rmw_zenoh.Qos.{RmwRet}
use rmw_zenoh.Liveliness.Gid.{Hashes, hash_gid}
use rmw_zenoh.Attachments.{Codec}
use rmw_zenoh.Services.{
  ServiceInfo, Outcome, failed, raised, done, Taken, taken, nothing, take_failed, take_raised,
}
use rmw_zenoh.Services.Service.{
  ZenohQuery, ServiceData, RequestId, Reply, ReplyCall, read_query, insert_query, keep_query,
  take_request, take_front, take_query, QueryMap, remove_query, reply_to, send_response,
}
use rmw_zenoh.Services.Service.Branches.{take_request-branches}
use rmw_zenoh.Services.Service.Pending.{
  find_query, find_query-insert, find_query-remove, insert_query-some, insert_query-none,
  remove_query-some, remove_query-none,
}

-- The request that waits under a hash and a number.
abbrev pub waiting_query : ServiceData → ℕ → ℤ → Option ZenohQuery
waiting_query s hash n = find_query hash n s.sequence_to_query_map

-- A map with one more binding, or one less.
abbrev pub bind_to :
    Option ZenohQuery → ℕ → ℤ → (ℕ → ℤ → Option ZenohQuery) → ℕ → ℤ → Option ZenohQuery
bind_to value hash n f hash' n' = if hash' == hash && n' == n then value else f hash' n'

-- A take of the oldest query, which has been read and bound to the client and the number of its
-- header, where there was none.
abbrev pub IsBinding :
    {A : Type 0}
    → Codec
    → Hashes
    → (Bytes → Option A)
    → ServiceData
    → ServiceInfo
    → A
    → ServiceData
    → Type 0
IsBinding c h deserialize s header request s' =
    let g = hash_gid h header.writer_guid in
    (q : ZenohQuery) × (s.query_queue ≡ q ∷ s'.query_queue)
    × (read_query c deserialize q ≡ done (header, request))
    × (waiting_query s g header.sequence_number ≡ none)
    × ((hash : ℕ) (n : ℤ)
        → waiting_query s' hash n
          ≡ bind_to (some q) g header.sequence_number (waiting_query s) hash n)

module _ {A : Type 0} (c : Codec) (h : Hashes) (deserialize : Bytes → Option A) where
  abbrev pub SameWaiting : ServiceData → ServiceData → Type 0
  SameWaiting s s' = (hash : ℕ) (n : ℤ) → waiting_query s' hash n ≡ waiting_query s hash n

  -- What is shown of the results of a take.
  abbrev pub TakeBinds : ServiceData → ServiceData × Taken A → Type 0
  TakeBinds s (s', taken header request) = IsBinding c h deserialize s header request s'
  TakeBinds s (s', nothing) = s' ≡ s
  TakeBinds s (s', take_failed) = SameWaiting s s'
  TakeBinds s (s', take_raised) = SameWaiting s s'

  keep_query-binds :
      (q : ZenohQuery) (header : ServiceInfo) (request : A) (s : ServiceData)
      (rest : List ZenohQuery)
      → s.query_queue ≡ q ∷ rest
      → read_query c deserialize q ≡ done (header, request)
      → TakeBinds s (keep_query h q header request (record s { query_queue = rest }))
  unfolding keep_query
  keep_query-binds q header request s rest queue read =
      let g = hash_gid h header.writer_guid in
      let n = header.sequence_number in
      let m = s.sequence_to_query_map in
      Option-branches (TakeBinds s) (insert_query g n q m) _ _ (λ _ hash k. refl)
        (λ m' e. (
          q,
          queue,
          read,
          insert_query-some g n q m m' e,
          λ hash k. find_query-insert hash g k n q m m' e,
        ))

  -- A take that gives a request gives the header and the content of the oldest query, and binds the
  -- query to the client and the number in the header, which had none; all other requests that wait are
  -- the same. A take without a result changes nothing, and one that fails leaves the waiting requests.
  pub take_request-binds : (s : ServiceData) → TakeBinds s (take_request c h deserialize s)
  take_request-binds s = take_request-branches c h deserialize (TakeBinds s) s refl (λ q rest e up.
      (
        λ hash n. refl,
        λ hash n. refl,
        λ header request read. keep_query-binds q header request s rest e read,
      ))

-- A response by a service that is not shut down to a request that waits replies to its query, with
-- what `reply_to` makes of it, and ends the waiting of this request alone, also when it fails.
pub send_response-answers :
    (c : Codec) (h : Hashes) (id : RequestId) (r : Reply) (s : ServiceData) (q : ZenohQuery)
    → s.is_shutdown ≡ false
    → waiting_query s (hash_gid h id.writer_guid) id.sequence_number ≡ some q
    → ((send_response c h id r s).1, (send_response c h id r s).2) ≡ reply_to c id r q
      × ((hash : ℕ) (n : ℤ)
          → waiting_query (send_response c h id r s).0 hash n
            ≡ bind_to none (hash_gid h id.writer_guid) id.sequence_number (waiting_query s) hash n)
unfolding send_response
send_response-answers c h id r s q up waits =
    let g = hash_gid h id.writer_guid in
    let k = id.sequence_number in
    elim (Option-cases (remove_query g k s.sequence_to_query_map)) [
      | inl a ↦ absurd (ground (arith, waits, remove_query-none g k s.sequence_to_query_map a))
      | inr ((q', m), a) ↦
          let same = remove_query-some g k q' s.sequence_to_query_map m a in
          let equal : q' ≡ q = ground (arith, same, waits) in
          let sent = reply_to c id r q' in
          let run : send_response c h id r s
              ≡ (record s { sequence_to_query_map = m }, sent.0, sent.1) =
            ground (arith, a, up) in
          (
            ap (λ (x : ServiceData × RmwRet × List ReplyCall). (x.1, x.2)) run
                ∙ ap (reply_to c id r) equal,
            λ hash n.
                ground (arith, a, up, find_query-remove hash g n k q' s.sequence_to_query_map m a),
          )
    ]

-- A response to a request that does not wait, or by a service that is shut down, is not sent, changes
-- nothing and is no error.
pub send_response-silent :
    (c : Codec) (h : Hashes) (id : RequestId) (r : Reply) (s : ServiceData)
    → (s.is_shutdown ≡ true)
      ⊎ (waiting_query s (hash_gid h id.writer_guid) id.sequence_number ≡ none)
    → send_response c h id r s ≡ (s, RmwRet.ok, [])
unfolding send_response
send_response-silent c h id r s silent =
    let g = hash_gid h id.writer_guid in
    let k = id.sequence_number in
    elim (Option-cases (remove_query g k s.sequence_to_query_map)) [
      | inl a ↦ ground (arith, a)
      | inr ((q, m), a) ↦ ground (arith, a, remove_query-some g k q s.sequence_to_query_map m a)
    ]

module _ {A : Type 0} (c : Codec) (h : Hashes) (deserialize : Bytes → Option A) where
  -- A take by a service that is not shut down gives the oldest query, and inserts it into the map, when
  -- it can be read and no query of its client with its number waits.
  pub take_request-taken :
      (s : ServiceData) (q : ZenohQuery) (rest : List ZenohQuery) (header : ServiceInfo)
      (request : A)
      → s.query_queue ≡ q ∷ rest
      → s.is_shutdown ≡ false
      → read_query c deserialize q ≡ done (header, request)
      → waiting_query s (hash_gid h header.writer_guid) header.sequence_number ≡ none
      → (m : QueryMap) × (insert_query
            (hash_gid h header.writer_guid)
            header.sequence_number
            q
            s.sequence_to_query_map
          ≡ some m)
        × (take_request c h deserialize s
            ≡ (record s { query_queue = rest; sequence_to_query_map = m }, taken header request))
  unfolding take_request take_front take_query keep_query
  take_request-taken s q rest header request queue up read free =
      let g = hash_gid h header.writer_guid in
      let n = header.sequence_number in
      elim (Option-cases (insert_query g n q s.sequence_to_query_map)) [
        | inl a ↦ absurd (insert_query-none g n q s.sequence_to_query_map a free)
        | inr (m, a) ↦ (
          m,
          a,
          ap (λ x. take_front c h deserialize x s) queue
              ∙ ap
                  (λ b.
                    if b
                    then (s, nothing)
                    else take_query c h deserialize q (record s { query_queue = rest }))
                  up
              ∙ ap
                  (λ (o : Outcome (ServiceInfo × A)). elim o [
                    | done (head, value) ↦
                        keep_query h q head value (record s { query_queue = rest })
                    | failed ↦ (record s { query_queue = rest }, take_failed)
                    | raised ↦ (record s { query_queue = rest }, take_raised)
                  ])
                  read
              ∙ ap
                  (λ (o : Option QueryMap). elim o [
                    | none ↦ (record s { query_queue = rest }, take_failed)
                    | some m' ↦ (
                      record s { query_queue = rest; sequence_to_query_map = m' },
                      taken header request,
                    )
                  ])
                  a,
        )
      ]
