-- ===== src/Services/Service/Branches.antt =====
-- The branches of `take_request` of detail/rmw_service_data.cpp.
use rmw_zenoh.Common.{◌≡◌, refl, false, List, [], ◌∷◌, Option, if-branches}
use rmw_zenoh.Common.Text.{Bytes}
use rmw_zenoh.Liveliness.Gid.{Hashes}
use rmw_zenoh.Attachments.{Codec}
use rmw_zenoh.Services.{
  ServiceInfo, Outcome, done, failed, raised, Taken, nothing, take_failed, take_raised,
}
use rmw_zenoh.Services.Service.{
  ZenohQuery, ServiceData, read_query, keep_query, take_query, take_front, take_request,
}

module _ {ℓ κ} {A : Type ℓ} (c : Codec) (h : Hashes) (deserialize : Bytes → Option A)
    (P : ServiceData × Taken A → Type κ) where
  -- A predicate on what becomes of a query that has been popped.
  abbrev pub HoldsOfPopped : ZenohQuery → ServiceData → Type (ℓ ⊔ κ)
  HoldsOfPopped q s =
      P (s, take_failed)
      × P (s, take_raised)
      × ((header : ServiceInfo) (request : A)
          → read_query c deserialize q ≡ done (header, request)
          → P (keep_query h q header request s))

  outcome-branches :
      (q : ZenohQuery) (s : ServiceData) (o : Outcome (ServiceInfo × A))
      → read_query c deserialize q ≡ o
      → HoldsOfPopped q s
      → P (elim o [
        | done (header, request) ↦ keep_query h q header request s
        | failed ↦ (s, take_failed)
        | raised ↦ (s, take_raised)
      ])
  outcome-branches q s (done (header, request)) e (f, r, k) = k header request e
  outcome-branches q s failed e (f, r, k) = f
  outcome-branches q s raised e (f, r, k) = r

  take_query-branches :
      (q : ZenohQuery) (s : ServiceData) → HoldsOfPopped q s → P (take_query c h deserialize q s)
  unfolding take_query
  take_query-branches q s p = outcome-branches q s (read_query c deserialize q) refl p

  take_front-branches :
      (queue : List ZenohQuery) (s : ServiceData)
      → P (s, nothing)
      → ((q : ZenohQuery) (rest : List ZenohQuery)
          → queue ≡ q ∷ rest
          → s.is_shutdown ≡ false
          → HoldsOfPopped q (record s { query_queue = rest }))
      → P (take_front c h deserialize queue s)
  unfolding take_front
  take_front-branches [] s n p = n
  take_front-branches (q ∷ rest) s n p =
      if-branches P s.is_shutdown (s, nothing)
        (take_query c h deserialize q (record s { query_queue = rest })) (λ _. n)
        (λ up. take_query-branches q (record s { query_queue = rest }) (p q rest refl up))

  pub take_request-branches :
      (s : ServiceData)
      → P (s, nothing)
      → ((q : ZenohQuery) (rest : List ZenohQuery)
          → s.query_queue ≡ q ∷ rest
          → s.is_shutdown ≡ false
          → HoldsOfPopped q (record s { query_queue = rest }))
      → P (take_request c h deserialize s)
  unfolding take_request
  take_request-branches s n p = take_front-branches s.query_queue s n p
