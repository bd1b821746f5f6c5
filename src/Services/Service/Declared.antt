-- ===== src/Services/Service/Declared.antt =====
-- What `shutdown` of detail/rmw_service_data.cpp leaves declared.
use rmw_zenoh.Common.{◌≡◌, true, false, List, [], ◌∷◌, Option, some, arith, Option-cases, inl, inr}
use rmw_zenoh.Common.Text.{Bytes}
use rmw_zenoh.Liveliness.Gid.{Hashes}
use rmw_zenoh.Attachments.{Codec}
use rmw_zenoh.Services.{ServiceInfo}
use rmw_zenoh.Services.Service.{
  ZenohQuery, ServiceData, add_new_query, keep_query, take_request, send_response,
  set_on_new_request_callback, queue_has_data_and_attach, detach_and_queue_is_empty, shutdown,
}
use rmw_zenoh.Services.Service.Branches.{take_request-branches}
use rmw_zenoh.Services.Service.Run.{
  Call, arrive, take_next, respond, set_callback, attach, detach, shut_down, Seen, step, run,
}

-- Nothing has been undeclared, and nothing is known to be initialized.
abbrev pub IsDeclared : ServiceData → Type 0
IsDeclared s = (s.initialized ≡ false) × (s.token_declared ≡ true) × (s.qable_declared ≡ true)

module _ {A : Type 0} (c : Codec) (h : Hashes) (deserialize : Bytes → Option A) where
  keep_query-IsDeclared :
      (q : ZenohQuery) (header : ServiceInfo) (request : A) (s : ServiceData)
      → IsDeclared s
      → IsDeclared (keep_query h q header request s).0
  unfolding keep_query
  keep_query-IsDeclared q header request s d = ground arith

  take-IsDeclared : (s : ServiceData) → IsDeclared s → IsDeclared (take_request c h deserialize s).0
  take-IsDeclared s d =
      take_request-branches c h deserialize (λ r. IsDeclared r.0) s d
        (λ q rest e up. (
          d,
          d,
          λ header request read.
              keep_query-IsDeclared q header request (record s { query_queue = rest }) d,
        ))

  step-IsDeclared :
      (x : Call) (s s' : ServiceData) (seen : List Seen)
      → step c h deserialize x s ≡ some (s', seen)
      → IsDeclared s
      → IsDeclared s'
  unfolding step add_new_query send_response set_on_new_request_callback queue_has_data_and_attach
      detach_and_queue_is_empty shutdown
  step-IsDeclared (arrive q) s s' seen e d = ground arith
  step-IsDeclared take_next s s' seen e d = ground (arith, take-IsDeclared s d)
  step-IsDeclared (respond id r) s s' seen e d = ground arith
  step-IsDeclared (set_callback callback) s s' seen e d = ground arith
  step-IsDeclared (attach w) s s' seen e d = ground arith
  step-IsDeclared detach s s' seen e d = ground arith
  step-IsDeclared (shut_down t q) s s' seen e d = ground arith

  -- From a service as `make` returns it, whose `initialized` is false, no calls undeclare its token or
  -- its queryable, `shutdown` included.
  pub run-IsDeclared :
      (xs : List Call) (s s' : ServiceData) (seen : List Seen)
      → run c h deserialize xs s ≡ some (s', seen)
      → IsDeclared s
      → IsDeclared s'
  unfolding run
  run-IsDeclared [] s s' seen e d = ground arith
  run-IsDeclared (x ∷ xs) s s' seen e d = elim (Option-cases (step c h deserialize x s)) [
    | inl a ↦ absurd (ground (arith, a))
    | inr ((s1, seen1), a) ↦ elim (Option-cases (run c h deserialize xs s1)) [
      | inl b ↦ absurd (ground (arith, a, b))
      | inr ((s2, seen2), b) ↦
          ground (arith, a, b, run-IsDeclared xs s1 s2 seen2 b (step-IsDeclared x s s1 seen1 a d))
    ]
  ]
