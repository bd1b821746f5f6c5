-- ===== src/Services/Client/Numbers.antt =====
-- The numbers that a client of detail/rmw_client_data.cpp gives to its requests.
use rmw_zenoh.Common.{
  ℕ, zero, suc, ◌⊎◌, ◌+◌, ◌^◌, ◌<◌, ◌≤◌, ◌≡◌, refl, List, [], ◌∷◌, ◌++◌, Option, none, some, arith,
  length, inl, inr,
}
use rmw_zenoh.Common.Int.{ℤ, pos}
use rmw_zenoh.Attachments.{Codec, to_int64}
use rmw_zenoh.Services.Client.{ClientData, Request, Sent, send_request, send_bytes}

-- Requests one after another, and what comes of each.
unfoldable pub send_all : Codec → List Request → ClientData → ClientData × List Sent
send_all c [] s = (s, [])
send_all c (r ∷ rs) s =
    let (s', sent) = send_request c r s in let (s'', rest) = send_all c rs s' in (s'', sent ∷ rest)

-- The numbers given.
abbrev of_option : Option ℤ → List ℤ
of_option none = []
of_option (some n) = n ∷ []

abbrev pub ids : List Sent → List ℤ
ids [] = []
ids (sent ∷ rest) = of_option sent.sequence_id ++ ids rest

-- The numbers from one on.
abbrev pub numbers_from : ℕ → ℕ → List ℤ
numbers_from n zero = []
numbers_from n (suc k) = pos n ∷ numbers_from (n + 1) k

-- A request takes the next number or none.
send_request-number :
    (c : Codec) (r : Request) (s : ClientData)
    → s.sequence_number < 2 ^ 63
    → (((send_request c r s).1.sequence_id ≡ none)
        × ((send_request c r s).0.sequence_number ≡ s.sequence_number))
      ⊎ (((send_request c r s).1.sequence_id ≡ some (pos s.sequence_number))
          × ((send_request c r s).0.sequence_number ≡ s.sequence_number + 1))
unfolding send_request send_bytes to_int64
send_request-number c r s h = ground arith

-- While the counter is below 2 ^ 63, the numbers that requests get are those from the counter on, in
-- order and without a gap, and the counter grows by as many; a request that fails before it is
-- sent gets none.
pub send_all-numbers :
    (c : Codec) (rs : List Request) (s : ClientData)
    → s.sequence_number + length rs ≤ 2 ^ 63
    → (ids (send_all c rs s).1 ≡ numbers_from s.sequence_number (length (ids (send_all c rs s).1)))
      × ((send_all c rs s).0.sequence_number ≡ s.sequence_number + length (ids (send_all c rs s).1))
unfolding send_all
send_all-numbers c [] s h = (refl, omega arith)
send_all-numbers c (r ∷ rs) s h =
    let (s', sent) = send_request c r s in
    elim (send_request-number c r s (omega arith)) [
      | inl (a, b) ↦
          let (e, f) = send_all-numbers c rs s' (omega (arith, b)) in ground (arith, a, b, e, f)
      | inr (a, b) ↦
          let (e, f) = send_all-numbers c rs s' (omega (arith, b)) in ground (arith, a, b, e, f)
    ]
