-- ===== src/Services/Service/Pending.antt =====
-- The queries that wait for a response, `sequence_to_query_map_` of detail/rmw_service_data.cpp, as
-- one map from a client and a number.
use rmw_zenoh.Common.{
  ℕ, ◌≡◌, ◌≢◌, refl, true, ◌&&◌, [], ◌∷◌, Option, none, some, arith, ◌==◌, nat_eq, beq_refl,
  is_empty, if◌then◌else◌, Option-cases, inl, inr,
}
use rmw_zenoh.Common.Int.{ℤ, ℤ_eq}
use rmw_zenoh.Common.Map.{find, append, erase}
use rmw_zenoh.Common.Map.Laws.{find-append, find-assign, find-erase}
use rmw_zenoh.Services.Service.{ZenohQuery, SequenceToQuery, QueryMap, insert_query, remove_query}

unfoldable pub find_query : ℕ → ℤ → QueryMap → Option ZenohQuery
find_query hash n m = elim (find hash m) [ none ↦ none | some inner ↦ find n inner ]

pub find_query-insert :
    (h' h : ℕ) (n' n : ℤ) (q : ZenohQuery) (m m' : QueryMap)
    → insert_query h n q m ≡ some m'
    → find_query h' n' m' ≡ (if h' == h && n' == n then some q else find_query h' n' m)
unfolding find_query insert_query find
find_query-insert h' h n' n q m m' e = elim (Option-cases (find h m)) [
  | inl a ↦ ground (arith, a, find-append h' h ((n, q) ∷ []) m)
  | inr (inner, a) ↦ elim (Option-cases (find n inner)) [
    | inl b ↦
        ground (arith, a, b, find-assign h' h (append n q inner) inner m, find-append n' n q inner)
    | inr (x, b) ↦ ground (arith, a, b)
  ]
]

-- Only a query that is there already is refused.
pub insert_query-none :
    (h : ℕ) (n : ℤ) (q : ZenohQuery) (m : QueryMap)
    → insert_query h n q m ≡ none
    → find_query h n m ≢ none
unfolding find_query insert_query
insert_query-none h n q m e = ground arith

pub insert_query-some :
    (h : ℕ) (n : ℤ) (q : ZenohQuery) (m m' : QueryMap)
    → insert_query h n q m ≡ some m'
    → find_query h n m ≡ none
unfolding find_query insert_query
insert_query-some h n q m m' e = ground arith

find-empty : (n : ℤ) (inner : SequenceToQuery) → is_empty inner ≡ true → find n inner ≡ none
unfolding find
find-empty n [] e = refl
find-empty n (x ∷ inner) e = ground arith

pub find_query-remove :
    (h' h : ℕ) (n' n : ℤ) (q : ZenohQuery) (m m' : QueryMap)
    → remove_query h n m ≡ some (q, m')
    → find_query h' n' m' ≡ (if h' == h && n' == n then none else find_query h' n' m)
unfolding find_query remove_query
find_query-remove h' h n' n q m m' e = elim (Option-cases (find h m)) [
  | inl a ↦ ground (arith, a)
  | inr (inner, a) ↦ elim (Option-cases (find n inner)) [
    | inl b ↦ ground (arith, a, b)
    | inr (x, b) ↦ ground (
      arith,
      a,
      b,
      find-assign h' h (erase n inner) inner m,
      find-erase h' h m,
      find-erase n' n inner,
      find-empty n' (erase n inner),
    )
  ]
]

pub remove_query-some :
    (h : ℕ) (n : ℤ) (q : ZenohQuery) (m m' : QueryMap)
    → remove_query h n m ≡ some (q, m')
    → find_query h n m ≡ some q
unfolding find_query remove_query
remove_query-some h n q m m' e = ground arith

pub remove_query-none :
    (h : ℕ) (n : ℤ) (m : QueryMap) → remove_query h n m ≡ none → find_query h n m ≡ none
unfolding find_query remove_query
remove_query-none h n m e = ground arith

pub find_query-inserted :
    (h : ℕ) (n : ℤ) (q : ZenohQuery) (m m' : QueryMap)
    → insert_query h n q m ≡ some m'
    → find_query h n m' ≡ some q
find_query-inserted h n q m m' e =
    ground (arith, find_query-insert h h n n q m m' e, beq_refl h, beq_refl n)
