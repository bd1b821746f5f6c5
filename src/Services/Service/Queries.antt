-- ===== src/Services/Service/Queries.antt =====
-- The shape of `sequence_to_query_map_` of detail/rmw_service_data.cpp.
use rmw_zenoh.Common.{
  ℕ, ◌≡◌, refl, subst, false, [], ◌∷◌, some, arith, nat_eq, Option-cases, inl, inr, is_empty, All,
  All-append, if-branches, if◌then◌else◌,
}
use rmw_zenoh.Common.Int.{ℤ, ℤ_eq}
use rmw_zenoh.Common.Map.{find, append, assign, erase}
use rmw_zenoh.Common.Map.Laws.{All-find, All-assign, All-erase}
use rmw_zenoh.Common.Map.Unique.{IsUnique, append-IsUnique, assign-IsUnique, erase-IsUnique}
use rmw_zenoh.Services.Service.{ZenohQuery, SequenceToQuery, QueryMap, insert_query, remove_query}

-- A client that has requests waiting has each of them once.
abbrev pub IsInner : SequenceToQuery → Type 0
IsInner inner = IsUnique inner × (is_empty inner ≡ false)

-- Each client has one entry, and no entry is empty.
abbrev pub IsQueryMap : QueryMap → Type 0
IsQueryMap m = IsUnique m × All (λ p. IsInner p.1) m

append-ne_nil :
    (n : ℤ) (q : ZenohQuery) (inner : SequenceToQuery) → is_empty (append n q inner) ≡ false
append-ne_nil n q [] = refl
append-ne_nil n q (x ∷ inner) = refl

pub insert-IsQueryMap :
    (h : ℕ) (n : ℤ) (q : ZenohQuery) (m m' : QueryMap)
    → insert_query h n q m ≡ some m'
    → IsQueryMap m
    → IsQueryMap m'
unfolding insert_query find
insert-IsQueryMap h n q m m' e (u, all) = elim (Option-cases (find h m)) [
  | inl a ↦ subst IsQueryMap (ground (arith, a, e)) (
    append-IsUnique h ((n, q) ∷ []) m a u,
    All-append (λ p. IsInner p.1) m ((h, (n, q) ∷ []) ∷ []) all (((refl, tt), refl), tt),
  )
  | inr (inner, a) ↦ elim (Option-cases (find n inner)) [
    | inl b ↦
        let (once, full) = All-find IsInner h inner m all a in
        subst IsQueryMap (ground (arith, a, b, e)) (
          assign-IsUnique h (append n q inner) m u,
          All-assign IsInner h (append n q inner) m
              (append-IsUnique n q inner b once, append-ne_nil n q inner) all,
        )
    | inr (x, b) ↦ absurd (ground (arith, a, b, e))
  ]
]

without-IsQueryMap :
    (h : ℕ) (inner' : SequenceToQuery) (m : QueryMap)
    → IsUnique inner'
    → IsQueryMap m
    → IsQueryMap (if is_empty inner' then erase h m else assign h inner' m)
without-IsQueryMap h inner' m once (u, all) =
    if-branches IsQueryMap (is_empty inner') (erase h m) (assign h inner' m)
      (λ _. (erase-IsUnique h m u, All-erase IsInner h m all))
      (λ full. (assign-IsUnique h inner' m u, All-assign IsInner h inner' m (once, full) all))

pub remove-IsQueryMap :
    (h : ℕ) (n : ℤ) (q : ZenohQuery) (m m' : QueryMap)
    → remove_query h n m ≡ some (q, m')
    → IsQueryMap m
    → IsQueryMap m'
unfolding remove_query
remove-IsQueryMap h n q m m' e i = elim (Option-cases (find h m)) [
  | inl a ↦ absurd (ground (arith, a, e))
  | inr (inner, a) ↦ elim (Option-cases (find n inner)) [
    | inl b ↦ absurd (ground (arith, a, b, e))
    | inr (x, b) ↦
        let (once, full) = All-find IsInner h inner m i.1 a in
        subst IsQueryMap (ground (arith, a, b, e))
          (without-IsQueryMap h (erase n inner) m (erase-IsUnique n inner once) i)
  ]
]
