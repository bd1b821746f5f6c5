-- ===== src/Common/Map/Unique.antt =====
-- Maps without a second entry for a key, and sums over their values.
use rmw_zenoh.Common.{ℕ, ◌+◌, ◌≡◌, refl, List, [], ◌∷◌, none, some, arith, Eq, ◌==◌, if-branches}
use rmw_zenoh.Common.Text.{bytes_eq}
use rmw_zenoh.Common.Map.{find, append, assign, erase}
use rmw_zenoh.Common.Map.Laws.{erase_absent, find-append, find-erase}

module _ {ℓ} {K : Type 0} {V : Type ℓ} ⦃e : Eq K⦄ where
  abbrev pub IsUnique : List (K × V) → Type ℓ
  IsUnique [] = Unit
  IsUnique ((k, v) ∷ m) = find k m ≡ none × IsUnique m

  abbrev pub total : (V → ℕ) → List (K × V) → ℕ
  total f [] = 0
  total f ((_, v) ∷ m) = f v + total f m

  pub append-IsUnique :
      (k : K) (v : V) (m : List (K × V)) → find k m ≡ none → IsUnique m → IsUnique (append k v m)
  unfolding find
  append-IsUnique k v [] h u = (refl, tt)
  append-IsUnique k v ((i, w) ∷ m) h (n, u) = (
    ground (arith, h, n, find-append i k v m, e.equal_iff i k, e.equal_iff k i),
    append-IsUnique k v m (ground (arith, h)) u,
  )

  absent-assign :
      (i k : K) (v : V) (m : List (K × V)) → find i m ≡ none → find i (assign k v m) ≡ none
  unfolding find assign
  absent-assign i k v [] h = refl
  absent-assign i k v ((j, w) ∷ m) h = ground (arith, absent-assign i k v m)

  pub assign-IsUnique : (k : K) (v : V) (m : List (K × V)) → IsUnique m → IsUnique (assign k v m)
  unfolding assign
  assign-IsUnique k v [] u = tt
  assign-IsUnique k v ((i, w) ∷ m) (n, u) =
      if-branches IsUnique (k == i) ((i, v) ∷ m) ((i, w) ∷ assign k v m) (λ _. (n, u))
        (λ _. (absent-assign i k v m n, assign-IsUnique k v m u))

  pub erase-IsUnique : (k : K) (m : List (K × V)) → IsUnique m → IsUnique (erase k m)
  unfolding erase
  erase-IsUnique k [] u = tt
  erase-IsUnique k ((i, w) ∷ m) (n, u) =
      if-branches IsUnique (k == i) (erase k m) ((i, w) ∷ erase k m) (λ _. erase-IsUnique k m u)
        (λ _. (ground (arith, n, find-erase i k m), erase-IsUnique k m u))

  pub total-append :
      (f : V → ℕ) (k : K) (v : V) (m : List (K × V)) → total f (append k v m) ≡ total f m + f v
  total-append f k v [] = omega arith
  total-append f k v ((i, w) ∷ m) = omega (arith, total-append f k v m)

  pub total-assign :
      (f : V → ℕ) (k : K) (v w : V) (m : List (K × V))
      → find k m ≡ some w
      → total f (assign k v m) + f w ≡ total f m + f v
  unfolding find assign
  total-assign f k v w [] h = ground arith
  total-assign f k v w ((i, x) ∷ m) h = ground (arith, total-assign f k v w m)

  pub total-erase :
      (f : V → ℕ) (k : K) (w : V) (m : List (K × V))
      → find k m ≡ some w
      → IsUnique m
      → total f (erase k m) + f w ≡ total f m
  unfolding find erase
  total-erase f k w [] h u = ground arith
  total-erase f k w ((i, x) ∷ m) h (n, u) =
      ground (arith, total-erase f k w m, erase_absent k m, e.equal_iff k i)
