-- ===== src/Common/Map/Laws.antt =====
-- Laws of maps.
use rmw_zenoh.Common.{
  ◌≡◌, ◌≢◌, refl, sym, List, [], ◌∷◌, none, some, arith, Eq, ◌==◌, All, Bool-cases, inl, inr, subst,
  if◌then◌else◌,
}
use rmw_zenoh.Common.Text.{Bytes, bytes_eq, bytes_beq_iff}
use rmw_zenoh.Common.Map.{find, append, assign, erase, put, insert_sorted, bytes_ltb}

module _ {ℓ} {K : Type 0} {V : Type ℓ} ⦃e : Eq K⦄ where
  pub find-append :
      (j k : K) (v : V) (m : List (K × V))
      → find k m ≡ none
      → find j (append k v m) ≡ (if j == k then some v else find j m)
  unfolding find
  find-append j k v [] h = refl
  find-append j k v ((i, w) ∷ m) h =
      ground (arith, find-append j k v m, e.equal_iff k i, e.equal_iff j i, e.equal_iff j k)

  pub find-assign :
      (j k : K) (v w : V) (m : List (K × V))
      → find k m ≡ some w
      → find j (assign k v m) ≡ (if j == k then some v else find j m)
  unfolding find assign
  find-assign j k v w [] h = cc
  find-assign j k v w ((i, x) ∷ m) h =
      ground (arith, find-assign j k v w m, e.equal_iff k i, e.equal_iff j i, e.equal_iff j k)

  pub find-put :
      (j k : K) (v : V) (m : List (K × V))
      → find j (put k v m) ≡ (if j == k then some v else find j m)
  unfolding find put
  find-put j k v [] = refl
  find-put j k v ((i, x) ∷ m) =
      ground (arith, find-put j k v m, e.equal_iff k i, e.equal_iff j i, e.equal_iff j k)

  pub find-erase :
      (j k : K) (m : List (K × V)) → find j (erase k m) ≡ (if j == k then none else find j m)
  unfolding find erase
  find-erase j k [] = ground arith
  find-erase j k ((i, w) ∷ m) =
      ground (arith, find-erase j k m, e.equal_iff k i, e.equal_iff j i, e.equal_iff j k)

  pub erase_absent : (k : K) (m : List (K × V)) → find k m ≡ none → erase k m ≡ m
  unfolding find erase
  erase_absent k [] h = refl
  erase_absent k ((i, w) ∷ m) h = ground (arith, erase_absent k m)

  pub erase-append :
      (k : K) (v : V) (m : List (K × V)) → find k m ≡ none → erase k (append k v m) ≡ m
  unfolding find erase
  erase-append k v [] h = ground (arith, e.equal_iff k k)
  erase-append k v ((i, w) ∷ m) h = ground (arith, erase-append k v m)

  pub assign-assign :
      (k : K) (v w : V) (m : List (K × V)) → assign k v (assign k w m) ≡ assign k v m
  unfolding assign
  assign-assign k v w [] = refl
  assign-assign k v w ((i, x) ∷ m) = ground (arith, assign-assign k v w m)

  -- Assigning what is there changes nothing.
  pub assign_self : (k : K) (v : V) (m : List (K × V)) → find k m ≡ some v → assign k v m ≡ m
  unfolding find assign
  assign_self k v [] h = refl
  assign_self k v ((i, x) ∷ m) h = ground (arith, assign_self k v m)

  pub assign-append :
      (k : K) (v w : V) (m : List (K × V))
      → find k m ≡ none
      → assign k v (append k w m) ≡ append k v m
  unfolding find assign
  assign-append k v w [] h = ground (arith, e.equal_iff k k)
  assign-append k v w ((i, x) ∷ m) h = ground (arith, assign-append k v w m)

  pub assign-ne-nil : (k : K) (v w : V) (m : List (K × V)) → find k m ≡ some w → assign k v m ≢ []
  unfolding find assign
  assign-ne-nil k v w [] h = cc
  assign-ne-nil k v w ((i, x) ∷ m) h = ground arith

  -- A predicate on the values.
  pub All-find {κ} :
      (P : V → Type κ) (k : K) (v : V) (m : List (K × V))
      → All (λ p. P p.1) m
      → find k m ≡ some v
      → P v
  unfolding find
  All-find P k v [] h f = cc
  All-find P k v ((i, x) ∷ m) (hx, hm) f = elim (Bool-cases (k == i)) [
    | inl t ↦ subst P (ground (arith, t, f)) hx
    | inr t ↦ All-find P k v m hm (ground (arith, t, f))
  ]

  pub All-assign {κ} :
      (P : V → Type κ) (k : K) (v : V) (m : List (K × V))
      → P v
      → All (λ p. P p.1) m
      → All (λ p. P p.1) (assign k v m)
  unfolding assign
  All-assign P k v [] hv h = tt
  All-assign P k v ((i, x) ∷ m) hv (hx, hm) = elim (Bool-cases (k == i)) [
    | inl t ↦
        subst (λ b. All (λ p. P p.1) (if b then (i, v) ∷ m else (i, x) ∷ assign k v m)) (sym t)
          (hv, hm)
    | inr t ↦
        subst (λ b. All (λ p. P p.1) (if b then (i, v) ∷ m else (i, x) ∷ assign k v m)) (sym t)
          (hx, All-assign P k v m hv hm)
  ]

  pub All-erase {κ} :
      (P : V → Type κ) (k : K) (m : List (K × V))
      → All (λ p. P p.1) m
      → All (λ p. P p.1) (erase k m)
  unfolding erase
  All-erase P k [] h = tt
  All-erase P k ((i, x) ∷ m) (hx, hm) = elim (Bool-cases (k == i)) [
    | inl t ↦
        subst (λ b. All (λ p. P p.1) (if b then erase k m else (i, x) ∷ erase k m)) (sym t)
          (All-erase P k m hm)
    | inr t ↦
        subst (λ b. All (λ p. P p.1) (if b then erase k m else (i, x) ∷ erase k m)) (sym t)
          (hx, All-erase P k m hm)
  ]

pub find-insert_sorted {ℓ} :
    {V : Type ℓ} (j k : Bytes) (v : V) (m : List (Bytes × V))
    → find k m ≡ none
    → find j (insert_sorted k v m) ≡ (if j == k then some v else find j m)
unfolding find insert_sorted
find-insert_sorted j k v [] h = refl
find-insert_sorted j k v ((i, w) ∷ m) h =
    ground
      (arith, find-insert_sorted j k v m, bytes_beq_iff k i, bytes_beq_iff j i, bytes_beq_iff j k)

pub erase-insert_sorted {ℓ} :
    {V : Type ℓ} (k : Bytes) (v : V) (m : List (Bytes × V))
    → find k m ≡ none
    → erase k (insert_sorted k v m) ≡ m
unfolding find erase insert_sorted
erase-insert_sorted k v [] h = ground (arith, bytes_beq_iff k k)
erase-insert_sorted k v ((i, w) ∷ m) h =
    ground
      (arith, erase-insert_sorted k v m, erase_absent k m, bytes_beq_iff k i, bytes_beq_iff k k)

pub All-insert_sorted {ℓ κ} :
    {V : Type ℓ} (P : V → Type κ) (k : Bytes) (v : V) (m : List (Bytes × V))
    → P v
    → All (λ p. P p.1) m
    → All (λ p. P p.1) (insert_sorted k v m)
unfolding insert_sorted
All-insert_sorted P k v [] hv h = (hv, tt)
All-insert_sorted P k v ((i, x) ∷ m) hv (hx, hm) = elim (Bool-cases (bytes_ltb k i)) [
  | inl t ↦
      subst
        (λ b. All (λ p. P p.1) (if b then (k, v) ∷ (i, x) ∷ m else (i, x) ∷ insert_sorted k v m))
        (sym t) (hv, (hx, hm))
  | inr t ↦
      subst
        (λ b. All (λ p. P p.1) (if b then (k, v) ∷ (i, x) ∷ m else (i, x) ∷ insert_sorted k v m))
        (sym t) (hx, All-insert_sorted P k v m hv hm)
]
