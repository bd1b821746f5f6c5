-- ===== src/Liveliness/Profile/Reading.antt =====
-- Enumerators and numbers of a profile are read back from their texts.
use rmw_zenoh.Common.{
  ℕ, ◌^◌, ◌<◌, ◌≡◌, ◌≢◌, ap, refl, sym, Bool, true, false, List, [], ◌∷◌, ◌++◌, some, arith, ◌==◌,
  nat_eq, Eq, Has, All, All-append, Bool-cases, inl, inr,
}
use rmw_zenoh.Common.Text.{Bytes, Lacks, IsDigit, bytes_eq, bytes_beq_iff, strtoull, to_string}
use rmw_zenoh.Common.Text.Decimal.{
  to_string-IsDigit, to_string-ne-nil, to_string_injective, strtoull-to_string, digits-Lacks,
}
use rmw_zenoh.Liveliness.Split.{split_keyexpr, join, split-join}
use rmw_zenoh.Liveliness.Policies.{
  history_eq, reliability_eq, durability_eq, liveliness_eq, at, at_or_default,
}
use rmw_zenoh.Liveliness.Profile.{
  str_to_size_t, checked_size, unless_default, number_text, two_parts, three_parts,
}

-- The entries of a table of printed numbers.
abbrev table : {A : Type 0} → (A → ℕ) → List A → List (Bytes × A)
table value [] = []
table value (x ∷ xs) = (to_string (value x), x) ∷ table value xs

at-table :
    {A : Type 0} (value : A → ℕ) (x : A) (xs : List A)
    → ((a b : A) → value a ≡ value b → a ≡ b)
    → Has x xs
    → at (to_string (value x)) (table value xs) ≡ some x
unfolding at
at-table value x [] distinct h = absurd h
at-table value x (y ∷ ys) distinct h = ground (
  arith,
  bytes_beq_iff (to_string (value x)) (to_string (value y)),
  to_string_injective (value x) (value y),
  distinct x y,
  at-table value x ys distinct,
)

at_or_default_of_ne :
    {A : Type 0} (s : Bytes) (default : A) (m : List (Bytes × A))
    → s ≢ []
    → at_or_default s default m ≡ at s m
at_or_default_of_ne [] default m h = absurd (h refl)
at_or_default_of_ne (c ∷ s) default m h = refl

-- An enumerator is read back from what is written for it.
pub at_or_default-unless_default :
    {A : Type 0} ⦃e : Eq A⦄ (value : A → ℕ) (x default : A) (xs : List A)
    → ((a b : A) → value a ≡ value b → a ≡ b)
    → Has x xs
    → at_or_default (unless_default (x == default) (to_string (value x))) default (table value xs)
      ≡ some x
at_or_default-unless_default ⦃e⦄ value x default xs distinct h = elim (Bool-cases (x == default)) [
  | inl same ↦ rw same (ap some (sym ((e.equal_iff x default).0 same)))
  | inr other ↦
      rw
        (
          other,
          at_or_default_of_ne (to_string (value x)) default (table value xs)
              (to_string-ne-nil (value x)),
        )
        (at-table value x xs distinct h)
]

read_digits :
    (s : Bytes) (default : ℕ)
    → s ≢ []
    → All IsDigit s
    → str_to_size_t s default ≡ checked_size (strtoull s)
unfolding str_to_size_t
read_digits [] default ne h = absurd (ne refl)
read_digits (c ∷ s) default ne (hc, hs) = ground arith

-- A number is read back from what is written for it.
pub str_to_size_t-number_text :
    (n default : ℕ) → n < 2 ^ 64 → str_to_size_t (number_text n default) default ≡ some n
str_to_size_t-number_text n default h = elim (Bool-cases (n == default)) [
  | inl same ↦ rw same (unfold str_to_size_t in ground arith)
  | inr other ↦
      rw
        (
          other,
          read_digits (to_string n) default (to_string-ne-nil n) (to_string-IsDigit n),
          strtoull-to_string n h,
        )
        (unfold checked_size in ground arith)
]

module _ (d : ℕ) (no_digit : IsDigit d → ⊥) where
  to_string-Lacks : (n : ℕ) → Lacks d (to_string n)
  to_string-Lacks n = digits-Lacks d (to_string n) no_digit (to_string-IsDigit n)

  pub unless_default-Lacks : (b : Bool) (n : ℕ) → Lacks d (unless_default b (to_string n))
  unless_default-Lacks true n = tt
  unless_default-Lacks false n = to_string-Lacks n

-- Two or three numbers behind one another, with a comma between them.
pub pair-Lacks : (d : ℕ) (a b : Bytes) → d ≢ b',' → Lacks d a → Lacks d b → Lacks d (a ++ b',' ∷ b)
pair-Lacks d a b h ha hb = All-append (λ c. c ≢ d) a (b',' ∷ b) ha ((λ e. h (sym e)), hb)

pub two_parts-split :
    (a b : Bytes)
    → Lacks b',' a
    → Lacks b',' b
    → two_parts (split_keyexpr (a ++ b',' ∷ b) b',') ≡ some (a, b)
two_parts-split a b ha hb = ap two_parts (split-join b',' a (b ∷ []) (ha, (hb, tt)))

pub three_parts-split :
    (a b c : Bytes)
    → Lacks b',' a
    → Lacks b',' b
    → Lacks b',' c
    → three_parts (split_keyexpr (a ++ b',' ∷ (b ++ b',' ∷ c)) b',') ≡ some (a, b, c)
three_parts-split a b c ha hb hc =
    ap three_parts (split-join b',' a (b ∷ c ∷ []) (ha, (hb, (hc, tt))))

pub append_ne : (a : Bytes) (c : ℕ) (b : Bytes) → a ++ c ∷ b ≢ []
append_ne [] c b = cc
append_ne (x ∷ a) c b = cc

pub join-Lacks : (e d : ℕ) (ps : List Bytes) → d ≢ e → All (Lacks e) ps → Lacks e (join d ps)
join-Lacks e d [] h all_parts = tt
join-Lacks e d (p ∷ []) h all_parts = all_parts.0
join-Lacks e d (p ∷ q ∷ ps) h (hp, hs) =
    All-append (λ c. c ≢ e) p (d ∷ join d (q ∷ ps)) hp (h, join-Lacks e d (q ∷ ps) h hs)
