-- ===== src/Common/Text.antt =====
-- `std::string` as its bytes: comparison, splitting, and decimal numbers (`std::to_string`,
-- `strtoull`).
pub mod Decimal
use Prim.Native.Nat.{ℕ, zero, suc, ◌+◌, ◌-◌, ◌*◌, ◌/◌, ◌%◌, ◌^◌, ◌≤◌, ◌<◌}
use Prim.Native.Char.{code}
use Prim.Native.String.{String}
use mathlib.Core.Path.{◌≡◌, refl, sym, ap, ◌∙◌}
use mathlib.Core.Logic.{◌↔◌, ◌≢◌, ◌⊎◌, inl, inr}
use mathlib.Core.Bool.{Bool, true, false, ◌&&◌, ◌||◌}
use mathlib.Core.List.{List, [], ◌∷◌, ◌++◌, append_assoc, append-nil}
use mathlib.Core.Option.{Option, none, some}
use native.Mathlib.Omega.{arith}
use rmw_zenoh.Common.Tests.{
  Eq, ◌==◌, nat_eq, nat_beq, nat_beq_iff, ltb, leb, if◌then◌else◌, Bool-cases,
}
use rmw_zenoh.Common.Lists.{All, All-append}

abbrev pub Bytes : Type 0
Bytes = List ℕ

-- The bytes of an ASCII literal.
abbrev pub codes : String → Bytes
codes String.[] = []
codes (String.◌∷◌ c s) = code c ∷ codes s

abbrev pub bytes_beq : Bytes → Bytes → Bool
bytes_beq [] [] = true
bytes_beq (x ∷ xs) (y ∷ ys) = nat_beq x y && bytes_beq xs ys
bytes_beq _ _ = false

bytes_beq_sound : (s t : Bytes) → bytes_beq s t ≡ true → s ≡ t
bytes_beq_sound [] [] h = refl
bytes_beq_sound [] (y ∷ ys) h = cc
bytes_beq_sound (x ∷ xs) [] h = cc
bytes_beq_sound (x ∷ xs) (y ∷ ys) h = ground (arith, bytes_beq_sound xs ys)

bytes_beq_refl : (s : Bytes) → bytes_beq s s ≡ true
bytes_beq_refl [] = refl
bytes_beq_refl (x ∷ xs) = ground (arith, bytes_beq_refl xs)

pub bytes_beq_iff : (s t : Bytes) → (bytes_beq s t ≡ true) ↔ (s ≡ t)
bytes_beq_iff s t = (bytes_beq_sound s t, λ e. ground (arith, bytes_beq_refl s))

instance abbrev pub bytes_eq : Eq Bytes
bytes_eq = record { equal = bytes_beq; equal_iff = bytes_beq_iff }

-- No byte of the text is `b`.
abbrev pub Lacks : ℕ → Bytes → Type 0
Lacks b = All (λ c. c ≢ b)

abbrev pub IsDigit : ℕ → Type 0
IsDigit c = (b'0' ≤ c) × (c ≤ b'9')

abbrev pub is_digit : ℕ → Bool
is_digit c = leb b'0' c && leb c b'9'

-- `std::to_string` of an unsigned number; the fuel is one more than the number.
pub digits : ℕ → ℕ → Bytes
digits zero n = []
digits (suc f) n =
    let rest = digits f (n / 10) in
    if ltb n 10 then (b'0' + n) ∷ [] else rest ++ (b'0' + n % 10) ∷ []

unfoldable pub to_string : ℕ → Bytes
unfolding digits
to_string n = digits (suc n) n

-- `isspace` of the C locale.
abbrev pub is_space : ℕ → Bool
is_space c = c == 32 || (leb 9 c && leb c 13)

unfoldable pub skip_space : Bytes → Bytes
skip_space [] = []
skip_space (c ∷ s) = let rest = skip_space s in if is_space c then rest else c ∷ s

-- The digits at the head of a text, as a number behind `acc`, and the rest of the text.
unfoldable pub scan_digits : ℕ → Bytes → ℕ × Bytes
scan_digits acc [] = (acc, [])
scan_digits acc (c ∷ s) = elim (is_digit c) [
  | true ↦ scan_digits (acc * 10 + (c - b'0')) s
  | false ↦ (acc, c ∷ s)
]

-- What is behind an optional sign, and whether the sign is a minus.
unfoldable pub take_sign : Bytes → Bool × Bytes
take_sign [] = (false, [])
take_sign (c ∷ s) =
    if c == b'-' then (true, s) else if c == b'+' then (false, s) else (false, c ∷ s)

-- The text that a C function sees: it ends at the first zero byte.
unfoldable pub c_str : Bytes → Bytes
c_str [] = []
c_str (c ∷ s) = let rest = c_str s in if c == 0 then [] else c ∷ rest

pub record Conversion : Type 0 where
  -- the returned number
  pub value : ℕ
  -- `errno == ERANGE`
  pub out_of_range : Bool
  -- `endptr`: the unread text
  pub rest : Bytes

-- A minus sign negates the number in the unsigned type.
abbrev pub negate_if : Bool → ℕ → ℕ
negate_if true n = (2 ^ 64 - n) % 2 ^ 64
negate_if false n = n

conversion : Bool → ℕ × Bytes → Conversion
conversion negative (n, rest) =
    if ltb n (2 ^ 64)
    then record { value = negate_if negative n; out_of_range = false; rest = rest }
    else record { value = 2 ^ 64 - 1; out_of_range = true; rest = rest }

convert : Bool × Bytes → Option Conversion
unfolding conversion scan_digits
convert (negative, []) = none
convert (negative, c ∷ s) =
    if is_digit c then some (conversion negative (scan_digits 0 (c ∷ s))) else none

-- `strtoull(str.c_str(), &endptr, 10)`; `none` if no digit was converted.
unfoldable pub strtoull : Bytes → Option Conversion
unfolding convert skip_space take_sign c_str
strtoull s = convert (take_sign (skip_space (c_str s)))
