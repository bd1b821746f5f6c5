-- ===== src/Common/Text/Decimal.antt =====
-- Decimal printing and reading agree.
use Prim.Native.Nat.{ℕ, zero, suc, ◌+◌, ◌-◌, ◌*◌, ◌/◌, ◌%◌, ◌^◌, ◌<◌}
use mathlib.Core.Path.{◌≡◌, refl, sym, ap, subst, ◌∙◌}
use mathlib.Core.Logic.{◌≢◌}
use mathlib.Core.Bool.{false}
use mathlib.Core.List.{[], ◌∷◌, ◌++◌, concat-ne-nil}
use mathlib.Core.Option.{some}
use native.Mathlib.Omega.{arith}
use rmw_zenoh.Common.Lists.{All, All-append}
use rmw_zenoh.Common.Text.{
  Bytes, Lacks, IsDigit, digits, to_string, scan_digits, skip_space, take_sign, c_str, conversion,
  convert, strtoull,
}

digits-IsDigit : (f n : ℕ) → All IsDigit (digits f n)
unfolding digits
digits-IsDigit zero n = tt
digits-IsDigit (suc f) n = ground (
  arith,
  All-append IsDigit (digits f (n / 10)) ((b'0' + n % 10) ∷ []) (digits-IsDigit f (n / 10))
      (omega arith),
)

digits-ne-nil : (f n : ℕ) → digits (suc f) n ≢ []
unfolding digits
digits-ne-nil f n = ground (arith, concat-ne-nil (b'0' + n % 10) (digits f (n / 10)))

-- The number that the digits `s` spell behind `acc`.
abbrev spelled : ℕ → Bytes → ℕ
spelled acc [] = acc
spelled acc (c ∷ s) = spelled (acc * 10 + (c - b'0')) s

spelled-append : (acc : ℕ) (s t : Bytes) → spelled acc (s ++ t) ≡ spelled (spelled acc s) t
spelled-append acc [] t = refl
spelled-append acc (c ∷ s) t = spelled-append (acc * 10 + (c - b'0')) s t

spelled-digits : (f n : ℕ) → n < f → spelled 0 (digits f n) ≡ n
unfolding digits
spelled-digits zero n h = absurd (omega arith)
spelled-digits (suc f) n h =
    ground (
      arith,
      spelled-append 0 (digits f (n / 10)) ((b'0' + n % 10) ∷ []),
      spelled-digits f (n / 10),
    )

scan_digits-spelled :
    (acc : ℕ) (s : Bytes) → All IsDigit s → scan_digits acc s ≡ (spelled acc s, [])
unfolding scan_digits
scan_digits-spelled acc [] h = refl
scan_digits-spelled acc (c ∷ s) (hc, hs) =
    ground (arith, scan_digits-spelled (acc * 10 + (c - b'0')) s hs)

c_str_of_digits : (s : Bytes) → All IsDigit s → c_str s ≡ s
unfolding c_str
c_str_of_digits [] h = refl
c_str_of_digits (c ∷ s) (hc, hs) = ground (arith, c_str_of_digits s hs)

skip_space_of_digits : (s : Bytes) → All IsDigit s → skip_space s ≡ s
unfolding skip_space
skip_space_of_digits [] h = refl
skip_space_of_digits (c ∷ s) (hc, hs) = ground arith

take_sign_of_digits : (s : Bytes) → All IsDigit s → take_sign s ≡ (false, s)
unfolding take_sign
take_sign_of_digits [] h = refl
take_sign_of_digits (c ∷ s) (hc, hs) = ground arith

convert_of_digits :
    (s : Bytes)
    → s ≢ []
    → All IsDigit s
    → spelled 0 s < 2 ^ 64
    → convert (false, s) ≡ some (record { value = spelled 0 s; out_of_range = false; rest = [] })
unfolding convert conversion
convert_of_digits [] ne h fits = absurd (ne refl)
convert_of_digits (c ∷ s) ne (hc, hs) fits = ground (arith, scan_digits-spelled 0 (c ∷ s) (hc, hs))

pub to_string-IsDigit : (n : ℕ) → All IsDigit (to_string n)
unfolding to_string
to_string-IsDigit n = digits-IsDigit (suc n) n

pub to_string-ne-nil : (n : ℕ) → to_string n ≢ []
unfolding to_string
to_string-ne-nil n = digits-ne-nil n n

-- A printed number is read back whole.
pub strtoull-to_string :
    (n : ℕ)
    → n < 2 ^ 64
    → strtoull (to_string n) ≡ some (record { value = n; out_of_range = false; rest = [] })
unfolding strtoull to_string
strtoull-to_string n h =
    let s = digits (suc n) n in
    let all_digits = digits-IsDigit (suc n) n in
    let exact = spelled-digits (suc n) n (omega arith) in
    rw
      (
        c_str_of_digits s all_digits,
        skip_space_of_digits s all_digits,
        take_sign_of_digits s all_digits,
      )
      (convert_of_digits s (digits-ne-nil n n) all_digits (rw exact h)
        ∙ ap (λ k. some (record { value = k; out_of_range = false; rest = [] })) exact)

-- Different numbers print differently.
pub to_string_injective : (a b : ℕ) → to_string a ≡ to_string b → a ≡ b
unfolding to_string
to_string_injective a b e =
    sym (spelled-digits (suc a) a (omega arith))
    ∙ ap (spelled 0) e
    ∙ spelled-digits (suc b) b (omega arith)

-- A byte that is no digit is in no text of digits.
pub digits-Lacks : (d : ℕ) (s : Bytes) → (IsDigit d → ⊥) → All IsDigit s → Lacks d s
digits-Lacks d [] h all_digits = tt
digits-Lacks d (c ∷ s) h (hc, hs) = ((λ e. h (subst IsDigit e hc)), digits-Lacks d s h hs)
