-- ===== src/Qos/Compatible.antt =====
-- rmw_qos_profile_check_compatible of rmw_zenoh_cpp/src/rmw_qos.cpp, and how
-- detail/graph_cache.cpp asks it. The answer of vsnprintf is an argument; a text in a buffer ends in
-- front of its first null character, and is left as it was when printing fails.
use rmw_zenoh.Common.{
  ℕ, suc, zero, ◌-◌, ◌≤◌, ◌<◌, ◌≡◌, Bool, true, false, not, ◌&&◌, [], ◌∷◌, ◌++◌, Option, none, some,
  nat_eq, ◌==◌, subst, Bool-cases, inl, inr, arith, length, if◌then◌else◌,
}
use rmw_zenoh.Common.Text.{Bytes, codes}
use rmw_zenoh.Qos.{QosProfile, Durability, RmwRet}

pub data Compatibility : Type 0 where
  compatibility_ok compatibility_warning compatibility_error : Compatibility

unfoldable pub take : ℕ → Bytes → Bytes
take zero s = []
take (suc n) [] = []
take (suc n) (b ∷ s) = b ∷ take n s

-- `_append_to_buffer`, with `none` for a null pointer.
unfoldable pub append_to_buffer : Bool → Option Bytes → ℕ → Bytes → RmwRet × Option Bytes
unfolding take
append_to_buffer printed none buffer_size text = (RmwRet.ok, none)
append_to_buffer printed (some buffer) buffer_size text =
    if buffer_size == 0
    then (RmwRet.ok, some buffer)
    else if not printed
    then (RmwRet.error, some buffer)
    else (RmwRet.ok, some (buffer ++ take (buffer_size - length buffer - 1) text))

pub record Checked : Type 0 where
  pub ret : RmwRet
  pub compatibility : Option Compatibility
  pub reason : Option Bytes

abbrev pub late_messages_lost : Durability → Durability → Bool
late_messages_lost Durability.transient_local Durability.volatile = true
late_messages_lost _ _ = false

unfoldable pub warning : Bytes
warning =
    codes "WARNING: Publisher's durability is TRANSIENT_LOCAL, but subscription's is VOLATILE;"

abbrev pub has_no_buffer : Option Bytes → Bool
has_no_buffer none = true
has_no_buffer (some _) = false

abbrev pub cleared : Option Bytes → ℕ → Option Bytes
cleared none reason_size = none
cleared (some reason) reason_size = if reason_size == 0 then some reason else some []

abbrev pub warned : RmwRet × Option Bytes → Checked
warned (ret, reason) = record {
  ret = ret;
  compatibility = some compatibility_warning;
  reason = reason;
}

unfoldable pub rmw_qos_profile_check_compatible :
    Bool → Bool → QosProfile → QosProfile → Option Bytes → ℕ → Checked
unfolding append_to_buffer
rmw_qos_profile_check_compatible has_compatibility printed p s reason reason_size =
    if not has_compatibility
    then record { ret = RmwRet.invalid_argument; compatibility = none; reason = reason }
    else if has_no_buffer reason && not (reason_size == 0)
    then record { ret = RmwRet.invalid_argument; compatibility = none; reason = reason }
    else if late_messages_lost p.durability s.durability
    then warned (append_to_buffer printed (cleared reason reason_size) reason_size warning)
    else record {
      ret = RmwRet.ok;
      compatibility = some compatibility_ok;
      reason = cleared reason reason_size;
    }

abbrev pub is_ok : RmwRet → Bool
is_ok RmwRet.ok = true
is_ok _ = false

abbrev pub is_error : Option Compatibility → Bool
is_error (some compatibility_error) = true
is_error _ = false

-- The test of two profiles in the counts of matched endpoints.
unfoldable pub are_compatible : QosProfile → QosProfile → Bool
unfolding rmw_qos_profile_check_compatible
are_compatible q q' =
    let checked = rmw_qos_profile_check_compatible true true q q' none 0 in
    is_ok checked.ret && not (is_error checked.compatibility)

length-take_le : (n : ℕ) (s : Bytes) → length (take n s) ≤ n
unfolding take
length-take_le zero s = omega arith
length-take_le (suc n) [] = omega arith
length-take_le (suc n) (b ∷ s) = omega (arith, length-take_le n s)

-- The text fits, and its null character too.
abbrev pub Fits : ℕ → Option Bytes → Type 0
Fits size none = Unit
Fits size (some text) = length text < size

append-Fits :
    (printed : Bool) (size : ℕ) (text : Bytes)
    → 0 < size
    → Fits size (append_to_buffer printed (some []) size text).1
unfolding append_to_buffer
append-Fits true size text h =
    subst (Fits size)
      (let same : some (take (size - 0 - 1) text) ≡ (append_to_buffer true (some []) size text).1 =
          ground (arith, h) in
        same)
      (omega (arith, length-take_le (size - 0 - 1) text, h))
append-Fits false size text h =
    subst (Fits size)
      (let same : some [] ≡ (append_to_buffer false (some []) size text).1 = ground (arith, h) in
        same)
      h

-- Whatever is printed, nothing is written behind the end of a buffer that is not empty, and the text in
-- it ends in a null character.
pub check_compatible-Fits :
    (printed : Bool) (p s : QosProfile) (reason : Bytes) (size : ℕ)
    → 0 < size
    → Fits size (rmw_qos_profile_check_compatible true printed p s (some reason) size).reason
unfolding rmw_qos_profile_check_compatible
check_compatible-Fits printed p s reason size h =
    let checked : Checked = rmw_qos_profile_check_compatible true printed p s (some reason) size in
    elim (Bool-cases (late_messages_lost p.durability s.durability)) [
      | inl a ↦
          let same : (append_to_buffer printed (some []) size warning).1 ≡ checked.reason =
            ground (arith, a, h) in
          subst (Fits size) same (append-Fits printed size warning h)
      | inr a ↦
          let same : some [] ≡ checked.reason = ground (arith, a, h) in subst (Fits size) same h
    ]

-- No two profiles are incompatible.
pub are_compatible_lem : (q q' : QosProfile) → are_compatible q q' ≡ true
unfolding are_compatible rmw_qos_profile_check_compatible append_to_buffer
are_compatible_lem q q' = ground arith
