-- ===== src/Liveliness/Split.antt =====
-- `split_keyexpr` of detail/liveliness_utils.cpp, which cuts a text at a delimiter, and its inverse.
use Prim.Native.Nat.{ℕ}
use mathlib.Core.Path.{◌≡◌, refl, ap, ◌∙◌}
use mathlib.Core.List.{List, [], ◌∷◌, ◌++◌}
use native.Mathlib.Omega.{arith}
use rmw_zenoh.Common.{◌==◌, nat_eq, if◌then◌else◌, All}
use rmw_zenoh.Common.Text.{Bytes, Lacks}

-- Puts a byte in front of the first part.
abbrev pub widen : ℕ → List Bytes → List Bytes
widen c [] = (c ∷ []) ∷ []
widen c (p ∷ ps) = (c ∷ p) ∷ ps

-- Each call is one position of `find`: a delimiter ends the part, any other byte belongs to it.
unfoldable pub split_keyexpr : Bytes → ℕ → List Bytes
split_keyexpr [] delim = [] ∷ []
split_keyexpr (c ∷ s) delim =
    let rest = split_keyexpr s delim in if c == delim then [] ∷ rest else widen c rest

-- A part that holds no delimiter is cut off whole.
pub split-append :
    (d : ℕ) (p s : Bytes) → Lacks d p → split_keyexpr (p ++ d ∷ s) d ≡ p ∷ split_keyexpr s d
unfolding split_keyexpr
split-append d [] s h = ground arith
split-append d (c ∷ p) s (hc, hp) = ground (arith, split-append d p s hp)

-- A text with no delimiter is one part.
pub split_one : (d : ℕ) (p : Bytes) → Lacks d p → split_keyexpr p d ≡ p ∷ []
unfolding split_keyexpr
split_one d [] h = refl
split_one d (c ∷ p) (hc, hp) = ground (arith, split_one d p hp)

-- Texts joined by a delimiter.
abbrev pub join : ℕ → List Bytes → Bytes
join d [] = []
join d (p ∷ []) = p
join d (p ∷ q ∷ ps) = p ++ d ∷ join d (q ∷ ps)

-- Splitting a join of at least one part gives the parts back, if none holds the delimiter.
pub split-join :
    (d : ℕ) (p : Bytes) (ps : List Bytes)
    → All (Lacks d) (p ∷ ps)
    → split_keyexpr (join d (p ∷ ps)) d ≡ p ∷ ps
split-join d p [] (hp, _) = split_one d p hp
split-join d p (q ∷ ps) (hp, hs) =
    split-append d p (join d (q ∷ ps)) hp ∙ ap (λ r. p ∷ r) (split-join d q ps hs)
