-- ===== src/Liveliness/Gid.antt =====
-- Identifiers of entities: the hash of a token in `Entity::Entity`, and `hash_gid`, both in
-- detail/liveliness_utils.cpp. `simplified_XXH3_128bits` (a cut-down copy of xxHash) and
-- `std::hash<std::string>` are the parameter `Hashes`.
use rmw_zenoh.Common.{
  ℕ, zero, suc, ◌+◌, ◌-◌, ◌*◌, ◌/◌, ◌%◌, ◌<◌, ◌≡◌, ap, refl, [], ◌∷◌, ◌++◌, append_assoc, arith,
  ltb, if◌then◌else◌,
}
use rmw_zenoh.Common.Text.{Bytes}

pub record Hashes : Type 0 where
  -- `low64` and `high64`
  pub xxh3_128 : Bytes → ℕ × ℕ
  pub string_hash : Bytes → ℕ

-- The bytes of an integer in memory, lowest first.
unfoldable pub le_bytes : ℕ → ℕ → Bytes
le_bytes zero x = []
le_bytes (suc n) x = (x % 256) ∷ le_bytes n (x / 256)

-- The 16 bytes of `gid_`.
unfoldable pub gid_of : Hashes → Bytes → Bytes
unfolding le_bytes
gid_of h keyexpr =
    let keyexpr_gid = h.xxh3_128 keyexpr in le_bytes 8 keyexpr_gid.0 ++ le_bytes 8 keyexpr_gid.1

abbrev pub hex_digit : ℕ → ℕ
hex_digit d = if ltb d 10 then b'0' + d else b'a' + d - 10

-- `hash_str << std::hex << static_cast<int>(g)`: no leading zero.
unfoldable pub hex : ℕ → Bytes
hex g = if ltb g 16 then hex_digit g ∷ [] else hex_digit (g / 16) ∷ hex_digit (g % 16) ∷ []

unfoldable pub hex_all : Bytes → Bytes
unfolding hex
hex_all [] = []
hex_all (g ∷ gid) = hex g ++ hex_all gid

unfoldable pub hash_gid : Hashes → Bytes → ℕ
unfolding hex_all
hash_gid h gid = h.string_hash (hex_all gid)

hex_all-append : (s t : Bytes) → hex_all (s ++ t) ≡ hex_all s ++ hex_all t
unfolding hex_all
hex_all-append [] t = refl
hex_all-append (g ∷ s) t = rw (hex_all-append s t, append_assoc)

-- Two neighbouring bytes `a`, `16 * b + c` print like `16 * a + b`, `c`.
hex_shift :
    (a b c : ℕ) (rest : Bytes)
    → 0 < a
    → a < 16
    → 0 < b
    → b < 16
    → c < 16
    → hex_all (a ∷ (16 * b + c) ∷ rest) ≡ hex_all ((16 * a + b) ∷ c ∷ rest)
unfolding hex_all
hex_shift a b c rest ha la hb lb lc = ground arith

-- Identifiers that differ only by where a byte boundary falls between hexadecimal digits have one
-- hash, whatever the string hash is: the text that is hashed is the same.
pub hash_gid_collision :
    (h : Hashes) (front : Bytes) (a b c : ℕ) (rest : Bytes)
    → 0 < a
    → a < 16
    → 0 < b
    → b < 16
    → c < 16
    → hash_gid h (front ++ a ∷ (16 * b + c) ∷ rest) ≡ hash_gid h (front ++ (16 * a + b) ∷ c ∷ rest)
unfolding hash_gid
hash_gid_collision h front a b c rest ha la hb lb lc = ap h.string_hash (
    rw (
      hex_all-append front (a ∷ (16 * b + c) ∷ rest),
      hex_all-append front ((16 * a + b) ∷ c ∷ rest),
      hex_shift a b c rest ha la hb lb lc,
    ))
