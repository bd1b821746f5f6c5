-- ===== src/Liveliness/Mangle.antt =====
-- `mangle_name` and `demangle_name` of detail/liveliness_utils.cpp.
use rmw_zenoh.Common.{◌≡◌, ◌≢◌, refl, [], ◌∷◌, arith}
use rmw_zenoh.Common.Text.{Bytes, Lacks}
use rmw_zenoh.Liveliness.{slash, slash_replacement, mangle_name, demangle_name}

-- A mangled name holds no slash.
pub mangle_name-Lacks : (s : Bytes) → Lacks slash (mangle_name s)
unfolding mangle_name
mangle_name-Lacks [] = tt
mangle_name-Lacks (c ∷ s) = ground (arith, mangle_name-Lacks s)

-- Demangling a mangled name gives it back, if it held no "%".
pub demangle-mangle : (s : Bytes) → Lacks slash_replacement s → demangle_name (mangle_name s) ≡ s
unfolding mangle_name demangle_name
demangle-mangle [] h = refl
demangle-mangle (c ∷ s) (hc, hs) = ground (arith, demangle-mangle s hs)

-- The other way round: mangling a demangled name gives it back, if it held no slash.
pub mangle-demangle : (s : Bytes) → Lacks slash s → mangle_name (demangle_name s) ≡ s
unfolding mangle_name demangle_name
mangle-demangle [] h = refl
mangle-demangle (c ∷ s) (hc, hs) = ground (arith, mangle-demangle s hs)

pub mangle_name-ne-nil : (s : Bytes) → s ≢ [] → mangle_name s ≢ []
unfolding mangle_name
mangle_name-ne-nil [] h = absurd (h refl)
mangle_name-ne-nil (c ∷ s) h = ground arith
