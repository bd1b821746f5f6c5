-- ===== src/Common/Map.antt =====
-- Maps as association lists: `find`, insertion of a new key, assignment to a key that is there, and
-- `erase`. A new key of an unordered map goes to the end, one of an ordered map in front of the first
-- greater key.
pub mod Laws
pub mod Unique
use rmw_zenoh.Common.{
  ℕ, ◌≡◌, Bool, true, false, ◌&&◌, ◌||◌, List, [], ◌∷◌, ◌++◌, Option, none, some, Eq, ◌==◌, ltb,
  nat_eq, if◌then◌else◌,
}
use rmw_zenoh.Common.Text.{Bytes}

-- The order of `std::string`.
unfoldable pub bytes_ltb : Bytes → Bytes → Bool
bytes_ltb [] [] = false
bytes_ltb [] (y ∷ ys) = true
bytes_ltb (x ∷ xs) [] = false
bytes_ltb (x ∷ xs) (y ∷ ys) = ltb x y || (x == y && bytes_ltb xs ys)

module _ {ℓ} {K : Type 0} {V : Type ℓ} ⦃e : Eq K⦄ where
  unfoldable pub find : K → List (K × V) → Option V
  find k [] = none
  find k ((j, v) ∷ m) = if k == j then some v else find k m

  -- `map.insert(make_pair(k, v))` for a key that is not there.
  abbrev pub append : K → V → List (K × V) → List (K × V)
  append k v m = m ++ (k, v) ∷ []

  -- `it->second = v`
  unfoldable pub assign : K → V → List (K × V) → List (K × V)
  assign k v [] = []
  assign k v ((j, w) ∷ m) = if k == j then (j, v) ∷ m else (j, w) ∷ assign k v m

  unfoldable pub erase : K → List (K × V) → List (K × V)
  erase k [] = []
  erase k ((j, v) ∷ m) = let rest = erase k m in if k == j then rest else (j, v) ∷ rest

  -- `map[k] = v`
  unfoldable pub put : K → V → List (K × V) → List (K × V)
  put k v [] = (k, v) ∷ []
  put k v ((j, w) ∷ m) = if k == j then (j, v) ∷ m else (j, w) ∷ put k v m

-- Insertion into a `std::map` or `std::multimap` with text keys: behind every key that is not greater.
unfoldable pub insert_sorted {ℓ} : {V : Type ℓ} → Bytes → V → List (Bytes × V) → List (Bytes × V)
insert_sorted k v [] = (k, v) ∷ []
insert_sorted k v ((j, w) ∷ m) =
    if bytes_ltb k j then (k, v) ∷ (j, w) ∷ m else (j, w) ∷ insert_sorted k v m
