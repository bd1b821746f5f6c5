-- ===== src/Graph/Nodes/Names.antt =====
-- `get_node_names` of detail/graph_cache.cpp. The arrays are one array of rows, of size
-- `total_nodes_in_graph_`, in which the enclave is `none` when no array for enclaves is given. What rmw
-- and rcutils say of the arguments is given, and so is what they answer to the requests for an array or
-- for the copy of a text, one after another; the arrays are freed on every error.
pub mod Complete
use rmw_zenoh.Common.{
  Bool, true, false, not, ◌&&◌, ◌||◌, if◌then◌else◌, ℕ, zero, suc, ◌+◌, ◌^◌, ◌<◌, ◌≡◌, refl, sym,
  ap, ◌∙◌, List, [], ◌∷◌, ◌++◌, Option, none, some, arith, ◌>>=◌, map, length, append_assoc,
  append-nil, length-append,
}
use rmw_zenoh.Common.Text.{Bytes}
use rmw_zenoh.Graph.Nodes.{GraphNode, NodeMap, GraphCache}
use rmw_zenoh.Qos.{Rmw, RmwRet}
use rmw_zenoh.Liveliness.Gid.{Hashes}
use rmw_zenoh.Graph.Nodes.Reach.{Reach, Reach-IsCounted}
use rmw_zenoh.Graph.Nodes.Total.{node_count, IsCounted}

pub record Row : Type 0 where
  pub name : Bytes
  pub ns : Bytes
  pub enclave : Option Bytes

-- Whether each array is zero, `none` for no array of enclaves, and whether the allocator is valid.
pub record Arguments : Type 0 where
  pub names_zero : Bool
  pub namespaces_zero : Bool
  pub enclaves_zero : Option Bool
  pub allocator_valid : Bool

abbrev pub wants_enclaves : Arguments → Bool
wants_enclaves args = elim args.enclaves_zero [ none ↦ false | some _ ↦ true ]

abbrev pub is_zero : Option Bool → Bool
is_zero none = true
is_zero (some is_null) = is_null

-- An array of `n` strings that are null.
unfoldable pub init : ℕ → List (Option Row)
init zero = []
init (suc n) = none ∷ init n

-- `data[j] = row`
unfoldable pub write : ℕ → Row → List (Option Row) → Option (List (Option Row))
write j row [] = none
write zero row (x ∷ xs) = some (some row ∷ xs)
write (suc j) row (x ∷ xs) = write j row xs >>= (λ ys. some (x ∷ ys))

-- How a loop ends: behind the end of the arrays, without memory, or with the next request, the index and
-- the arrays.
pub data Filling : Type 0 where
  overrun refused : Filling
  filled_to : ℕ → ℕ → List (Option Row) → Filling

abbrev pub place : Bool → (List (Option Row) → Filling) → Option (List (Option Row)) → Filling
place copied rest none = overrun
place true rest (some rows) = rest rows
place false rest (some rows) = refused

abbrev pub then_fill : (ℕ → ℕ → List (Option Row) → Filling) → Filling → Filling
then_fill rest overrun = overrun
then_fill rest refused = refused
then_fill rest (filled_to k j rows) = rest k j rows

abbrev pub row_of : Bool → Bytes → GraphNode → Row
row_of wants ns node = record {
  name = node.name;
  ns = ns;
  enclave = if wants then some node.enclave else none;
}

-- The requests for a row, or for the arrays.
abbrev pub requests_for : Bool → ℕ
requests_for wants = if wants then 3 else 2

module _ (granted : ℕ → Bool) (wants : Bool) where
  abbrev pub row_granted : ℕ → Bool
  row_granted k = granted k && (granted (k + 1) && (not wants || granted (k + 2)))

  -- The inner and the outer loop, with the number `k` of the next request and the index `j`.
  unfoldable pub fill_nodes : Bytes → NodeMap → ℕ → ℕ → List (Option Row) → Filling
  unfolding write
  fill_nodes ns [] k j rows = filled_to k j rows
  fill_nodes ns ((_, node) ∷ m) k j rows =
      place (row_granted k) (λ rows'. fill_nodes ns m (k + requests_for wants) (suc j) rows')
        (write j (row_of wants ns node) rows)

  unfoldable pub fill_namespaces : List (Bytes × NodeMap) → ℕ → ℕ → List (Option Row) → Filling
  unfolding fill_nodes
  fill_namespaces [] k j rows = filled_to k j rows
  fill_namespaces ((ns, nodes) ∷ graph) k j rows =
      then_fill (λ k' j' rows'. fill_namespaces graph k' j' rows') (fill_nodes ns nodes k j rows)

-- The code and the arrays that are returned; `none` is a write behind the end of the arrays.
abbrev pub returned : Filling → Option (RmwRet × Option (List (Option Row)))
returned overrun = none
returned refused = some (RmwRet.bad_alloc, none)
returned (filled_to k j rows) = some (RmwRet.ok, some rows)

unfoldable pub get_node_names :
    (ℕ → Bool) → Arguments → GraphCache → Option (RmwRet × Option (List (Option Row)))
unfolding init fill_namespaces
get_node_names granted args c =
    if not args.names_zero
    then some (RmwRet.invalid_argument, none)
    else if not args.namespaces_zero
    then some (RmwRet.invalid_argument, none)
    else if not (is_zero args.enclaves_zero)
    then some (RmwRet.invalid_argument, none)
    else if not args.allocator_valid
    then some (RmwRet.invalid_argument, none)
    else if not (row_granted granted (wants_enclaves args) 0)
    then some (RmwRet.bad_alloc, none)
    else returned (
        fill_namespaces granted (wants_enclaves args) c.graph (requests_for (wants_enclaves args)) 0
          (init c.total_nodes_in_graph))
