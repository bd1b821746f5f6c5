-- ===== src/Graph/Nodes/Names/Complete.antt =====
-- `get_node_names` of detail/graph_cache.cpp gives all nodes or an error.
use rmw_zenoh.Common.{
  Bool, true, ◌&&◌, ℕ, suc, ◌+◌, ◌≡◌, refl, List, [], ◌∷◌, ◌++◌, Option, none, some, map,
}
use rmw_zenoh.Common.Text.{Bytes}
use rmw_zenoh.Graph.Nodes.{NodeMap}
use rmw_zenoh.Graph.Nodes.Reach.{Reach}
use rmw_zenoh.Graph.Nodes.Names.{Row, Arguments, is_zero, init, row_of, requests_for, row_granted}

-- The nodes of a graph in order.
abbrev pub rows_of_nodes : Bool → Bytes → NodeMap → List Row
rows_of_nodes wants ns [] = []
rows_of_nodes wants ns ((_, node) ∷ m) = row_of wants ns node ∷ rows_of_nodes wants ns m

abbrev pub rows_of : Bool → List (Bytes × NodeMap) → List Row
rows_of wants [] = []
rows_of wants ((ns, nodes) ∷ graph) = rows_of_nodes wants ns nodes ++ rows_of wants graph

module _ (granted : ℕ → Bool) (wants : Bool) where
  -- The requests for the rows of a list, from a number on, are granted.
  abbrev pub all_granted : ℕ → List Row → Bool
  all_granted k [] = true
  all_granted k (_ ∷ rows) =
      row_granted granted wants k && all_granted (k + requests_for wants) rows

  abbrev next : ℕ → List Row → ℕ
  next k [] = k
  next k (_ ∷ rows) = next (k + requests_for wants) rows

abbrev filled : List Row → List (Option Row)
filled rows = map some rows

init-suc : (n : ℕ) → init (suc n) ≡ none ∷ init n
unfolding init
init-suc n = refl

-- The arguments that are refused.
abbrev pub are_valid : Arguments → Bool
are_valid args =
    args.names_zero
    && (args.namespaces_zero && (is_zero args.enclaves_zero && args.allocator_valid))
