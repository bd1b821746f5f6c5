-- ===== src/Graph/Names/Tables.antt =====
-- The tables of names and types of detail/graph_cache.cpp are complete or not given.
use rmw_zenoh.Common.{
  ℕ, ◌+◌, ◌≡◌, ◌≢◌, refl, sym, subst, Bool, List, [], ◌∷◌, Option, none, some, arith, ◌⊎◌, inl, inr,
  Option-cases,
}
use rmw_zenoh.Common.Text.{Bytes}
use rmw_zenoh.Qos.{RmwRet}
use rmw_zenoh.Liveliness.{EntityType}
use rmw_zenoh.Graph.{TopicTypeMap, TopicMap}
use rmw_zenoh.Graph.Nodes.{GraphNode, GraphCache}
use rmw_zenoh.Graph.Names.{
  demangle_if_ros_type, Table, fill_types, fill_names, fill_names_and_types, NodeChecks,
  check_node_arguments, find_named, endpoints_of, get_entity_names_and_types_by_node,
}

-- The names of a map, each with its demangled types.
abbrev pub types_of : (Bytes → Bytes) → TopicTypeMap → List Bytes
types_of replace [] = []
types_of replace ((type, _) ∷ m) = demangle_if_ros_type replace type ∷ types_of replace m

abbrev pub table_of : (Bytes → Bytes) → TopicMap → Table
table_of replace [] = []
table_of replace ((name, types) ∷ m) = (name, types_of replace types) ∷ table_of replace m

module _ (replace : Bytes → Bytes) (granted : ℕ → Bool) where
  fill_types_lem :
      (n k : ℕ) (m : TopicTypeMap) (row : List Bytes)
      → fill_types replace granted n m ≡ some (row, k)
      → row ≡ types_of replace m
  unfolding fill_types
  fill_types_lem n k [] row e = ground arith
  fill_types_lem n k ((type, _) ∷ m) row e =
      elim (Option-cases (fill_types replace granted (n + 1) m)) [
        | inl a ↦ ground (arith, a)
        | inr ((rest, k'), a) ↦ ground (arith, a, fill_types_lem (n + 1) k' m rest a)
      ]

  fill_names_lem :
      (n k : ℕ) (m : TopicMap) (table : Table)
      → fill_names replace granted n m ≡ some (table, k)
      → table ≡ table_of replace m
  unfolding fill_names
  fill_names_lem n k [] table e = ground arith
  fill_names_lem n k ((name, types) ∷ m) table e =
      elim (Option-cases (fill_types replace granted (n + 2) types)) [
        | inl a ↦ ground (arith, a)
        | inr ((row, k'), a) ↦ elim (Option-cases (fill_names replace granted k' m)) [
          | inl b ↦ ground (arith, a, b)
          | inr ((rest, k''), b) ↦
              ground
                (arith, a, b, fill_types_lem (n + 2) k' types row a, fill_names_lem k' k'' m rest b)
        ]
      ]

  -- A code and a table: all names with their types, or an error and no table.
  abbrev pub IsComplete : TopicMap → RmwRet × Option Table → Type 0
  IsComplete m r =
      ((r.0 ≡ RmwRet.ok) × (r.1 ≡ some (table_of replace m))) ⊎ ((r.0 ≢ RmwRet.ok) × (r.1 ≡ none))

  pub fill_names_and_types-IsComplete :
      (init_ret : RmwRet) (m : TopicMap)
      → IsComplete m (fill_names_and_types replace granted init_ret m)
  unfolding fill_names_and_types
  fill_names_and_types-IsComplete RmwRet.ok m =
      elim (Option-cases (fill_names replace granted 0 m)) [
        | inl a ↦ inr (ground (arith, a), ground (arith, a))
        | inr ((table, k), a) ↦
            inl (ground (arith, a), ground (arith, a, fill_names_lem 0 k m table a))
      ]
  fill_names_and_types-IsComplete RmwRet.unsupported m = inr (ground arith, refl)
  fill_names_and_types-IsComplete RmwRet.error m = inr (ground arith, refl)
  fill_names_and_types-IsComplete RmwRet.invalid_argument m = inr (ground arith, refl)
  fill_names_and_types-IsComplete RmwRet.bad_alloc m = inr (ground arith, refl)
  fill_names_and_types-IsComplete RmwRet.node_name_non_existent m = inr (ground arith, refl)
  fill_names_and_types-IsComplete RmwRet.incorrect_rmw_implementation m = inr (ground arith, refl)
  fill_names_and_types-IsComplete RmwRet.timeout m = inr (ground arith, refl)

  -- The table for a kind of endpoint is that of the first node with the name in the namespace; the
  -- arguments pass the checks and the node exists.
  pub by_node-IsComplete :
      (checks : NodeChecks) (init_ret : RmwRet) (type : EntityType) (name ns : Bytes)
      (c : GraphCache) (node : GraphNode) (m : TopicMap)
      → check_node_arguments checks ≡ RmwRet.ok
      → find_named ns name c ≡ some node
      → endpoints_of type node ≡ some m
      → IsComplete m
          (get_entity_names_and_types_by_node replace granted checks init_ret type name ns c)
  unfolding get_entity_names_and_types_by_node
  by_node-IsComplete checks init_ret type name ns c node m pass found has =
      subst (IsComplete m) (sym (ground (arith, pass, found, has)))
        (fill_names_and_types-IsComplete init_ret m)
