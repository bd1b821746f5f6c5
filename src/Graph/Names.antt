-- ===== src/Graph/Names.antt =====
-- The tables of names and types that the graph cache of detail/graph_cache.cpp returns. What the
-- allocator answers to its requests, one after another, is a parameter, and so are the checks of
-- rmw and `rcpputils::find_and_replace`.
pub mod Tables
use rmw_zenoh.Common.{
  ℕ, zero, suc, ◌+◌, ◌-◌, ◌≡◌, Bool, true, false, not, ◌&&◌, List, [], ◌∷◌, ◌++◌, Option, none,
  some, ◌==◌, nat_eq, ◌>>=◌, length, if◌then◌else◌,
}
use rmw_zenoh.Common.Text.{Bytes, bytes_eq, codes}
use rmw_zenoh.Common.Map.{find}
use rmw_zenoh.Qos.{RmwRet}
use rmw_zenoh.Liveliness.{EntityType}
use rmw_zenoh.Graph.{TopicQosMap, TopicTypeMap, TopicMap}
use rmw_zenoh.Graph.Nodes.{GraphNode, NodeMap, GraphCache}

abbrev pub starts_with : Bytes → Bytes → Bool
starts_with [] s = true
starts_with (x ∷ xs) [] = false
starts_with (x ∷ xs) (y ∷ ys) = x == y && starts_with xs ys

-- `std::string::find`: the text in front of the first occurrence, and the text behind it.
unfoldable pub split_at : Bytes → Bytes → Option (Bytes × Bytes)
split_at sub [] = if starts_with sub [] then some ([], []) else none
split_at sub (c ∷ s) =
    let rest = split_at sub s in
    if starts_with sub (c ∷ s)
    then some ([], drop (length sub) (c ∷ s))
    else elim rest [ none ↦ none | some (front, behind) ↦ some (c ∷ front, behind) ]
  where
    drop : ℕ → Bytes → Bytes
    drop zero bytes = bytes
    drop (suc n) [] = []
    drop (suc n) (b ∷ bytes) = drop n bytes

abbrev pub ends_with_underscore : Bytes → Bool
ends_with_underscore [] = false
ends_with_underscore (c ∷ []) = c == b'_'
ends_with_underscore (c ∷ d ∷ s) = ends_with_underscore (d ∷ s)

-- All but the last byte.
abbrev pub without_last : Bytes → Bytes
without_last [] = []
without_last (c ∷ []) = []
without_last (c ∷ d ∷ s) = c ∷ without_last (d ∷ s)

abbrev pub dds_infix : Bytes
dds_infix = codes "dds_::"

-- `_demangle_if_ros_type`; `replace` is what `rcpputils::find_and_replace` does with "::" and "/". Of an
-- empty text, which is the type of no token, the source reads a byte out of range.
unfoldable pub demangle_if_ros_type : (Bytes → Bytes) → Bytes → Bytes
unfolding split_at
demangle_if_ros_type replace type =
    if not (ends_with_underscore type) then type else elim (split_at dds_infix type) [
      | none ↦ type
      | some (type_namespace, behind) ↦ replace type_namespace ++ without_last behind
    ]

-- `rmw_names_and_types_t`: names, each with its types.
abbrev pub Table : Type 0
Table = List (Bytes × List Bytes)

module _ (replace : Bytes → Bytes) (granted : ℕ → Bool) where
  -- The loops of `fill_names_and_types`, with the number of the next request to the allocator.
  unfoldable pub fill_types : ℕ → TopicTypeMap → Option (List Bytes × ℕ)
  fill_types n [] = some ([], n)
  fill_types n ((type, _) ∷ m) =
      if granted n
      then (do
        (types, n') ← fill_types (n + 1) m
        some (demangle_if_ros_type replace type ∷ types, n'))
      else none

  unfoldable pub fill_names : ℕ → TopicMap → Option (Table × ℕ)
  unfolding fill_types
  fill_names n [] = some ([], n)
  fill_names n ((name, types) ∷ m) =
      if granted n && granted (n + 1)
      then (do
        (row, n') ← fill_types (n + 2) types
        (rows, n'') ← fill_names n' m
        some ((name, row) ∷ rows, n''))
      else none

  -- `fill_names_and_types`: the code, and the table when it is filled; a table that is not filled to
  -- the end is finalized. `init_ret` is what `rmw_names_and_types_init` returns.
  unfoldable pub fill_names_and_types : RmwRet → TopicMap → RmwRet × Option Table
  unfolding fill_names
  fill_names_and_types RmwRet.ok m = elim (fill_names 0 m) [
    | none ↦ (RmwRet.bad_alloc, none)
    | some (table, _) ↦ (RmwRet.ok, some table)
  ]
  fill_names_and_types init_ret m = (init_ret, none)

  unfoldable pub get_topic_names_and_types : Bool → RmwRet → GraphCache → RmwRet × Option Table
  get_topic_names_and_types allocator_valid init_ret c =
      if not allocator_valid
      then (RmwRet.invalid_argument, none)
      else fill_names_and_types init_ret c.graph_topics

  unfoldable pub get_service_names_and_types : Bool → RmwRet → GraphCache → RmwRet × Option Table
  get_service_names_and_types allocator_valid init_ret c =
      if not allocator_valid
      then (RmwRet.invalid_argument, none)
      else fill_names_and_types init_ret c.graph_services

-- What the checks in front of `get_entity_names_and_types_by_node` say: of the allocator, the codes and
-- the results of `rmw_validate_node_name` and `rmw_validate_namespace`, and the code of
-- `rmw_names_and_types_check_zero`.
pub record NodeChecks : Type 0 where
  pub allocator_valid : Bool
  pub name_ret : RmwRet
  pub name_valid : Bool
  pub namespace_ret : RmwRet
  pub namespace_valid : Bool
  pub zero_ret : RmwRet

-- The first error.
abbrev pub and_then : RmwRet → RmwRet → RmwRet
and_then RmwRet.ok next = next
and_then ret next = ret

unfoldable pub check_node_arguments : NodeChecks → RmwRet
check_node_arguments k =
    and_then (if k.allocator_valid then RmwRet.ok else RmwRet.invalid_argument) (
      and_then k.name_ret (
        and_then (if k.name_valid then RmwRet.ok else RmwRet.invalid_argument) (
          and_then k.namespace_ret (
            and_then (if k.namespace_valid then RmwRet.ok else RmwRet.invalid_argument)
              k.zero_ret))))

-- The first node with a name in a namespace.
unfoldable pub find_named : Bytes → Bytes → GraphCache → Option GraphNode
find_named ns name c = elim (find ns c.graph) [ none ↦ none | some nodes ↦ find name nodes ]

-- The map of a node for a kind of endpoint; a node is no endpoint.
abbrev pub endpoints_of : EntityType → GraphNode → Option TopicMap
endpoints_of EntityType.publisher node = some node.pubs
endpoints_of EntityType.subscription node = some node.subs
endpoints_of EntityType.service node = some node.services
endpoints_of EntityType.client node = some node.clients
endpoints_of _ node = none

unfoldable pub get_entity_names_and_types_by_node :
    (Bytes → Bytes)
    → (ℕ → Bool)
    → NodeChecks
    → RmwRet
    → EntityType
    → Bytes
    → Bytes
    → GraphCache
    → RmwRet × Option Table
unfolding check_node_arguments find_named
get_entity_names_and_types_by_node replace granted checks init_ret type name ns c =
    elim (check_node_arguments checks) [
      | RmwRet.ok ↦ elim (find_named ns name c) [
        | none ↦ (RmwRet.node_name_non_existent, none)
        | some node ↦ elim (endpoints_of type node) [
          | none ↦ (RmwRet.unsupported, none)
          | some m ↦ fill_names_and_types replace granted init_ret m
        ]
      ]
      | ret ↦ (ret, none)
    ]
