-- ===== src/Graph/Nodes/Total.antt =====
-- The graph of nodes and its counter `total_nodes_in_graph_`: detail/graph_cache.cpp.
use rmw_zenoh.Common.{
  ℕ, suc, ◌+◌, ◌^◌, ◌%◌, ◌<◌, ◌≡◌, ◌≢◌, refl, Bool, true, false, List, [], ◌∷◌, none, some, arith,
  All, All-append, Option-branches, if-branches, if◌then◌else◌, length, is_empty,
}
use rmw_zenoh.Common.Text.{Bytes, bytes_eq}
use rmw_zenoh.Common.Map.{find, append, assign, erase, insert_sorted}
use rmw_zenoh.Common.Map.Laws.{All-assign, All-erase}
use rmw_zenoh.Common.Map.Unique.{
  IsUnique, total, append-IsUnique, assign-IsUnique, erase-IsUnique, total-append, total-assign,
  total-erase,
}
use rmw_zenoh.Qos.{Rmw}
use rmw_zenoh.Liveliness.{EntityType}
use rmw_zenoh.Liveliness.Entity.{Entity, is_node}
use rmw_zenoh.Graph.Nodes.{
  GraphNode, NodeMap, GraphCache, find_node, assign_node, erase_node, set_namespace, put_entity,
  del_entity, del_node, del_endpoint, decremented, incremented, put_update, del_update, Update,
  update_topic_maps, update_node_map, update_graph_map, make_graph_node, add_namespace, add_node,
  update_node,
}

-- The nodes of a graph.
abbrev pub node_count : List (Bytes × NodeMap) → ℕ
node_count graph = total length graph

abbrev pub IsFilled : List (Bytes × NodeMap) → Type 0
IsFilled graph = All (λ p. is_empty p.1 ≡ false) graph

-- No namespace stands twice, none is empty, and the counter is the number of nodes.
unfoldable pub IsCounted : List (Bytes × NodeMap) → ℕ → Type 0
IsCounted graph n = IsUnique graph × (IsFilled graph × (n ≡ node_count graph % 2 ^ 64))

length-insert_sorted {ℓ} :
    {V : Type ℓ} (k : Bytes) (v : V) (m : List (Bytes × V))
    → length (insert_sorted k v m) ≡ suc (length m)
unfolding insert_sorted
length-insert_sorted k v [] = refl
length-insert_sorted k v ((i, w) ∷ m) = ground (arith, length-insert_sorted k v m)

length-assign_node :
    (entity : Entity) (node : GraphNode) (m : NodeMap)
    → length (assign_node entity node m) ≡ length m
unfolding assign_node
length-assign_node entity node [] = refl
length-assign_node entity node (p ∷ m) = ground (arith, length-assign_node entity node m)

length-erase_node :
    (entity : Entity) (node : GraphNode) (m : NodeMap)
    → find_node entity m ≡ some node
    → suc (length (erase_node entity m)) ≡ length m
unfolding find_node erase_node
length-erase_node entity node [] h = ground arith
length-erase_node entity node (p ∷ m) h = ground (arith, length-erase_node entity node m)

is_empty_of_length {ℓ} :
    {A : Type ℓ} (xs : List A) (n : ℕ) → length xs ≡ suc n → is_empty xs ≡ false
is_empty_of_length [] n h = ground arith
is_empty_of_length (x ∷ xs) n h = refl

length_of_filled {ℓ} : {A : Type ℓ} (xs : List A) → is_empty xs ≡ false → length xs ≢ 0
length_of_filled [] h = ground arith
length_of_filled (x ∷ xs) h = ground arith

same_is_empty {ℓ} :
    {A : Type ℓ} (xs ys : List A)
    → length xs ≡ length ys
    → is_empty ys ≡ false
    → is_empty xs ≡ false
same_is_empty [] [] l h = h
same_is_empty [] (y ∷ ys) l h = ground arith
same_is_empty (x ∷ xs) ys l h = refl

-- The graph after the steps of the two functions.
new_namespace-IsCounted :
    (ns name : Bytes) (node : GraphNode) (graph : List (Bytes × NodeMap)) (n : ℕ)
    → find ns graph ≡ none
    → IsCounted graph n
    → IsCounted (append ns ((name, node) ∷ []) graph) (incremented n)
unfolding IsCounted
new_namespace-IsCounted ns name node graph n f (u, (e, c)) = (
  append-IsUnique ns ((name, node) ∷ []) graph f u,
  (
    All-append _ graph ((ns, (name, node) ∷ []) ∷ []) e (refl, tt),
    ground (arith, c, total-append length ns ((name, node) ∷ []) graph),
  ),
)

-- A namespace whose number of nodes changes by what the counter changes by.
namespace-IsCounted :
    (ns : Bytes) (nodes nodes' : NodeMap) (graph : List (Bytes × NodeMap)) (n n' : ℕ)
    → find ns graph ≡ some nodes
    → is_empty nodes' ≡ false
    → (n + length nodes') % 2 ^ 64 ≡ (n' + length nodes) % 2 ^ 64
    → n' < 2 ^ 64
    → IsCounted graph n
    → IsCounted (assign ns nodes' graph) n'
unfolding IsCounted
namespace-IsCounted ns nodes nodes' graph n n' f h d fits (u, (e, c)) = (
  assign-IsUnique ns nodes' graph u,
  (
    All-assign (λ m. is_empty m ≡ false) ns nodes' graph h e,
    omega (arith, c, d, total-assign length ns nodes' nodes graph f),
  ),
)

last_node-IsCounted :
    (ns : Bytes) (nodes : NodeMap) (graph : List (Bytes × NodeMap)) (n : ℕ)
    → find ns graph ≡ some nodes
    → length nodes ≡ 1
    → IsCounted graph n
    → IsCounted (erase ns graph) (decremented n)
unfolding IsCounted
last_node-IsCounted ns nodes graph n f l (u, (e, c)) = (
  erase-IsUnique ns graph u,
  (
    All-erase (λ m. is_empty m ≡ false) ns graph e,
    omega (arith, c, l, total-erase length ns nodes graph f u),
  ),
)

length_of_empty {ℓ} : {A : Type ℓ} (xs : List A) → is_empty xs ≡ true → length xs ≡ 0
length_of_empty [] h = refl
length_of_empty (x ∷ xs) h = ground arith

find_node-ne-nil :
    (entity : Entity) (node : GraphNode) (m : NodeMap)
    → find_node entity m ≡ some node
    → is_empty m ≡ false
unfolding find_node
find_node-ne-nil entity node [] h = ground arith
find_node-ne-nil entity node (p ∷ m) h = refl

counter_fits : (graph : List (Bytes × NodeMap)) (n : ℕ) → IsCounted graph n → n < 2 ^ 64
unfolding IsCounted
counter_fits graph n (u, (e, c)) = omega (arith, c)

update_topic_maps-total :
    (entity : Entity) (f : Bool → Update) (node : GraphNode) (c : GraphCache)
    → (update_topic_maps entity f node c).1.total_nodes_in_graph ≡ c.total_nodes_in_graph
unfolding update_topic_maps update_graph_map
update_topic_maps-total entity f node c = go entity.type
  where
    go :
        (t : EntityType)
        → (update_graph_map t f (record c {
          events = (update_node_map entity.type (f false) (node, c.events)).1;
        })).total_nodes_in_graph
          ≡ c.total_nodes_in_graph
    go EntityType.node = refl
    go EntityType.publisher = refl
    go EntityType.subscription = refl
    go EntityType.service = refl
    go EntityType.client = refl

-- The invariant of a cache.
abbrev pub IsCountedCache : GraphCache → Type 0
IsCountedCache c = IsCounted c.graph c.total_nodes_in_graph

add_namespace-IsCounted :
    (r : Rmw) (entity : Entity) (c : GraphCache)
    → find entity.node_info.ns c.graph ≡ none
    → IsCountedCache c
    → IsCountedCache (add_namespace r entity c)
unfolding add_namespace
add_namespace-IsCounted r entity c f h =
    new_namespace-IsCounted entity.node_info.ns entity.node_info.name _ c.graph
      c.total_nodes_in_graph f h

add_node-IsCounted :
    (r : Rmw) (entity : Entity) (nodes : NodeMap) (c : GraphCache)
    → find entity.node_info.ns c.graph ≡ some nodes
    → IsCountedCache c
    → IsCountedCache (add_node r entity nodes c)
unfolding add_node
add_node-IsCounted r entity nodes c f h =
    let node =
      (update_topic_maps entity (put_update r c.zid entity) (make_graph_node entity) c).0 in
    let l = length-insert_sorted entity.node_info.name node nodes in
    let n = c.total_nodes_in_graph in
    namespace-IsCounted entity.node_info.ns nodes (insert_sorted entity.node_info.name node nodes)
      c.graph n (incremented n) f
      (is_empty_of_length (insert_sorted entity.node_info.name node nodes) (length nodes) l)
      (omega (arith, l)) (omega arith) h

-- A node that is there gets other maps.
changed_node-IsCounted :
    (entity : Entity) (nodes : NodeMap) (old node : GraphNode) (graph : List (Bytes × NodeMap))
    (n n' : ℕ)
    → find entity.node_info.ns graph ≡ some nodes
    → find_node entity nodes ≡ some old
    → n' ≡ n
    → IsCounted graph n
    → IsCounted (assign entity.node_info.ns (assign_node entity node nodes) graph) n'
changed_node-IsCounted entity nodes old node graph n n' f g e h =
    let l = length-assign_node entity node nodes in
    namespace-IsCounted entity.node_info.ns nodes (assign_node entity node nodes) graph n n' f
      (same_is_empty (assign_node entity node nodes) nodes l (find_node-ne-nil entity old nodes g))
      (omega (arith, l, e)) (omega (arith, e, counter_fits graph n h)) h

-- A put keeps the counter equal to the number of nodes.
pub put_entity-IsCounted :
    (r : Rmw) (entity : Entity) (c : GraphCache)
    → IsCountedCache c
    → IsCountedCache (put_entity r entity c)
unfolding put_entity update_node
put_entity-IsCounted r entity c h =
    Option-branches IsCountedCache (find entity.node_info.ns c.graph) (add_namespace r entity c) _
      (λ f. add_namespace-IsCounted r entity c f h)
      (λ nodes f.
        Option-branches IsCountedCache (find_node entity nodes) (add_node r entity nodes c)
          (λ node. update_node r entity nodes node c) (λ _. add_node-IsCounted r entity nodes c f h)
          (λ old g.
            changed_node-IsCounted entity nodes old
              (update_topic_maps entity (put_update r c.zid entity) old c).0 c.graph
              c.total_nodes_in_graph _ f g
              (update_topic_maps-total entity (put_update r c.zid entity) old c) h))

-- The namespace loses a node, and goes with its last one.
del_node-IsCounted :
    (r : Rmw) (entity : Entity) (nodes : NodeMap) (node : GraphNode) (c : GraphCache)
    → find entity.node_info.ns c.graph ≡ some nodes
    → find_node entity nodes ≡ some node
    → IsCountedCache c
    → IsCountedCache (del_node r entity nodes node c)
unfolding del_node set_namespace
del_node-IsCounted r entity nodes node c f g h =
    let n = c.total_nodes_in_graph in
    let nodes' = erase_node entity nodes in
    let l = length-erase_node entity node nodes g in
    if-branches (λ graph. IsCounted graph (decremented n)) (is_empty nodes')
      (erase entity.node_info.ns c.graph) (assign entity.node_info.ns nodes' c.graph)
      (λ e.
        last_node-IsCounted entity.node_info.ns nodes c.graph n f
          (omega (arith, l, length_of_empty nodes' e)) h)
      (λ e.
        namespace-IsCounted entity.node_info.ns nodes nodes' c.graph n (decremented n) f e
          (omega (arith, l)) (omega arith) h)

-- A deletion keeps the counter equal to the number of nodes.
pub del_entity-IsCounted :
    (r : Rmw) (entity : Entity) (c : GraphCache)
    → IsCountedCache c
    → IsCountedCache (del_entity r entity c)
unfolding del_entity del_endpoint
del_entity-IsCounted r entity c h =
    Option-branches IsCountedCache (find entity.node_info.ns c.graph) c _ (λ _. h)
      (λ nodes f.
        Option-branches IsCountedCache (find_node entity nodes) c
          (λ node.
            if is_node entity.type
            then del_node r entity nodes node c
            else del_endpoint r entity nodes node c)
          (λ _. h)
          (λ node g.
            if-branches IsCountedCache (is_node entity.type) (del_node r entity nodes node c)
              (del_endpoint r entity nodes node c)
              (λ _. del_node-IsCounted r entity nodes node c f g h)
              (λ _.
                changed_node-IsCounted entity nodes node
                  (update_topic_maps entity (del_update r c.zid entity) node c).0 c.graph
                  c.total_nodes_in_graph _ f g
                  (update_topic_maps-total entity (del_update r c.zid entity) node c) h)))
