-- ===== src/Graph/Nodes/Reach.antt =====
-- The caches that a session can reach, and what holds of all of them: detail/graph_cache.cpp.
use rmw_zenoh.Common.{ℕ, ◌≡◌, refl, subst, Bool, some, arith, Bool-cases, inl, inr, ◌&&◌}
use rmw_zenoh.Common.Text.{Bytes}
use rmw_zenoh.Qos.{Rmw}
use rmw_zenoh.Liveliness.Gid.{Hashes}
use rmw_zenoh.Liveliness.Entity.{Entity, Parsed, parsed, rejected, thrown, make_from_keyexpr}
use rmw_zenoh.Graph.{is_entity_local}
use rmw_zenoh.Graph.Events.{set_qos_event_callback, remove_qos_event_callbacks}
use rmw_zenoh.Graph.Nodes.{
  GraphCache, new_cache, put_entity, del_entity, parse_with, parse_put, parse_del,
}
use rmw_zenoh.Graph.Nodes.Total.{
  IsCounted, IsCountedCache, put_entity-IsCounted, del_entity-IsCounted,
}

-- Tokens appear and go in any order, and callbacks are set and removed in between. After an exception
-- there is no next cache.
pub data Reach (r : Rmw) (h : Hashes) (zid : Bytes) : GraphCache → Type 0 where
  start : Reach r h zid (new_cache zid)
  put :
      (c c' : GraphCache) (keyexpr : Bytes) (ignore : Bool)
      → Reach r h zid c
      → parse_put r h keyexpr ignore c ≡ some c'
      → Reach r h zid c'
  del :
      (c c' : GraphCache) (keyexpr : Bytes) (ignore : Bool)
      → Reach r h zid c
      → parse_del r h keyexpr ignore c ≡ some c'
      → Reach r h zid c'
  callback_set :
      (c : GraphCache) (g i callback : ℕ)
      → Reach r h zid c
      → Reach r h zid (record c { events = set_qos_event_callback g i callback c.events })
  callbacks_removed :
      (c : GraphCache) (g : ℕ)
      → Reach r h zid c
      → Reach r h zid (record c { events = remove_qos_event_callbacks g c.events })

-- A token leaves a predicate on caches alone when its entity does.
pub parse_with-keeps :
    (P : GraphCache → Type 0) (f : Entity → GraphCache → GraphCache) (ignore : Bool)
    (p : Parsed Entity) (c c' : GraphCache)
    → ((e : Entity) → P (f e c))
    → P c
    → parse_with f ignore p c ≡ some c'
    → P c'
unfolding parse_with
parse_with-keeps P f ignore (parsed e) c c' hf h eq =
    elim (Bool-cases (ignore && is_entity_local c.zid e)) [
      | inl t ↦ subst P (ground (arith, t, eq)) h
      | inr t ↦ subst P (ground (arith, t, eq)) (hf e)
    ]
parse_with-keeps P f ignore rejected c c' hf h eq = subst P (ground (arith, eq)) h
parse_with-keeps P f ignore thrown c c' hf h eq = ground (arith, eq)

-- Of every cache that can be reached: no namespace stands twice or is empty, and the counter is the
-- number of nodes, modulo 2 ^ 64.
pub Reach-IsCounted :
    (r : Rmw) (h : Hashes) (zid : Bytes) (c : GraphCache) → Reach r h zid c → IsCountedCache c
unfolding IsCounted parse_put parse_del
Reach-IsCounted r h zid _ start = (tt, (tt, refl))
Reach-IsCounted r h zid _ (put c c' keyexpr ignore s e) =
    let ih = Reach-IsCounted r h zid c s in
    parse_with-keeps IsCountedCache (put_entity r) ignore (make_from_keyexpr r h keyexpr) c c'
      (λ x. put_entity-IsCounted r x c ih) ih e
Reach-IsCounted r h zid _ (del c c' keyexpr ignore s e) =
    let ih = Reach-IsCounted r h zid c s in
    parse_with-keeps IsCountedCache (del_entity r) ignore (make_from_keyexpr r h keyexpr) c c'
      (λ x. del_entity-IsCounted r x c ih) ih e
Reach-IsCounted r h zid _ (callback_set c g i callback s) = Reach-IsCounted r h zid c s
Reach-IsCounted r h zid _ (callbacks_removed c g s) = Reach-IsCounted r h zid c s
