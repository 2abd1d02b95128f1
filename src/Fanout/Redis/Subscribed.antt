-- ===== src/Fanout/Redis/Subscribed.antt =====
-- backend/src/realtime/redis_fanout.ts: the subscriptions of an instance and its connections.
use crew_link.Base.{
  String, true, false, some, Option-cases, List, [], ◌∷◌, ◌≡◌, refl, arith, eq_iff, inl, inr,
  if◌then◌else◌,
}
use crew_link.JsMap.{get}
use crew_link.JsMap.Laws.{get-set, get-delete}
use crew_link.Fanout.Pool.{LocalSender, add_conn, remove_conn, has_conn}
use crew_link.Fanout.Redis.{
  RedisFanout, is_first, subscribe, unsubscribe, add_local_connection, store_pool, unregister,
  or_empty,
}

-- For every convoy, either there is no pool and no subscription, or a subscription and a pool with
-- a connection.
unfoldable pub IsSubscribed : RedisFanout → Type 0
IsSubscribed r =
    (c : String) → r.subscribed c ≡ (if is_first (get c r.local_conns) then false else true)

add_conn-is_first :
    (conn : LocalSender) (pool : List LocalSender) → is_first (some (add_conn conn pool)) ≡ false
unfolding is_first add_conn has_conn
add_conn-is_first conn [] = refl
add_conn-is_first conn (x ∷ pool) = ground arith

add-IsSubscribed :
    (r : RedisFanout) (c : String) (conn : LocalSender)
    → IsSubscribed r
    → IsSubscribed (add_local_connection r c conn)
unfolding IsSubscribed add_local_connection subscribe
add-IsSubscribed r c conn h j =
    let fresh = add_conn-is_first conn (or_empty (get c r.local_conns)) in
    ground (
      arith,
      h j,
      h c,
      fresh,
      eq_iff c j,
      get-set c j (add_conn conn (or_empty (get c r.local_conns))) r.local_conns,
    )

store_pool-IsSubscribed :
    (r : RedisFanout) (c : String) (pool : List LocalSender)
    → ((x : LocalSender) (xs : List LocalSender)
        → pool ≡ x ∷ xs
        → is_first (get c r.local_conns) ≡ false)
    → IsSubscribed r
    → IsSubscribed (store_pool r c pool)
unfolding IsSubscribed store_pool unsubscribe is_first
store_pool-IsSubscribed r c [] f h j = ground (arith, h j, get-delete c j r.local_conns)
store_pool-IsSubscribed r c (x ∷ pool) f h j =
    let first = f x pool refl in
    ground (arith, h j, h c, first, eq_iff c j, get-set c j (x ∷ pool) r.local_conns)

remove_conn-shape :
    (r : RedisFanout) (c : String) (conn : LocalSender) (pool : List LocalSender)
    → get c r.local_conns ≡ some pool
    → (x : LocalSender) (xs : List LocalSender) → remove_conn conn pool ≡ x ∷ xs
    → is_first (get c r.local_conns) ≡ false
unfolding remove_conn is_first
remove_conn-shape r c conn [] e x xs s = cc
remove_conn-shape r c conn (y ∷ pool) e x xs s = rw e refl

unregister-IsSubscribed :
    (r : RedisFanout) (c : String) (conn : LocalSender)
    → IsSubscribed r
    → IsSubscribed (unregister r c conn)
unfolding unregister
unregister-IsSubscribed r c conn h = elim (Option-cases (get c r.local_conns)) [
  | inl e ↦ rw (e, unregister) h
  | inr (pool, e) ↦
      rw (e, unregister)
        (store_pool-IsSubscribed r c (remove_conn conn pool) (remove_conn-shape r c conn pool e) h)
]

-- A connection of an instance comes or goes.
pub data Change : Type 0 where
  came went : String → LocalSender → Change

unfoldable pub run : RedisFanout → List Change → RedisFanout
run r [] = r
run r (came c conn ∷ changes) = run (add_local_connection r c conn) changes
run r (went c conn ∷ changes) = run (unregister r c conn) changes

-- However connections come and go at an instance that starts in step, it is subscribed afterwards
-- to exactly the convoys in which it has a connection.
pub run-IsSubscribed :
    (changes : List Change) (r : RedisFanout) → IsSubscribed r → IsSubscribed (run r changes)
unfolding run
run-IsSubscribed [] r h = h
run-IsSubscribed (came c conn ∷ changes) r h =
    run-IsSubscribed changes (add_local_connection r c conn) (add-IsSubscribed r c conn h)
run-IsSubscribed (went c conn ∷ changes) r h =
    run-IsSubscribed changes (unregister r c conn) (unregister-IsSubscribed r c conn h)
