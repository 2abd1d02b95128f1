-- ===== src/Fanout/Redis/Adapter.antt =====
-- backend/src/realtime/redis_fanout.ts: `RedisFanout` fills the interface of a fan-out, as the gateway
-- of one instance sees it. `redis_publish` is the outcome of the command that publishes a message.
use crew_link.Base.{String, List, [], ◌∷◌, ◌==◌, if◌then◌else◌, ◌≡◌, refl, Option-cases, inl, inr}
use crew_link.JsMap.{get}
use crew_link.Promise.{Promise}
use crew_link.Fanout.{FanoutAdapter}
use crew_link.Fanout.Pool.{LocalSender, add_conn, remove_conn, deliveries}
use crew_link.Fanout.InProcess.{Registry, pool}
use crew_link.Fanout.InProcess
use crew_link.Fanout.InProcess.Laws
use crew_link.Fanout.Redis.{
  RedisFanout, RedisMessage, publish, add_local_connection, store_pool, unregister,
}
use crew_link.Fanout.Redis.Once.{deliver-pool}

-- The connections are kept as in one process.
local_conns-add :
    (r : RedisFanout) (c : String) (conn : LocalSender)
    → (add_local_connection r c conn).local_conns
      ≡ InProcess.add_local_connection r.local_conns c conn
unfolding add_local_connection InProcess.add_local_connection
local_conns-add r c conn = elim (Option-cases (get c r.local_conns)) [
  | inl e ↦ rw (e, InProcess.add_local_connection) refl
  | inr (conns, e) ↦ rw (e, InProcess.add_local_connection) refl
]

local_conns-store_pool :
    (r : RedisFanout) (c : String) (conns : List LocalSender)
    → (store_pool r c conns).local_conns ≡ InProcess.store_pool r.local_conns c conns
unfolding store_pool InProcess.store_pool
local_conns-store_pool r c [] = refl
local_conns-store_pool r c (x ∷ conns) = refl

local_conns-unregister :
    (r : RedisFanout) (c : String) (conn : LocalSender)
    → (unregister r c conn).local_conns ≡ InProcess.unregister r.local_conns c conn
unfolding unregister InProcess.unregister
local_conns-unregister r c conn = elim (Option-cases (get c r.local_conns)) [
  | inl e ↦ rw (e, unregister, InProcess.unregister) refl
  | inr (conns, e) ↦
      rw (e, unregister, InProcess.unregister) (local_conns-store_pool r c (remove_conn conn conns))
]

pub pool-add :
    (r : RedisFanout) (c : String) (conn : LocalSender) (j : String)
    → pool (add_local_connection r c conn).local_conns j
      ≡ (if c == j then add_conn conn (pool r.local_conns j) else pool r.local_conns j)
pool-add r c conn j = rw (local_conns-add r c conn) (Laws.pool-add r.local_conns c conn j)

pub pool-unregister :
    (r : RedisFanout) (c : String) (conn : LocalSender) (j : String)
    → pool (unregister r c conn).local_conns j
      ≡ (if c == j then remove_conn conn (pool r.local_conns j) else pool r.local_conns j)
pool-unregister r c conn j =
    rw (local_conns-unregister r c conn) (Laws.pool-unregister r.local_conns c conn j)

pub publish-deliveries :
    (r : RedisFanout) (c text origin : String)
    → (publish r c text origin).0 ≡ deliveries (pool r.local_conns c) text origin
unfolding publish
publish-deliveries r c text origin = deliver-pool r c text origin

pub add-IsValid :
    (r : RedisFanout) (c : String) (conn : LocalSender)
    → Laws.IsValid r.local_conns
    → Laws.IsValid (add_local_connection r c conn).local_conns
add-IsValid r c conn v = rw (local_conns-add r c conn) (Laws.add-IsValid r.local_conns c conn v)

pub unregister-IsValid :
    (r : RedisFanout) (c : String) (conn : LocalSender)
    → Laws.IsValid r.local_conns
    → Laws.IsValid (unregister r c conn).local_conns
unregister-IsValid r c conn v =
    rw (local_conns-unregister r c conn) (Laws.unregister-IsValid r.local_conns c conn v)

-- An instance's fan-out, where several instances share a Redis.
abbrev pub redis_fanout : (String → RedisMessage → Promise (Unit {0})) → FanoutAdapter
redis_fanout redis_publish = record {
  State = RedisFanout;
  IsValid = λ r. Laws.IsValid r.local_conns;
  pool = λ r c. pool r.local_conns c;
  publish = λ r c text origin.
      let (sent, channel, message) = publish r c text origin in
      (r, sent, redis_publish channel message);
  add_local_connection = add_local_connection;
  unregister = unregister;
  publish-IsValid = λ r c text origin v. v;
  add-IsValid = add-IsValid;
  unregister-IsValid = unregister-IsValid;
  publish-deliveries = publish-deliveries;
  pool-publish = λ r c text origin j. refl;
  pool-add = pool-add;
  pool-unregister = λ r c conn j _. pool-unregister r c conn j;
}
