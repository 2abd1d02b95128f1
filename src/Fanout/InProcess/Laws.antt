-- ===== src/Fanout/InProcess/Laws.antt =====
-- `InProcessFanout` (backend/src/realtime/fanout.ts) fills the interface, and its registry never
-- keeps an empty pool.
use crew_link.Base.{
  String, List, [], ◌∷◌, All, ◌==◌, if◌then◌else◌, ◌≡◌, ◌≢◌, refl, arith, eq_iff, Option-cases, inl,
  inr,
}
use crew_link.JsMap.{get}
use crew_link.JsMap.Laws.{get-set, get-delete, set-All, delete-All, get-All}
use crew_link.Fanout.{FanoutAdapter}
use crew_link.Fanout.Pool.{
  LocalSender, has_conn, add_conn, remove_conn, deliveries, IsApart, add_conn-IsApart,
  remove_conn-IsApart,
}
use crew_link.Fanout.InProcess.{
  Registry, pool, publish, add_local_connection, store_pool, unregister,
}

-- Every pool of the registry has a connection, and none twice.
abbrev pub IsValid : Registry → Type 0
IsValid registry = All (λ e. (e.1 ≢ []) × IsApart e.1) registry

add_conn-ne-nil : (conn : LocalSender) (conns : List LocalSender) → add_conn conn conns ≢ []
unfolding add_conn has_conn
add_conn-ne-nil conn [] = cc
add_conn-ne-nil conn (x ∷ conns) = ground arith

pub add-IsValid :
    (registry : Registry) (c : String) (conn : LocalSender)
    → IsValid registry
    → IsValid (add_local_connection registry c conn)
unfolding add_local_connection
add-IsValid registry c conn v = elim (Option-cases (get c registry)) [
  | inl e ↦
      rw (e, add_local_connection)
        (set-All _ c _ registry v (add_conn-ne-nil conn [], add_conn-IsApart conn [] tt))
  | inr (conns, e) ↦
      let (some_conn, apart) = get-All _ c conns registry v e in
      rw (e, add_local_connection)
        (set-All _ c _ registry v (add_conn-ne-nil conn conns, add_conn-IsApart conn conns apart))
]

store_pool-IsValid :
    (registry : Registry) (c : String) (conns : List LocalSender)
    → IsValid registry
    → IsApart conns
    → IsValid (store_pool registry c conns)
unfolding store_pool
store_pool-IsValid registry c [] v a = delete-All _ c registry v
store_pool-IsValid registry c (x ∷ conns) v a = set-All _ c (x ∷ conns) registry v ((λ e. cc), a)

pub unregister-IsValid :
    (registry : Registry) (c : String) (conn : LocalSender)
    → IsValid registry
    → IsValid (unregister registry c conn)
unfolding unregister
unregister-IsValid registry c conn v = elim (Option-cases (get c registry)) [
  | inl e ↦ rw (e, unregister) v
  | inr (conns, e) ↦
      let (some_conn, apart) = get-All _ c conns registry v e in
      rw (e, unregister) (store_pool-IsValid registry c _ v (remove_conn-IsApart conn conns apart))
]

pub publish-IsValid :
    (registry : Registry) (c text origin : String)
    → IsValid registry
    → IsValid (publish registry c text origin).0
unfolding publish
publish-IsValid registry c text origin v = v

pub pool-publish :
    (registry : Registry) (c text origin j : String)
    → pool (publish registry c text origin).0 j ≡ pool registry j
unfolding publish
pool-publish registry c text origin j = refl

pub publish-deliveries :
    (registry : Registry) (c text origin : String)
    → (publish registry c text origin).1 ≡ deliveries (pool registry c) text origin
unfolding publish pool deliveries
publish-deliveries registry c text origin = ground arith

pub pool-add :
    (registry : Registry) (c : String) (conn : LocalSender) (j : String)
    → pool (add_local_connection registry c conn) j
      ≡ (if c == j then add_conn conn (pool registry j) else pool registry j)
unfolding pool add_local_connection
pool-add registry c conn j = ground (
  arith,
  eq_iff c j,
  get-set c j (add_conn conn []) registry,
  get-set c j (add_conn conn (pool registry c)) registry,
)

pool-store_pool :
    (registry : Registry) (c : String) (conns : List LocalSender) (j : String)
    → pool (store_pool registry c conns) j ≡ (if c == j then conns else pool registry j)
unfolding pool store_pool
pool-store_pool registry c [] j = ground (arith, get-delete c j registry)
pool-store_pool registry c (x ∷ conns) j = ground (arith, get-set c j (x ∷ conns) registry)

pub pool-unregister :
    (registry : Registry) (c : String) (conn : LocalSender) (j : String)
    → pool (unregister registry c conn) j
      ≡ (if c == j then remove_conn conn (pool registry j) else pool registry j)
unfolding unregister pool remove_conn
pool-unregister registry c conn j = elim (Option-cases (get c registry)) [
  | inl e ↦ ground (arith, eq_iff c j)
  | inr (conns, e) ↦
      ground (arith, eq_iff c j, pool-store_pool registry c (remove_conn conn conns) j)
]

-- An instance's fan-out.
abbrev pub in_process : FanoutAdapter
in_process = record {
  State = Registry;
  IsValid = IsValid;
  pool = pool;
  publish = publish;
  add_local_connection = add_local_connection;
  unregister = unregister;
  publish-IsValid = publish-IsValid;
  add-IsValid = add-IsValid;
  unregister-IsValid = unregister-IsValid;
  publish-deliveries = publish-deliveries;
  pool-publish = pool-publish;
  pool-add = pool-add;
  pool-unregister = λ s c conn j _. pool-unregister s c conn j;
}
