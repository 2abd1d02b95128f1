-- ===== src/Fanout/InProcess.antt =====
-- backend/src/realtime/fanout.ts, `InProcessFanout`: the registry of one instance.
pub mod Laws
use crew_link.Base.{String, Option, none, some, List, [], ◌∷◌, if◌then◌else◌}
use mathlib.Core.Option
use crew_link.JsMap.{JsMap, get, set, delete}
use crew_link.Promise.{Promise, fulfilled}
use crew_link.Fanout.Pool.{LocalSender, Delivery, add_conn, remove_conn, deliveries}

abbrev pub Registry : Type 0
Registry = JsMap (List LocalSender)

-- The connections of a convoy, none where the registry has no entry.
unfoldable pub pool : Registry → String → List LocalSender
pool registry c = Option.get_or (get c registry) []

unfoldable pub publish :
    Registry → String → String → String → Registry × List Delivery × Promise (Unit {0})
publish registry c text origin = (
  registry,
  elim (get c registry) [ none ↦ [] | some conns ↦ deliveries conns text origin ],
  fulfilled tt,
)

-- The pool is made where it is missing, and the connection added to it.
unfoldable pub add_local_connection : Registry → String → LocalSender → Registry
add_local_connection registry c conn = elim (get c registry) [
  | none ↦ set c (add_conn conn []) registry
  | some conns ↦ set c (add_conn conn conns) registry
]

-- `if (set.size === 0) this.registry.delete(convoyId)`, after the pool was written.
unfoldable pub store_pool : Registry → String → List LocalSender → Registry
store_pool registry c [] = delete c registry
store_pool registry c (x ∷ conns) = set c (x ∷ conns) registry

unfoldable pub unregister : Registry → String → LocalSender → Registry
unfolding store_pool
unregister registry c conn = elim (get c registry) [
  | none ↦ registry
  | some conns ↦ store_pool registry c (remove_conn conn conns)
]

unfoldable pub close : Registry → Registry
close registry = []
