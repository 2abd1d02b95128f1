-- ===== src/Fanout.antt =====
-- backend/src/realtime/fanout.ts, the interface: delivery of an encoded frame to the members of a
-- convoy. `InProcess` is the implementation for one instance.
pub mod Pool
pub mod InProcess
pub mod Redis
use crew_link.Base.{String, List, ◌==◌, if◌then◌else◌, ◌≡◌}
use crew_link.Promise.{Promise}
use Pool.{LocalSender, Delivery, add_conn, remove_conn, deliveries}

-- A fan-out, its operations with the state made explicit, and the laws that its clients use.
-- `unregister` is the function that `addLocalConnection` returns.
pub record FanoutAdapter : Type 1 where
  pub State : Type 0
  pub IsValid : State → Type 0
  pub pool : State → String → List LocalSender
  pub publish : State → String → String → String → State × List Delivery × Promise (Unit {0})
  pub add_local_connection : State → String → LocalSender → State
  pub unregister : State → String → LocalSender → State
  pub publish-IsValid :
      (s : State) (c text origin : String) → IsValid s → IsValid (publish s c text origin).0
  pub add-IsValid :
      (s : State) (c : String) (conn : LocalSender)
      → IsValid s
      → IsValid (add_local_connection s c conn)
  pub unregister-IsValid :
      (s : State) (c : String) (conn : LocalSender) → IsValid s → IsValid (unregister s c conn)
  pub publish-deliveries :
      (s : State) (c text origin : String)
      → (publish s c text origin).1 ≡ deliveries (pool s c) text origin
  pub pool-publish :
      (s : State) (c text origin j : String) → pool (publish s c text origin).0 j ≡ pool s j
  pub pool-add :
      (s : State) (c : String) (conn : LocalSender) (j : String)
      → pool (add_local_connection s c conn) j
        ≡ (if c == j then add_conn conn (pool s j) else pool s j)
  pub pool-unregister :
      (s : State) (c : String) (conn : LocalSender) (j : String)
      → IsValid s
      → pool (unregister s c conn) j ≡ (if c == j then remove_conn conn (pool s j) else pool s j)
