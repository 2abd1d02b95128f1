-- ===== src/Heartbeat.antt =====
-- backend/src/realtime/heartbeat.ts: the keepalive of one socket. The timer of `setInterval` and
-- the socket's `pong` are events; `stop` is the function that `startHeartbeat` returns.
pub mod Silence
use crew_link.Base.{ℕ, Bool, true, false, List, [], ◌∷◌, ◌++◌}

-- The interval at which the timer fires, in milliseconds.
abbrev pub heartbeat_interval_ms : ℕ
heartbeat_interval_ms = 25_000

pub data Event : Type 0 where
  pong timer stop : Event

pub data Action : Type 0 where
  ping terminate : Action

-- `alive`, and whether the timer still runs.
pub record Beat : Type 0 where
  pub alive : Bool
  pub running : Bool

unfoldable pub start_heartbeat : Beat
start_heartbeat = record { alive = true; running = true }

-- The callback of the timer.
unfoldable pub on_timer : Beat → Bool → Beat × List Action
on_timer b true = (record b { alive = false }, ping ∷ [])
on_timer b false = (b, terminate ∷ [])

unfoldable pub step : Beat → Event → Beat × List Action
unfolding on_timer
step b pong = (record b { alive = true }, [])
step b timer = elim b.running [ true ↦ on_timer b b.alive | false ↦ (b, []) ]
step b stop = (record b { running = false }, [])

-- What a socket is made to do by a run of events.
unfoldable pub run : Beat → List Event → List Action
run b [] = []
run b (e ∷ es) = (step b e).1 ++ run (step b e).0 es
