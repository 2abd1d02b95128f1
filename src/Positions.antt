-- ===== src/Positions.antt =====
-- backend/src/realtime/position_store.ts, the interface: the members' last known positions.
pub mod Database
pub mod Shown
use crew_link.Base.{String, List, In, ◌≡◌, ◌≢◌}
use crew_link.Promise.{Promise, fulfilled}
use crew_link.Wire.{GpsPayload}

pub record PositionStore : Type 1 where
  pub State : Type 0
  pub save : State → String → String → GpsPayload → State × Promise (Unit {0})
  pub load_snapshot : State → String → String → Promise (List GpsPayload)
  pub load_snapshot-others :
      (s : State) (c exclude : String) {ps : List GpsPayload} (p : GpsPayload)
      → load_snapshot s c exclude ≡ fulfilled ps
      → In p ps
      → p.member_id ≢ exclude
