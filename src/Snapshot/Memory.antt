-- ===== src/Snapshot/Memory.antt =====
-- backend/src/realtime/snapshot_store.ts, `createInMemorySnapshotStore`.
pub mod View
pub mod Replay
pub mod Store
use crew_link.Base.{String, ℤ, Option, none, some, List, [], ◌∷◌, ◌++◌, map, if◌then◌else◌}
use mathlib.Core.Option
use crew_link.JsMap.{JsMap, get, set, delete}
use crew_link.Promise.{Promise, fulfilled}
use crew_link.Wire.{
  HazardPayload, TourPayload, WaypointPayload, InboundFrame, OutboundFrame, gps, waypoint, hazard,
  hazard_remove, tour, checkin, status,
}
use crew_link.Snapshot.{is_expired, stops_or_none}

pub record ConvoySnapshot : Type 0 where
  pub hazards : JsMap HazardPayload
  pub route : Option TourPayload
  pub target : Option WaypointPayload

abbrev pub Convoys : Type 0
Convoys = JsMap ConvoySnapshot

abbrev pub fresh : ConvoySnapshot
fresh = record { hazards = []; route = none; target = none }

-- The convoy's entry, or the one that `stateFor` makes.
unfoldable pub state_for : Convoys → String → ConvoySnapshot
state_for convoys c = Option.get_or (get c convoys) fresh

-- The `switch` of `record`.
unfoldable pub apply_frame : ConvoySnapshot → InboundFrame → ConvoySnapshot
apply_frame s (hazard p) = record s { hazards = set p.id p s.hazards }
apply_frame s (hazard_remove p) = record s { hazards = delete p.id s.hazards }
apply_frame s (tour p) = record s { route = stops_or_none p }
apply_frame s (waypoint p) = record s { target = p }
apply_frame s (gps p) = s
apply_frame s (checkin p) = s
apply_frame s (status p) = s

-- The entry is changed in place, after it was put into the map where it was missing.
unfoldable pub record_frame : Convoys → String → InboundFrame → Convoys × Promise (Unit {0})
unfolding state_for apply_frame
record_frame convoys c f = (set c (apply_frame (state_for convoys c) f) convoys, fulfilled tt)

unfoldable pub route_frames : Option TourPayload → List OutboundFrame
route_frames none = []
route_frames (some p) = tour p ∷ []

unfoldable pub target_frames : Option WaypointPayload → List OutboundFrame
target_frames none = []
target_frames (some p) = waypoint (some p) ∷ []

module _ (date_parse : String → Option ℤ) where
  -- The loop of `snapshot` over the hazards: what is left of them, and the frames so far.
  unfoldable pub replay :
      ℤ
      → List (String × HazardPayload)
      → JsMap HazardPayload
      → List OutboundFrame
      → JsMap HazardPayload × List OutboundFrame
  replay ts [] left frames = (left, frames)
  replay ts ((id, h) ∷ rest) left frames =
      let old = is_expired date_parse ts h in
      replay ts rest (if old then delete id left else left)
        (if old then frames else frames ++ hazard h ∷ [])

  unfoldable pub snapshot : ℤ → Convoys → String → Convoys × Promise (List OutboundFrame)
  unfolding replay route_frames target_frames
  snapshot ts convoys c = elim (get c convoys) [
    | none ↦ (convoys, fulfilled [])
    | some s ↦
        let (left, frames) = replay ts s.hazards s.hazards [] in
        (
          set c (record s { hazards = left }) convoys,
          fulfilled ((frames ++ route_frames s.route) ++ target_frames s.target),
        )
  ]

unfoldable pub clear : Convoys → String → Convoys × Promise (Unit {0})
clear convoys c = (delete c convoys, fulfilled tt)

unfoldable pub hazard_reporter : Convoys → String → String → Promise (Option String)
hazard_reporter convoys c id = fulfilled (elim (get c convoys) [
  | none ↦ none
  | some s ↦ Option.map (λ h. h.reporter_id) (get id s.hazards)
])

-- `encodeSnapshot`
unfoldable pub encode_snapshot : (OutboundFrame → String) → List OutboundFrame → List String
encode_snapshot encode_frame frames = map encode_frame frames
