-- ===== src/Snapshot/Redis.antt =====
-- backend/src/realtime/redis_snapshot_store.ts: the convoys' world state in Redis, a hash for each
-- convoy. `PayloadJson` is the platform's JSON text of the payloads; a text that is not JSON is
-- `none`, and a text of another shape is not met, since only this class writes the fields. Who
-- calls a function runs alone until it is answered.
pub mod View
pub mod Loop
pub mod Life
pub mod Replay
pub mod Store
pub mod Race
use Prim.Native.String.{◌++◌ as ◌append◌}
use text.Mathlib.Text.{starts_with}
use crew_link.Base.{
  ℕ, ◌*◌, ℤ, String, Bool, true, false, Option, none, some, List, [], ◌∷◌, ◌++◌, ◌==◌,
  if◌then◌else◌,
}
use mathlib.Core.Option
use crew_link.JsMap.{JsMap}
use crew_link.Promise.{Promise, fulfilled, rejected}
use crew_link.Wire.{
  HazardPayload, TourPayload, WaypointPayload, InboundFrame, OutboundFrame, gps, waypoint, hazard,
  hazard_remove, tour, checkin, status,
}
use crew_link.Snapshot.{is_expired}
use crew_link.Redis.{Redis, Command, hset, hdel, expire, del}

pub record PayloadJson : Type 0 where
  pub hazard_text : HazardPayload → String
  pub tour_text : TourPayload → String
  pub waypoint_text : WaypointPayload → String
  pub hazard_parse : String → Option HazardPayload
  pub tour_parse : String → Option TourPayload
  pub waypoint_parse : String → Option WaypointPayload

abbrev pub snapshot_ttl_seconds : ℕ
snapshot_ttl_seconds = 24 * 60 * 60

unfoldable pub key_for : String → String
key_for convoy_id = "crewlink:snapshot:" append convoy_id

unfoldable pub hazard_field : String → String
hazard_field id = "hazard:" append id

-- `expire` follows a command that was answered.
unfoldable pub exec_kept : (r : Redis) → r.State → String → Command → r.State × Promise (Unit {0})
exec_kept r s k c =
    let (s', done) = r.exec s k c in
    elim done [
      | fulfilled _ ↦ r.exec s' k (expire snapshot_ttl_seconds)
      | rejected ↦ (s', rejected)
    ]

unfoldable pub clear : (r : Redis) → r.State → String → r.State × Promise (Unit {0})
clear r s convoy_id = r.exec s (key_for convoy_id) del

unfoldable pub is_old : (String → Option ℤ) → ℤ → OutboundFrame → Bool
is_old date_parse ts (hazard p) = is_expired date_parse ts p
is_old date_parse ts _ = false

module _ (json : PayloadJson) where
  -- The command of a frame that is kept, none for a transient one.
  unfoldable pub command_of : InboundFrame → Option Command
  command_of (hazard p) = some (hset (hazard_field p.id) (json.hazard_text p))
  command_of (hazard_remove p) = some (hdel (hazard_field p.id))
  command_of (tour p) = elim p.stops [
    | [] ↦ some (hdel "tour")
    | _ ∷ _ ↦ some (hset "tour" (json.tour_text p))
  ]
  command_of (waypoint none) = some (hdel "waypoint")
  command_of (waypoint (some p)) = some (hset "waypoint" (json.waypoint_text p))
  command_of (gps p) = none
  command_of (checkin p) = none
  command_of (status p) = none

  unfoldable pub record_frame :
      (r : Redis) → r.State → String → InboundFrame → r.State × Promise (Unit {0})
  record_frame r s convoy_id f = elim (command_of f) [
    | none ↦ (s, fulfilled tt)
    | some c ↦ exec_kept r s (key_for convoy_id) c
  ]

  unfoldable pub decode_field : String → String → Option OutboundFrame
  decode_field field value =
      if starts_with field "hazard:"
      then Option.map hazard (json.hazard_parse value)
      else if field == "tour"
      then Option.map tour (json.tour_parse value)
      else if field == "waypoint"
      then Option.map (λ p. waypoint (some p)) (json.waypoint_parse value)
      else none

  abbrev reporter_of : Option OutboundFrame → Option String
  reporter_of (some (hazard p)) = some p.reporter_id
  reporter_of _ = none

  unfoldable pub hazard_reporter : (r : Redis) → r.State → String → String → Promise (Option String)
  hazard_reporter r s convoy_id id = elim (r.hget s (key_for convoy_id) (hazard_field id)) [
    | rejected ↦ rejected
    | fulfilled none ↦ fulfilled none
    | fulfilled (some value) ↦ fulfilled (reporter_of (decode_field (hazard_field id) value))
  ]

  module _ (date_parse : String → Option ℤ) where
    -- The loop of `snapshot` over the fields: an expired hazard is deleted, and the loop ends with
    -- a delete that is rejected.
    unfoldable pub replay :
        (r : Redis)
        → ℤ
        → r.State
        → String
        → JsMap String
        → List OutboundFrame
        → r.State × Promise (List OutboundFrame)
    replay r ts s k [] frames = (s, fulfilled frames)
    replay r ts s k ((field, value) ∷ fields) frames = elim (decode_field field value) [
      | none ↦ replay r ts s k fields frames
      | some f ↦ elim (is_old date_parse ts f) [
        | true ↦
            let (s', done) = r.exec s k (hdel field) in
            elim done [ fulfilled _ ↦ replay r ts s' k fields frames | rejected ↦ (s', rejected) ]
        | false ↦ replay r ts s k fields (frames ++ f ∷ [])
      ]
    ]

    unfoldable pub snapshot :
        (r : Redis) → ℤ → r.State → String → r.State × Promise (List OutboundFrame)
    snapshot r ts s convoy_id = elim (r.hgetall s (key_for convoy_id)) [
      | rejected ↦ (s, rejected)
      | fulfilled fields ↦ replay r ts s (key_for convoy_id) fields []
    ]
