-- ===== src/Wire.antt =====
-- backend/src/realtime/wire.ts: the frames that a client and the gateway exchange, the schemas
-- that an inbound frame must meet, and the originator that a frame claims.
pub mod Schema
use crew_link.Number.{Number}
use crew_link.Base.{String, Option, none, some, List}

pub record GpsPayload : Type 0 where
  pub member_id : String
  pub latitude : Number
  pub longitude : Number
  pub heading : Number
  pub speed : Number
  pub timestamp : String
  pub accuracy : Option Number

pub record WaypointPayload : Type 0 where
  pub latitude : Number
  pub longitude : Number
  pub label : String
  pub set_by : String
  pub set_at : String

pub data HazardType : Type 0 where
  construction accident traffic_jam broken_down_vehicle obstacle poor_visibility : HazardType
  slippery_road police_checkpoint sos other : HazardType

pub record HazardPayload : Type 0 where
  pub id : String
  pub hazard_type : HazardType
  pub latitude : Number
  pub longitude : Number
  pub reporter_id : String
  pub created_at : String
  pub convoy_id : Option String
  pub description : Option String
  pub expires_at : Option String

pub record HazardRemovePayload : Type 0 where
  pub id : String

pub record TourPayload : Type 0 where
  pub stops : List WaypointPayload

pub record CheckInPayload : Type 0 where
  pub member_id : String
  pub stop_signature : String
  pub arrived_at : String

pub data StatusKind : Type 0 where
  pause fuel_stop back_in_convoy vehicle_problem : StatusKind

pub record StatusPayload : Type 0 where
  pub member_id : String
  pub kind : StatusKind
  pub at : String

-- A waypoint frame without payload clears the waypoint.
pub data InboundFrame : Type 0 where
  gps : GpsPayload → InboundFrame
  waypoint : Option WaypointPayload → InboundFrame
  hazard : HazardPayload → InboundFrame
  hazard_remove : HazardRemovePayload → InboundFrame
  tour : TourPayload → InboundFrame
  checkin : CheckInPayload → InboundFrame
  status : StatusPayload → InboundFrame

abbrev pub OutboundFrame : Type 0
OutboundFrame = InboundFrame

unfoldable pub originator_of : InboundFrame → Option String
originator_of (gps p) = some p.member_id
originator_of (waypoint none) = none
originator_of (waypoint (some p)) = some p.set_by
originator_of (hazard p) = some p.reporter_id
originator_of (checkin p) = some p.member_id
originator_of (status p) = some p.member_id
originator_of (hazard_remove p) = none
originator_of (tour p) = none
