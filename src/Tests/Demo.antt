-- ===== src/Tests/Demo.antt =====
-- A small convoy for the tests: messages that are parsed by a table, and the in-process stores.
use crew_link.Base.{ℤ, pos, String, Bool, true, Option, none, some, [], ◌∷◌, if◌then◌else◌}
use crew_link.JsMap.{JsMap, get}
use crew_link.Number.{integer}
use crew_link.Promise.{fulfilled, rejected, rejected-ne-fulfilled}
use crew_link.Wire.{
  WaypointPayload, HazardPayload, TourPayload, StatusPayload, InboundFrame, OutboundFrame, gps,
  waypoint, hazard, hazard_remove, tour, checkin, status, accident, pause,
}
use crew_link.Wire.Schema.{inbound_frame_schema}
use crew_link.Positions.{PositionStore}
use crew_link.Snapshot.Memory.Store.{memory_store}
use crew_link.Fanout.InProcess.Laws.{in_process}
use crew_link.FrameHandler.{Services, Origin}

abbrev pub ann_hazard : HazardPayload
ann_hazard = record {
  id = "h1";
  hazard_type = accident;
  latitude = integer 48;
  longitude = integer 11;
  reporter_id = "ann";
  created_at = "2026-06-06T12:00:00Z";
  convoy_id = none;
  description = none;
  expires_at = some "later";
}

abbrev pub bob_hazard : HazardPayload
bob_hazard = record ann_hazard { reporter_id = "bob" }

abbrev pub stop_a : WaypointPayload
stop_a = record {
  latitude = integer 48;
  longitude = integer 12;
  label = "Stop";
  set_by = "ann";
  set_at = "2026-06-06T12:00:00Z";
}

abbrev pub route_a : TourPayload
route_a = record { stops = stop_a ∷ [] }

abbrev pub bob_pause : StatusPayload
bob_pause = record { member_id = "bob"; kind = pause; at = "2026-06-06T12:00:00Z" }

abbrev pub messages : JsMap InboundFrame
messages =
    ("ann reports h1", hazard ann_hazard)
    ∷ ("bob reports h1", hazard bob_hazard)
    ∷ ("remove h1", hazard_remove (record { id = "h1" }))
    ∷ ("route a", tour route_a)
    ∷ ("no route", tour (record { stops = [] }))
    ∷ ("bob pauses", status bob_pause)
    ∷ []

-- The kind of a frame stands for its text.
abbrev pub kind_of : OutboundFrame → String
kind_of (gps p) = "gps"
kind_of (waypoint p) = "waypoint"
kind_of (hazard p) = "hazard"
kind_of (hazard_remove p) = "hazard_remove"
kind_of (tour p) = "tour"
kind_of (checkin p) = "checkin"
kind_of (status p) = "status"

abbrev pub any_time : String → Bool
any_time s = true

abbrev pub checked_parse : InboundFrame → Option InboundFrame
checked_parse f = if inbound_frame_schema any_time f then some f else none

-- A position store that keeps nothing.
abbrev pub no_positions : PositionStore
no_positions = record {
  State = Unit {0};
  save = λ s c m p. (s, fulfilled tt);
  load_snapshot = λ s c m. rejected;
  load_snapshot-others = λ s c m p e i. elim (rejected-ne-fulfilled e) [ ];
}

abbrev pub later_is_9 : String → Option ℤ
later_is_9 t = some (pos 9)

abbrev pub demo : Services
demo = record {
  Value = InboundFrame;
  utf8 = λ bytes. "";
  json_parse = λ s. get s messages;
  safe_parse = checked_parse;
  json_stringify = kind_of;
  date_parse = later_is_9;
  fanout = in_process;
  snapshot_store = memory_store later_is_9;
  position_store = no_positions;
  accepted = λ v f e. tt;
}

abbrev pub ann : Origin
ann = record { member_id = "ann"; convoy_id = "c1" }

abbrev pub bob : Origin
bob = record { member_id = "bob"; convoy_id = "c1" }
