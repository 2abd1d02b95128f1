-- ===== src/Wire/Schema.antt =====
-- The schemas of wire.ts as tests on the values of their types. The shape of an object is the
-- record's; what the tests add are the bounds. `is_datetime` stands for the library's check of an
-- ISO 8601 time with an offset. `.length` counts UTF-16 units, and 0 for the empty text alone.
use Prim.Native.Char.{code}
use crew_link.Base.{
  ℕ, ◌+◌, String, Bool, true, ◌&&◌, Option, none, some, List, [], ◌∷◌, leb, if◌then◌else◌, length,
}
use crew_link.Number.{Number, integer, neg_integer, le_number}
use crew_link.Wire.{
  GpsPayload, WaypointPayload, HazardPayload, HazardRemovePayload, TourPayload, CheckInPayload,
  StatusPayload, InboundFrame, gps, waypoint, hazard, hazard_remove, tour, checkin, status,
}

-- The length of a text as JavaScript counts it: two units for a character beyond 0xffff.
unfoldable pub utf16_length : String → ℕ
utf16_length String.[] = 0
utf16_length (String.◌∷◌ c s) = (if leb (code c) 0xffff then 1 else 2) + utf16_length s

-- `.min(lo)` and `.max(hi)` on a text
unfoldable pub min_length : ℕ → String → Bool
unfolding utf16_length
min_length lo s = leb lo (utf16_length s)

unfoldable pub max_length : ℕ → String → Bool
unfolding utf16_length
max_length hi s = leb (utf16_length s) hi

-- `.min(-b).max(b)` on a number
unfoldable pub within : ℕ → Number → Bool
unfolding integer neg_integer le_number
within b x = le_number (neg_integer b) x && le_number x (integer b)

unfoldable pub at_least_zero : Number → Bool
unfolding integer le_number
at_least_zero x = le_number (integer 0) x

-- `.optional()` and `.nullable()`
unfoldable pub optional : {A : Type 0} → (A → Bool) → Option A → Bool
optional test none = true
optional test (some a) = test a

module _ (is_datetime : String → Bool) where
  unfoldable pub gps_payload_schema : GpsPayload → Bool
  unfolding min_length within at_least_zero optional
  gps_payload_schema p =
      min_length 1 p.member_id
      && within 90 p.latitude
      && within 180 p.longitude
      && at_least_zero p.speed
      && is_datetime p.timestamp
      && optional at_least_zero p.accuracy

  unfoldable pub waypoint_payload_schema : WaypointPayload → Bool
  unfolding min_length max_length within
  waypoint_payload_schema p =
      within 90 p.latitude
      && within 180 p.longitude
      && (min_length 1 p.label && max_length 80 p.label)
      && min_length 1 p.set_by
      && is_datetime p.set_at

  unfoldable pub hazard_payload_schema : HazardPayload → Bool
  unfolding min_length max_length within optional
  hazard_payload_schema p =
      min_length 1 p.id
      && within 90 p.latitude
      && within 180 p.longitude
      && min_length 1 p.reporter_id
      && is_datetime p.created_at
      && optional (min_length 1) p.convoy_id
      && optional (max_length 280) p.description
      && optional is_datetime p.expires_at

  unfoldable pub hazard_remove_payload_schema : HazardRemovePayload → Bool
  unfolding min_length
  hazard_remove_payload_schema p = min_length 1 p.id

  -- Every element of an array meets the schema of its elements.
  unfoldable pub every : {A : Type 0} → (A → Bool) → List A → Bool
  every test [] = true
  every test (x ∷ xs) = test x && every test xs

  unfoldable pub tour_payload_schema : TourPayload → Bool
  unfolding every waypoint_payload_schema
  tour_payload_schema p = leb (length p.stops) 20 && every waypoint_payload_schema p.stops

  unfoldable pub check_in_payload_schema : CheckInPayload → Bool
  unfolding min_length
  check_in_payload_schema p =
      min_length 1 p.member_id && min_length 1 p.stop_signature && is_datetime p.arrived_at

  unfoldable pub status_payload_schema : StatusPayload → Bool
  unfolding min_length
  status_payload_schema p = min_length 1 p.member_id && is_datetime p.at

  unfoldable pub inbound_frame_schema : InboundFrame → Bool
  unfolding gps_payload_schema waypoint_payload_schema hazard_payload_schema
      hazard_remove_payload_schema tour_payload_schema check_in_payload_schema status_payload_schema
  inbound_frame_schema (gps p) = gps_payload_schema p
  inbound_frame_schema (waypoint p) = optional waypoint_payload_schema p
  inbound_frame_schema (hazard p) = hazard_payload_schema p
  inbound_frame_schema (hazard_remove p) = hazard_remove_payload_schema p
  inbound_frame_schema (tour p) = tour_payload_schema p
  inbound_frame_schema (checkin p) = check_in_payload_schema p
  inbound_frame_schema (status p) = status_payload_schema p
