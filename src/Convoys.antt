-- ===== src/Convoys.antt =====
-- backend/src/services/convoys.ts. The ids that Postgres draws for new rows, the drawn invite code,
-- and the time are arguments; `iso` is `Date.prototype.toISOString`. A convoy's id is the text of a
-- UUID: the routes cast the text of a path before they pass it on.
pub mod Loaded
pub mod Members
pub mod Twice
pub mod Seats
pub mod Joined
pub mod Answered
pub mod Created
pub mod Guarded
pub mod Owner
use crew_link.Base.{
  ℤ, String, Bool, true, false, Option, none, some, List, [], ◌∷◌, map, keep, ◌==◌, ◌&&◌, not,
  if◌then◌else◌,
}
use mathlib.Core.Option
use crew_link.Number.{Number, round}
use crew_link.JsMap.{JsMap, get}
use crew_link.Db.{
  User, ConvoyStatus, lobby, Convoy, ConvoyMemberRole, owner, member, ConvoyMember, Vehicle, Tables,
}
use crew_link.Db.Rows.{first, exists, update_where, inner_join, left_join, is_null}
use crew_link.Db.Query.{
  Query, Uuid, transaction, read, write, return, require, or_throw, ◌>>=◌, ◌>>◌, out_of_range,
  invite_code_not_found, convoy_not_found, not_convoy_owner, not_convoy_member, internal,
}
use crew_link.Db.Sql.{insert_convoy, insert_member}
use crew_link.Vehicles.{VehicleModApiPayload, VehicleApiPayload, to_api, load_mods_by_vehicle_id}

pub record Destination : Type 0 where
  pub lat : Number
  pub lng : Number
  pub label : Option String

pub record ConvoyMemberApiPayload : Type 0 where
  pub id : String
  pub display_name : String
  pub vehicle_profile_id : Option String
  pub vehicle : Option VehicleApiPayload
  pub is_leader : Bool

pub record ConvoyApiPayload : Type 0 where
  pub id : String
  pub name : String
  pub invite_code : String
  pub members : List ConvoyMemberApiPayload
  pub proximity_warning_meters : ℤ
  pub status : ConvoyStatus
  pub destination : Option Destination
  pub created_at : String

pub record CreateConvoyInput : Type 0 where
  pub owner_user_id : String
  pub name : String
  pub proximity_warning_meters : Number

pub record JoinConvoyInput : Type 0 where
  pub user_id : String
  pub invite_code : String

pub record LeaveConvoyInput : Type 0 where
  pub user_id : Uuid
  pub convoy_id : Uuid

pub record SetConvoyDestinationInput : Type 0 where
  pub user_id : Uuid
  pub convoy_id : Uuid
  pub destination : Option Destination

-- The rows of the users who have not left a convoy.
unfoldable pub is_current : Uuid → ConvoyMember → Bool
is_current convoy_id m = m.convoy_id == convoy_id && is_null m.left_at

unfoldable pub is_current_user : Uuid → Uuid → ConvoyMember → Bool
is_current_user convoy_id user_id m =
    m.convoy_id == convoy_id && m.user_id == user_id && is_null m.left_at

-- The two joins of the member list.
abbrev pub MemberRow : Type 0
MemberRow = (ConvoyMember × User) × Option Vehicle

unfoldable pub drives : ConvoyMember × User → Vehicle → Bool
drives (m, u) v = v.user_id == m.user_id

unfoldable pub member_rows : Uuid → Tables → List MemberRow
member_rows convoy_id t =
    left_join drives
      (inner_join (λ m u. m.user_id == u.id) (keep (is_current convoy_id) t.convoy_members) t.users)
      t.vehicles

unfoldable pub vehicle_ids : List MemberRow → List String
vehicle_ids [] = []
vehicle_ids ((p, none) ∷ rows) = vehicle_ids rows
vehicle_ids ((p, some v) ∷ rows) = v.id ∷ vehicle_ids rows

unfoldable pub is_owner : ConvoyMemberRole → Bool
is_owner owner = true
is_owner member = false

unfoldable pub member_payload :
    JsMap (List VehicleModApiPayload) → MemberRow → ConvoyMemberApiPayload
member_payload mods ((m, u), v) = record {
  id = u.apple_user_id;
  display_name = u.display_name;
  vehicle_profile_id = m.vehicle_id;
  vehicle = Option.map (λ w. to_api w (Option.get_or (get w.id mods) [])) v;
  is_leader = is_owner m.role;
}

unfoldable pub destination_of : Convoy → Option Destination
destination_of c = elim c.destination_lat [
  | none ↦ none
  | some lat ↦ elim c.destination_lng [
    | none ↦ none
    | some lng ↦ some (record { lat = lat; lng = lng; label = c.destination_label })
  ]
]

unfoldable pub convoy_payload :
    (ℤ → String) → Convoy → List ConvoyMemberApiPayload → ConvoyApiPayload
convoy_payload iso convoy members = record {
  id = convoy.id;
  name = convoy.name;
  invite_code = convoy.invite_code;
  proximity_warning_meters = convoy.proximity_threshold_m;
  status = convoy.status;
  destination = destination_of convoy;
  created_at = iso convoy.created_at;
  members = members;
}

unfoldable pub find_convoy : Uuid → Tables → Option Convoy
find_convoy convoy_id t = first (keep (λ c. c.id == convoy_id) t.convoys)

unfoldable pub load_convoy_payload : (ℤ → String) → Uuid → Query ConvoyApiPayload
load_convoy_payload iso convoy_id = do
  found ← read (find_convoy convoy_id)
  convoy ← or_throw found internal
  rows ← read (member_rows convoy_id)
  mods ← load_mods_by_vehicle_id (vehicle_ids rows)
  return (convoy_payload iso convoy (map (member_payload mods) rows))

-- The defaults of the columns that an insert leaves out.
unfoldable pub new_convoy : String → String → ℤ → ℤ → CreateConvoyInput → Convoy
new_convoy uuid invite_code threshold now input = record {
  id = uuid;
  owner_user_id = input.owner_user_id;
  name = input.name;
  invite_code = invite_code;
  status = lobby;
  proximity_threshold_m = threshold;
  created_at = now;
  started_at = none;
  ended_at = none;
  destination_lat = none;
  destination_lng = none;
  destination_label = none;
}

unfoldable pub new_member : String → ConvoyMemberRole → ℤ → String → String → ConvoyMember
new_member uuid role now convoy_id user_id = record {
  id = uuid;
  convoy_id = convoy_id;
  user_id = user_id;
  vehicle_id = none;
  role = role;
  joined_at = now;
  left_at = none;
  last_known_position = none;
  last_position_at = none;
}

unfoldable pub insert_owned : String → String → String → ℤ → CreateConvoyInput → Query (Unit {0})
insert_owned uuid member_uuid invite_code now input = do
  threshold ← or_throw (round input.proximity_warning_meters) out_of_range
  insert_convoy (new_convoy uuid invite_code threshold now input)
  insert_member (new_member member_uuid owner now uuid input.owner_user_id)

unfoldable pub create_convoy :
    (ℤ → String) → String → String → String → ℤ → CreateConvoyInput → Query ConvoyApiPayload
create_convoy iso uuid member_uuid invite_code now input = do
  transaction (insert_owned uuid member_uuid invite_code now input)
  load_convoy_payload iso uuid

-- An existing row keeps its role and loses its `left_at`; a user without one gets a new row.
unfoldable pub rejoin : String → ℤ → String → String → Option ConvoyMember → Query (Unit {0})
rejoin uuid now convoy_id user_id none =
    insert_member (new_member uuid member now convoy_id user_id)
rejoin uuid now convoy_id user_id (some existing) =
    if is_null existing.left_at
    then return tt
    else write (λ t. record t {
      convoy_members =
          update_where (λ m. m.id == existing.id) (λ m. record m { left_at = none })
            t.convoy_members;
    })

unfoldable pub join_convoy : (ℤ → String) → String → ℤ → JoinConvoyInput → Query ConvoyApiPayload
join_convoy iso uuid now input = do
  found ← read (λ t. first (keep (λ c. c.invite_code == input.invite_code) t.convoys))
  convoy ← or_throw found invite_code_not_found
  existing ← read (λ t.
      first (keep (λ m. m.convoy_id == convoy.id && m.user_id == input.user_id) t.convoy_members))
  rejoin uuid now convoy.id input.user_id existing
  load_convoy_payload iso convoy.id

unfoldable pub leave_convoy : ℤ → LeaveConvoyInput → Query (Unit {0})
leave_convoy now input = write (λ t. record t {
  convoy_members =
      update_where (is_current_user input.convoy_id input.user_id)
        (λ m. record m { left_at = some now }) t.convoy_members;
})

unfoldable pub with_destination : Option Destination → Convoy → Convoy
with_destination none c = record c {
  destination_lat = none;
  destination_lng = none;
  destination_label = none;
}
with_destination (some d) c = record c {
  destination_lat = some d.lat;
  destination_lng = some d.lng;
  destination_label = d.label;
}

unfoldable pub set_convoy_destination :
    (ℤ → String) → SetConvoyDestinationInput → Query ConvoyApiPayload
set_convoy_destination iso input = do
  found ← read (find_convoy input.convoy_id)
  convoy ← or_throw found convoy_not_found
  require (convoy.owner_user_id == input.user_id) not_convoy_owner
  write (λ t. record t {
    convoys =
        update_where (λ c. c.id == input.convoy_id) (with_destination input.destination) t.convoys;
  })
  load_convoy_payload iso input.convoy_id

unfoldable pub get_convoy_for_member : (ℤ → String) → Uuid → Uuid → Query ConvoyApiPayload
get_convoy_for_member iso convoy_id user_id = do
  membership ← read (λ t. exists (is_current_user convoy_id user_id) t.convoy_members)
  require membership not_convoy_member
  load_convoy_payload iso convoy_id
