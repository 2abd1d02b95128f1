-- ===== src/Routes.antt =====
-- backend/src/routes/: what the handlers answer, and those of convoys.ts, for a user who passed the
-- authentication hook. An error that a handler does not answer is thrown on. `shape` reads a body
-- into its type, with the defaults of the schema; the bounds are tests. `uuid_of` is the cast of a
-- text to a UUID in Postgres, which the first query on the convoy's id from the path makes.
pub mod Patch
pub mod Shown
pub mod Vehicles
pub mod Users
pub mod Ptt
pub mod Ranges
use crew_link.Base.{
  ℕ, ◌*◌, ℤ, String, Bool, true, ◌&&◌, Option, none, some, Option-cases, if◌then◌else◌,
}
use mathlib.Core.Option
use crew_link.Number.{Number, integer, le_number}
use crew_link.Wire.Schema.{min_length, max_length, within, optional}
use crew_link.Db.{Tables}
use crew_link.Db.Query.{
  Query, Uuid, with_uuid, Answer, ok, err, Error, invite_code_not_found, convoy_not_found,
  not_convoy_owner, not_convoy_member, return, ◌>>=◌, ◌>>◌,
}
use crew_link.LivekitTokens.{PttTokenResponse}
use crew_link.Vehicles.{VehicleApiPayload}
use crew_link.Convoys.{
  Destination, ConvoyApiPayload, create_convoy, join_convoy, leave_convoy, get_convoy_for_member,
  set_convoy_destination,
}

pub data Body : Type 0 where
  convoy : ConvoyApiPayload → Body
  vehicle : Option VehicleApiPayload → Body
  ptt_token : PttTokenResponse → Body
  problem : String → Body
  nothing : Body

pub record Reply : Type 0 where
  pub code : ℕ
  pub body : Body

pub record CreateBody : Type 0 where
  pub name : String
  pub proximity_warning_meters : Number

pub record JoinBody : Type 0 where
  pub invite_code : String

unfoldable pub create_body_schema : CreateBody → Bool
create_body_schema b =
    (min_length 1 b.name && max_length 120 b.name)
    && (le_number (integer 50) b.proximity_warning_meters
        && le_number b.proximity_warning_meters (integer 10000))

unfoldable pub join_body_schema : JoinBody → Bool
join_body_schema b = min_length 1 b.invite_code && max_length 32 b.invite_code

unfoldable pub destination_schema : Destination → Bool
destination_schema d = within 90 d.lat && within 180 d.lng && optional (max_length 120) d.label

unfoldable pub patch_body_schema : Option Destination → Bool
patch_body_schema d = optional destination_schema d

-- `safeParse`: the shape, then the bounds.
unfoldable pub safe_parse : {A : Type 0} → (A → Bool) → Option A → Option A
safe_parse test none = none
safe_parse test (some a) = if test a then some a else none

unfoldable pub ok_reply : ℕ → ConvoyApiPayload → Reply
ok_reply code p = record { code = code; body = convoy p }

unfoldable pub problem_reply : ℕ → String → Reply
problem_reply code text = record { code = code; body = problem text }

-- `try`: the errors that a handler answers.
abbrev pub answer :
    (Error → Option Reply) → Answer ConvoyApiPayload × Tables → Answer Reply × Tables
answer caught (ok p, t) = (ok (ok_reply 200 p), t)
answer caught (err e, t) = elim (caught e) [ none ↦ (err e, t) | some r ↦ (ok r, t) ]

unfoldable pub caught_by_join : Error → Option Reply
caught_by_join invite_code_not_found = some (problem_reply 404 "invite code not found")
caught_by_join _ = none

unfoldable pub caught_by_get : Error → Option Reply
caught_by_get not_convoy_member = some (problem_reply 404 "convoy not found")
caught_by_get _ = none

unfoldable pub caught_by_patch : Error → Option Reply
caught_by_patch convoy_not_found = some (problem_reply 404 "convoy not found")
caught_by_patch not_convoy_owner = some (problem_reply 403 "not the convoy owner")
caught_by_patch _ = none

unfoldable pub post_convoys :
    (ℤ → String) → String → String → String → ℤ → String → Option CreateBody → Query Reply
post_convoys iso uuid member_uuid code now user_id shape =
    elim (safe_parse create_body_schema shape) [
      | none ↦ return (problem_reply 400 "invalid body")
      | some b ↦ do
        p ← create_convoy iso uuid member_uuid code now (record {
          owner_user_id = user_id;
          name = b.name;
          proximity_warning_meters = b.proximity_warning_meters;
        })
        return (ok_reply 201 p)
    ]

unfoldable pub post_join : (ℤ → String) → String → ℤ → String → Option JoinBody → Query Reply
post_join iso uuid now user_id shape = elim (safe_parse join_body_schema shape) [
  | none ↦ return (problem_reply 400 "invalid body")
  | some b ↦ λ t.
      answer caught_by_join
        (join_convoy iso uuid now (record { user_id = user_id; invite_code = b.invite_code }) t)
]

unfoldable pub delete_membership : (String → Option Uuid) → ℤ → Uuid → String → Query Reply
delete_membership uuid_of now user_id convoy_id =
    with_uuid uuid_of convoy_id
      (λ id. leave_convoy now (record { user_id = user_id; convoy_id = id }))
    >> return (record { code = 204; body = nothing })

unfoldable pub get_convoy : (ℤ → String) → (String → Option Uuid) → Uuid → String → Query Reply
get_convoy iso uuid_of user_id convoy_id t =
    answer caught_by_get
      (with_uuid uuid_of convoy_id (λ id. get_convoy_for_member iso id user_id) t)

unfoldable pub patch_convoy :
    (ℤ → String)
    → (String → Option Uuid)
    → Uuid
    → String
    → Option (Option Destination)
    → Query Reply
patch_convoy iso uuid_of user_id convoy_id shape = elim (safe_parse patch_body_schema shape) [
  | none ↦ return (problem_reply 400 "invalid body")
  | some d ↦ λ t. answer caught_by_patch (
      with_uuid uuid_of convoy_id
        (λ id.
          set_convoy_destination iso
            (record { user_id = user_id; convoy_id = id; destination = d }))
        t)
]
