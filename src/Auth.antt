-- ===== src/Auth.antt =====
-- backend/src/services/auth.ts. `jwt_verify` is jose's verification against Google's keys; the id
-- that Postgres draws for a new row, and the time, are arguments.
pub mod Resolvers
pub mod Upsert
pub mod Left
pub mod Bearer
use Prim.Native.String.{slice, find}
use crew_link.Base.{
  ℤ, String, Bool, true, false, Option, none, some, List, [], ◌∷◌, ◌++◌, keep, ◌==◌, ◌&&◌,
  if◌then◌else◌,
}
use Prim.Native.String.{◌++◌ as ◌append◌}
use crew_link.Db.{User, ConvoyMember, Tables}
use crew_link.Db.Rows.{first, exists, update_where, inner_join, is_null}
use crew_link.Db.Query.{
  Query, Answer, ok, err, Error, internal, unique_violation, read, return, or_throw, ◌>>=◌, ◌>>◌,
}
use crew_link.Text.{utf16_take}
use crew_link.Convoys.{is_owner}

pub record VerifiedToken : Type 0 where
  pub uid : String
  pub name : Option String
  pub email : Option String

abbrev pub TokenVerifier : Type 0
TokenVerifier = String → Option VerifiedToken

unfoldable pub dev_token_verifier : TokenVerifier
dev_token_verifier token =
    if token == "" then none else some (record { uid = token; name = none; email = none })

-- The claims that are strings.
pub record JwtPayload : Type 0 where
  pub sub : Option String
  pub name : Option String
  pub email : Option String

-- None is a token that jose rejects.
unfoldable pub of_payload : Option JwtPayload → Option VerifiedToken
of_payload none = none
of_payload (some payload) = elim payload.sub [
  | none ↦ none
  | some uid ↦
      if uid == ""
      then none
      else some (record { uid = uid; name = payload.name; email = payload.email })
]

-- `jwt_verify` takes the token, the issuer and the audience.
unfoldable pub firebase_token_verifier :
    (String → String → String → Option JwtPayload) → String → TokenVerifier
firebase_token_verifier jwt_verify project_id token =
    of_payload (jwt_verify token ("https://securetoken.google.com/" append project_id) project_id)

abbrev pub non_empty : Option String → Option String
non_empty none = none
non_empty (some s) = if s == "" then none else some s

unfoldable pub derive_display_name : VerifiedToken → String
derive_display_name v = elim (non_empty v.name) [
  | some name ↦ name
  | none ↦ elim (non_empty v.email) [
    | some email ↦ slice email 0 (find email "@")
    | none ↦ "Crew " append utf16_take 6 v.uid
  ]
]

unfoldable pub new_user : String → ℤ → VerifiedToken → User
new_user uuid now v = record {
  id = uuid;
  apple_user_id = v.uid;
  display_name = derive_display_name v;
  email = v.email;
  created_at = now;
  updated_at = now;
}

unfoldable pub refresh : ℤ → VerifiedToken → User → User
refresh now v u = record u {
  updated_at = now;
  display_name = derive_display_name v;
  email = v.email;
}

-- `insert … on conflict (apple_user_id) do update`
unfoldable pub upsert_user : String → ℤ → VerifiedToken → Query (Unit {0})
upsert_user uuid now v t =
    if exists (λ u. u.apple_user_id == v.uid) t.users
    then (
      ok tt,
      record t { users = update_where (λ u. u.apple_user_id == v.uid) (refresh now v) t.users },
    )
    else if exists (λ u. u.id == uuid) t.users
    then (err unique_violation, t)
    else (ok tt, record t { users = t.users ++ new_user uuid now v ∷ [] })

-- `returning()` gives the row of the external id.
unfoldable pub get_or_create_user : String → ℤ → VerifiedToken → Query User
get_or_create_user uuid now v = do
  upsert_user uuid now v
  found ← read (λ t. first (keep (λ u. u.apple_user_id == v.uid) t.users))
  or_throw found internal

pub record AuthUser : Type 0 where
  pub id : String
  pub external_id : String
  pub display_name : String

-- The hook from the bearer token on; none is the answer 401, after which no handler runs.
unfoldable pub auth_verified : String → ℤ → Option VerifiedToken → Query (Option AuthUser)
auth_verified uuid now none = return none
auth_verified uuid now (some v) = do
  user ← get_or_create_user uuid now v
  return (some (record { id = user.id; external_id = v.uid; display_name = user.display_name }))

unfoldable pub auth_hook : TokenVerifier → String → ℤ → String → Query (Option AuthUser)
auth_hook verify_token uuid now token =
    if token == "" then return none else auth_verified uuid now (verify_token token)

-- A row of a current membership of the external id.
unfoldable pub is_membership : String → String → ConvoyMember × User → Bool
is_membership convoy_id uid (m, u) =
    m.convoy_id == convoy_id && u.apple_user_id == uid && is_null m.left_at

unfoldable pub memberships : String → String → Tables → List (ConvoyMember × User)
memberships convoy_id uid t =
    keep (is_membership convoy_id uid)
      (inner_join (λ m u. m.user_id == u.id) t.convoy_members t.users)

unfoldable pub member_of_first : String → Option (ConvoyMember × User) → Option String
member_of_first uid none = none
member_of_first uid (some p) = some uid

unfoldable pub resolve_verified : Option VerifiedToken → String → Tables → Option String
resolve_verified none convoy_id t = none
resolve_verified (some v) convoy_id t =
    member_of_first v.uid (first (memberships convoy_id v.uid t))

unfoldable pub resolve_member : TokenVerifier → String → String → Tables → Option String
resolve_member verify_token token convoy_id t = resolve_verified (verify_token token) convoy_id t

unfoldable pub role_is_owner : Option (ConvoyMember × User) → Bool
role_is_owner none = false
role_is_owner (some (m, u)) = is_owner m.role

unfoldable pub is_leader : String → String → Tables → Bool
is_leader member_id convoy_id t = role_is_owner (first (memberships convoy_id member_id t))
