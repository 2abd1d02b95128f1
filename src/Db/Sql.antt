-- ===== src/Db/Sql.antt =====
-- backend/src/db/schema/: what Postgres checks when a row is inserted and what a delete takes with
-- it, by the columns' `unique`, `references`, `onDelete` and integer types.
use crew_link.Base.{
  ℕ, ◌-◌, ◌^◌, String, ℤ, pos, negsuc, leℤ, Bool, true, not, ◌&&◌, ◌||◌, Option, none, some, List,
  [], ◌∷◌, ◌++◌, map, if◌then◌else◌, keep, ◌==◌,
}
use crew_link.Db.{User, Convoy, ConvoyMember, Vehicle, VehicleMod, Tables}
use crew_link.Db.Rows.{exists, delete_where}
use crew_link.Db.Query.{Query, ok, err, unique_violation, foreign_key_violation, out_of_range}

-- `integer` and `smallint`: 32 and 16 bits.
unfoldable pub fits : ℕ → ℤ → Bool
fits bits z = leℤ (negsuc (2 ^ (bits - 1) - 1)) z && leℤ z (pos (2 ^ (bits - 1) - 1))

abbrev pub null_or : {A : Type 0} → (A → Bool) → Option A → Bool
null_or test none = true
null_or test (some a) = test a

-- Whether an id is the key of a row.
unfoldable pub has_user : String → Tables → Bool
has_user id t = exists (λ u. u.id == id) t.users

unfoldable pub has_convoy : String → Tables → Bool
has_convoy id t = exists (λ c. c.id == id) t.convoys

unfoldable pub has_vehicle : String → Tables → Bool
has_vehicle id t = exists (λ v. v.id == id) t.vehicles

-- An own id and an own invite code, and an owner that exists.
unfoldable pub insert_convoy : Convoy → Query (Unit {0})
insert_convoy c t =
    if not (fits 32 c.proximity_threshold_m)
    then (err out_of_range, t)
    else if exists (λ d. d.id == c.id || d.invite_code == c.invite_code) t.convoys
    then (err unique_violation, t)
    else if not (has_user c.owner_user_id t)
    then (err foreign_key_violation, t)
    else (ok tt, record t { convoys = t.convoys ++ c ∷ [] })

-- An own id, one row for each convoy and user, and rows that it refers to.
unfoldable pub insert_member : ConvoyMember → Query (Unit {0})
insert_member m t =
    if exists (λ n. n.id == m.id || (n.convoy_id == m.convoy_id && n.user_id == m.user_id))
      t.convoy_members
    then (err unique_violation, t)
    else if not (
        has_convoy m.convoy_id t
        && has_user m.user_id t
        && null_or (λ v. has_vehicle v t) m.vehicle_id)
    then (err foreign_key_violation, t)
    else (ok tt, record t { convoy_members = t.convoy_members ++ m ∷ [] })

unfoldable pub insert_vehicle : Vehicle → Query (Unit {0})
insert_vehicle v t =
    if not
      (null_or (fits 16) v.year && null_or (fits 32) v.power_kw && null_or (fits 32) v.displacement)
    then (err out_of_range, t)
    else if has_vehicle v.id t
    then (err unique_violation, t)
    else if not (has_user v.user_id t)
    then (err foreign_key_violation, t)
    else (ok tt, record t { vehicles = t.vehicles ++ v ∷ [] })

unfoldable pub insert_mod : VehicleMod → Query (Unit {0})
insert_mod m t =
    if exists (λ n. n.id == m.id) t.vehicle_mods
    then (err unique_violation, t)
    else if not (has_vehicle m.vehicle_id t)
    then (err foreign_key_violation, t)
    else (ok tt, record t { vehicle_mods = t.vehicle_mods ++ m ∷ [] })

-- `onDelete: 'set null'` of a member's vehicle.
unfoldable pub forget_vehicle : List Vehicle → ConvoyMember → ConvoyMember
forget_vehicle gone m =
    if null_or (λ id. not (exists (λ v. v.id == id) gone)) m.vehicle_id
    then m
    else record m { vehicle_id = none }

unfoldable pub delete_vehicles : (Vehicle → Bool) → Tables → Tables
delete_vehicles test t =
    let gone = keep test t.vehicles in
    record t {
      vehicles = delete_where test t.vehicles;
      vehicle_mods = delete_where (λ m. exists (λ v. v.id == m.vehicle_id) gone) t.vehicle_mods;
      convoy_members = map (forget_vehicle gone) t.convoy_members;
    }

unfoldable pub delete_convoys : (Convoy → Bool) → Tables → Tables
delete_convoys test t =
    let gone = keep test t.convoys in
    record t {
      convoys = delete_where test t.convoys;
      convoy_members = delete_where (λ m. exists (λ c. c.id == m.convoy_id) gone) t.convoy_members;
    }

-- The rows that cascade from the users of a list.
unfoldable pub cascade_users : List User → Tables → Tables
cascade_users gone t =
    let s = delete_vehicles (λ v. exists (λ u. u.id == v.user_id) gone) t in
    record s {
      convoy_members = delete_where (λ m. exists (λ u. u.id == m.user_id) gone) s.convoy_members;
    }

-- Refused while a convoy has one of the users as its owner.
unfoldable pub delete_users : (User → Bool) → Query (Unit {0})
delete_users test t =
    let gone = keep test t.users in
    if exists (λ c. exists (λ u. u.id == c.owner_user_id) gone) t.convoys
    then (err foreign_key_violation, t)
    else (ok tt, record (cascade_users gone t) { users = delete_where test t.users })
