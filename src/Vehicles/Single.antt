-- ===== src/Vehicles/Single.antt =====
-- backend/src/services/vehicles.ts and users.ts: the services, one at a time, and a user's single
-- vehicle.
use crew_link.Base.{
  ◌≤◌, String, Bool, false, List, [], ◌∷◌, ◌++◌, keep, length, ◌==◌, ◌≡◌, refl, sym, ◌∙◌, arith,
  inl, inr, Bool-cases, eq_iff, eq_refl,
}
use crew_link.Db.{User, Convoy, Vehicle, Tables}
use crew_link.Db.Rows.{delete_where, exists}
use crew_link.Db.Query.{Answer, ok, err, or_restore}
use crew_link.Db.Sql.{delete_vehicles, delete_convoys, delete_users, cascade_users}
use crew_link.Users.{delete_user_account}
use crew_link.Vehicles.{VehicleApiPayload, new_vehicle, set_user_vehicle, delete_user_vehicle}
use crew_link.Vehicles.Overlap.{
  Put, clear_vehicle, put_vehicle, put_vehicle-ok, set_user_vehicle_lem,
}

abbrev pub owned_by : String → List Vehicle → List Vehicle
owned_by user_id vehicles = keep (λ v. v.user_id == user_id) vehicles

-- No user has two vehicles.
unfoldable pub IsSingle : Tables → Type 0
IsSingle t = (user_id : String) → length (owned_by user_id t.vehicles) ≤ 1

-- Taking vehicles away keeps it.
owned_by-delete_where :
    (test : Vehicle → Bool) (user_id : String) (vs : List Vehicle)
    → length (owned_by user_id (delete_where test vs)) ≤ length (owned_by user_id vs)
owned_by-delete_where test user_id [] = omega arith
owned_by-delete_where test user_id (v ∷ vs) = ground (arith, owned_by-delete_where test user_id vs)

owned_by-deleted :
    (user_id : String) (vs : List Vehicle)
    → owned_by user_id (delete_where (λ v. v.user_id == user_id) vs) ≡ []
owned_by-deleted user_id [] = refl
owned_by-deleted user_id (v ∷ vs) = ground (arith, owned_by-deleted user_id vs)

-- A vehicle that is added counts for its user.
owned_by-added_own :
    (user_id : String) (vs : List Vehicle) (v : Vehicle)
    → v.user_id ≡ user_id
    → owned_by user_id (delete_where (λ v. v.user_id == user_id) vs ++ v ∷ []) ≡ v ∷ []
owned_by-added_own user_id [] v e = rw (e, eq_refl user_id) refl
owned_by-added_own user_id (w ∷ vs) v e = ground (arith, owned_by-added_own user_id vs v e)

owned_by-added_other :
    (user_id : String) (vs : List Vehicle) (v : Vehicle)
    → (v.user_id == user_id) ≡ false
    → owned_by user_id (vs ++ v ∷ []) ≡ owned_by user_id vs
owned_by-added_other user_id [] v e = rw e refl
owned_by-added_other user_id (w ∷ vs) v e = ground (arith, owned_by-added_other user_id vs v e)

replaced-IsSingle :
    (user_id other : String) (vs : List Vehicle) (v : Vehicle)
    → v.user_id ≡ user_id
    → length (owned_by other vs) ≤ 1
    → length (owned_by other (delete_where (λ w. w.user_id == user_id) vs ++ v ∷ [])) ≤ 1
replaced-IsSingle user_id other vs v e h = elim (Bool-cases (v.user_id == other)) [
  | inl own ↦
      let same : other ≡ user_id = sym ((eq_iff v.user_id other).0 own) ∙ e in
      rw same (rw (owned_by-added_own user_id vs v e) (omega arith))
  | inr apart ↦
      rw (owned_by-added_other other (delete_where (λ w. w.user_id == user_id) vs) v apart)
        (omega (arith, h, owned_by-delete_where (λ w. w.user_id == user_id) other vs))
]

delete_vehicles-IsSingle :
    (test : Vehicle → Bool) (t : Tables) → IsSingle t → IsSingle (delete_vehicles test t)
unfolding IsSingle delete_vehicles
delete_vehicles-IsSingle test t h user_id =
    omega (arith, h user_id, owned_by-delete_where test user_id t.vehicles)

-- A transaction that is refused leaves the tables as they were.
or_restore-IsSingle :
    {A : Type 0} (t : Tables) (r : Answer A × Tables)
    → IsSingle t
    → ((a : A) (after : Tables) → r ≡ (ok a, after) → IsSingle after)
    → IsSingle (or_restore t r).1
or_restore-IsSingle t (ok a, after) h k = k a after refl
or_restore-IsSingle t (err e, after) h k = h

put_vehicle-IsSingle :
    (user_id : String) (a : Put) (t after : Tables) (p : VehicleApiPayload)
    → put_vehicle user_id a (delete_vehicles (λ v. v.user_id == user_id) t) ≡ (ok p, after)
    → IsSingle t
    → IsSingle after
unfolding IsSingle delete_vehicles new_vehicle
put_vehicle-IsSingle user_id a t after p e h other =
    let (rows, free, named) = put_vehicle-ok user_id a _ after p e in
    rw rows (
      replaced-IsSingle user_id other t.vehicles (new_vehicle a.uuid a.now user_id a.input) refl
        (h other))

set_user_vehicle-IsSingle :
    (user_id : String) (a : Put) (t : Tables)
    → IsSingle t
    → IsSingle (set_user_vehicle a.uuid a.uuids a.now user_id a.input t).1
unfolding clear_vehicle
set_user_vehicle-IsSingle user_id a t h = rw (set_user_vehicle_lem user_id a t) (
    or_restore-IsSingle t (put_vehicle user_id a (delete_vehicles (λ v. v.user_id == user_id) t)) h
      (λ p after e. put_vehicle-IsSingle user_id a t after p e h))

delete_convoys-IsSingle :
    (test : Convoy → Bool) (t : Tables) → IsSingle t → IsSingle (delete_convoys test t)
unfolding IsSingle delete_convoys
delete_convoys-IsSingle test t h = h

delete_users-vehicles :
    (test : User → Bool) (t after : Tables)
    → delete_users test t ≡ (ok tt, after)
    → after.vehicles
      ≡ delete_where (λ v. exists (λ u. u.id == v.user_id) (keep test t.users)) t.vehicles
unfolding delete_users cascade_users delete_vehicles
delete_users-vehicles test t after e = ground arith

delete_users-IsSingle :
    (test : User → Bool) (t after : Tables)
    → delete_users test t ≡ (ok tt, after)
    → IsSingle t
    → IsSingle after
unfolding IsSingle
delete_users-IsSingle test t after e h user_id = rw (delete_users-vehicles test t after e) (
    omega (
      arith,
      h user_id,
      owned_by-delete_where (λ v. exists (λ u. u.id == v.user_id) (keep test t.users)) user_id
          t.vehicles,
    ))

delete_user_account-IsSingle :
    (user_id : String) (t : Tables) → IsSingle t → IsSingle (delete_user_account user_id t).1
unfolding delete_user_account
delete_user_account-IsSingle user_id t h =
    let cleared : Tables = delete_convoys (λ c. c.owner_user_id == user_id) t in
    or_restore-IsSingle t (delete_users (λ u. u.id == user_id) cleared) h (λ a after e.
      delete_users-IsSingle (λ u. u.id == user_id) cleared after e
        (delete_convoys-IsSingle (λ c. c.owner_user_id == user_id) t h))

-- Where no user has two vehicles, setting a vehicle, deleting it and deleting an account, each
-- alone and whatever it answers, leave no user with two.
pub services-IsSingle :
    (user_id : String) (a : Put) (t : Tables)
    → IsSingle t
    → IsSingle (set_user_vehicle a.uuid a.uuids a.now user_id a.input t).1
      × IsSingle (delete_user_vehicle user_id t).1
      × IsSingle (delete_user_account user_id t).1
unfolding delete_user_vehicle
services-IsSingle user_id a t h = (
  set_user_vehicle-IsSingle user_id a t h,
  delete_vehicles-IsSingle (λ v. v.user_id == user_id) t h,
  delete_user_account-IsSingle user_id t h,
)
