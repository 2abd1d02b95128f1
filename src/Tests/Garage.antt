-- ===== src/Tests/Garage.antt =====
-- Runs of the vehicle service and of the position store on the small database.
use crew_link.Base.{
  Bool-cases, ◌==◌, ◌≢◌, ℤ, pos, String, Option, none, some, List, [], ◌∷◌, map, In, ◌≡◌, inl, inr,
  refl, arith, eq_iff,
}
use mathlib.Core.Option
use crew_link.Number.{integer}
use crew_link.Promise.{fulfilled}
use crew_link.Wire.{GpsPayload}
use crew_link.Db.{Tables, ConvoyMember}
use crew_link.Users.{delete_user_account}
use crew_link.Convoys.{ConvoyApiPayload, find_convoy}
use crew_link.Convoys.Loaded.{loaded, load_convoy_payload-some}
use crew_link.Convoys.Twice.{Lists, overlapped-Lists}
use crew_link.Vehicles.Overlap.{Put, overlapped, clear_vehicle, put_vehicle}
use crew_link.Vehicles.Single.{IsSingle, services-IsSingle}
use crew_link.Db.Rows.{exists, first}
use crew_link.Db.Query.{ok}
use crew_link.Db.Sql.{
  has_vehicle, has_user, insert_vehicle, insert_mod, delete_vehicles, forget_vehicle,
}
use crew_link.Vehicles.{
  VehicleApiPayload, VehicleModApiPayload, to_api, new_vehicle, new_mod, mod_payload, insert_mods,
  set_user_vehicle, get_user_vehicle, delete_user_vehicle,
}
use crew_link.Vehicles.RoundTrip.{
  put_in, RefersToVehicles, mod_content, get_user_vehicle-set_user_vehicle,
}
use crew_link.Positions.Database.{save, load_snapshot}
use crew_link.Positions.Shown.{load_snapshot-save}
use crew_link.Auth.Resolvers.{IsMembership}
use crew_link.Tests.Tables.{bob_vehicle, tour_convoy, bob, bob_seat, tables, new_car, ids, iso}

tables-RefersToVehicles : RefersToVehicles tables
unfolding RefersToVehicles has_vehicle exists
tables-RefersToVehicles = (refl, tt)

abbrev parked : VehicleApiPayload
parked =
    to_api (new_vehicle "v9" (pos 9) "u2" new_car)
      (record { id = "x9"; name = "Radio"; description = none; category = none } ∷ [])

abbrev after_set : Tables
after_set = (set_user_vehicle "v9" ids (pos 9) "u2" new_car tables).1

bob_sets : set_user_vehicle "v9" ids (pos 9) "u2" new_car tables ≡ (ok parked, after_set)
unfolding set_user_vehicle insert_vehicle insert_mods insert_mod delete_vehicles has_vehicle
    has_user exists new_vehicle new_mod mod_payload
bob_sets = refl

get_user_vehicle-set_user_vehicle_example :
    (get_user_vehicle "u2" after_set ≡ (ok (some parked), after_set))
    × ((mods : List VehicleModApiPayload) × (parked ≡ put_in "v9" new_car mods)
        × (map mod_content mods ≡ Option.get_or new_car.mods []))
get_user_vehicle-set_user_vehicle_example =
    get_user_vehicle-set_user_vehicle "v9" ids (pos 9) "u2" new_car tables after_set parked
      tables-RefersToVehicles bob_sets

abbrev date_parse : String → Option ℤ
date_parse s = some (pos 8)

abbrev here : GpsPayload
here = record {
  member_id = "bob";
  latitude = integer 48;
  longitude = integer 11;
  heading = integer 0;
  speed = integer 0;
  timestamp = "2026-06-06T12:00:00.000Z";
  accuracy = none;
}

bob_is_current : IsMembership "c1" "bob" tables bob_seat bob
unfolding IsMembership
bob_is_current = (inr (inl refl), inr (inl refl), refl, refl, refl, refl)

load_snapshot-save_example :
    (after : Tables) × (ps : List GpsPayload) × (p : GpsPayload) × (save date_parse iso
        (pos 9)
        tables
        "c1"
        "bob"
        here
      ≡ (after, fulfilled tt))
    × (load_snapshot date_parse iso (pos 9) after "c1" "ann" ≡ fulfilled ps)
    × In p ps
    × (p.member_id ≡ "bob")
    × (p.latitude ≡ here.latitude)
    × (p.longitude ≡ here.longitude)
    × (p.timestamp ≡ iso (pos 8))
load_snapshot-save_example =
    load_snapshot-save date_parse iso (pos 9) tables "c1" "bob" "ann" here (pos 8) bob_seat bob
      bob_is_current (ground (arith, eq_iff "bob" "ann")) refl

-- No user has two vehicles.
tables-IsSingle : IsSingle tables
unfolding IsSingle
tables-IsSingle user_id = elim (Bool-cases (bob_vehicle.user_id == user_id)) [
  | inl e ↦ rw e (omega arith)
  | inr e ↦ rw e (omega arith)
]

abbrev first_put : Put
first_put = record { uuid = "v8"; uuids = ids; now = pos 9; input = new_car }

abbrev second_put : Put
second_put = record { uuid = "v9"; uuids = λ n. "x8"; now = pos 9; input = new_car }

services-IsSingle_example :
    IsSingle (set_user_vehicle "v8" ids (pos 9) "u2" new_car tables).1
    × IsSingle (delete_user_vehicle "u2" tables).1
    × IsSingle (delete_user_account "u2" tables).1
services-IsSingle_example = services-IsSingle "u2" first_put tables tables-IsSingle

abbrev after_both : Tables
after_both = (overlapped "u2" first_put second_put tables).1

abbrev with_radio : String → String → VehicleApiPayload
with_radio vehicle_id mod_id =
    to_api (new_vehicle vehicle_id (pos 9) "u2" new_car)
      (record { id = mod_id; name = "Radio"; description = none; category = none } ∷ [])

both_put :
    overlapped "u2" first_put second_put tables
    ≡ (ok (with_radio "v8" "x9", with_radio "v9" "x8"), after_both)
unfolding overlapped clear_vehicle put_vehicle insert_vehicle insert_mods insert_mod delete_vehicles
    has_vehicle has_user exists new_vehicle new_mod mod_payload
both_put = refl

abbrev free_seat : ConvoyMember
free_seat = record bob_seat { vehicle_id = none }

still_current : IsMembership "c1" "bob" after_both free_seat bob
unfolding IsMembership overlapped clear_vehicle put_vehicle insert_vehicle insert_mods insert_mod
    delete_vehicles has_vehicle has_user exists new_vehicle new_mod mod_payload forget_vehicle
still_current = (inr (inl refl), inr (inl refl), refl, refl, refl, refl)

still_there : find_convoy "c1" after_both ≡ some tour_convoy
unfolding find_convoy first overlapped clear_vehicle put_vehicle insert_vehicle insert_mods
    insert_mod delete_vehicles has_vehicle has_user exists new_vehicle new_mod mod_payload
still_there = refl

abbrev shown_convoy : ConvoyApiPayload
shown_convoy = loaded iso "c1" tour_convoy after_both

overlapped-Lists_example :
    Lists shown_convoy "bob" "v8" × Lists shown_convoy "bob" "v9" × ◌≢◌ {A = String} "v8" "v9"
unfolding to_api new_vehicle
overlapped-Lists_example =
    overlapped-Lists iso "c1" "bob" first_put second_put tables after_both after_both
      (with_radio "v8" "x9") (with_radio "v9" "x8") shown_convoy free_seat bob both_put
      still_current (load_convoy_payload-some iso "c1" after_both tour_convoy still_there)
