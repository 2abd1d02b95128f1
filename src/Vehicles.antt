-- ===== src/Vehicles.antt =====
-- backend/src/services/vehicles.ts: a user's vehicle with its modifications. The ids that Postgres
-- draws for new rows, and the time, are arguments.
pub mod RoundTrip
pub mod Overlap
pub mod Single
use crew_link.Base.{
  ℕ, suc, ℤ, String, Bool, Option, none, some, List, [], ◌∷◌, ◌++◌, map, keep, ◌==◌,
}
use mathlib.Core.Option
use crew_link.JsMap.{JsMap, get, set}
use crew_link.Db.{Vehicle, VehicleMod, Tables}
use crew_link.Db.Rows.{first, exists}
use crew_link.Db.Query.{Query, transaction, read, write, return, ◌>>=◌, ◌>>◌}
use crew_link.Db.Sql.{insert_vehicle, insert_mod, delete_vehicles}

pub record VehicleModApiPayload : Type 0 where
  pub id : String
  pub name : String
  pub description : Option String
  pub category : Option String

pub record VehicleApiPayload : Type 0 where
  pub id : String
  pub make : String
  pub model : String
  pub year : Option ℤ
  pub color : Option String
  pub power_kw : Option ℤ
  pub drivetrain : Option String
  pub displacement : Option ℤ
  pub transmission_type : Option String
  pub mods : List VehicleModApiPayload

pub record ModInput : Type 0 where
  pub name : String
  pub description : Option String
  pub category : Option String

-- The route lets integers through only.
pub record SetVehicleInput : Type 0 where
  pub make : String
  pub model : String
  pub year : Option ℤ
  pub color : Option String
  pub power_kw : Option ℤ
  pub drivetrain : Option String
  pub displacement : Option ℤ
  pub transmission_type : Option String
  pub mods : Option (List ModInput)

unfoldable pub mod_payload : VehicleMod → VehicleModApiPayload
mod_payload m = record {
  id = m.id;
  name = m.name;
  description = m.description;
  category = m.category;
}

unfoldable pub to_api : Vehicle → List VehicleModApiPayload → VehicleApiPayload
to_api row mods = record {
  id = row.id;
  make = row.make;
  model = row.model;
  year = row.year;
  color = row.color;
  power_kw = row.power_kw;
  drivetrain = row.drivetrain;
  displacement = row.displacement;
  transmission_type = row.transmission_type;
  mods = mods;
}

unfoldable pub new_vehicle : String → ℤ → String → SetVehicleInput → Vehicle
new_vehicle uuid now user_id input = record {
  id = uuid;
  user_id = user_id;
  make = input.make;
  model = input.model;
  year = input.year;
  color = input.color;
  power_kw = input.power_kw;
  drivetrain = input.drivetrain;
  displacement = input.displacement;
  transmission_type = input.transmission_type;
  photo_url = none;
  created_at = now;
  updated_at = now;
}

unfoldable pub new_mod : String → ℤ → String → ModInput → VehicleMod
new_mod uuid now vehicle_id m = record {
  id = uuid;
  vehicle_id = vehicle_id;
  name = m.name;
  description = m.description;
  category = m.category;
  created_at = now;
}

-- The rows of one `insert`, whose ids are `uuids n`, `uuids (n + 1)` and so on; nothing for none.
unfoldable pub insert_mods :
    (ℕ → String) → ℕ → ℤ → String → List ModInput → Query (List VehicleModApiPayload)
insert_mods uuids n now vehicle_id [] = return []
insert_mods uuids n now vehicle_id (m ∷ mods) = do
  insert_mod (new_mod (uuids n) now vehicle_id m)
  rest ← insert_mods uuids (suc n) now vehicle_id mods
  return (mod_payload (new_mod (uuids n) now vehicle_id m) ∷ rest)

unfoldable pub set_user_vehicle :
    String → (ℕ → String) → ℤ → String → SetVehicleInput → Query VehicleApiPayload
set_user_vehicle uuid uuids now user_id input = transaction do
  write (delete_vehicles (λ v. v.user_id == user_id))
  insert_vehicle (new_vehicle uuid now user_id input)
  inserted_mods ← insert_mods uuids 0 now uuid (Option.get_or input.mods [])
  return (to_api (new_vehicle uuid now user_id input) inserted_mods)

unfoldable pub mods_of : String → List VehicleMod → List VehicleModApiPayload
mods_of vehicle_id mods = map mod_payload (keep (λ m. m.vehicle_id == vehicle_id) mods)

unfoldable pub vehicle_payload : Tables → Option Vehicle → Option VehicleApiPayload
vehicle_payload t none = none
vehicle_payload t (some row) = some (to_api row (mods_of row.id t.vehicle_mods))

unfoldable pub get_user_vehicle : String → Query (Option VehicleApiPayload)
get_user_vehicle user_id =
    read (λ t. vehicle_payload t (first (keep (λ v. v.user_id == user_id) t.vehicles)))

unfoldable pub delete_user_vehicle : String → Query (Unit {0})
delete_user_vehicle user_id = write (delete_vehicles (λ v. v.user_id == user_id))

unfoldable pub group_mods :
    JsMap (List VehicleModApiPayload) → List VehicleMod → JsMap (List VehicleModApiPayload)
group_mods grouped [] = grouped
group_mods grouped (row ∷ rows) =
    group_mods
      (set row.vehicle_id (Option.get_or (get row.vehicle_id grouped) [] ++ mod_payload row ∷ [])
        grouped)
      rows

unfoldable pub load_mods_by_vehicle_id : List String → Query (JsMap (List VehicleModApiPayload))
load_mods_by_vehicle_id vehicle_ids =
    read (λ t.
      group_mods [] (keep (λ m. exists (λ id. id == m.vehicle_id) vehicle_ids) t.vehicle_mods))
