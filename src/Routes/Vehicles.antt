-- ===== src/Routes/Vehicles.antt =====
-- backend/src/routes/vehicles.ts: the schemas and the handlers. `shape` reads a body into its type;
-- `year_max` is the year after the next one when the process started.
use crew_link.Base.{
  ℕ, ℤ, pos, String, Bool, true, ◌&&◌, Option, none, some, List, [], ◌∷◌, leb, length,
  if◌then◌else◌,
}
use crew_link.Number.{Number, int_within}
use crew_link.Wire.Schema.{min_length, max_length, optional}
use crew_link.Db.Query.{Query, return, ◌>>=◌, ◌>>◌}
use crew_link.Vehicles.{
  ModInput, SetVehicleInput, VehicleApiPayload, get_user_vehicle, set_user_vehicle,
  delete_user_vehicle,
}
use crew_link.Routes.{Reply, vehicle, nothing, problem_reply}

pub record PutBody : Type 0 where
  pub make : String
  pub model : String
  pub year : Option Number
  pub color : Option String
  pub power_kw : Option Number
  pub drivetrain : Option String
  pub displacement : Option Number
  pub transmission_type : Option String
  pub mods : Option (List ModInput)

unfoldable pub every : {A : Type 0} → (A → Bool) → List A → Bool
every test [] = true
every test (x ∷ xs) = test x && every test xs

unfoldable pub mod_schema : ModInput → Bool
mod_schema m =
    (min_length 1 m.name && max_length 80 m.name)
    && optional (max_length 240) m.description
    && optional (max_length 40) m.category

unfoldable pub mods_schema : List ModInput → Bool
mods_schema mods = leb (length mods) 30 && every mod_schema mods

unfoldable pub text_schema : ℕ → String → Bool
text_schema most s = min_length 1 s && max_length most s

-- The texts and the modifications of a body.
unfoldable pub texts_schema : PutBody → Bool
texts_schema v =
    (text_schema 120 v.make && text_schema 120 v.model)
    && (optional (text_schema 60) v.color
        && (optional (text_schema 8) v.drivetrain
            && (optional (text_schema 16) v.transmission_type && optional mods_schema v.mods)))

-- An optional integer; none where the number does not pass.
unfoldable pub optional_int : ℤ → ℤ → Option Number → Option (Option ℤ)
optional_int low high none = some none
optional_int low high (some x) = elim (int_within low high x) [
  | none ↦ none
  | some i ↦ some (some i)
]

unfoldable pub with_numbers :
    PutBody → Option (Option ℤ) → Option (Option ℤ) → Option (Option ℤ) → Option SetVehicleInput
with_numbers v (some year) (some power_kw) (some displacement) = some (record {
  make = v.make;
  model = v.model;
  year = year;
  color = v.color;
  power_kw = power_kw;
  drivetrain = v.drivetrain;
  displacement = displacement;
  transmission_type = v.transmission_type;
  mods = v.mods;
})
with_numbers v none _ _ = none
with_numbers v (some year) none _ = none
with_numbers v (some year) (some power_kw) none = none

-- `putBodySchema`, with the service's input that the handler makes of the result.
unfoldable pub put_body : ℤ → PutBody → Option SetVehicleInput
put_body year_max v =
    if texts_schema v
    then with_numbers v (optional_int (pos 1900) year_max v.year)
        (optional_int (pos 0) (pos 5000) v.power_kw)
        (optional_int (pos 0) (pos 20000) v.displacement)
    else none

unfoldable pub safe_parse_put : ℤ → Option PutBody → Option SetVehicleInput
safe_parse_put year_max none = none
safe_parse_put year_max (some v) = put_body year_max v

unfoldable pub vehicle_reply : Option VehicleApiPayload → Reply
vehicle_reply p = record { code = 200; body = vehicle p }

unfoldable pub get_me : String → Query Reply
get_me user_id = do p ← get_user_vehicle user_id; return (vehicle_reply p)

unfoldable pub put_me : ℤ → String → (ℕ → String) → ℤ → String → Option PutBody → Query Reply
put_me year_max uuid uuids now user_id shape = elim (safe_parse_put year_max shape) [
  | none ↦ return (problem_reply 400 "invalid body")
  | some input ↦ do
    p ← set_user_vehicle uuid uuids now user_id input
    return (vehicle_reply (some p))
]

unfoldable pub delete_me : String → Query Reply
delete_me user_id = delete_user_vehicle user_id >> return (record { code = 204; body = nothing })
