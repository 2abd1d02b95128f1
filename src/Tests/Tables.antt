-- ===== src/Tests/Tables.antt =====
-- A convoy of two users in the database, for the tests of the services.
use crew_link.Base.{
  ℤ, pos, ℕ, String, Option, none, some, ◌==◌, if◌then◌else◌, [], ◌∷◌, In, ◌≡◌, ◌≢◌, inl, inr, sym,
  ap, ◌∙◌,
}
use crew_link.Number.{integer}
use crew_link.Db.{User, Convoy, ConvoyMember, Vehicle, VehicleMod, Tables, lobby, owner, member}
use crew_link.Auth.{VerifiedToken}
use crew_link.Convoys.{
  CreateConvoyInput, JoinConvoyInput, LeaveConvoyInput, SetConvoyDestinationInput,
}
use crew_link.Vehicles.{SetVehicleInput}

abbrev pub ann : User
ann = record {
  id = "u1";
  apple_user_id = "ann";
  display_name = "Ann";
  email = none;
  created_at = pos 1;
  updated_at = pos 1;
}

abbrev pub bob : User
bob = record ann { id = "u2"; apple_user_id = "bob"; display_name = "Bob" }

abbrev pub tour_convoy : Convoy
tour_convoy = record {
  id = "c1";
  owner_user_id = "u1";
  name = "Tour";
  invite_code = "K7";
  status = lobby;
  proximity_threshold_m = pos 500;
  created_at = pos 2;
  started_at = none;
  ended_at = none;
  destination_lat = none;
  destination_lng = none;
  destination_label = none;
}

abbrev pub ann_seat : ConvoyMember
ann_seat = record {
  id = "m1";
  convoy_id = "c1";
  user_id = "u1";
  vehicle_id = none;
  role = owner;
  joined_at = pos 2;
  left_at = none;
  last_known_position = none;
  last_position_at = none;
}

abbrev pub bob_seat : ConvoyMember
bob_seat = record ann_seat { id = "m2"; user_id = "u2"; vehicle_id = some "v1"; role = member }

abbrev pub bob_vehicle : Vehicle
bob_vehicle = record {
  id = "v1";
  user_id = "u2";
  make = "Opel";
  model = "Manta";
  year = some (pos 1988);
  color = none;
  power_kw = none;
  drivetrain = none;
  displacement = none;
  transmission_type = none;
  photo_url = none;
  created_at = pos 1;
  updated_at = pos 1;
}

abbrev pub bob_mod : VehicleMod
bob_mod = record {
  id = "x1";
  vehicle_id = "v1";
  name = "Horn";
  description = none;
  category = none;
  created_at = pos 1;
}

abbrev pub tables : Tables
tables = record {
  users = ann ∷ bob ∷ [];
  convoys = tour_convoy ∷ [];
  convoy_members = ann_seat ∷ bob_seat ∷ [];
  vehicles = bob_vehicle ∷ [];
  vehicle_mods = bob_mod ∷ [];
}

abbrev pub bob_token : VerifiedToken
bob_token = record { uid = "bob"; name = some "Bobby"; email = none }

abbrev pub bob_leaves : LeaveConvoyInput
bob_leaves = record { user_id = "u2"; convoy_id = "c1" }

abbrev pub bob_joins : JoinConvoyInput
bob_joins = record { user_id = "u2"; invite_code = "K7" }

-- Bob has left.
abbrev pub tables_left : Tables
tables_left = record tables {
  convoy_members = ann_seat ∷ record bob_seat { left_at = some (pos 7) } ∷ [];
}

abbrev pub ann_drives_to : SetConvoyDestinationInput
ann_drives_to = record {
  user_id = "u1";
  convoy_id = "c1";
  destination = some (record { lat = integer 48; lng = integer 11; label = none });
}

-- The ids of the small database stand for UUIDs, and any other text is none.
abbrev pub uuid_of : String → Option String
uuid_of text = if text == "c1" then some "c1" else none

abbrev pub bob_creates : CreateConvoyInput
bob_creates = record {
  owner_user_id = "u2";
  name = "Second";
  proximity_warning_meters = integer 300;
}

abbrev pub new_car : SetVehicleInput
new_car = record {
  make = "Audi";
  model = "80";
  year = none;
  color = none;
  power_kw = none;
  drivetrain = none;
  displacement = none;
  transmission_type = none;
  mods = some (record { name = "Radio"; description = none; category = none } ∷ []);
}

abbrev pub ids : ℕ → String
ids n = "x9"

abbrev pub iso : ℤ → String
iso z = "2026-06-06T12:00:00.000Z"

-- Two rows with different keys.
pub unique_two :
    {A : Type 0} (key : A → String) (a b x y : A)
    → key a ≢ key b
    → In x (a ∷ b ∷ [])
    → In y (a ∷ b ∷ [])
    → key x ≡ key y
    → x ≡ y
unique_two key a b x y n (inl i) (inl j) e = i ∙ sym j
unique_two key a b x y n (inl i) (inr (inl j)) e = elim (n (sym (ap key i) ∙ e ∙ ap key j)) [ ]
unique_two key a b x y n (inr (inl i)) (inl j) e = elim (n (sym (ap key j) ∙ sym e ∙ ap key i)) [ ]
unique_two key a b x y n (inr (inl i)) (inr (inl j)) e = i ∙ sym j
unique_two key a b x y n (inr (inr i)) j e = elim i [ ]
unique_two key a b x y n i (inr (inr j)) e = elim j [ ]
