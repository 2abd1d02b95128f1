-- ===== src/Vehicles/RoundTrip.antt =====
-- backend/src/services/vehicles.ts: setting a user's vehicle, then getting it.
use crew_link.Base.{
  ℕ, suc, ℤ, String, Bool, true, false, some, Bool-cases, List, [], ◌∷◌, ◌++◌, map, keep, All, ◌==◌,
  ◌≡◌, ◌≢◌, refl, sym, ap, ◌∙◌, arith, eq_iff, eq_refl, inl, inr, append-nil, append_assoc,
}
use mathlib.Core.Option
use crew_link.Db.{Vehicle, VehicleMod, Tables}
use crew_link.Db.Rows.{first, exists, delete_where, delete_where-All}
use crew_link.Db.Query.{ok, then_query, return, or_restore-ok, then_query-ok}
use crew_link.Db.Sql.{insert_vehicle, insert_mod, delete_vehicles, has_vehicle}
use crew_link.Vehicles.{
  VehicleModApiPayload, VehicleApiPayload, ModInput, SetVehicleInput, mod_payload, to_api,
  new_vehicle, new_mod, insert_mods, set_user_vehicle, mods_of, vehicle_payload, get_user_vehicle,
}

-- The modifications refer to vehicles.
unfoldable pub RefersToVehicles : Tables → Type 0
RefersToVehicles t = All (λ m. has_vehicle m.vehicle_id t ≡ true) t.vehicle_mods

-- A modification without the id that Postgres drew.
unfoldable pub mod_content : VehicleModApiPayload → ModInput
mod_content p = record { name = p.name; description = p.description; category = p.category }

pub return-ok : {A : Type 0} (a b : A) (s after : Tables) → return a s ≡ (ok b, after) → a ≡ b
return-ok a b s after e = cc

abbrev pub with_mods : Tables → List VehicleMod → Tables
with_mods t rows = record t { vehicle_mods = t.vehicle_mods ++ rows }

insert_mod-ok :
    (m : VehicleMod) (t after : Tables)
    → insert_mod m t ≡ (ok tt, after)
    → after ≡ with_mods t (m ∷ [])
unfolding insert_mod
insert_mod-ok m t after e = ground arith

-- The rows of the vehicle are written after those that stand there, and the answer lists them.
pub insert_mods-ok :
    (uuids : ℕ → String) (n : ℕ) (now : ℤ) (id : String) (mods : List ModInput) (t after : Tables)
    (ps : List VehicleModApiPayload)
    → insert_mods uuids n now id mods t ≡ (ok ps, after)
    → (rows : List VehicleMod) × (after ≡ with_mods t rows)
      × (ps ≡ map mod_payload rows)
      × (mods_of id rows ≡ map mod_payload rows)
      × (map mod_content ps ≡ mods)
unfolding insert_mods mods_of new_mod mod_content mod_payload
insert_mods-ok uuids n now id [] t after ps e = (
  [],
  sym (ap (λ r. r.1) e)
      ∙ ap (λ rows. record t { vehicle_mods = rows }) (sym (append-nil t.vehicle_mods)),
  cc,
  refl,
  rw (sym (return-ok [] ps t after e)) refl,
)
insert_mods-ok uuids n now id (m ∷ mods) t after ps e =
    let (_, s, a, b) =
      then_query-ok (insert_mod (new_mod (uuids n) now id m) t)
        (λ _ s.
          then_query (insert_mods uuids (suc n) now id mods s)
            (λ rest. return (mod_payload (new_mod (uuids n) now id m) ∷ rest)))
        ps after e in
    let (rest, s', c, d) =
      then_query-ok (insert_mods uuids (suc n) now id mods s)
        (λ rest. return (mod_payload (new_mod (uuids n) now id m) ∷ rest)) ps after b in
    let (rows, w, l, k, q) = insert_mods-ok uuids (suc n) now id mods s s' rest c in
    (
      new_mod (uuids n) now id m ∷ rows,
      sym (ap (λ r. r.1) d)
          ∙ w
          ∙ ap (λ s. with_mods s rows) (insert_mod-ok (new_mod (uuids n) now id m) t s a)
          ∙ ap (λ rows. record t { vehicle_mods = rows })
              (append_assoc t.vehicle_mods (new_mod (uuids n) now id m ∷ []) rows),
      cc,
      rw (eq_refl id) (ap (λ ps. mod_payload (new_mod (uuids n) now id m) ∷ ps) k),
      rw (sym (return-ok (mod_payload (new_mod (uuids n) now id m) ∷ rest) ps s' after d))
          (ap (λ ms. m ∷ ms) q),
    )

exists-delete_where :
    {A : Type 0} (f test : A → Bool) (xs : List A)
    → exists f xs ≡ true
    → exists f (keep test xs) ≡ false
    → exists f (delete_where test xs) ≡ true
unfolding exists
exists-delete_where f test [] e g = e
exists-delete_where f test (x ∷ xs) e g = ground (arith, exists-delete_where f test xs)

first-new :
    (user_id : String) (vs : List Vehicle) (v : Vehicle)
    → v.user_id ≡ user_id
    → first
        (keep (λ v. v.user_id == user_id) (delete_where (λ v. v.user_id == user_id) vs ++ v ∷ []))
      ≡ some v
unfolding first
first-new user_id [] v e = rw (e, eq_refl user_id) refl
first-new user_id (w ∷ vs) v e = elim (Bool-cases (w.user_id == user_id)) [
  | inl h ↦ rw h (first-new user_id vs v e)
  | inr h ↦ rw (h, h) (first-new user_id vs v e)
]

mods_of-append :
    (id : String) (ms rows : List VehicleMod)
    → All (λ m. m.vehicle_id ≢ id) ms
    → mods_of id (ms ++ rows) ≡ mods_of id rows
unfolding mods_of
mods_of-append id [] rows h = refl
mods_of-append id (m ∷ ms) rows (n, h) = elim (Bool-cases (m.vehicle_id == id)) [
  | inl e ↦ elim (n (ground (arith, eq_iff m.vehicle_id id))) [ ]
  | inr e ↦ rw e (mods_of-append id ms rows h)
]

-- After the user's vehicle is deleted, no modification refers to an id without a vehicle.
no_mods :
    (user_id id : String) (t : Tables)
    → RefersToVehicles t
    → has_vehicle id (delete_vehicles (λ v. v.user_id == user_id) t) ≡ false
    → All (λ m. m.vehicle_id ≢ id) (delete_vehicles (λ v. v.user_id == user_id) t).vehicle_mods
unfolding delete_vehicles has_vehicle RefersToVehicles
no_mods user_id id t h free =
    delete_where-All (λ m. exists (λ v. v.id == m.vehicle_id) t.vehicles ≡ true)
      (λ m. m.vehicle_id ≢ id)
      (λ m. exists (λ v. v.id == m.vehicle_id) (keep (λ v. v.user_id == user_id) t.vehicles))
      t.vehicle_mods
      (λ m there kept same. ground (
        arith,
        exists-delete_where (λ v. v.id == m.vehicle_id) (λ v. v.user_id == user_id) t.vehicles there
            kept,
      ))
      h

pub insert_vehicle-ok :
    (v : Vehicle) (t after : Tables)
    → insert_vehicle v t ≡ (ok tt, after)
    → (after ≡ record t { vehicles = t.vehicles ++ v ∷ [] }) × (has_vehicle v.id t ≡ false)
unfolding insert_vehicle
insert_vehicle-ok v t after e = ground arith

-- The input, column by column, under the id that Postgres drew.
abbrev pub put_in : String → SetVehicleInput → List VehicleModApiPayload → VehicleApiPayload
put_in uuid input mods = record {
  id = uuid;
  make = input.make;
  model = input.model;
  year = input.year;
  color = input.color;
  power_kw = input.power_kw;
  drivetrain = input.drivetrain;
  displacement = input.displacement;
  transmission_type = input.transmission_type;
  mods = mods;
}

-- Where a user's vehicle is set, the answer is what the user gets afterwards: the vehicle as it was
-- put in, with its modifications in order, and with none of a former vehicle. Modifications are
-- assumed to refer to vehicles.
pub get_user_vehicle-set_user_vehicle :
    (uuid : String) (uuids : ℕ → String) (now : ℤ) (user_id : String) (input : SetVehicleInput)
    (t after : Tables) (p : VehicleApiPayload)
    → RefersToVehicles t
    → set_user_vehicle uuid uuids now user_id input t ≡ (ok p, after)
    → (get_user_vehicle user_id after ≡ (ok (some p), after))
      × ((mods : List VehicleModApiPayload) × (p ≡ put_in uuid input mods)
          × (map mod_content mods ≡ Option.get_or input.mods []))
unfolding set_user_vehicle get_user_vehicle vehicle_payload delete_vehicles new_vehicle to_api
get_user_vehicle-set_user_vehicle uuid uuids now user_id input t after p refs e =
    let t1 : Tables = delete_vehicles (λ v. v.user_id == user_id) t in
    let v : Vehicle = new_vehicle uuid now user_id input in
    let inputs : List ModInput = Option.get_or input.mods [] in
    let (_, t2, a, b) =
      then_query-ok (insert_vehicle v t1)
        (λ _ s. then_query (insert_mods uuids 0 now uuid inputs s) (λ mods. return (to_api v mods)))
        p after (or_restore-ok t _ p after e) in
    let (mods, t3, c, d) =
      then_query-ok (insert_mods uuids 0 now uuid inputs t2) (λ mods. return (to_api v mods)) p
        after b in
    let (w, free) = insert_vehicle-ok v t1 t2 a in
    let (rows, w', l, k, q) = insert_mods-ok uuids 0 now uuid inputs t2 t3 mods c in
    let none_left = no_mods user_id uuid t refs free in
    let same : t3 ≡ after = ap (λ r. r.1) d in
    let shape : after ≡ with_mods (record t1 { vehicles = t1.vehicles ++ v ∷ [] }) rows =
      sym same ∙ w' ∙ ap (λ s. with_mods s rows) w in
    let here = first-new user_id t.vehicles v refl in
    let answer = return-ok (to_api v mods) p t3 after d in
    (
      rw (shape, here, mods_of-append uuid t1.vehicle_mods rows none_left, k, sym l, answer) refl,
      (mods, sym answer, q),
    )
