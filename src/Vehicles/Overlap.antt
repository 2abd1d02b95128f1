-- ===== src/Vehicles/Overlap.antt =====
-- backend/src/services/vehicles.ts: two calls of `setUserVehicle` for one user, whose transactions
-- overlap. Postgres lets them, at its default isolation: neither `delete` sees the row that the
-- other transaction has not committed.
use crew_link.Base.{
  ℕ, ℤ, String, false, [], ◌∷◌, ◌++◌, ◌==◌, ◌≡◌, ◌≢◌, refl, sym, ap, ◌∙◌, In, inl, In-append_left,
  In-append_right, eq_iff,
}
use mathlib.Core.Option
use crew_link.Db.{Vehicle, Tables}
use crew_link.Db.Rows.{In-exists}
use crew_link.Db.Query.{
  Query, Answer, ok, then_query, then_query-ok, transaction, write, return, ◌>>=◌, ◌>>◌,
}
use crew_link.Db.Sql.{insert_vehicle, delete_vehicles, has_vehicle}
use crew_link.Vehicles.{
  VehicleApiPayload, SetVehicleInput, to_api, new_vehicle, insert_mods, set_user_vehicle,
}
use crew_link.Vehicles.RoundTrip.{insert_mods-ok, insert_vehicle-ok, with_mods, return-ok}

-- A call, with the ids that Postgres draws for its rows.
pub record Put : Type 0 where
  pub uuid : String
  pub uuids : ℕ → String
  pub now : ℤ
  pub input : SetVehicleInput

module _ (user_id : String) where
  -- The first statement of the transaction, and the others.
  unfoldable pub clear_vehicle : Query (Unit {0})
  clear_vehicle = write (delete_vehicles (λ v. v.user_id == user_id))

  unfoldable pub put_vehicle : Put → Query VehicleApiPayload
  put_vehicle a = do
    insert_vehicle (new_vehicle a.uuid a.now user_id a.input)
    inserted_mods ← insert_mods a.uuids 0 a.now a.uuid (Option.get_or a.input.mods [])
    return (to_api (new_vehicle a.uuid a.now user_id a.input) inserted_mods)

  -- The transaction is these statements.
  pub set_user_vehicle_lem :
      (a : Put) (t : Tables)
      → set_user_vehicle a.uuid a.uuids a.now user_id a.input t
        ≡ transaction (clear_vehicle >> put_vehicle a) t
  unfolding set_user_vehicle clear_vehicle put_vehicle
  set_user_vehicle_lem a t = refl

  -- Both transactions delete before either has committed its insert.
  unfoldable pub overlapped : Put → Put → Query (VehicleApiPayload × VehicleApiPayload)
  unfolding clear_vehicle put_vehicle
  overlapped a b = do
    clear_vehicle
    clear_vehicle
    p ← put_vehicle a
    q ← put_vehicle b
    return (p, q)

  pub put_vehicle-ok :
      (a : Put) (t after : Tables) (p : VehicleApiPayload)
      → put_vehicle a t ≡ (ok p, after)
      → (after.vehicles ≡ t.vehicles ++ new_vehicle a.uuid a.now user_id a.input ∷ [])
        × (has_vehicle a.uuid t ≡ false)
        × (p.id ≡ a.uuid)
  unfolding put_vehicle new_vehicle to_api
  put_vehicle-ok a t after p e =
      let v : Vehicle = new_vehicle a.uuid a.now user_id a.input in
      let (_, t1, i, rest) =
        then_query-ok (insert_vehicle v t)
          (λ _ s.
            then_query (insert_mods a.uuids 0 a.now a.uuid (Option.get_or a.input.mods []) s)
              (λ mods. return (to_api v mods)))
          p after e in
      let (mods, t2, c, d) =
        then_query-ok (insert_mods a.uuids 0 a.now a.uuid (Option.get_or a.input.mods []) t1)
          (λ mods. return (to_api v mods)) p after rest in
      let (w, free) = insert_vehicle-ok v t t1 i in
      let (rows, w', l, k, q) =
        insert_mods-ok a.uuids 0 a.now a.uuid (Option.get_or a.input.mods []) t1 t2 mods c in
      let same : t2 ≡ after = ap (λ (r : Answer VehicleApiPayload × Tables). r.1) d in
      (
        ap (λ (s : Tables). s.vehicles) (sym same ∙ w' ∙ ap (λ s. with_mods s rows) w),
        free,
        ap (λ (x : VehicleApiPayload). x.id) (sym (return-ok (to_api v mods) p t2 after d)),
      )

  abbrev pub HasVehicle : Tables → String → Type 0
  HasVehicle t id = (v : Vehicle) × In v t.vehicles × (v.user_id ≡ user_id) × (v.id ≡ id)

  -- The row of an insert is there, and stays there under the next one.
  put_vehicle-HasVehicle :
      (a : Put) (t after : Tables) (p : VehicleApiPayload)
      → put_vehicle a t ≡ (ok p, after)
      → HasVehicle after p.id
  unfolding new_vehicle
  put_vehicle-HasVehicle a t after p e =
      let (rows, free, named) = put_vehicle-ok a t after p e in
      let v : Vehicle = new_vehicle a.uuid a.now user_id a.input in
      (v, rw rows (In-append_right v t.vehicles (v ∷ []) (inl refl)), refl, sym named)

  put_vehicle-HasVehicle_kept :
      (a : Put) (t after : Tables) (p : VehicleApiPayload) (id : String)
      → put_vehicle a t ≡ (ok p, after)
      → HasVehicle t id
      → HasVehicle after id × (id ≢ p.id)
  unfolding has_vehicle
  put_vehicle-HasVehicle_kept a t after p id e (v, i, own, named) =
      let (rows, free, drawn) = put_vehicle-ok a t after p e in
      (
        (
          v,
          rw rows (In-append_left v t.vehicles (new_vehicle a.uuid a.now user_id a.input ∷ []) i),
          own,
          named,
        ),
        λ same.
            let taken =
              In-exists (λ (w : Vehicle). w.id == a.uuid) t.vehicles v i
                ((eq_iff v.id a.uuid).1 (named ∙ (same ∙ drawn))) in
            cc,
      )

  -- Where both calls succeed, the user has two vehicles: that of each answer.
  pub overlapped-HasVehicle :
      (a b : Put) (t after : Tables) (p q : VehicleApiPayload)
      → overlapped a b t ≡ (ok (p, q), after)
      → HasVehicle after p.id × HasVehicle after q.id × (p.id ≢ q.id)
  unfolding overlapped clear_vehicle
  overlapped-HasVehicle a b t after p q e =
      let cleared : Tables =
        delete_vehicles (λ v. v.user_id == user_id)
          (delete_vehicles (λ v. v.user_id == user_id) t) in
      let (p', t1, put_a, rest) =
        then_query-ok (put_vehicle a cleared)
          (λ p s. then_query (put_vehicle b s) (λ q. return (p, q))) (p, q) after e in
      let (q', t2, put_b, last) =
        then_query-ok (put_vehicle b t1) (λ q. return (p', q)) (p, q) after rest in
      let there = put_vehicle-HasVehicle a cleared t1 p' put_a in
      let (still, apart) = put_vehicle-HasVehicle_kept b t1 t2 q' p'.id put_b there in
      let both = return-ok (p', q') (p, q) t2 after last in
      let same : t2 ≡ after =
        ap (λ (r : Answer (VehicleApiPayload × VehicleApiPayload) × Tables). r.1) last in
      let is_p : p' ≡ p = ap (λ (x : VehicleApiPayload × VehicleApiPayload). x.0) both in
      let is_q : q' ≡ q = ap (λ (x : VehicleApiPayload × VehicleApiPayload). x.1) both in
      rw (sym is_p, sym is_q, sym same) (still, put_vehicle-HasVehicle b t1 t2 q' put_b, apart)
