-- ===== src/Positions/Shown.antt =====
-- backend/src/realtime/position_store.ts: what a replay shows of a saved position.
use crew_link.Base.{
  ℤ, String, Option, some, List, [], ◌∷◌, keep, In, keep-In, ◌==◌, ◌≡◌, ◌≢◌, inl, inr, refl, arith,
  eq_iff, eq_refl, ◌&&◌,
}
use crew_link.Promise.{fulfilled}
use crew_link.Wire.{GpsPayload}
use crew_link.Db.{User, Point, ConvoyMember, Tables}
use crew_link.Db.Rows.{In-exists, update_where, inner_join}
use crew_link.Db.Joins.{inner_join-In, update_where-In_changed}
use crew_link.Auth.Resolvers.{IsMembership}
use crew_link.Positions.Database.{
  is_position_row, with_position, is_placed, save, point_frame, snapshot_of, load_snapshot,
}

abbrev point_of : GpsPayload → Point
point_of gps = record { longitude = gps.longitude; latitude = gps.latitude }

module _ (date_parse : String → Option ℤ) (iso : ℤ → String) (now : ℤ) where
  In-snapshot_of :
      (exclude : String) (rows : List (ConvoyMember × User)) (m : ConvoyMember) (u : User)
      (p : Point)
      → In (m, u) rows
      → u.apple_user_id ≢ exclude
      → m.last_known_position ≡ some p
      → In (point_frame date_parse iso now m u p) (snapshot_of date_parse iso now exclude rows)
  unfolding snapshot_of
  In-snapshot_of exclude [] m u p i n e = elim i [ ]
  In-snapshot_of exclude ((m', u') ∷ rows) m u p (inl i) n e =
      ground (arith, eq_iff u.apple_user_id exclude)
  In-snapshot_of exclude ((m', u') ∷ rows) m u p (inr i) n e =
      ground (arith, In-snapshot_of exclude rows m u p i n e)

  -- A current member's position with a valid date is saved, and what another member's replay
  -- shows then has that position, under the member's id and with that date.
  pub load_snapshot-save :
      (t : Tables) (c uid exclude : String) (gps : GpsPayload) (at : ℤ) (m : ConvoyMember)
      (u : User)
      → IsMembership c uid t m u
      → uid ≢ exclude
      → date_parse gps.timestamp ≡ some at
      → (after : Tables) × (ps : List GpsPayload) × (p : GpsPayload) × (save date_parse iso now t c
            uid gps
          ≡ (after, fulfilled tt))
        × (load_snapshot date_parse iso now after c exclude ≡ fulfilled ps)
        × In p ps
        × (p.member_id ≡ uid)
        × (p.latitude ≡ gps.latitude)
        × (p.longitude ≡ gps.longitude)
        × (p.timestamp ≡ iso at)
  unfolding save load_snapshot IsMembership is_position_row is_placed with_position point_frame
  load_snapshot-save t c uid exclude gps at m u (i, j, ec, eu, ea, el) n d =
      let placed = with_position (point_of gps) at m in
      let rows =
        update_where (is_position_row t c uid) (with_position (point_of gps) at) t.convoy_members in
      let found =
        In-exists (λ u. u.apple_user_id == uid && u.id == m.user_id) t.users u j
          (rw (ea, eu, eq_refl uid, eq_refl u.id) refl) in
      let k =
        update_where-In_changed (is_position_row t c uid) (with_position (point_of gps) at)
          t.convoy_members m i (rw (ec, found, el, eq_refl c) refl) in
      let l =
        inner_join-In (λ m u. m.user_id == u.id) (keep (is_placed c) rows) t.users placed u
          (keep-In (is_placed c) rows placed k (rw (ec, el, eq_refl c) refl)) j
          (rw eu (eq_refl u.id)) in
      (
        record t { convoy_members = rows },
        snapshot_of date_parse iso now exclude
            (inner_join (λ m u. m.user_id == u.id) (keep (is_placed c) rows) t.users),
        point_frame date_parse iso now placed u (point_of gps),
        rw (d, save) refl,
        refl,
        In-snapshot_of exclude
            (inner_join (λ m u. m.user_id == u.id) (keep (is_placed c) rows) t.users) placed u
            (point_of gps) l (rw ea n) refl,
        ea,
        refl,
        refl,
        refl,
      )
