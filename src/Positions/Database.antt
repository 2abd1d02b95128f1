-- ===== src/Positions/Database.antt =====
-- backend/src/realtime/position_store.ts, `createDbPositionStore`. `date_parse` and `iso` are
-- `Date.parse` and `toISOString`, `now` is the clock.
use crew_link.Base.{
  ℤ, String, Bool, Option, none, some, List, [], ◌∷◌, keep, ◌==◌, ◌&&◌, not, if◌then◌else◌, In, ◌≡◌,
  ◌≢◌, arith, eq_iff,
}
use mathlib.Core.Option
use crew_link.Number.{integer}
use crew_link.Promise.{Promise, fulfilled, rejected}
use crew_link.Wire.{GpsPayload}
use crew_link.Db.{User, Point, ConvoyMember, Tables}
use crew_link.Db.Rows.{exists, update_where, inner_join, is_null}
use crew_link.Positions.{PositionStore}

-- The current rows of a convoy whose user has the external id.
unfoldable pub is_position_row : Tables → String → String → ConvoyMember → Bool
is_position_row t convoy_id member_id m =
    m.convoy_id == convoy_id
    && exists (λ u. u.apple_user_id == member_id && u.id == m.user_id) t.users
    && is_null m.left_at

unfoldable pub with_position : Point → ℤ → ConvoyMember → ConvoyMember
with_position p at m = record m { last_known_position = some p; last_position_at = some at }

unfoldable pub is_placed : String → ConvoyMember → Bool
is_placed convoy_id m =
    m.convoy_id == convoy_id && is_null m.left_at && not (is_null m.last_known_position)

module _ (date_parse : String → Option ℤ) (iso : ℤ → String) (now : ℤ) where
  -- An invalid date throws before the statement is sent.
  unfoldable pub save : Tables → String → String → GpsPayload → Tables × Promise (Unit {0})
  save t convoy_id member_id gps = elim (date_parse gps.timestamp) [
    | none ↦ (t, rejected)
    | some at ↦ (
      record t {
        convoy_members =
            update_where (is_position_row t convoy_id member_id)
              (with_position (record { longitude = gps.longitude; latitude = gps.latitude }) at)
              t.convoy_members;
      },
      fulfilled tt,
    )
  ]

  unfoldable pub point_frame : ConvoyMember → User → Point → GpsPayload
  point_frame m u p = record {
    member_id = u.apple_user_id;
    latitude = p.latitude;
    longitude = p.longitude;
    heading = integer 0;
    speed = integer 0;
    timestamp = iso (Option.get_or m.last_position_at now);
    accuracy = none;
  }

  -- The loop over the rows.
  unfoldable pub snapshot_of : String → List (ConvoyMember × User) → List GpsPayload
  snapshot_of exclude [] = []
  snapshot_of exclude ((m, u) ∷ rows) =
      let rest = snapshot_of exclude rows in
      if u.apple_user_id == exclude
      then rest
      else elim m.last_known_position [ none ↦ rest | some p ↦ point_frame m u p ∷ rest ]

  unfoldable pub load_snapshot : Tables → String → String → Promise (List GpsPayload)
  load_snapshot t convoy_id exclude = fulfilled (
      snapshot_of exclude (
        inner_join (λ m u. m.user_id == u.id) (keep (is_placed convoy_id) t.convoy_members)
          t.users))

  snapshot_of-others :
      (exclude : String) (rows : List (ConvoyMember × User)) (p : GpsPayload)
      → In p (snapshot_of exclude rows)
      → p.member_id ≢ exclude
  unfolding snapshot_of point_frame
  snapshot_of-others exclude [] p i = elim i [ ]
  snapshot_of-others exclude ((m, u) ∷ rows) p i =
      ground (arith, snapshot_of-others exclude rows p, eq_iff u.apple_user_id exclude)

  pub load_snapshot-others :
      (t : Tables) (c exclude : String) {ps : List GpsPayload} (p : GpsPayload)
      → load_snapshot t c exclude ≡ fulfilled ps
      → In p ps
      → p.member_id ≢ exclude
  unfolding load_snapshot
  load_snapshot-others t c exclude {ps} p e i = ground (
    arith,
    snapshot_of-others exclude
        (inner_join (λ m u. m.user_id == u.id) (keep (is_placed c) t.convoy_members) t.users) p,
  )

  abbrev pub db_position_store : PositionStore
  db_position_store = record {
    State = Tables;
    save = save;
    load_snapshot = load_snapshot;
    load_snapshot-others = load_snapshot-others;
  }
