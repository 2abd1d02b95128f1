-- ===== src/Convoys/Twice.antt =====
-- backend/src/services/convoys.ts: how a convoy shows a member with two vehicles.
use crew_link.Base.{
  ℤ, String, some, [], keep, In, keep-In, ◌==◌, ◌≡◌, ◌≢◌, refl, ap, eq_iff, eq_refl,
}
use mathlib.Core.Option
use crew_link.Db.{ConvoyMember, User, Vehicle, Tables}
use crew_link.Db.Rows.{exists, inner_join}
use crew_link.Db.Joins.{In-map, inner_join-In, left_join-In_match}
use crew_link.Db.Query.{ok}
use crew_link.Auth.Resolvers.{IsMembership}
use crew_link.Convoys.{
  ConvoyApiPayload, ConvoyMemberApiPayload, is_current, drives, member_rows, member_payload,
  vehicle_ids, load_convoy_payload, convoy_payload,
}
use crew_link.Convoys.Loaded.{load_convoy_payload-ok}
use crew_link.Vehicles.{VehicleApiPayload, group_mods, to_api}
use crew_link.Vehicles.Overlap.{Put, HasVehicle, overlapped, overlapped-HasVehicle}

-- The payload lists the external id with the vehicle of this id.
abbrev pub Lists : ConvoyApiPayload → String → String → Type 0
Lists p uid id =
    (q : ConvoyMemberApiPayload) × In q p.members
    × (q.id ≡ uid)
    × (Option.map (λ (v : VehicleApiPayload). v.id) q.vehicle ≡ some id)

member_rows-vehicle :
    (c uid : String) (t : Tables) (m : ConvoyMember) (u : User) (v : Vehicle)
    → IsMembership c uid t m u
    → In v t.vehicles
    → v.user_id ≡ m.user_id
    → In ((m, u), some v) (member_rows c t)
unfolding IsMembership member_rows is_current drives
member_rows-vehicle c uid t m u v (i, j, ec, eu, ea, el) k own =
    let kept = keep-In (is_current c) t.convoy_members m i (rw (ec, el, eq_refl c) refl) in
    let joined =
      inner_join-In (λ m u. m.user_id == u.id) (keep (is_current c) t.convoy_members) t.users m u
        kept j (rw eu (eq_refl u.id)) in
    left_join-In_match drives
      (inner_join (λ m u. m.user_id == u.id) (keep (is_current c) t.convoy_members) t.users)
      t.vehicles (m, u) v joined k ((eq_iff v.user_id m.user_id).1 own)

vehicle-Lists :
    (iso : ℤ → String) (c uid id : String) (t after : Tables) (p : ConvoyApiPayload)
    (m : ConvoyMember) (u : User)
    → load_convoy_payload iso c t ≡ (ok p, after)
    → IsMembership c uid t m u
    → HasVehicle m.user_id t id
    → Lists p uid id
unfolding convoy_payload member_payload IsMembership to_api
vehicle-Lists iso c uid id t after p m u e member (v, k, own, named) =
    let (d, f, l, s) = load_convoy_payload-ok iso c t after p e in
    let row = member_rows-vehicle c uid t m u v member k own in
    let (i, j, ec, eu, ea, el) = member in
    let rows = member_rows c t in
    let mods =
      group_mods []
        (keep (λ m. exists (λ i. i == m.vehicle_id) (vehicle_ids rows)) t.vehicle_mods) in
    rw l (
      member_payload mods ((m, u), some v),
      In-map (member_payload mods) ((m, u), some v) rows row,
      ea,
      ap some named,
    )

-- Two calls that set one user's vehicle both succeed with their transactions overlapping: a
-- payload of a convoy in which the user is a current member afterwards lists the user's external
-- id with the vehicle of either answer, and the two vehicles are different.
pub overlapped-Lists :
    (iso : ℤ → String) (c uid : String) (a b : Put) (t after last : Tables)
    (p q : VehicleApiPayload) (shown : ConvoyApiPayload) (m : ConvoyMember) (u : User)
    → overlapped m.user_id a b t ≡ (ok (p, q), after)
    → IsMembership c uid after m u
    → load_convoy_payload iso c after ≡ (ok shown, last)
    → Lists shown uid p.id × Lists shown uid q.id × (p.id ≢ q.id)
overlapped-Lists iso c uid a b t after last p q shown m u e member l =
    let (first, second, apart) = overlapped-HasVehicle m.user_id a b t after p q e in
    (
      vehicle-Lists iso c uid p.id after last shown m u l member first,
      vehicle-Lists iso c uid q.id after last shown m u l member second,
      apart,
    )
