-- ===== src/Convoys/Members.antt =====
-- backend/src/services/convoys.ts: who sees a convoy, and whom it shows.
use crew_link.Base.{
  ℤ, String, true, Option, none, some, List, [], keep, In, In-keep, keep-In, ◌==◌, ◌≡◌, ◌↔◌, refl,
  sym, arith, eq_iff, eq_refl,
}
use crew_link.Db.{Convoy, Tables}
use crew_link.Db.Rows.{exists, is_null, inner_join}
use crew_link.Db.Joins.{In-map, map-In, inner_join-In, In-inner_join, left_join-In, In-left_join}
use crew_link.Db.Query.{ok}
use crew_link.Convoys.{
  ConvoyApiPayload, ConvoyMemberApiPayload, is_current, drives, MemberRow, member_rows,
  member_payload, vehicle_ids, load_convoy_payload, convoy_payload,
}
use crew_link.Convoys.Loaded.{loaded, load_convoy_payload-ok}
use crew_link.JsMap.{JsMap}
use crew_link.Vehicles.{VehicleModApiPayload, group_mods}
use crew_link.Auth.Resolvers.{IsMember, IsMembership}

IsMember-member_rows :
    (c uid : String) (t : Tables)
    → IsMember c uid t
    → (r : MemberRow) × In r (member_rows c t) × (r.0.1.apple_user_id ≡ uid)
unfolding IsMember IsMembership member_rows is_current
IsMember-member_rows c uid t (m, u, (i, j, ec, eu, ea, el)) =
    let kept = keep-In (is_current c) t.convoy_members m i (rw (ec, el, eq_refl c) refl) in
    let joined =
      inner_join-In (λ m u. m.user_id == u.id) (keep (is_current c) t.convoy_members) t.users m u
        kept j (rw eu (eq_refl u.id)) in
    let (v, k) =
      left_join-In drives
        (inner_join (λ m u. m.user_id == u.id) (keep (is_current c) t.convoy_members) t.users)
        t.vehicles (m, u) joined in
    (((m, u), v), k, ea)

is_null-none : {A : Type 0} (o : Option A) → is_null o ≡ true → o ≡ none
is_null-none none e = refl
is_null-none (some x) e = cc

member_rows-IsMember :
    (c : String) (t : Tables) (r : MemberRow)
    → In r (member_rows c t)
    → IsMember c r.0.1.apple_user_id t
unfolding IsMember IsMembership member_rows is_current
member_rows-IsMember c t ((m, u), v) i =
    let j =
      In-left_join drives
        (inner_join (λ m u. m.user_id == u.id) (keep (is_current c) t.convoy_members) t.users)
        t.vehicles ((m, u), v) i in
    let (k, iu, e) =
      In-inner_join (λ m u. m.user_id == u.id) (keep (is_current c) t.convoy_members) t.users (m, u)
        j in
    let (im, f) = In-keep (is_current c) t.convoy_members m k in
    (
      m,
      u,
      (
        im,
        iu,
        ground (arith, eq_iff m.convoy_id c),
        ground (arith, eq_iff m.user_id u.id),
        refl,
        is_null-none m.left_at (ground arith),
      ),
    )

-- The payload of a convoy has the external ids of its current members and no others.
pub load_convoy_payload-members_iff :
    (iso : ℤ → String) (c uid : String) (t after : Tables) (p : ConvoyApiPayload)
    → load_convoy_payload iso c t ≡ (ok p, after)
    → ((q : ConvoyMemberApiPayload) × In q p.members × (q.id ≡ uid)) ↔ IsMember c uid t
unfolding convoy_payload member_payload
load_convoy_payload-members_iff iso c uid t after p e =
    let (d, f, l, s) = load_convoy_payload-ok iso c t after p e in rw l (shown d, hidden d)
  where
    mods : JsMap (List VehicleModApiPayload)
    mods =
        group_mods [] (
          keep (λ m. exists (λ i. i == m.vehicle_id) (vehicle_ids (member_rows c t)))
            t.vehicle_mods)

    shown :
        (d : Convoy)
        → (q : ConvoyMemberApiPayload) × In q (loaded iso c d t).members × (q.id ≡ uid)
        → IsMember c uid t
    shown d (q, i, h) =
        let (r, j, k) = map-In (member_payload mods) q (member_rows c t) i in
        rw (sym h, k) (member_rows-IsMember c t r j)

    hidden :
        (d : Convoy)
        → IsMember c uid t
        → (q : ConvoyMemberApiPayload) × In q (loaded iso c d t).members × (q.id ≡ uid)
    hidden d h =
        let (r, i, e) = IsMember-member_rows c uid t h in
        (member_payload mods r, In-map (member_payload mods) r (member_rows c t) i, e)
