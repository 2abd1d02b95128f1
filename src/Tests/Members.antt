-- ===== src/Tests/Members.antt =====
-- Runs of the services on the small database.
use crew_link.Base.{
  Option, ℤ, pos, String, none, some, [], All, In, ◌≡◌, ◌≢◌, ◌⊎◌, ◌↔◌, inl, refl, arith, true,
  false, ◌==◌, eq_iff, map, if◌then◌else◌,
}
use crew_link.Number.{round}
use crew_link.Db.{User, ConvoyMember, Convoy, Tables, owner}
use crew_link.Db.Query.{Answer, ok, err, Error, invalid_uuid}
use crew_link.Auth.{dev_token_verifier, resolve_member, is_leader, get_or_create_user}
use crew_link.Auth.Resolvers.{IsMember, IsMembership, HasUniqueRows, is_leader_iff}
use crew_link.Auth.Left.{resolve_member-leave_convoy}
use crew_link.Auth.Upsert.{HasProfile, others, get_or_create_user-HasProfile}
use crew_link.Vehicles.{load_mods_by_vehicle_id}
use crew_link.Convoys.{
  Destination, convoy_payload, rejoin, ConvoyApiPayload, ConvoyMemberApiPayload, leave_convoy,
  join_convoy, create_convoy, load_convoy_payload, find_convoy,
}
use crew_link.Convoys.Loaded.{loaded, load_convoy_payload-some}
use crew_link.Db.Sql.{has_user, has_convoy}
use crew_link.Db.Rows.{first, exists}
use crew_link.Convoys.Seats.{HoldsSeat}
use crew_link.Convoys.Joined.{HasUniqueIds, join_convoy-HoldsSeat_iff}
use crew_link.Convoys.Answered.{join_convoy-answers}
use crew_link.Convoys.Created.{with_created, create_convoy-cases}
use crew_link.Convoys.Guarded.{RefersToConvoys}
use crew_link.Convoys.Owner.{placed}
use crew_link.Convoys.Members.{load_convoy_payload-members_iff}
use crew_link.Routes.{
  Reply, convoy, safe_parse, patch_body_schema, get_convoy, patch_convoy, problem_reply,
}
use crew_link.Routes.Shown.{Shows, get_convoy-cases}
use crew_link.Routes.Patch.{patch_convoy-cases}
use crew_link.Users.{delete_user_account}
use crew_link.Users.Erased.{RefersToUsers, HasNothingOf, delete_user_account-HasNothingOf}
use crew_link.Tests.Tables.{
  unique_two, ann, bob, tour_convoy, ann_seat, bob_seat, tables, tables_left, bob_token, bob_leaves,
  bob_joins, ann_drives_to, bob_creates, iso, uuid_of,
}

apart : {s r : String} → (s == r) ≡ false → s ≢ r
apart {s} {r} e h = ground (arith, eq_iff s r)

resolve_member-leave_convoy_example :
    resolve_member dev_token_verifier "bob" "c1" (leave_convoy (pos 9) bob_leaves tables).1
    ≢ some "bob"
resolve_member-leave_convoy_example =
    resolve_member-leave_convoy dev_token_verifier "bob" "bob" (pos 9) bob_leaves tables
      (λ e. elim (apart refl e) [ ], (λ e. refl, tt))

tables-HasUniqueRows : HasUniqueRows tables
unfolding HasUniqueRows
tables-HasUniqueRows = (
  λ u w. unique_two (λ u. u.apple_user_id) ann bob u w (apart refl),
  λ m n i j _. unique_two (λ m. m.user_id) ann_seat bob_seat m n (apart refl) i j,
)

is_leader_iff_example :
    (is_leader "ann" "c1" tables ≡ true)
    ↔ ((m : ConvoyMember) × (u : User) × IsMembership "c1" "ann" tables m u × (m.role ≡ owner))
is_leader_iff_example = is_leader_iff "ann" "c1" tables tables-HasUniqueRows

tables_left-HasUniqueIds : HasUniqueIds tables_left
unfolding HasUniqueIds
tables_left-HasUniqueIds m n =
    unique_two (λ m. m.id) ann_seat (record bob_seat { left_at = some (pos 7) }) m n (apart refl)

abbrev joined : Tables
joined = (join_convoy iso "m9" (pos 9) bob_joins tables_left).1

abbrev payload_or : Answer ConvoyApiPayload → ConvoyApiPayload → ConvoyApiPayload
payload_or (ok p) q = p
payload_or (err e) q = q

abbrev no_payload : ConvoyApiPayload
no_payload = convoy_payload iso tour_convoy []

abbrev joined_payload : ConvoyApiPayload
joined_payload = payload_or (join_convoy iso "m9" (pos 9) bob_joins tables_left).0 no_payload

bob_rejoins : join_convoy iso "m9" (pos 9) bob_joins tables_left ≡ (ok joined_payload, joined)
unfolding join_convoy first rejoin load_convoy_payload find_convoy load_mods_by_vehicle_id
bob_rejoins = refl

join_convoy-HoldsSeat_iff_example :
    (convoy : Convoy) × In convoy tables_left.convoys
    × (convoy.invite_code ≡ "K7")
    × (joined_payload.id ≡ convoy.id)
    × ((c k : String)
        → HoldsSeat c k joined ↔ (HoldsSeat c k tables_left ⊎ ((c ≡ convoy.id) × (k ≡ "u2"))))
join_convoy-HoldsSeat_iff_example =
    join_convoy-HoldsSeat_iff iso "m9" (pos 9) bob_joins tables_left joined joined_payload
      tables_left-HasUniqueIds bob_rejoins

tables_left-fresh : All (λ m. m.id ≢ "m9") tables_left.convoy_members
tables_left-fresh = (apart refl, (apart refl, tt))

bob_known : has_user "u2" tables_left ≡ true
unfolding has_user exists
bob_known = refl

join_convoy-answers_example :
    (p : ConvoyApiPayload) × (after : Tables) × (join_convoy iso "m9" (pos 9) bob_joins tables_left
      ≡ (ok p, after))
join_convoy-answers_example =
    join_convoy-answers iso "m9" (pos 9) bob_joins tables_left tour_convoy bob_known
      tables_left-fresh (inl refl) refl

tables-RefersToUsers : RefersToUsers tables
unfolding RefersToUsers has_user exists
tables-RefersToUsers = ((refl, (refl, tt)), (refl, tt))

delete_user_account-HasNothingOf_example :
    (after : Tables) × (delete_user_account "u1" tables ≡ (ok tt, after)) × HasNothingOf "u1" after
delete_user_account-HasNothingOf_example =
    delete_user_account-HasNothingOf "u1" tables tables-RefersToUsers

tables-RefersToConvoys : RefersToConvoys tables
unfolding RefersToConvoys has_convoy exists
tables-RefersToConvoys = (refl, (refl, tt))

get_convoy-cases_example :
    ((uuid_of "c1" ≡ none) × (get_convoy iso uuid_of "u2" "c1" tables ≡ (err invalid_uuid, tables)))
    ⊎ ((id : String) × (uuid_of "c1" ≡ some id)
        × ((HoldsSeat id "u2" tables
              × ((d : Convoy) × (p : ConvoyApiPayload) × In d tables.convoys
                  × (d.id ≡ id)
                  × (get_convoy iso uuid_of "u2" "c1" tables
                      ≡ (ok (record { code = 200; body = convoy p }), tables))
                  × Shows iso tables d p))
            ⊎ ((HoldsSeat id "u2" tables → ⊥)
                × (get_convoy iso uuid_of "u2" "c1" tables
                    ≡ (ok (problem_reply 404 "convoy not found"), tables)))))
get_convoy-cases_example = get_convoy-cases iso uuid_of "u2" "c1" tables tables-RefersToConvoys

create_convoy-cases_example :
    ((e : Error) × (create_convoy iso "c2" "m9" "K8" (pos 9) bob_creates tables ≡ (err e, tables)))
    ⊎ ((threshold : ℤ) × (p : ConvoyApiPayload) × (round bob_creates.proximity_warning_meters
          ≡ some threshold)
        × (create_convoy iso "c2" "m9" "K8" (pos 9) bob_creates tables
            ≡ (ok p, with_created "c2" "m9" "K8" threshold (pos 9) bob_creates tables))
        × (p.id ≡ "c2"))
create_convoy-cases_example = create_convoy-cases iso "c2" "m9" "K8" (pos 9) bob_creates tables

tour_found : find_convoy "c1" tables ≡ some tour_convoy
unfolding find_convoy first
tour_found = refl

load_convoy_payload-members_iff_example :
    ((q : ConvoyMemberApiPayload) × In q (loaded iso "c1" tour_convoy tables).members
      × (q.id ≡ "bob"))
    ↔ IsMember "c1" "bob" tables
load_convoy_payload-members_iff_example =
    load_convoy_payload-members_iff iso "c1" "bob" tables tables
      (loaded iso "c1" tour_convoy tables)
      (load_convoy_payload-some iso "c1" tables tour_convoy tour_found)

get_or_create_user-HasProfile_example :
    (u : User) × (after : Tables) × (get_or_create_user "u9" (pos 9) bob_token tables
      ≡ (ok u, after))
    × HasProfile bob_token u
    × In u after.users
    × (others "bob" after.users ≡ others "bob" tables.users)
get_or_create_user-HasProfile_example =
    get_or_create_user-HasProfile "u9" (pos 9) bob_token tables (apart refl, (apart refl, tt))

abbrev body : Option (Option Destination)
body = some ann_drives_to.destination

abbrev answer_to_ann : Answer Reply × Tables
answer_to_ann = patch_convoy iso uuid_of "u1" "c1" body tables

patch_convoy-cases_example :
    ((safe_parse patch_body_schema body ≡ none)
      × (answer_to_ann ≡ (ok (problem_reply 400 "invalid body"), tables)))
    ⊎ ((d : Option Destination) × (body ≡ some d)
        × (patch_body_schema d ≡ true)
        × (((uuid_of "c1" ≡ none) × (answer_to_ann ≡ (err invalid_uuid, tables)))
            ⊎ ((id : String) × (uuid_of "c1" ≡ some id)
                × (((find_convoy id tables ≡ none)
                      × (answer_to_ann ≡ (ok (problem_reply 404 "convoy not found"), tables)))
                    ⊎ ((c : Convoy) × (find_convoy id tables ≡ some c)
                        × (((c.owner_user_id ≢ "u1")
                              × (answer_to_ann
                                  ≡ (ok (problem_reply 403 "not the convoy owner"), tables)))
                            ⊎ ((c.owner_user_id ≡ "u1")
                                × ((p : ConvoyApiPayload) × (answer_to_ann ≡ (
                                  ok (record { code = 200; body = convoy p }),
                                  record tables {
                                    convoys =
                                        map
                                          (λ x. if x.id == id then placed d x else x)
                                          tables.convoys;
                                  },
                                ))
                                    × (p.destination ≡ d)))))))))
patch_convoy-cases_example = patch_convoy-cases iso uuid_of "u1" "c1" body tables
