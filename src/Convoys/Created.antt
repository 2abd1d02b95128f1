-- ===== src/Convoys/Created.antt =====
-- backend/src/services/convoys.ts: what the creation of a convoy writes.
use crew_link.Base.{
  ℤ, String, none, some, Option-cases, List, [], ◌∷◌, ◌++◌, keep, In-append_right, keep-In, ◌==◌,
  ◌≡◌, ◌⊎◌, refl, arith, eq_iff, eq_refl, inl, inr,
}
use crew_link.Number.{round}
use crew_link.Db.{ConvoyMember, Convoy, Tables, owner, lobby}
use crew_link.Db.Rows.{first, first-keep}
use crew_link.Db.Joins.{In-first}
use crew_link.Db.Query.{ok, err, Error, then_query-ok, Answer-cases}
use crew_link.Db.Sql.{insert_member, insert_convoy}
use crew_link.Convoys.{
  ConvoyApiPayload, CreateConvoyInput, create_convoy, insert_owned, new_convoy, new_member,
  find_convoy, convoy_payload,
}
use crew_link.Convoys.Loaded.{loaded, load_convoy_payload-some}

-- The rows of a new convoy and of its owner's membership, column by column.
abbrev pub created_convoy : String → String → ℤ → ℤ → CreateConvoyInput → Convoy
created_convoy uuid code threshold now input = record {
  id = uuid;
  owner_user_id = input.owner_user_id;
  name = input.name;
  invite_code = code;
  status = lobby;
  proximity_threshold_m = threshold;
  created_at = now;
  started_at = none;
  ended_at = none;
  destination_lat = none;
  destination_lng = none;
  destination_label = none;
}

abbrev pub owner_seat : String → ℤ → String → String → ConvoyMember
owner_seat uuid now convoy_id user_id = record {
  id = uuid;
  convoy_id = convoy_id;
  user_id = user_id;
  vehicle_id = none;
  role = owner;
  joined_at = now;
  left_at = none;
  last_known_position = none;
  last_position_at = none;
}

abbrev pub with_created : String → String → String → ℤ → ℤ → CreateConvoyInput → Tables → Tables
with_created uuid member_uuid code threshold now input t = record t {
  convoys = t.convoys ++ created_convoy uuid code threshold now input ∷ [];
  convoy_members = t.convoy_members ++ owner_seat member_uuid now uuid input.owner_user_id ∷ [];
}

insert_convoy-ok :
    (c : Convoy) (t after : Tables)
    → insert_convoy c t ≡ (ok tt, after)
    → after ≡ record t { convoys = t.convoys ++ c ∷ [] }
unfolding insert_convoy
insert_convoy-ok c t after e = ground arith

insert_member-ok :
    (m : ConvoyMember) (t after : Tables)
    → insert_member m t ≡ (ok tt, after)
    → after ≡ record t { convoy_members = t.convoy_members ++ m ∷ [] }
unfolding insert_member
insert_member-ok m t after e = ground arith

insert_owned-ok :
    (uuid member_uuid code : String) (now : ℤ) (input : CreateConvoyInput) (t after : Tables)
    → insert_owned uuid member_uuid code now input t ≡ (ok tt, after)
    → (threshold : ℤ) × (round input.proximity_warning_meters ≡ some threshold)
      × (after ≡ with_created uuid member_uuid code threshold now input t)
unfolding insert_owned new_convoy new_member
insert_owned-ok uuid member_uuid code now input t after e =
    elim (Option-cases (round input.proximity_warning_meters)) [
      | inl n ↦ let f = rw n at e in cc
      | inr (threshold, s) ↦
          let f = rw s at e in
          let (_, mid, a, b) =
            then_query-ok (insert_convoy (new_convoy uuid code threshold now input) t)
              (λ _. insert_member (new_member member_uuid owner now uuid input.owner_user_id)) tt
              after f in
          let g = rw (insert_convoy-ok (new_convoy uuid code threshold now input) t mid a) at b in
          (
            threshold,
            s,
            insert_member-ok (new_member member_uuid owner now uuid input.owner_user_id) _ after g,
          )
    ]

first-append :
    (id : String) (cs : List Convoy) (c : Convoy)
    → c.id ≡ id
    → (d : Convoy) × (first (keep (λ c. c.id == id) (cs ++ c ∷ [])) ≡ some d)
first-append id cs c e = In-first (keep (λ c. c.id == id) (cs ++ c ∷ [])) c (
    keep-In (λ c. c.id == id) (cs ++ c ∷ []) c (In-append_right c cs (c ∷ []) (inl refl))
      (rw e (eq_refl id)))

-- Creating a convoy either fails with the tables as they were, or adds the convoy in the lobby,
-- with the rounded warning distance and without a destination, and its owner's membership, and
-- nothing else, and answers with the payload of the new id.
pub create_convoy-cases :
    (iso : ℤ → String) (uuid member_uuid code : String) (now : ℤ) (input : CreateConvoyInput)
    (t : Tables)
    → ((e : Error) × (create_convoy iso uuid member_uuid code now input t ≡ (err e, t)))
      ⊎ ((threshold : ℤ) × (p : ConvoyApiPayload) × (round input.proximity_warning_meters
            ≡ some threshold)
          × (create_convoy iso uuid member_uuid code now input t
              ≡ (ok p, with_created uuid member_uuid code threshold now input t))
          × (p.id ≡ uuid))
unfolding create_convoy find_convoy convoy_payload new_convoy
create_convoy-cases iso uuid member_uuid code now input t =
    elim (Answer-cases (insert_owned uuid member_uuid code now input t)) [
      | inl (e, s, h) ↦ inl (e, rw h refl)
      | inr (s, h) ↦
          let (threshold, r, w) = insert_owned-ok uuid member_uuid code now input t s h in
          let (d, f) =
            first-append uuid t.convoys (new_convoy uuid code threshold now input) refl in
          let (_, id) =
            first-keep (λ c. c.id == uuid)
              (t.convoys ++ new_convoy uuid code threshold now input ∷ []) d f in
          inr (
            threshold,
            loaded iso uuid d (with_created uuid member_uuid code threshold now input t),
            r,
            rw (h, w)
                (load_convoy_payload-some iso uuid
                  (with_created uuid member_uuid code threshold now input t) d f),
            ground (arith, eq_iff d.id uuid),
          )
    ]
