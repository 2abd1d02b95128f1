-- ===== src/Routes/Patch.antt =====
-- backend/src/routes/convoys.ts: the answers to a change of the destination.
use crew_link.Base.{
  ℤ, String, Bool, true, Option, none, some, Option-cases, Bool-cases, ◌≡◌, ◌≢◌, ◌⊎◌, inl, inr,
  refl, map, ◌==◌, if◌then◌else◌,
}
use crew_link.Db.{Convoy, Tables}
use crew_link.Db.Query.{Uuid, ok, err, invalid_uuid}
use crew_link.Convoys.{Destination, ConvoyApiPayload, SetConvoyDestinationInput, find_convoy}
use crew_link.Convoys.Owner.{placed, set_convoy_destination-cases}
use crew_link.Routes.{
  safe_parse, patch_body_schema, patch_convoy, caught_by_patch, convoy, ok_reply, problem_reply,
}

-- What a body that passes satisfies.
safe_parse-some :
    {A : Type 0} (test : A → Bool) (o : Option A) (a : A)
    → safe_parse test o ≡ some a
    → (o ≡ some a) × (test a ≡ true)
unfolding safe_parse
safe_parse-some test none a e = cc
safe_parse-some test (some b) a e = elim (Bool-cases (test b)) [
  | inl h ↦ let f = rw h at e in (f, cc)
  | inr h ↦ let f = rw h at e in cc
]

abbrev input_of : String → String → Option Destination → SetConvoyDestinationInput
input_of user_id convoy_id d = record { user_id = user_id; convoy_id = convoy_id; destination = d }

-- A change of the destination answers 400 to a body outside the schema. With a body within it, a
-- convoy id that is no UUID fails the query, an unknown convoy is answered 404 and a user who is
-- not its owner 403, each with the tables as they were; the owner is answered 200 with the new
-- destination, and of all columns of all rows the destination of that convoy alone is written.
pub patch_convoy-cases :
    (iso : ℤ → String) (uuid_of : String → Option Uuid) (user_id convoy_id : String)
    (shape : Option (Option Destination)) (t : Tables)
    → ((safe_parse patch_body_schema shape ≡ none)
        × (patch_convoy iso uuid_of user_id convoy_id shape t
            ≡ (ok (problem_reply 400 "invalid body"), t)))
      ⊎ ((d : Option Destination) × (shape ≡ some d)
          × (patch_body_schema d ≡ true)
          × (((uuid_of convoy_id ≡ none)
                × (patch_convoy iso uuid_of user_id convoy_id shape t ≡ (err invalid_uuid, t)))
              ⊎ ((id : Uuid) × (uuid_of convoy_id ≡ some id)
                  × (((find_convoy id t ≡ none)
                        × (patch_convoy iso uuid_of user_id convoy_id shape t
                            ≡ (ok (problem_reply 404 "convoy not found"), t)))
                      ⊎ ((c : Convoy) × (find_convoy id t ≡ some c)
                          × (((c.owner_user_id ≢ user_id)
                                × (patch_convoy iso uuid_of user_id convoy_id shape t
                                    ≡ (ok (problem_reply 403 "not the convoy owner"), t)))
                              ⊎ ((c.owner_user_id ≡ user_id)
                                  × ((p : ConvoyApiPayload) × (patch_convoy iso uuid_of user_id
                                          convoy_id shape t
                                        ≡ (
                                          ok (record { code = 200; body = convoy p }),
                                          record t {
                                            convoys =
                                                map
                                                  (λ x. if x.id == id then placed d x else x)
                                                  t.convoys;
                                          },
                                        ))
                                      × (p.destination ≡ d)))))))))
unfolding patch_convoy caught_by_patch ok_reply
patch_convoy-cases iso uuid_of user_id convoy_id shape t =
    elim (Option-cases (safe_parse patch_body_schema shape)) [
      | inl n ↦ inl (n, rw (n, patch_convoy) refl)
      | inr (d, e) ↦
          let (s, b) = safe_parse-some patch_body_schema shape d e in
          inr (
            d,
            s,
            b,
            elim (Option-cases (uuid_of convoy_id)) [
              | inl u ↦ inl (u, rw (e, u, patch_convoy) refl)
              | inr (id, u) ↦ inr (
                id,
                u,
                elim (set_convoy_destination-cases iso (input_of user_id id d) t) [
                  | inl (f, r) ↦ inl (f, rw (e, u, r, patch_convoy) refl)
                  | inr (c, f, inl (n, r)) ↦ inr (c, f, inl (n, rw (e, u, r, patch_convoy) refl))
                  | inr (c, f, inr (o, (p, r, q))) ↦
                      inr (c, f, inr (o, (p, rw (e, u, r, patch_convoy) refl, q)))
                ],
              )
            ],
          )
    ]
