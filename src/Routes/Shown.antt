-- ===== src/Routes/Shown.antt =====
-- backend/src/routes/convoys.ts: who is shown a convoy, and what of it.
use crew_link.Base.{ℤ, String, Option, none, some, In, Option-cases, ◌≡◌, ◌↔◌, ◌⊎◌, inl, inr, refl}
use crew_link.Number.{Number}
use crew_link.Auth.Resolvers.{IsMember}
use crew_link.Db.{Convoy, Tables}
use crew_link.Db.Query.{Uuid, ok, err, invalid_uuid}
use crew_link.Convoys.{
  Destination, ConvoyApiPayload, ConvoyMemberApiPayload, convoy_payload, destination_of,
}
use crew_link.Convoys.Guarded.{RefersToConvoys, get_convoy_for_member-cases}
use crew_link.Convoys.Loaded.{loaded}
use crew_link.Convoys.Members.{load_convoy_payload-members_iff}
use crew_link.Convoys.Seats.{HoldsSeat}
use crew_link.Routes.{get_convoy, caught_by_get, convoy, problem_reply, ok_reply}

-- The destination of a row: where both coordinates are set, these and the label.
abbrev pub ShowsDestination : Convoy → Option Destination → Type 0
ShowsDestination d shown =
    ((lat lng : Number)
      → d.destination_lat ≡ some lat
      → d.destination_lng ≡ some lng
      → shown ≡ some (record { lat = lat; lng = lng; label = d.destination_label }))
    × (((d.destination_lat ≡ none) ⊎ (d.destination_lng ≡ none)) → shown ≡ none)

-- A payload has the columns of a convoy's row, and the external ids of its current members.
abbrev pub Shows : (ℤ → String) → Tables → Convoy → ConvoyApiPayload → Type 0
Shows iso t d p =
    (p.id ≡ d.id)
    × (p.name ≡ d.name)
    × (p.invite_code ≡ d.invite_code)
    × (p.proximity_warning_meters ≡ d.proximity_threshold_m)
    × (p.status ≡ d.status)
    × (p.created_at ≡ iso d.created_at)
    × ShowsDestination d p.destination
    × ((uid : String)
        → ((q : ConvoyMemberApiPayload) × In q p.members × (q.id ≡ uid)) ↔ IsMember d.id uid t)

destination_of-ShowsDestination : (d : Convoy) → ShowsDestination d (destination_of d)
unfolding destination_of
destination_of-ShowsDestination d = (
  λ lat lng e f. rw (e, f) refl,
  λ h. elim h [
    | inl e ↦ rw e refl
    | inr e ↦ elim (Option-cases d.destination_lat) [
      | inl n ↦ rw n refl
      | inr (lat, n) ↦ rw (n, e) refl
    ]
  ],
)

-- Where memberships refer to convoys, a convoy id that is no UUID fails the query; a current member
-- is answered 200 with the columns of the convoy's row and the external ids of its current members
-- and no others, and everyone else 404; nothing is written.
pub get_convoy-cases :
    (iso : ℤ → String) (uuid_of : String → Option Uuid) (k c : String) (t : Tables)
    → RefersToConvoys t
    → ((uuid_of c ≡ none) × (get_convoy iso uuid_of k c t ≡ (err invalid_uuid, t)))
      ⊎ ((id : Uuid) × (uuid_of c ≡ some id)
          × ((HoldsSeat id k t
                × ((d : Convoy) × (p : ConvoyApiPayload) × In d t.convoys
                    × (d.id ≡ id)
                    × (get_convoy iso uuid_of k c t
                        ≡ (ok (record { code = 200; body = convoy p }), t))
                    × Shows iso t d p))
              ⊎ ((HoldsSeat id k t → ⊥)
                  × (get_convoy iso uuid_of k c t
                      ≡ (ok (problem_reply 404 "convoy not found"), t)))))
unfolding get_convoy caught_by_get ok_reply convoy_payload
get_convoy-cases iso uuid_of k c t refs = elim (Option-cases (uuid_of c)) [
  | inl n ↦ inl (n, rw (n, get_convoy) refl)
  | inr (id, e) ↦ inr (
    id,
    e,
    elim (get_convoy_for_member-cases iso id k t refs) [
      | inl (seat, (d, i, same, shown, loads)) ↦ inl (
        seat,
        (
          d,
          loaded iso id d t,
          i,
          same,
          rw (e, shown, get_convoy) refl,
          (
            refl,
            refl,
            refl,
            refl,
            refl,
            refl,
            destination_of-ShowsDestination d,
            λ uid.
                rw same (load_convoy_payload-members_iff iso id uid t t (loaded iso id d t) loads),
          ),
        ),
      )
      | inr (seat, refused) ↦ inr (seat, rw (e, refused, get_convoy) refl)
    ],
  )
]
