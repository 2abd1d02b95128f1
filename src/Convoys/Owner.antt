-- ===== src/Convoys/Owner.antt =====
-- backend/src/services/convoys.ts: who sets a convoy's destination.
use crew_link.Base.{
  ℤ, String, true, Option, none, some, Option-cases, Bool-cases, List, [], ◌∷◌, map, keep, ◌==◌,
  ◌≡◌, if◌then◌else◌, ◌≢◌, ◌⊎◌, inl, inr, refl, arith, eq_iff,
}
use mathlib.Core.Option
use crew_link.Db.{Convoy, Tables}
use crew_link.Db.Rows.{first, update_where}
use crew_link.Db.Query.{ok, err, convoy_not_found, not_convoy_owner}
use crew_link.Convoys.Loaded.{loaded, load_convoy_payload-some}
use crew_link.Convoys.{
  Destination, ConvoyApiPayload, SetConvoyDestinationInput, find_convoy, destination_of,
  with_destination, set_convoy_destination, convoy_payload,
}

-- A convoy's row, column by column, with another destination.
abbrev pub placed : Option Destination → Convoy → Convoy
placed d c = record {
  id = c.id;
  owner_user_id = c.owner_user_id;
  name = c.name;
  invite_code = c.invite_code;
  status = c.status;
  proximity_threshold_m = c.proximity_threshold_m;
  created_at = c.created_at;
  started_at = c.started_at;
  ended_at = c.ended_at;
  destination_lat = Option.map (λ x. x.lat) d;
  destination_lng = Option.map (λ x. x.lng) d;
  destination_label = elim d [ none ↦ none | some x ↦ x.label ];
}

-- The tables with the destination of one convoy set.
abbrev pub with_set : SetConvoyDestinationInput → Tables → Tables
with_set input t = record t {
  convoys = map (λ c. if c.id == input.convoy_id then placed input.destination c else c) t.convoys;
}

with_destination-placed : (d : Option Destination) (c : Convoy) → with_destination d c ≡ placed d c
unfolding with_destination
with_destination-placed none c = refl
with_destination-placed (some d) c = refl

update_where-placed :
    (id : String) (d : Option Destination) (convoys : List Convoy)
    → update_where (λ c. c.id == id) (with_destination d) convoys
      ≡ map (λ c. if c.id == id then placed d c else c) convoys
unfolding update_where
update_where-placed id d [] = refl
update_where-placed id d (c ∷ cs) =
    rw (with_destination-placed d c, update_where-placed id d cs) refl

first-update_where :
    (id : String) (d : Option Destination) (convoys : List Convoy) (c : Convoy)
    → first (keep (λ c. c.id == id) convoys) ≡ some c
    → first (keep (λ c. c.id == id) (update_where (λ c. c.id == id) (with_destination d) convoys))
      ≡ some (with_destination d c)
unfolding first update_where with_destination
first-update_where id d [] c e = cc
first-update_where id none (x ∷ xs) c e = ground (arith, first-update_where id none xs c)
first-update_where id (some d) (x ∷ xs) c e = ground (arith, first-update_where id (some d) xs c)

destination_of-with_destination :
    (d : Option Destination) (c : Convoy) → destination_of (with_destination d c) ≡ d
unfolding destination_of with_destination
destination_of-with_destination none c = refl
destination_of-with_destination (some d) c = refl

set_by_owner :
    (iso : ℤ → String) (input : SetConvoyDestinationInput) (t : Tables) (c : Convoy)
    → find_convoy input.convoy_id t ≡ some c
    → c.owner_user_id == input.user_id ≡ true
    → (p : ConvoyApiPayload) × (set_convoy_destination iso input t ≡ (ok p, with_set input t))
      × (p.destination ≡ input.destination)
unfolding set_convoy_destination find_convoy convoy_payload
set_by_owner iso input t c e o = (
  loaded iso input.convoy_id (with_destination input.destination c) (with_set input t),
  rw (e, o, update_where-placed input.convoy_id input.destination t.convoys)
      (load_convoy_payload-some iso input.convoy_id (with_set input t)
        (with_destination input.destination c)
        (rw (update_where-placed input.convoy_id input.destination t.convoys) at
          (first-update_where input.convoy_id input.destination t.convoys c e))),
  destination_of-with_destination input.destination c,
)

-- Setting a destination: an unknown convoy, and a user who is not its owner, are refused with the
-- tables as they were; the owner's answer is the payload with the new destination, and only the
-- destination of that convoy is written.
pub set_convoy_destination-cases :
    (iso : ℤ → String) (input : SetConvoyDestinationInput) (t : Tables)
    → ((find_convoy input.convoy_id t ≡ none)
        × (set_convoy_destination iso input t ≡ (err convoy_not_found, t)))
      ⊎ ((c : Convoy) × (find_convoy input.convoy_id t ≡ some c)
          × (((c.owner_user_id ≢ input.user_id)
                × (set_convoy_destination iso input t ≡ (err not_convoy_owner, t)))
              ⊎ ((c.owner_user_id ≡ input.user_id)
                  × ((p : ConvoyApiPayload) × (set_convoy_destination iso input t
                        ≡ (ok p, with_set input t))
                      × (p.destination ≡ input.destination)))))
unfolding set_convoy_destination
set_convoy_destination-cases iso input t = elim (Option-cases (find_convoy input.convoy_id t)) [
  | inl n ↦ inl (n, rw n refl)
  | inr (c, e) ↦ inr (
    c,
    e,
    elim (Bool-cases (c.owner_user_id == input.user_id)) [
      | inl o ↦
          inr (ground (arith, eq_iff c.owner_user_id input.user_id), set_by_owner iso input t c e o)
      | inr o ↦ inl (λ h. ground (arith, eq_iff c.owner_user_id input.user_id), rw (e, o) refl)
    ],
  )
]
