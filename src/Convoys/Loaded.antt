-- ===== src/Convoys/Loaded.antt =====
-- backend/src/services/convoys.ts: `loadConvoyPayload` as one value for a convoy that is found.
use crew_link.Base.{ℤ, String, none, some, map, keep, [], ◌==◌, ◌≡◌, refl, Option-cases, inl, inr}
use crew_link.Db.{Convoy, Tables}
use crew_link.Db.Rows.{exists}
use crew_link.Db.Query.{ok, err, internal}
use crew_link.Vehicles.{group_mods, load_mods_by_vehicle_id}
use crew_link.Convoys.{
  ConvoyApiPayload, convoy_payload, find_convoy, member_rows, member_payload, vehicle_ids,
  load_convoy_payload,
}

abbrev pub loaded : (ℤ → String) → String → Convoy → Tables → ConvoyApiPayload
loaded iso id c t =
    let rows = member_rows id t in
    convoy_payload iso c (
      map
        (member_payload (
          group_mods []
            (keep (λ m. exists (λ i. i == m.vehicle_id) (vehicle_ids rows)) t.vehicle_mods)))
        rows)

pub load_convoy_payload-some :
    (iso : ℤ → String) (id : String) (t : Tables) (c : Convoy)
    → find_convoy id t ≡ some c
    → load_convoy_payload iso id t ≡ (ok (loaded iso id c t), t)
unfolding load_convoy_payload load_mods_by_vehicle_id
load_convoy_payload-some iso id t c e = rw e refl

pub load_convoy_payload-none :
    (iso : ℤ → String) (id : String) (t : Tables)
    → find_convoy id t ≡ none
    → load_convoy_payload iso id t ≡ (err internal, t)
unfolding load_convoy_payload
load_convoy_payload-none iso id t e = rw e refl

-- A payload is that of the convoy that is found.
pub load_convoy_payload-ok :
    (iso : ℤ → String) (id : String) (t after : Tables) (p : ConvoyApiPayload)
    → load_convoy_payload iso id t ≡ (ok p, after)
    → (c : Convoy) × (find_convoy id t ≡ some c) × (p ≡ loaded iso id c t) × (after ≡ t)
load_convoy_payload-ok iso id t after p e = elim (Option-cases (find_convoy id t)) [
  | inl n ↦ let f = rw (load_convoy_payload-none iso id t n) at e in cc
  | inr (c, s) ↦ let f = rw (load_convoy_payload-some iso id t c s) at e in (c, s, cc, cc)
]
