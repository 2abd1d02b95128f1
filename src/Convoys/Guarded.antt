-- ===== src/Convoys/Guarded.antt =====
-- backend/src/services/convoys.ts: who gets a convoy's payload.
use crew_link.Base.{
  ℤ, String, true, some, Bool-cases, All, All-In, In, keep, keep-In, ◌==◌, ◌≡◌, ◌⊎◌, inl, inr, refl,
  arith, eq_iff, eq_refl,
}
use crew_link.Db.{Convoy, Tables}
use crew_link.Db.Rows.{first-keep, exists, exists-In, In-exists}
use crew_link.Db.Joins.{In-first}
use crew_link.Db.Query.{ok, err, not_convoy_member}
use crew_link.Db.Sql.{has_convoy}
use crew_link.Convoys.{is_current_user, find_convoy, load_convoy_payload, get_convoy_for_member}
use crew_link.Convoys.Loaded.{loaded, load_convoy_payload-some}
use crew_link.Convoys.Seats.{HoldsSeat}

-- Memberships refer to convoys.
unfoldable pub RefersToConvoys : Tables → Type 0
RefersToConvoys t = All (λ m. has_convoy m.convoy_id t ≡ true) t.convoy_members

find_convoy-some :
    (id : String) (t : Tables)
    → has_convoy id t ≡ true
    → (c : Convoy) × (find_convoy id t ≡ some c) × In c t.convoys × (c.id ≡ id)
unfolding has_convoy find_convoy
find_convoy-some id t e =
    let (c, i, h) = exists-In (λ c. c.id == id) t.convoys e in
    let (d, f) =
      In-first (keep (λ c. c.id == id) t.convoys) c (keep-In (λ c. c.id == id) t.convoys c i h) in
    let (j, k) = first-keep (λ c. c.id == id) t.convoys d f in
    (d, f, j, ground (arith, eq_iff d.id id))

pub HoldsSeat-exists :
    (c k : String) (t : Tables)
    → HoldsSeat c k t
    → exists (is_current_user c k) t.convoy_members ≡ true
unfolding HoldsSeat is_current_user
HoldsSeat-exists c k t (m, i, ec, ek, el) =
    In-exists (is_current_user c k) t.convoy_members m i
      (rw (ec, ek, el, eq_refl c, eq_refl k) refl)

pub exists-HoldsSeat :
    (c k : String) (t : Tables)
    → exists (is_current_user c k) t.convoy_members ≡ true
    → HoldsSeat c k t
unfolding HoldsSeat is_current_user
exists-HoldsSeat c k t e =
    let (m, i, h) = exists-In (is_current_user c k) t.convoy_members e in
    (
      m,
      i,
      ground (arith, eq_iff m.convoy_id c),
      ground (arith, eq_iff m.user_id k, eq_iff m.convoy_id c),
      ground arith,
    )

-- Where memberships refer to convoys, a current member of a convoy gets the payload that is loaded
-- for it, everyone else is refused, and nothing is written.
pub get_convoy_for_member-cases :
    (iso : ℤ → String) (c k : String) (t : Tables)
    → RefersToConvoys t
    → (HoldsSeat c k t
        × ((d : Convoy) × In d t.convoys
            × (d.id ≡ c)
            × (get_convoy_for_member iso c k t ≡ (ok (loaded iso c d t), t))
            × (load_convoy_payload iso c t ≡ (ok (loaded iso c d t), t))))
      ⊎ ((HoldsSeat c k t → ⊥) × (get_convoy_for_member iso c k t ≡ (err not_convoy_member, t)))
unfolding get_convoy_for_member HoldsSeat RefersToConvoys
get_convoy_for_member-cases iso c k t refs =
    elim (Bool-cases (exists (is_current_user c k) t.convoy_members)) [
      | inl h ↦ inl (exists-HoldsSeat c k t h, shown h (exists-HoldsSeat c k t h))
      | inr h ↦ inr (λ s. (let e = HoldsSeat-exists c k t s in cc), rw h refl)
    ]
  where
    shown :
        exists (is_current_user c k) t.convoy_members ≡ true
        → HoldsSeat c k t
        → (d : Convoy) × In d t.convoys
          × (d.id ≡ c)
          × (get_convoy_for_member iso c k t ≡ (ok (loaded iso c d t), t))
          × (load_convoy_payload iso c t ≡ (ok (loaded iso c d t), t))
    shown h (m, i, ec, ek, el) =
        let there =
          rw ec at (All-In (λ m. has_convoy m.convoy_id t ≡ true) t.convoy_members m refs i) in
        let (d, f, j, e) = find_convoy-some c t there in
        let loads = load_convoy_payload-some iso c t d f in (d, j, e, rw h loads, loads)
