-- ===== src/Convoys/Answered.antt =====
-- backend/src/services/convoys.ts: when joining a convoy is answered with its payload.
use crew_link.Base.{
  ℤ, String, true, false, Option, none, some, Bool-cases, List, [], ◌∷◌, ◌++◌, keep, In, All,
  keep-In, ◌==◌, ◌≡◌, ◌≢◌, ◌&&◌, ◌||◌, refl, arith, eq_iff, eq_refl, inl, inr,
}
use crew_link.Db.{ConvoyMember, Convoy, Tables, member}
use crew_link.Db.Rows.{
  first, exists, first-keep, first-keep-none, All-first-none, In-exists, is_null,
}
use crew_link.Db.Joins.{In-first}
use crew_link.Db.Query.{ok, err, invite_code_not_found}
use crew_link.Db.Sql.{insert_member, has_user, has_convoy}
use crew_link.Convoys.{
  ConvoyApiPayload, JoinConvoyInput, join_convoy, rejoin, new_member, find_convoy,
}
use crew_link.Convoys.Loaded.{loaded, load_convoy_payload-some}

not_taken :
    (uuid c k : String) (ms : List ConvoyMember)
    → All (λ m. m.id ≢ uuid) ms
    → All (λ m. (m.convoy_id == c && m.user_id == k) ≡ false) ms
    → exists (λ n. n.id == uuid || (n.convoy_id == c && n.user_id == k)) ms ≡ false
unfolding exists
not_taken uuid c k [] h g = refl
not_taken uuid c k (m ∷ ms) (h, hs) (g, gs) =
    ground (arith, not_taken uuid c k ms hs gs, eq_iff m.id uuid)

-- The row is written, and the convoys are as they were.
rejoin-ok :
    (uuid : String) (now : ℤ) (c k : String) (t : Tables) (o : Option ConvoyMember)
    → first (keep (λ m. m.convoy_id == c && m.user_id == k) t.convoy_members) ≡ o
    → has_convoy c t ≡ true
    → has_user k t ≡ true
    → All (λ m. m.id ≢ uuid) t.convoy_members
    → (mid : Tables) × (rejoin uuid now c k o t ≡ (ok tt, mid)) × (mid.convoys ≡ t.convoys)
unfolding rejoin insert_member new_member
rejoin-ok uuid now c k t none o hc hu fresh = (
  record t { convoy_members = t.convoy_members ++ new_member uuid member now c k ∷ [] },
  rw
      (
        not_taken uuid c k t.convoy_members fresh
            (first-keep-none (λ m. m.convoy_id == c && m.user_id == k) t.convoy_members o),
        hc,
        hu,
      )
      refl,
  refl,
)
rejoin-ok uuid now c k t (some m) o hc hu fresh = elim (Bool-cases (is_null m.left_at)) [
  | inl n ↦ (t, rw n refl, refl)
  | inr n ↦ ((rejoin uuid now c k (some m) t).1, rw n refl, rw n refl)
]

-- A code that no convoy has is refused, with the tables as they were.
pub join_convoy-unknown :
    (iso : ℤ → String) (uuid : String) (now : ℤ) (input : JoinConvoyInput) (t : Tables)
    → All (λ c. (c.invite_code == input.invite_code) ≡ false) t.convoys
    → join_convoy iso uuid now input t ≡ (err invite_code_not_found, t)
unfolding join_convoy
join_convoy-unknown iso uuid now input t h =
    rw (All-first-none (λ c. c.invite_code == input.invite_code) t.convoys h) refl

-- A user who exists and gives the code of a convoy is answered with a payload, whatever the
-- earlier membership, where the drawn id is no membership's.
pub join_convoy-answers :
    (iso : ℤ → String) (uuid : String) (now : ℤ) (input : JoinConvoyInput) (t : Tables)
    (convoy : Convoy)
    → has_user input.user_id t ≡ true
    → All (λ m. m.id ≢ uuid) t.convoy_members
    → In convoy t.convoys
    → convoy.invite_code ≡ input.invite_code
    → (p : ConvoyApiPayload) × (after : Tables) × (join_convoy iso uuid now input t ≡ (ok p, after))
unfolding join_convoy has_convoy find_convoy
join_convoy-answers iso uuid now input t convoy hu fresh i code =
    let (d, f) = In-first (keep (λ c. c.invite_code == input.invite_code) t.convoys) convoy (
      keep-In (λ c. c.invite_code == input.invite_code) t.convoys convoy i
        (rw code (eq_refl input.invite_code))) in
    let (j, _) = first-keep (λ c. c.invite_code == input.invite_code) t.convoys d f in
    let (mid, r, same) =
      rejoin-ok uuid now d.id input.user_id t
        (first (keep (λ m. m.convoy_id == d.id && m.user_id == input.user_id) t.convoy_members))
        refl (In-exists (λ c. c.id == d.id) t.convoys d j (eq_refl d.id)) hu fresh in
    let (c, g) =
      In-first (keep (λ c. c.id == d.id) t.convoys) d
        (keep-In (λ c. c.id == d.id) t.convoys d j (eq_refl d.id)) in
    (loaded iso d.id c mid, mid, rw (f, r) (load_convoy_payload-some iso d.id mid c (rw same g)))
