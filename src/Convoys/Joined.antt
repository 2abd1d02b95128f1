-- ===== src/Convoys/Joined.antt =====
-- backend/src/services/convoys.ts: what joining does to the current members.
use crew_link.Base.{
  ℤ, String, Option, none, some, Option-cases, Bool-cases, [], ◌∷◌, ◌++◌, keep, In, In-append,
  In-append_left, In-append_right, ◌==◌, ◌≡◌, ◌⊎◌, ◌↔◌, ◌&&◌, inl, inr, refl, sym, ap, ◌∙◌, arith,
  eq_iff, eq_refl,
}
use crew_link.Db.{ConvoyMember, Convoy, Tables, member}
use crew_link.Db.Rows.{first, update_where, first-keep}
use crew_link.Db.Joins.{update_where-In_kept, update_where-In_changed, In-update_where}
use crew_link.Db.Query.{ok, then_query-ok}
use crew_link.Db.Sql.{insert_member}
use crew_link.Convoys.{
  ConvoyApiPayload, join_convoy, JoinConvoyInput, rejoin, new_member, load_convoy_payload,
  find_convoy, convoy_payload,
}
use crew_link.Convoys.Loaded.{load_convoy_payload-ok}
use crew_link.Convoys.Seats.{HoldsSeat}

-- Every membership has its own id.
unfoldable pub HasUniqueIds : Tables → Type 0
HasUniqueIds t =
    (m n : ConvoyMember) → In m t.convoy_members → In n t.convoy_members → m.id ≡ n.id → m ≡ n

abbrev existing_of : String → String → Tables → Option ConvoyMember
existing_of c k t = first (keep (λ m. m.convoy_id == c && m.user_id == k) t.convoy_members)

insert_member-ok :
    (m : ConvoyMember) (t after : Tables)
    → insert_member m t ≡ (ok tt, after)
    → after ≡ record t { convoy_members = t.convoy_members ++ m ∷ [] }
unfolding insert_member
insert_member-ok m t after e = ground arith

abbrev Joined : String → String → Tables → Tables → Type 0
Joined c0 k0 t after =
    (c k : String) → HoldsSeat c k after ↔ (HoldsSeat c k t ⊎ ((c ≡ c0) × (k ≡ k0)))

insert_member-Joined :
    (uuid : String) (now : ℤ) (c0 k0 : String) (t : Tables)
    → Joined c0 k0 t
        (record t { convoy_members = t.convoy_members ++ new_member uuid member now c0 k0 ∷ [] })
unfolding HoldsSeat new_member
insert_member-Joined uuid now c0 k0 t c k = (
  λ (m, i, ec, ek, el).
      elim (In-append m t.convoy_members (new_member uuid member now c0 k0 ∷ []) i) [
        | inl j ↦ inl (m, j, ec, ek, el)
        | inr (inl e) ↦ inr (sym ec ∙ ap (λ x. x.convoy_id) e, sym ek ∙ ap (λ x. x.user_id) e)
        | inr (inr n) ↦ elim n [ ]
      ],
  λ s. elim s [
    | inl (m, i, ec, ek, el) ↦
        (m, In-append_left m t.convoy_members (new_member uuid member now c0 k0 ∷ []) i, ec, ek, el)
    | inr (ec, ek) ↦ (
      new_member uuid member now c0 k0,
      In-append_right (new_member uuid member now c0 k0) t.convoy_members
          (new_member uuid member now c0 k0 ∷ []) (inl refl),
      sym ec,
      sym ek,
      refl,
    )
  ],
)

abbrev back : ConvoyMember → ConvoyMember
back m = record m { left_at = none }

reseat-Joined :
    (e : ConvoyMember) (t : Tables)
    → HasUniqueIds t
    → In e t.convoy_members
    → Joined e.convoy_id e.user_id t
        (record t { convoy_members = update_where (λ m. m.id == e.id) back t.convoy_members })
unfolding HoldsSeat HasUniqueIds
reseat-Joined e t unique i c k = (
  λ (m, j, ec, ek, el).
      let (y, l, f) = In-update_where (λ m. m.id == e.id) back t.convoy_members m j in
      elim (Bool-cases (y.id == e.id)) [
        | inl h ↦
            let same = unique y e l i (ground (arith, eq_iff y.id e.id)) in
            let g = rw (h, same) at f in
            inr (sym ec ∙ ap (λ x. x.convoy_id) g, sym ek ∙ ap (λ x. x.user_id) g)
        | inr h ↦ let g = rw h at f in inl (m, rw g l, ec, ek, el)
      ],
  λ s. elim s [
    | inl (m, j, ec, ek, el) ↦ elim (Bool-cases (m.id == e.id)) [
      | inl h ↦ (
        back m,
        update_where-In_changed (λ m. m.id == e.id) back t.convoy_members m j h,
        ec,
        ek,
        refl,
      )
      | inr h ↦
          (m, update_where-In_kept (λ m. m.id == e.id) back t.convoy_members m j h, ec, ek, el)
    ]
    | inr (ec, ek) ↦ (
      back e,
      update_where-In_changed (λ m. m.id == e.id) back t.convoy_members e i (eq_refl e.id),
      sym ec,
      sym ek,
      refl,
    )
  ],
)

seated-Joined :
    (e : ConvoyMember) (t : Tables)
    → In e t.convoy_members
    → e.left_at ≡ none
    → Joined e.convoy_id e.user_id t t
unfolding HoldsSeat
seated-Joined e t i n c k =
    (λ s. inl s, λ s. elim s [ inl h ↦ h | inr (ec, ek) ↦ (e, i, sym ec, sym ek, n) ])

existing_of-some :
    (c0 k0 : String) (t : Tables) (e : ConvoyMember)
    → existing_of c0 k0 t ≡ some e
    → In e t.convoy_members × (e.convoy_id ≡ c0) × (e.user_id ≡ k0)
existing_of-some c0 k0 t e h =
    let (i, f) = first-keep (λ m. m.convoy_id == c0 && m.user_id == k0) t.convoy_members e h in
    (
      i,
      ground (arith, eq_iff e.convoy_id c0),
      ground (arith, eq_iff e.user_id k0, eq_iff e.convoy_id c0),
    )

rejoin-Joined :
    (uuid : String) (now : ℤ) (c0 k0 : String) (t after : Tables) (o : Option ConvoyMember)
    → HasUniqueIds t
    → existing_of c0 k0 t ≡ o
    → rejoin uuid now c0 k0 o t ≡ (ok tt, after)
    → Joined c0 k0 t after
unfolding rejoin
rejoin-Joined uuid now c0 k0 t after none unique o e =
    rw (insert_member-ok (new_member uuid member now c0 k0) t after e)
      (insert_member-Joined uuid now c0 k0 t)
rejoin-Joined uuid now c0 k0 t after (some m) unique o e = elim (Option-cases m.left_at) [
  | inl n ↦
      let (i, ec, ek) = existing_of-some c0 k0 t m o in
      let f = rw n at e in rw (sym (ap (λ r. r.1) f), sym ec, sym ek) (seated-Joined m t i n)
  | inr (l, n) ↦
      let (i, ec, ek) = existing_of-some c0 k0 t m o in
      let f = rw n at e in rw (sym (ap (λ r. r.1) f), sym ec, sym ek) (reseat-Joined m t unique i)
]

-- Joining with an invite code, where it succeeds, makes the user a current member of the convoy
-- that has the code and whose payload it answers, whether new or returning, and changes the
-- membership of no other user and no other convoy. Membership ids are assumed to be unique.
pub join_convoy-HoldsSeat_iff :
    (iso : ℤ → String) (uuid : String) (now : ℤ) (input : JoinConvoyInput) (t after : Tables)
    (p : ConvoyApiPayload)
    → HasUniqueIds t
    → join_convoy iso uuid now input t ≡ (ok p, after)
    → (convoy : Convoy) × In convoy t.convoys
      × (convoy.invite_code ≡ input.invite_code)
      × (p.id ≡ convoy.id)
      × ((c k : String)
          → HoldsSeat c k after ↔ (HoldsSeat c k t ⊎ ((c ≡ convoy.id) × (k ≡ input.user_id))))
unfolding join_convoy find_convoy convoy_payload
join_convoy-HoldsSeat_iff iso uuid now input t after p unique e =
    elim (Option-cases (first (keep (λ c. c.invite_code == input.invite_code) t.convoys))) [
      | inl n ↦ let f = rw n at e in cc
      | inr (convoy, s) ↦
          let f = rw s at e in
          let (_, mid, r, l) =
            then_query-ok
              (rejoin uuid now convoy.id input.user_id (existing_of convoy.id input.user_id t) t)
              (λ _. load_convoy_payload iso convoy.id) p after f in
          let (i, code) = first-keep (λ c. c.invite_code == input.invite_code) t.convoys convoy s in
          let (d, found, shape, same) = load_convoy_payload-ok iso convoy.id mid after p l in
          let (_, id) = first-keep (λ c. c.id == convoy.id) mid.convoys d found in
          (
            convoy,
            i,
            ground (arith, eq_iff convoy.invite_code input.invite_code),
            rw shape (ground (arith, eq_iff d.id convoy.id)),
            rw same (
                rejoin-Joined uuid now convoy.id input.user_id t mid
                  (existing_of convoy.id input.user_id t) unique refl r),
          )
    ]
