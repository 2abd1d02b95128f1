-- ===== src/Convoys/Seats.antt =====
-- backend/src/services/convoys.ts: what leaving does to the current members.
use crew_link.Base.{
  ℤ, String, true, false, none, some, Bool-cases, In, ◌==◌, ◌≡◌, ◌≢◌, ◌⊎◌, ◌↔◌, inl, inr, refl, ap,
  arith, eq_iff, eq_refl, if◌then◌else◌,
}
use crew_link.Db.{ConvoyMember, Tables}
use crew_link.Db.Joins.{update_where-In_kept, In-update_where}
use crew_link.Convoys.{is_current_user, leave_convoy, LeaveConvoyInput}

-- A user, by the internal id, is a current member of a convoy.
unfoldable pub HoldsSeat : String → String → Tables → Type 0
HoldsSeat c k t =
    (m : ConvoyMember) × In m t.convoy_members
    × (m.convoy_id ≡ c)
    × (m.user_id ≡ k)
    × (m.left_at ≡ none)

is_current_user-true :
    (c k : String) (m : ConvoyMember)
    → m.convoy_id ≡ c
    → m.user_id ≡ k
    → m.left_at ≡ none
    → is_current_user c k m ≡ true
unfolding is_current_user
is_current_user-true c k m a b d = rw (a, b, d, eq_refl c, eq_refl k) refl

unseated :
    (now : ℤ) (c k : String) (m y : ConvoyMember)
    → m ≡ (if is_current_user c k y then record y { left_at = some now } else y)
    → m.left_at ≡ none
    → (m ≡ y) × (is_current_user c k y ≡ false)
unseated now c k m y e n = elim (Bool-cases (is_current_user c k y)) [
  | inl h ↦ let f = rw h at e in let g = ap (λ x. x.left_at) f in cc
  | inr h ↦ (rw h at e, h)
]

-- Leaving a convoy ends the membership of that user in that convoy, and no other.
pub leave_convoy-HoldsSeat_iff :
    (now : ℤ) (input : LeaveConvoyInput) (t : Tables) (c k : String)
    → HoldsSeat c k (leave_convoy now input t).1
      ↔ (HoldsSeat c k t × ((c ≢ input.convoy_id) ⊎ (k ≢ input.user_id)))
unfolding HoldsSeat leave_convoy is_current_user
leave_convoy-HoldsSeat_iff now input t c k = (
  λ (m, i, ec, ek, el).
      let (y, j, e) =
        In-update_where (is_current_user input.convoy_id input.user_id)
          (λ m. record m { left_at = some now }) t.convoy_members m i in
      let (s, f) = unseated now input.convoy_id input.user_id m y e el in
      ((m, rw s j, ec, ek, el), other m ec ek el (rw s f)),
  λ ((m, i, ec, ek, el), d). (
    m,
    update_where-In_kept (is_current_user input.convoy_id input.user_id)
        (λ m. record m { left_at = some now }) t.convoy_members m i (kept m ec ek d),
    ec,
    ek,
    el,
  ),
)
  where
    other :
        (m : ConvoyMember)
        → m.convoy_id ≡ c
        → m.user_id ≡ k
        → m.left_at ≡ none
        → is_current_user input.convoy_id input.user_id m ≡ false
        → (c ≢ input.convoy_id) ⊎ (k ≢ input.user_id)
    other m ec ek el f = elim (Bool-cases (c == input.convoy_id)) [
      | inl a ↦ inr (λ h.
          ground
            (arith, is_current_user-true input.convoy_id input.user_id m, eq_iff c input.convoy_id))
      | inr a ↦ inl (λ h. ground (arith, eq_iff c input.convoy_id))
    ]

    kept :
        (m : ConvoyMember)
        → m.convoy_id ≡ c
        → m.user_id ≡ k
        → (c ≢ input.convoy_id) ⊎ (k ≢ input.user_id)
        → is_current_user input.convoy_id input.user_id m ≡ false
    kept m ec ek d =
        ground (arith, eq_iff m.convoy_id input.convoy_id, eq_iff m.user_id input.user_id)
