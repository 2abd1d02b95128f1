-- ===== src/Auth/Left.antt =====
-- backend/src/services/auth.ts and backend/src/services/convoys.ts: the gateway's resolver for a
-- member who left.
use crew_link.Base.{ℤ, String, some, All, All-In, ◌≡◌, ◌≢◌, inl, inr, refl}
use crew_link.Db.{Tables}
use crew_link.Convoys.{LeaveConvoyInput, leave_convoy}
use crew_link.Convoys.Seats.{HoldsSeat, leave_convoy-HoldsSeat_iff}
use crew_link.Auth.{TokenVerifier, resolve_member}
use crew_link.Auth.Resolvers.{IsMember, IsMembership, resolve_member_iff}

-- After a user left a convoy, no token resolves to that user's external id there, where the
-- external id is of that user's rows only.
pub resolve_member-leave_convoy :
    (verify : TokenVerifier) (token id : String) (now : ℤ) (input : LeaveConvoyInput) (t : Tables)
    → All (λ u. u.apple_user_id ≡ id → u.id ≡ input.user_id) t.users
    → resolve_member verify token input.convoy_id (leave_convoy now input t).1 ≢ some id
unfolding IsMember IsMembership HoldsSeat leave_convoy
resolve_member-leave_convoy verify token id now input t own e =
    let (v, _, _, (m, u, (i, j, ec, eu, ea, el))) =
      (resolve_member_iff verify token input.convoy_id id (leave_convoy now input t).1).0 e in
    let (_, d) =
      (leave_convoy-HoldsSeat_iff now input t input.convoy_id u.id).0 (m, i, ec, eu, el) in
    elim d [
      | inl n ↦ n refl
      | inr n ↦ n (All-In (λ u. u.apple_user_id ≡ id → u.id ≡ input.user_id) t.users u own j ea)
    ]
