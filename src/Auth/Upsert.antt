-- ===== src/Auth/Upsert.antt =====
-- backend/src/services/auth.ts: the row of a user that a verified token gives.
use crew_link.Base.{
  ℤ, String, Bool, true, false, not, some, Bool-cases, List, [], ◌∷◌, ◌++◌, keep, In, All, ◌==◌,
  ◌≡◌, ◌≢◌, refl, arith, eq_iff, eq_refl, inl, inr,
}
use crew_link.Db.{User, Tables}
use crew_link.Db.Rows.{first, first-keep, All-impl, exists, All-exists, update_where}
use crew_link.Db.Query.{ok}
use crew_link.Auth.{
  VerifiedToken, derive_display_name, new_user, refresh, upsert_user, get_or_create_user,
}

-- A row with the profile of a token.
abbrev pub HasProfile : VerifiedToken → User → Type 0
HasProfile v u =
    (u.apple_user_id ≡ v.uid) × (u.display_name ≡ derive_display_name v) × (u.email ≡ v.email)

abbrev pub others : String → List User → List User
others uid = keep (λ u. not (u.apple_user_id == uid))

first-refreshed :
    (now : ℤ) (v : VerifiedToken) (users : List User)
    → exists (λ u. u.apple_user_id == v.uid) users ≡ true
    → (u : User) × (first (
          keep
            (λ u. u.apple_user_id == v.uid)
            (update_where (λ u. u.apple_user_id == v.uid) (refresh now v) users))
        ≡ some u)
      × HasProfile v u
unfolding first exists update_where refresh
first-refreshed now v [] e = cc
first-refreshed now v (w ∷ ws) e = elim (Bool-cases (w.apple_user_id == v.uid)) [
  | inl h ↦
      (refresh now v w, rw (h, h) refl, (ground (arith, eq_iff w.apple_user_id v.uid), refl, refl))
  | inr h ↦ rw (h, h) (first-refreshed now v ws (rw h at e))
]

others-refreshed :
    (now : ℤ) (v : VerifiedToken) (users : List User)
    → others v.uid (update_where (λ u. u.apple_user_id == v.uid) (refresh now v) users)
      ≡ others v.uid users
unfolding update_where refresh
others-refreshed now v [] = refl
others-refreshed now v (w ∷ ws) = ground (arith, others-refreshed now v ws)

first-appended :
    (test : User → Bool) (users : List User) (u : User)
    → exists test users ≡ false
    → test u ≡ true
    → first (keep test (users ++ u ∷ [])) ≡ some u
unfolding first exists
first-appended test [] u e h = rw h refl
first-appended test (w ∷ ws) u e h = ground (arith, first-appended test ws u)

others-appended :
    (uid : String) (users : List User) (u : User)
    → u.apple_user_id ≡ uid
    → others uid (users ++ u ∷ []) ≡ others uid users
others-appended uid [] u e = rw (e, eq_refl uid) refl
others-appended uid (w ∷ ws) u e = ground (arith, others-appended uid ws u e)

-- A verified token gives a user row, where the drawn id is no user's: it carries the token's
-- external id, display name and email, and the rows of all other external ids are as they were.
pub get_or_create_user-HasProfile :
    (uuid : String) (now : ℤ) (v : VerifiedToken) (t : Tables)
    → All (λ u. u.id ≢ uuid) t.users
    → (u : User) × (after : Tables) × (get_or_create_user uuid now v t ≡ (ok u, after))
      × HasProfile v u
      × In u after.users
      × (others v.uid after.users ≡ others v.uid t.users)
unfolding get_or_create_user upsert_user new_user
get_or_create_user-HasProfile uuid now v t fresh =
    elim (Bool-cases (exists (λ u. u.apple_user_id == v.uid) t.users)) [
      | inl h ↦
          let (u, f, profile) = first-refreshed now v t.users h in
          let rows = update_where (λ u. u.apple_user_id == v.uid) (refresh now v) t.users in
          (
            u,
            record t { users = rows },
            rw (h, f) refl,
            profile,
            kept u rows f,
            others-refreshed now v t.users,
          )
      | inr h ↦
          let u = new_user uuid now v in
          let f = first-appended (λ u. u.apple_user_id == v.uid) t.users u h (eq_refl v.uid) in
          (
            u,
            record t { users = t.users ++ u ∷ [] },
            rw
                (
                  h,
                  All-exists (λ u. u.id == uuid) t.users
                      (All-impl (λ u. u.id ≢ uuid) (λ u. u.id == uuid ≡ false)
                        (λ u n. ground (arith, eq_iff u.id uuid)) t.users fresh),
                  f,
                )
                refl,
            (refl, refl, refl),
            kept u (t.users ++ u ∷ []) f,
            others-appended v.uid t.users u refl,
          )
    ]
  where
    kept :
        (u : User) (rows : List User)
        → first (keep (λ u. u.apple_user_id == v.uid) rows) ≡ some u
        → In u rows
    kept u rows f = (first-keep (λ u. u.apple_user_id == v.uid) rows u f).0
