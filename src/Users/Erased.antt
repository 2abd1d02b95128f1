-- ===== src/Users/Erased.antt =====
-- backend/src/services/users.ts: which rows the deletion of an account leaves.
use crew_link.Base.{
  String, List, [], ◌∷◌, All, keep, ◌==◌, ◌≡◌, ◌≢◌, refl, arith, eq_iff, true, false, map,
}
use crew_link.Db.{User, ConvoyMember, Vehicle, Tables}
use crew_link.Db.Rows.{
  exists, delete_where, All-impl, All-exists, All-unit, delete_where-All, All-map,
}
use crew_link.Db.Query.{ok}
use crew_link.Db.Sql.{
  has_user, delete_convoys, delete_vehicles, cascade_users, delete_users, forget_vehicle,
}
use crew_link.Users.{delete_user_account}

-- Memberships and vehicles refer to users.
unfoldable pub RefersToUsers : Tables → Type 0
RefersToUsers t =
    All (λ m. has_user m.user_id t ≡ true) t.convoy_members
    × All (λ v. has_user v.user_id t ≡ true) t.vehicles

-- No row is the user's.
unfoldable pub HasNothingOf : String → Tables → Type 0
HasNothingOf user_id t =
    All (λ u. u.id ≢ user_id) t.users
    × All (λ c. c.owner_user_id ≢ user_id) t.convoys
    × All (λ m. m.user_id ≢ user_id) t.convoy_members
    × All (λ v. v.user_id ≢ user_id) t.vehicles

exists-keep_other :
    (user_id k : String) (users : List User)
    → k ≢ user_id
    → exists (λ u. u.id == k) (keep (λ u. u.id == user_id) users) ≡ false
unfolding exists
exists-keep_other user_id k [] n = refl
exists-keep_other user_id k (u ∷ us) n =
    ground (arith, exists-keep_other user_id k us n, eq_iff u.id user_id, eq_iff u.id k)

exists-keep_same :
    (user_id : String) (users : List User)
    → exists (λ u. u.id == user_id) (keep (λ u. u.id == user_id) users)
      ≡ exists (λ u. u.id == user_id) users
unfolding exists
exists-keep_same user_id [] = refl
exists-keep_same user_id (u ∷ us) = ground (arith, exists-keep_same user_id us)

-- A row whose user exists and does not go is another user's.
not_gone :
    (user_id : String) (t : Tables) (k : String)
    → has_user k t ≡ true
    → exists (λ u. u.id == k) (keep (λ u. u.id == user_id) t.users) ≡ false
    → k ≢ user_id
unfolding has_user
not_gone user_id t k h n e = ground (arith, exists-keep_same user_id t.users)

abbrev gone : String → Tables → List User
gone user_id t = keep (λ u. u.id == user_id) t.users

erased_convoys :
    (user_id : String) (t : Tables)
    → All
        (λ c. c.owner_user_id ≢ user_id)
        (delete_where (λ c. c.owner_user_id == user_id) t.convoys)
erased_convoys user_id t =
    delete_where-All (λ _. Unit {0}) (λ c. c.owner_user_id ≢ user_id)
      (λ c. c.owner_user_id == user_id) t.convoys
      (λ c _ e. ground (arith, eq_iff c.owner_user_id user_id)) (All-unit t.convoys)

forget_vehicle-user :
    (user_id : String) (t : Tables) (vs : List Vehicle) (m : ConvoyMember)
    → has_user m.user_id t ≡ true
    → has_user (forget_vehicle vs m).user_id t ≡ true
unfolding forget_vehicle
forget_vehicle-user user_id t vs m e = ground arith

erased_members :
    (user_id : String) (t : Tables) (vs : List Vehicle) (ms : List ConvoyMember)
    → All (λ m. has_user m.user_id t ≡ true) ms
    → All
        (λ m. m.user_id ≢ user_id)
        (delete_where
          (λ m. exists (λ u. u.id == m.user_id) (gone user_id t))
          (map (forget_vehicle vs) ms))
erased_members user_id t vs ms h =
    delete_where-All (λ m. has_user m.user_id t ≡ true) (λ m. m.user_id ≢ user_id)
      (λ m. exists (λ u. u.id == m.user_id) (gone user_id t)) (map (forget_vehicle vs) ms)
      (λ m k e. not_gone user_id t m.user_id k e)
      (All-map (λ m. has_user m.user_id t ≡ true) (forget_vehicle vs) ms
        (All-impl (λ m. has_user m.user_id t ≡ true)
          (λ m. has_user (forget_vehicle vs m).user_id t ≡ true) (forget_vehicle-user user_id t vs)
          ms h))

-- Where memberships and vehicles refer to users, the deletion of an account succeeds, and after it
-- no user, convoy, membership or vehicle is of that user.
pub delete_user_account-HasNothingOf :
    (user_id : String) (t : Tables)
    → RefersToUsers t
    → (after : Tables) × (delete_user_account user_id t ≡ (ok tt, after))
      × HasNothingOf user_id after
unfolding delete_user_account delete_users delete_convoys cascade_users delete_vehicles
    RefersToUsers HasNothingOf
delete_user_account-HasNothingOf user_id t (ms, vs) = (
  (delete_user_account user_id t).1,
  rw allowed refl,
  rw allowed (
    delete_where-All (λ _. Unit {0}) (λ u. u.id ≢ user_id) (λ u. u.id == user_id) t.users
        (λ u _ e. ground (arith, eq_iff u.id user_id)) (All-unit t.users),
    erased_convoys user_id t,
    erased_members user_id t
        (keep (λ v. exists (λ u. u.id == v.user_id) (gone user_id t)) t.vehicles)
        (delete_convoys (λ c. c.owner_user_id == user_id) t).convoy_members
        (delete_where-All (λ m. has_user m.user_id t ≡ true) (λ m. has_user m.user_id t ≡ true)
          (λ m.
            exists (λ c. c.id == m.convoy_id) (keep (λ c. c.owner_user_id == user_id) t.convoys))
          t.convoy_members (λ m k _. k) ms),
    delete_where-All (λ v. has_user v.user_id t ≡ true) (λ v. v.user_id ≢ user_id)
        (λ v. exists (λ u. u.id == v.user_id) (gone user_id t)) t.vehicles
        (λ v k e. not_gone user_id t v.user_id k e) vs,
  ),
)
  where
    allowed :
        exists
          (λ c. exists (λ u. u.id == c.owner_user_id) (gone user_id t))
          (delete_where (λ c. c.owner_user_id == user_id) t.convoys)
        ≡ false
    allowed =
        All-exists (λ c. exists (λ u. u.id == c.owner_user_id) (gone user_id t))
          (delete_where (λ c. c.owner_user_id == user_id) t.convoys)
          (All-impl (λ c. c.owner_user_id ≢ user_id)
            (λ c. exists (λ u. u.id == c.owner_user_id) (gone user_id t) ≡ false)
            (λ c n. exists-keep_other user_id c.owner_user_id t.users n)
            (delete_where (λ c. c.owner_user_id == user_id) t.convoys) (erased_convoys user_id t))
