-- ===== src/Auth/Resolvers.antt =====
-- backend/src/services/auth.ts: the members and the leader that the gateway's resolvers tell.
use crew_link.Base.{
  String, true, Option, none, some, In, In-keep, keep-In, ◌==◌, ◌≡◌, ◌↔◌, refl, sym, ap, ◌∙◌, arith,
  eq_iff, eq_refl,
}
use crew_link.Db.{User, ConvoyMember, Tables, ConvoyMemberRole, owner, member}
use crew_link.Db.Rows.{first, inner_join, is_null}
use crew_link.Db.Joins.{inner_join-In, In-inner_join, first-In, In-first}
use crew_link.Convoys.{is_owner}
use crew_link.Auth.{
  VerifiedToken, TokenVerifier, is_membership, memberships, member_of_first, resolve_verified,
  resolve_member, role_is_owner, is_leader,
}

-- The rows that make an external id a current member.
unfoldable pub IsMembership : String → String → Tables → ConvoyMember → User → Type 0
IsMembership convoy_id uid t m u =
    In m t.convoy_members
    × In u t.users
    × (m.convoy_id ≡ convoy_id)
    × (m.user_id ≡ u.id)
    × (u.apple_user_id ≡ uid)
    × (m.left_at ≡ none)

unfoldable pub IsMember : String → String → Tables → Type 0
IsMember convoy_id uid t = (m : ConvoyMember) × (u : User) × IsMembership convoy_id uid t m u

pub IsMembership-memberships :
    (c uid : String) (t : Tables) (m : ConvoyMember) (u : User)
    → IsMembership c uid t m u
    → In (m, u) (memberships c uid t)
unfolding IsMembership memberships is_membership
IsMembership-memberships c uid t m u (i, j, ec, eu, ea, el) =
    keep-In (is_membership c uid) (inner_join (λ m u. m.user_id == u.id) t.convoy_members t.users)
      (m, u)
      (inner_join-In (λ m u. m.user_id == u.id) t.convoy_members t.users m u i j
        (rw eu (eq_refl u.id)))
      (rw (ec, ea, el, eq_refl c, eq_refl uid) refl)

pub memberships-IsMembership :
    (c uid : String) (t : Tables) (m : ConvoyMember) (u : User)
    → In (m, u) (memberships c uid t)
    → IsMembership c uid t m u
unfolding IsMembership memberships is_membership
memberships-IsMembership c uid t m u i =
    let (j, e) =
      In-keep (is_membership c uid) (inner_join (λ m u. m.user_id == u.id) t.convoy_members t.users)
        (m, u) i in
    let (a, b, k) = In-inner_join (λ m u. m.user_id == u.id) t.convoy_members t.users (m, u) j in
    (
      a,
      b,
      ground (arith, eq_iff m.convoy_id c),
      ground (arith, eq_iff m.user_id u.id),
      ground (arith, eq_iff u.apple_user_id uid, eq_iff m.convoy_id c),
      null m.left_at (ground arith),
    )
  where
    null : {A : Type 0} (o : Option A) → is_null o ≡ true → o ≡ none
    null none e = refl
    null (some x) e = cc

member_of_first-some :
    (uid id : String) (o : Option (ConvoyMember × User))
    → member_of_first uid o ≡ some id
    → (p : ConvoyMember × User) × (o ≡ some p) × (uid ≡ id)
unfolding member_of_first
member_of_first-some uid id none e = cc
member_of_first-some uid id (some p) e = (p, refl, cc)

resolve_verified-IsMember :
    (c id : String) (t : Tables) (o : Option VerifiedToken)
    → resolve_verified o c t ≡ some id
    → (v : VerifiedToken) × (o ≡ some v) × (v.uid ≡ id) × IsMember c id t
unfolding resolve_verified IsMember
resolve_verified-IsMember c id t none e = cc
resolve_verified-IsMember c id t (some v) e =
    let ((m, u), f, i) = member_of_first-some v.uid id (first (memberships c v.uid t)) e in
    (
      v,
      refl,
      i,
      (
        m,
        u,
        rw (sym i)
            (memberships-IsMembership c v.uid t m u (first-In (memberships c v.uid t) (m, u) f)),
      ),
    )

IsMember-resolve_verified :
    (c : String) (t : Tables) (v : VerifiedToken)
    → IsMember c v.uid t
    → resolve_verified (some v) c t ≡ some v.uid
unfolding resolve_verified IsMember member_of_first
IsMember-resolve_verified c t v (m, u, h) =
    let (p, e) =
      In-first (memberships c v.uid t) (m, u) (IsMembership-memberships c v.uid t m u h) in
    rw e refl

-- The gateway resolves a token to a member id exactly when the token is verified for that id and
-- a membership of the convoy that was not left belongs to a user with that external id.
pub resolve_member_iff :
    (verify : TokenVerifier) (token c id : String) (t : Tables)
    → (resolve_member verify token c t ≡ some id)
      ↔ ((v : VerifiedToken) × (verify token ≡ some v) × (v.uid ≡ id) × IsMember c id t)
unfolding resolve_member
resolve_member_iff verify token c id t = (
  resolve_verified-IsMember c id t (verify token),
  λ (v, e, i, h). rw (e, sym i) (IsMember-resolve_verified c t v (rw i h)),
)

role_is_owner-some :
    (o : Option (ConvoyMember × User))
    → role_is_owner o ≡ true
    → (m : ConvoyMember) × (u : User) × (o ≡ some (m, u)) × (m.role ≡ owner)
unfolding role_is_owner is_owner
role_is_owner-some none e = cc
role_is_owner-some (some (m, u)) e = (m, u, refl, owned m.role e)
  where
    owned : (r : ConvoyMemberRole) → is_owner r ≡ true → r ≡ owner
    owned owner h = refl
    owned member h = cc

-- One row for an external id, and one for a convoy and user.
unfoldable pub HasUniqueRows : Tables → Type 0
HasUniqueRows t =
    ((u w : User) → In u t.users → In w t.users → u.apple_user_id ≡ w.apple_user_id → u ≡ w)
    × ((m n : ConvoyMember)
        → In m t.convoy_members
        → In n t.convoy_members
        → m.convoy_id ≡ n.convoy_id
        → m.user_id ≡ n.user_id
        → m ≡ n)

-- With unique rows, the gateway takes a member for the convoy's leader exactly when a membership
-- of that external id that was not left has the role of the owner.
pub is_leader_iff :
    (id c : String) (t : Tables)
    → HasUniqueRows t
    → (is_leader id c t ≡ true)
      ↔ ((m : ConvoyMember) × (u : User) × IsMembership c id t m u × (m.role ≡ owner))
unfolding is_leader IsMembership HasUniqueRows role_is_owner is_owner
is_leader_iff id c t (unique_user, unique_member) = (
  λ e.
      let (m, u, f, o) = role_is_owner-some (first (memberships c id t)) e in
      (m, u, memberships-IsMembership c id t m u (first-In (memberships c id t) (m, u) f), o),
  λ (m, u, h, o).
      let ((n, w), f) =
        In-first (memberships c id t) (m, u) (IsMembership-memberships c id t m u h) in
      let (i, j, ec, eu, ea, el) = h in
      let (i', j', ec', eu', ea', el') =
        memberships-IsMembership c id t n w (first-In (memberships c id t) (n, w) f) in
      let same_user = unique_user w u j' j (ea' ∙ sym ea) in
      let same_member =
        unique_member n m i' i (ec' ∙ sym ec) (eu' ∙ ap (λ x. x.id) same_user ∙ sym eu) in
      rw (f, same_member, o) refl,
)
