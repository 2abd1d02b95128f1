-- ===== src/Server/Members.antt =====
-- backend/src/server.ts: whom the gateway of a built app lets in.
use crew_link.Base.{
  String, Option, none, some, ◌≡◌, ◌≢◌, inl, inr, refl, sym, arith, Option-cases, Bool-cases, ◌&&◌,
  eq_iff,
}
use Prim.Native.String.{◌++◌ as ◌append◌}
use crew_link.Promise.{fulfilled, fulfilled-injective, Promise-cases}
use crew_link.Db.{Tables}
use crew_link.Auth.{VerifiedToken, JwtPayload, firebase_token_verifier, of_payload}
use crew_link.Auth.Resolvers.{IsMember, resolve_member_iff}
use crew_link.Config.{production}
use crew_link.Server.{
  Platform, BuildOptions, App, built, GatewayOptions, is_dev, is_production, chosen_verifier,
  with_stores, with_redis_snapshots, with_database, app_of, build_app, member_resolver,
  default_resolve_member,
}
use crew_link.Server.Verifier.{build_app-refuses_iff}

module _ (env : Platform) where
  -- Redis does not change whom the gateway lets in.
  with_stores-resolve_member :
      (url : Option String) (g h : GatewayOptions env.date_parse)
      → with_stores env url g ≡ some h
      → h.resolve_member ≡ g.resolve_member
  unfolding with_stores with_redis_snapshots
  with_stores-resolve_member none g h e = cc
  with_stores-resolve_member (some url) g h e =
      ground
        (arith, Promise-cases (env.connect_fanout url), Promise-cases (env.connect_snapshots url))

  app_of-gateway :
      (o : BuildOptions env.date_parse) (g : Option (GatewayOptions env.date_parse))
      (a : App env.date_parse)
      → app_of env o g ≡ built a
      → g ≡ some a.gateway
  unfolding app_of
  app_of-gateway o none a e = cc
  app_of-gateway o (some g) a e = cc

  -- Whom a built app lets in is up to its verifier, the database and the injected resolver.
  built-resolve_member :
      (o : BuildOptions env.date_parse) (a : App env.date_parse)
      → build_app env o ≡ built a
      → a.gateway.resolve_member
        ≡ (with_database env o.env.database_url
            (chosen_verifier env o.verify_token o.env.firebase_project_id)
            o.gateway).resolve_member
  unfolding build_app
  built-resolve_member o a e = elim (Bool-cases (is_dev env o && is_production o.env.node_env)) [
    | inl d ↦ let f = rw (d, build_app) at e in cc
    | inr d ↦
        with_stores-resolve_member o.env.redis_url _ a.gateway
          (app_of-gateway o _ a (rw (d, build_app) at e))
  ]

  of_payload-sub :
      (payload : Option JwtPayload) (v : VerifiedToken)
      → of_payload payload ≡ some v
      → (q : JwtPayload) × (payload ≡ some q) × (q.sub ≡ some v.uid)
  unfolding of_payload
  of_payload-sub none v e = cc
  of_payload-sub (some q) v e = (q, refl, ground (arith, Option-cases q.sub))

  -- A token that is verified for the configured Firebase project, of a subject who is a current
  -- member of the convoy.
  unfoldable pub IsVerifiedMember :
      BuildOptions env.date_parse → String → String → String → Tables → Type 0
  IsVerifiedMember o token c id t =
      (p : String) × (o.env.firebase_project_id ≡ some p)
      × ((payload : JwtPayload) × (env.jwt_verify token ("https://securetoken.google.com/" append p)
              p
            ≡ some payload)
          × (payload.sub ≡ some id)
          × IsMember c id t)

  -- In production, with no injected verifier and resolver and with a database, the gateway resolves
  -- only tokens of verified members.
  pub production_token-IsVerifiedMember :
      (o : BuildOptions env.date_parse) (a : App env.date_parse) (url token c id : String)
      (t : Tables)
      → o.env.node_env ≡ production
      → o.verify_token ≡ none
      → o.gateway.resolve_member ≡ none
      → o.env.database_url ≡ some url
      → build_app env o ≡ built a
      → member_resolver env.date_parse a.gateway token c t ≡ fulfilled (some id)
      → IsVerifiedMember o token c id t
  unfolding member_resolver with_database chosen_verifier firebase_token_verifier IsVerifiedMember
  production_token-IsVerifiedMember o a url token c id t prod v g d e r =
      elim (Option-cases o.env.firebase_project_id) [
        | inl f ↦ let shut = (build_app-refuses_iff env o).1 (v, f, prod) in cc
        | inr (p, f) ↦
            let s = rw (built-resolve_member o a e, d, g, v, f) at r in
            let (w, verified, same, there) =
              (resolve_member_iff (firebase_token_verifier env.jwt_verify p) token c id t).0
                (fulfilled-injective s) in
            let (payload, from, subject) = of_payload-sub _ w verified in
            (p, f, (payload, from, rw (sym same) subject, there))
      ]

  -- With no injected resolver and no database, the gateway of a built app lets in everyone with a
  -- token that is not empty, as the member that the token names, to every convoy; no token is
  -- verified, whatever the verifier and the environment.
  pub open_gateway :
      (o : BuildOptions env.date_parse) (a : App env.date_parse) (token c : String) (t : Tables)
      → o.gateway.resolve_member ≡ none
      → o.env.database_url ≡ none
      → token ≢ ""
      → build_app env o ≡ built a
      → member_resolver env.date_parse a.gateway token c t ≡ fulfilled (some token)
  unfolding member_resolver with_database default_resolve_member
  open_gateway o a token c t g d n e =
      rw (built-resolve_member o a e, d, g) (ground (arith, eq_iff token ""))
