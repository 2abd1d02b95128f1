-- ===== src/Server/Verifier.antt =====
-- backend/src/server.ts: which token verifier `buildApp` takes.
use crew_link.Base.{
  true, false, Option, none, some, ◌≡◌, ◌≢◌, ◌⊎◌, inl, inr, refl, sym, ◌∙◌, ◌↔◌, arith, Bool-cases,
}
use crew_link.Config.{NodeEnv, development, test, production}
use crew_link.Server.{
  Platform, BuildOptions, App, built, refused, insecure_verifier, GatewayOptions, is_dev,
  is_production, chosen_verifier, with_stores, with_database, app_of, build_app,
}

is_production-lem : (e : NodeEnv) → is_production e ≡ true → e ≡ production
unfolding is_production
is_production-lem production h = refl
is_production-lem development h = cc
is_production-lem test h = cc

production-lem : (e : NodeEnv) → e ≡ production → is_production e ≡ true
unfolding is_production
production-lem e h = rw h refl

module _ (env : Platform) where
  pub app_of-verifier :
      (o : BuildOptions env.date_parse) (g : Option (GatewayOptions env.date_parse))
      (a : App env.date_parse)
      → app_of env o g ≡ built a
      → a.verify_token ≡ chosen_verifier env o.verify_token o.env.firebase_project_id
  unfolding app_of
  app_of-verifier o none a e = cc
  app_of-verifier o (some g) a e = cc

  app_of-secure :
      (o : BuildOptions env.date_parse) (g : Option (GatewayOptions env.date_parse))
      → app_of env o g ≢ refused insecure_verifier
  unfolding app_of
  app_of-secure o none e = cc
  app_of-secure o (some g) e = cc

  -- Where a verifier was injected or a project is configured, the app is put together.
  pub build_app-chosen :
      (o : BuildOptions env.date_parse)
      → (is_dev env o ≡ false) ⊎ (is_production o.env.node_env ≡ false)
      → build_app env o
        ≡ app_of env o (
            with_stores env o.env.redis_url (
              with_database env o.env.database_url
                (chosen_verifier env o.verify_token o.env.firebase_project_id)
                o.gateway))
  unfolding build_app
  build_app-chosen o (inl d) = rw d refl
  build_app-chosen o (inr p) = elim (Bool-cases (is_dev env o)) [
    | inl d ↦ rw (d, p) refl
    | inr d ↦ rw d refl
  ]

  is_dev-none :
      (o : BuildOptions env.date_parse)
      → is_dev env o ≡ true
      → (o.verify_token ≡ none) × (o.env.firebase_project_id ≡ none)
  unfolding is_dev
  is_dev-none o d = (ground arith, ground arith)

  none-is_dev :
      (o : BuildOptions env.date_parse)
      → o.verify_token ≡ none
      → o.env.firebase_project_id ≡ none
      → is_dev env o ≡ true
  unfolding is_dev
  none-is_dev o v p = ground arith

  -- `buildApp` refuses to use the dev verifier exactly in production, where no verifier was injected
  -- and no Firebase project is configured.
  pub build_app-refuses_iff :
      (o : BuildOptions env.date_parse)
      → (build_app env o ≡ refused insecure_verifier) ↔ (
          (o.verify_token ≡ none)
          × (o.env.firebase_project_id ≡ none)
          × (o.env.node_env ≡ production))
  unfolding build_app
  build_app-refuses_iff o = (
    λ e. elim (Bool-cases (is_dev env o)) [
      | inl d ↦ elim (Bool-cases (is_production o.env.node_env)) [
        | inl p ↦ let (v, f) = is_dev-none o d in (v, f, is_production-lem o.env.node_env p)
        | inr p ↦ elim (app_of-secure o _ (sym (build_app-chosen o (inr p)) ∙ e)) [ ]
      ]
      | inr d ↦ elim (app_of-secure o _ (sym (build_app-chosen o (inl d)) ∙ e)) [ ]
    ],
    λ (v, f, p). rw (none-is_dev o v f, production-lem o.env.node_env p) refl,
  )
