-- ===== src/Server.antt =====
-- backend/src/server.ts: what `buildApp` puts together, and the defaults of
-- backend/src/realtime/convoy_gateway.ts. `redis_at` is the Redis at a URL, `redis_publish` and the
-- two `connect`s are the outcomes of publishing and of connecting there, and `jwt_verify` is jose's
-- verification. A resolver reads the tables.
pub mod Verifier
pub mod Requests
pub mod Main
pub mod Members
pub mod Sockets
use crew_link.Base.{
  ℤ, String, Bool, true, false, ◌&&◌, not, Option, none, some, List, [], ◌∷◌, ◌++◌, ◌==◌,
  if◌then◌else◌,
}
use mathlib.Core.Option
use crew_link.Promise.{Promise, fulfilled, rejected}
use crew_link.Db.{Tables}
use crew_link.Db.Rows.{is_null}
use crew_link.Auth.{
  TokenVerifier, JwtPayload, dev_token_verifier, firebase_token_verifier, resolve_member, is_leader,
}
use crew_link.Config.{Env, NodeEnv, development, test, production}
use crew_link.Redis.{Redis}
use crew_link.Server.Requests.{CorsOrigin, cors_origin}
use crew_link.Fanout.{FanoutAdapter}
use crew_link.Fanout.InProcess.Laws.{in_process}
use crew_link.Fanout.Redis.{RedisMessage}
use crew_link.Fanout.Redis.Adapter.{redis_fanout}
use crew_link.Positions.{PositionStore}
use crew_link.Positions.Database.{db_position_store}
use crew_link.Snapshot.{SnapshotStore}
use crew_link.Snapshot.Memory.Store.{memory_store}
use crew_link.Snapshot.Redis.{PayloadJson}
use crew_link.Snapshot.Redis.Store.{redis_store}

abbrev pub MemberResolver : Type 0
MemberResolver = String → String → Tables → Promise (Option String)

abbrev pub LeaderResolver : Type 0
LeaderResolver = String → String → Tables → Promise Bool

pub data Route : Type 0 where
  health stream convoys vehicles users ptt : Route

pub data BuildError : Type 0 where
  insecure_verifier redis_unreachable : BuildError

unfoldable pub is_production : NodeEnv → Bool
is_production production = true
is_production _ = false

unfoldable pub is_test : NodeEnv → Bool
is_test test = true
is_test _ = false

unfoldable pub default_resolve_member : MemberResolver
default_resolve_member token convoy_id t = fulfilled (if token == "" then none else some token)

unfoldable pub routes_of : Option String → List Route
routes_of none = health ∷ stream ∷ []
routes_of (some url) = health ∷ stream ∷ convoys ∷ vehicles ∷ users ∷ ptt ∷ []

-- An option that is not given is filled in.
abbrev pub or_else {ℓ} : {A : Type ℓ} → Option A → A → Option A
or_else none a = some a
or_else (some b) a = some b

-- What a hook closes when the app is closed.
pub data Hook : Type 0 where
  end_pool close_fanout close_snapshots close_own_fanout : Hook

abbrev pub is_given {ℓ} : {A : Type ℓ} → Option A → Bool
is_given none = false
is_given (some a) = true

module _ (date_parse : String → Option ℤ) where
  pub record GatewayOptions : Type 1 where
    pub resolve_member : Option MemberResolver
    pub resolve_leader : Option LeaderResolver
    pub fanout : Option FanoutAdapter
    pub position_store : Option PositionStore
    pub snapshot_store : Option (SnapshotStore date_parse)

  pub record BuildOptions : Type 1 where
    pub env : Env
    pub gateway : GatewayOptions
    pub verify_token : Option TokenVerifier

  pub record App : Type 1 where
    pub cors : CorsOrigin
    pub on_close : List Hook
    pub verify_token : TokenVerifier
    pub warned : Bool
    pub gateway : GatewayOptions
    pub routes : List Route

  pub data Built : Type 1 where
    refused : BuildError → Built
    built : App → Built

-- The platform and the services that `buildApp` reaches.
pub record Platform : Type 1 where
  pub date_parse : String → Option ℤ
  pub iso : ℤ → String
  pub now : ℤ
  pub json : PayloadJson
  pub redis_at : String → Redis
  pub redis_publish : String → String → RedisMessage → Promise (Unit {0})
  pub connect_fanout : String → Promise (Unit {0})
  pub connect_snapshots : String → Promise (Unit {0})
  pub jwt_verify : String → String → String → Option JwtPayload

-- The Redis fan-out and a Redis snapshot store are closed by the app, and so is the gateway's own
-- in-process fan-out; what was injected is not.
unfoldable pub redis_hooks : Bool → Option String → List Hook
redis_hooks injected none = []
redis_hooks injected (some url) =
    if injected then close_fanout ∷ [] else close_fanout ∷ close_snapshots ∷ []

unfoldable pub pool_hooks : Option String → List Hook
pool_hooks none = []
pool_hooks (some url) = end_pool ∷ []

unfoldable pub own_fanout_hooks : Bool → List Hook
own_fanout_hooks true = close_own_fanout ∷ []
own_fanout_hooks false = []

module _ (env : Platform) where
  -- The dev verifier is taken where a verifier was neither injected nor configured.
  unfoldable pub is_dev : BuildOptions env.date_parse → Bool
  is_dev o = is_null o.verify_token && is_null o.env.firebase_project_id

  unfoldable pub chosen_verifier : Option TokenVerifier → Option String → TokenVerifier
  chosen_verifier (some v) project_id = v
  chosen_verifier none (some p) = firebase_token_verifier env.jwt_verify p
  chosen_verifier none none = dev_token_verifier

  -- The gateway's options where there is a database.
  unfoldable pub with_database :
      Option String → TokenVerifier → GatewayOptions env.date_parse → GatewayOptions env.date_parse
  with_database none verify_token g = g
  with_database (some url) verify_token g = record g {
    resolve_member =
        or_else g.resolve_member (λ token c t. fulfilled (resolve_member verify_token token c t));
    resolve_leader = or_else g.resolve_leader (λ id c t. fulfilled (is_leader id c t));
    position_store = or_else g.position_store (db_position_store env.date_parse env.iso env.now);
  }

  unfoldable pub with_redis_snapshots :
      String → GatewayOptions env.date_parse → Option (GatewayOptions env.date_parse)
  with_redis_snapshots url g = elim g.snapshot_store [
    | some store ↦ some g
    | none ↦ elim (env.connect_snapshots url) [
      | rejected ↦ none
      | fulfilled _ ↦ some (record g {
        snapshot_store = some (redis_store (env.redis_at url) env.json env.date_parse);
      })
    ]
  ]

  -- The Redis fan-out takes the place of an injected one; an injected snapshot store stays.
  unfoldable pub with_stores :
      Option String → GatewayOptions env.date_parse → Option (GatewayOptions env.date_parse)
  with_stores none g =
      some (record g { snapshot_store = or_else g.snapshot_store (memory_store env.date_parse) })
  with_stores (some url) g = elim (env.connect_fanout url) [
    | rejected ↦ none
    | fulfilled _ ↦
        with_redis_snapshots url (record g { fanout = some (redis_fanout (env.redis_publish url)) })
  ]

  unfoldable pub hooks_of : BuildOptions env.date_parse → GatewayOptions env.date_parse → List Hook
  hooks_of o g =
      pool_hooks o.env.database_url
      ++ (redis_hooks (is_given o.gateway.snapshot_store) o.env.redis_url
          ++ own_fanout_hooks (not (is_given g.fanout)))

  unfoldable pub app_of :
      BuildOptions env.date_parse → Option (GatewayOptions env.date_parse) → Built env.date_parse
  app_of o none = refused redis_unreachable
  app_of o (some g) = built (record {
    cors = cors_origin o.env.cors_origin;
    on_close = hooks_of o g;
    verify_token = chosen_verifier o.verify_token o.env.firebase_project_id;
    warned = is_dev o && not (is_test o.env.node_env);
    gateway = g;
    routes = routes_of o.env.database_url;
  })

  unfoldable pub build_app : BuildOptions env.date_parse → Built env.date_parse
  build_app o =
      if is_dev o && is_production o.env.node_env
      then refused insecure_verifier
      else app_of o (
          with_stores o.env.redis_url (
            with_database o.env.database_url
              (chosen_verifier o.verify_token o.env.firebase_project_id) o.gateway))

-- What the gateway uses of its options, with its defaults.
module _ (date_parse : String → Option ℤ) where
  unfoldable pub member_resolver : GatewayOptions date_parse → MemberResolver
  member_resolver g = Option.get_or g.resolve_member default_resolve_member

  unfoldable pub gateway_fanout : GatewayOptions date_parse → FanoutAdapter
  gateway_fanout g = elim g.fanout [ none ↦ in_process | some f ↦ f ]
