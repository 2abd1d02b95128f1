-- ===== src/Config.antt =====
-- backend/src/config/env.ts: the environment variables. `to_number` is the platform's `Number` on a
-- text, none for NaN, and `is_url` tells whether the platform's `URL` takes a text.
use crew_link.Base.{ℤ, pos, String, Bool, Option, none, some, ◌==◌, if◌then◌else◌}
use crew_link.Number.{Number, int_within}
use crew_link.Wire.Schema.{min_length}

pub data NodeEnv : Type 0 where
  development test production : NodeEnv

pub data LogLevel : Type 0 where
  fatal error warn info debug trace : LogLevel

pub record Env : Type 0 where
  pub node_env : NodeEnv
  pub port : ℤ
  pub host : String
  pub log_level : LogLevel
  pub database_url : Option String
  pub redis_url : Option String
  pub livekit_url : Option String
  pub livekit_api_key : Option String
  pub livekit_api_secret : Option String
  pub firebase_project_id : Option String
  pub cors_origin : Option String

unfoldable pub node_env_of : String → Option NodeEnv
node_env_of s =
    if s == "development"
    then some development
    else if s == "test"
    then some test
    else if s == "production"
    then some production
    else none

unfoldable pub log_level_of : String → Option LogLevel
log_level_of s =
    if s == "fatal"
    then some fatal
    else if s == "error"
    then some error
    else if s == "warn"
    then some warn
    else if s == "info"
    then some info
    else if s == "debug"
    then some debug
    else if s == "trace"
    then some trace
    else none

-- `.default(a)`: a variable that is not set.
unfoldable pub default : {A : Type 0} → A → (String → Option A) → Option String → Option A
default a parse none = some a
default a parse (some s) = parse s

-- `.optional()`: the variable's text where it passes.
unfoldable pub text_if : (String → Bool) → Option String → Option (Option String)
text_if passes none = some none
text_if passes (some s) = if passes s then some (some s) else none

infixl 20 ◌>>=◌
abbrev pub ◌>>=◌ : {A B : Type 0} → Option A → (A → Option B) → Option B
none >>= f = none
some a >>= f = f a

module _ (to_number : String → Option Number) (is_url : String → Bool) where
  unfoldable pub port_of : String → Option ℤ
  port_of s = elim (to_number s) [ none ↦ none | some x ↦ int_within (pos 1) (pos 65535) x ]

  -- None is the error that `parse` throws.
  unfoldable pub load_env : (String → Option String) → Option Env
  load_env source = do
    node_env ← default development node_env_of (source "NODE_ENV")
    port ← default (pos 3000) port_of (source "PORT")
    host ← default "0.0.0.0" (λ s. if min_length 1 s then some s else none) (source "HOST")
    log_level ← default info log_level_of (source "LOG_LEVEL")
    database_url ← text_if is_url (source "DATABASE_URL")
    redis_url ← text_if is_url (source "REDIS_URL")
    livekit_url ← text_if is_url (source "LIVEKIT_URL")
    livekit_api_key ← text_if (min_length 1) (source "LIVEKIT_API_KEY")
    livekit_api_secret ← text_if (min_length 1) (source "LIVEKIT_API_SECRET")
    firebase_project_id ← text_if (min_length 1) (source "FIREBASE_PROJECT_ID")
    cors_origin ← text_if (min_length 1) (source "CORS_ORIGIN")
    some (record {
      node_env = node_env;
      port = port;
      host = host;
      log_level = log_level;
      database_url = database_url;
      redis_url = redis_url;
      livekit_url = livekit_url;
      livekit_api_key = livekit_api_key;
      livekit_api_secret = livekit_api_secret;
      firebase_project_id = firebase_project_id;
      cors_origin = cors_origin;
    })
