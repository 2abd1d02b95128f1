-- ===== src/Tests/Deployed.antt =====
-- The backend in production: with a database and a Firebase project, with the project only, and with
-- neither.
use crew_link.Base.{
  In, inl, pos, String, false, none, some, ◌==◌, if◌then◌else◌, ◌≡◌, ◌≢◌, ◌⊎◌, ◌↔◌, refl, arith,
  eq_iff,
}
use Prim.Native.String.{◌++◌ as ◌append◌}
use crew_link.Number.{integer}
use crew_link.Promise.{fulfilled}
use crew_link.Db.{Tables}
use crew_link.Db.Query.{Answer, err, out_of_range}
use crew_link.Auth.{
  JwtPayload, AuthUser, TokenVerifier, firebase_token_verifier, of_payload, resolve_member,
  resolve_verified, member_of_first, memberships, is_membership,
}
use crew_link.Db.Rows.{first, inner_join}
use crew_link.Config.{Env, production, info}
use crew_link.LivekitTokens.{Grant}
use crew_link.Routes.{Reply}
use crew_link.Routes.Ptt.{post_ptt_token}
use crew_link.Routes.Vehicles.{PutBody, put_me}
use crew_link.Routes.Ranges.{put_me-InRange}
use crew_link.Server.Requests.{cors_origin}
use crew_link.Server.{
  hooks_of, Platform, GatewayOptions, BuildOptions, App, refused, insecure_verifier, build_app,
  member_resolver, with_database, chosen_verifier, routes_of, is_dev, is_production, is_test,
  with_stores, app_of,
}
use crew_link.Server.Verifier.{build_app-refuses_iff}
use crew_link.Server.Members.{IsVerifiedMember, open_gateway}
use crew_link.Server.Sockets.{connect-IsVerifiedMember}
use crew_link.Gateway
use crew_link.Heartbeat.{start_heartbeat}
use crew_link.Gateway.{Socket, on_connect, open_socket}
use crew_link.Tests.Sockets.{start, ann_socket}
use crew_link.Tests.Demo.{demo}
use crew_link.Snapshot.Memory.Store.{memory_store}
use crew_link.Tests.Demo.{later_is_9}
use crew_link.Tests.Redis.{shelf_redis, demo_json}
use crew_link.Tests.Tables.{tables, uuid_of}

abbrev bob_payload : JwtPayload
bob_payload = record { sub = some "bob"; name = none; email = none }

abbrev platform : Platform
platform = record {
  date_parse = later_is_9;
  iso = λ z. "";
  now = pos 9;
  json = demo_json;
  redis_at = λ url. shelf_redis;
  redis_publish = λ url channel message. fulfilled tt;
  connect_fanout = λ url. fulfilled tt;
  connect_snapshots = λ url. fulfilled tt;
  jwt_verify = λ token issuer audience. if token == "signed" then some bob_payload else none;
}

abbrev bare : Env
bare = record {
  node_env = production;
  port = pos 3000;
  host = "0.0.0.0";
  log_level = info;
  database_url = none;
  redis_url = none;
  livekit_url = some "wss://voice";
  livekit_api_key = some "key";
  livekit_api_secret = some "secret";
  firebase_project_id = none;
  cors_origin = none;
}

abbrev no_options : GatewayOptions later_is_9
no_options = record {
  resolve_member = none;
  resolve_leader = none;
  fanout = none;
  position_store = none;
  snapshot_store = none;
}

abbrev options_of : Env → BuildOptions later_is_9
options_of e = record { env = e; gateway = no_options; verify_token = none }

abbrev with_project : Env
with_project = record bare { firebase_project_id = some "crew" }

abbrev full : Env
full = record with_project { database_url = some "postgres://db" }

abbrev verifier : TokenVerifier
verifier = chosen_verifier platform none (some "crew")

abbrev app_for : Env → App later_is_9
app_for e = record {
  cors = cors_origin e.cors_origin;
  on_close =
      hooks_of platform (options_of e) (with_database platform e.database_url verifier no_options);
  verify_token = verifier;
  warned = false;
  gateway = record (with_database platform e.database_url verifier no_options) {
    snapshot_store = some (memory_store later_is_9);
  };
  routes = routes_of e.database_url;
}

build_app-refuses_iff_example :
    (build_app platform (options_of bare) ≡ refused insecure_verifier) ↔ (
      ((options_of bare).verify_token ≡ none)
      × ((options_of bare).env.firebase_project_id ≡ none)
      × ((options_of bare).env.node_env ≡ production))
build_app-refuses_iff_example = build_app-refuses_iff platform (options_of bare)

-- Bob's socket, at a gateway that had none.
abbrev opened : Socket
opened = record ann_socket { member_id = "bob" }

abbrev empty_gateway : Gateway.Server demo
empty_gateway = record start {
  resolve_member = λ token c. member_resolver later_is_9 (app_for full).gateway token c tables;
}

connect-IsVerifiedMember_example :
    In opened empty_gateway.sockets
    ⊎ ((opened.convoy_id ≡ "c1")
        × IsVerifiedMember platform (options_of full) "signed" "c1" "bob" tables)
unfolding hooks_of build_app is_dev is_production is_test app_of with_stores with_database
    member_resolver chosen_verifier firebase_token_verifier of_payload resolve_member routes_of
    resolve_verified member_of_first first memberships inner_join is_membership Gateway.step
    on_connect open_socket start_heartbeat
connect-IsVerifiedMember_example =
    connect-IsVerifiedMember platform (options_of full) (app_for full) "postgres://db" demo
      empty_gateway "signed" "c1" tables opened refl refl refl refl refl refl (inl refl)

named : ◌≢◌ {A = String} "ann" ""
named = ground (arith, eq_iff "ann" "")

open_gateway_example :
    member_resolver later_is_9 (app_for with_project).gateway "ann" "c1" tables
    ≡ fulfilled (some "ann")
unfolding hooks_of build_app is_dev is_production is_test app_of with_stores with_database
    chosen_verifier routes_of
open_gateway_example =
    open_gateway platform (options_of with_project) (app_for with_project) "ann" "c1" tables refl
      refl named refl

abbrev bob_user : AuthUser
bob_user = record { id = "u2"; external_id = "bob"; display_name = "Bob" }

-- The text of a grant is the key and the room.
abbrev sign : String → String → Grant → String
sign key secret g = key append g.room

-- Bob asks for a token of his convoy where LiveKit is configured.
abbrev with_livekit : Env
with_livekit = record bare {
  livekit_url = some "wss://livekit";
  livekit_api_key = some "key";
  livekit_api_secret = some "secret";
}

abbrev asked_token : Answer Reply × Tables
asked_token = post_ptt_token sign uuid_of with_livekit bob_user "c1" tables

abbrev manta : PutBody
manta = record {
  make = "Opel";
  model = "Manta";
  year = some (integer 1988);
  color = none;
  power_kw = some (integer 81);
  drivetrain = none;
  displacement = none;
  transmission_type = none;
  mods = none;
}

put_me-InRange_example :
    (put_me (pos 2028) "v9" (λ n. "x9") (pos 9) "u1" (some manta) tables).0 ≢ err out_of_range
put_me-InRange_example =
    put_me-InRange (pos 2028) "v9" (λ n. "x9") (pos 9) "u1" (some manta) tables refl
