-- ===== src/Server/Main.antt =====
-- backend/src/index.ts: the process of the server. `listen` is the outcome of opening the port.
use crew_link.Base.{ℤ, String, Option, none, some}
use crew_link.Promise.{Promise, fulfilled, rejected}
use crew_link.Config.{Env}
use crew_link.Server.{Platform, GatewayOptions, App, Built, refused, built, build_app}

pub data Process (date_parse : String → Option ℤ) : Type 1 where
  -- It has printed that it failed to start, and exits with code 1.
  exited : Process date_parse
  listening : String → ℤ → App date_parse → Process date_parse

abbrev pub no_gateway_options : {date_parse : String → Option ℤ} → GatewayOptions date_parse
no_gateway_options = record {
  resolve_member = none;
  resolve_leader = none;
  fanout = none;
  position_store = none;
  snapshot_store = none;
}

module _ (env : Platform) (listen : String → ℤ → Promise (Unit {0})) where
  unfoldable pub start_listening : Env → Built env.date_parse → Process env.date_parse
  start_listening e (refused r) = exited
  start_listening e (built a) = elim (listen e.host e.port) [
    | rejected ↦ exited
    | fulfilled _ ↦ listening e.host e.port a
  ]

  unfoldable pub start_app : Option Env → Process env.date_parse
  unfolding start_listening
  start_app none = exited
  start_app (some e) =
      start_listening e
        (build_app env (record { env = e; gateway = no_gateway_options; verify_token = none }))
