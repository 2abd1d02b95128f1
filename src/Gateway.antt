-- ===== src/Gateway.antt =====
-- backend/src/realtime/convoy_gateway.ts: the sockets of one instance, driven by events. What the
-- resolvers and stores answer is part of the state that an event finds.
pub mod Registered
pub mod Invariant
pub mod Delivered
use crew_link.Base.{
  ℕ, suc, ◌<◌, ℤ, String, Bool, true, false, Option, none, some, List, [], ◌∷◌, ◌++◌, map, keep,
  eqb, if◌then◌else◌,
}
use mathlib.Core.Option
use crew_link.Promise.{Promise, fulfilled, rejected}
use crew_link.Wire.{OutboundFrame, gps}
use crew_link.Fanout.Pool.{LocalSender, Delivery}
use crew_link.Heartbeat.{Beat, Action, start_heartbeat}
use crew_link.Heartbeat
use crew_link.FrameHandler.{Services, World, Outcome, Origin, Raw, handle_frame}

-- A socket from its upgrade to its close event. `is_open` is `readyState === OPEN`.
pub record Socket : Type 0 where
  pub conn : ℕ
  pub member_id : String
  pub convoy_id : String
  pub beat : Beat
  pub is_open : Bool

pub data Output : Type 0 where
  sent : Delivery → Output
  unauthorized failed : Output
  heartbeat : ℕ → Action → Output
  replay_failed : Output

pub data Event : Type 0 where
  connect : (token convoy_id : String) → Event
  message : ℕ → Raw → Event
  positions_loaded : ℕ → Event
  snapshot_loaded : ℤ → ℕ → Event
  beats : ℕ → Heartbeat.Event → Event
  closing closed : ℕ → Event
  resolvers :
      (member : String → String → Promise (Option String))
      → (leader : Option (String → String → Promise Bool)) → Event

unfoldable pub find_socket : ℕ → List Socket → Option Socket
find_socket n [] = none
find_socket n (s ∷ sockets) = if eqb s.conn n then some s else find_socket n sockets

unfoldable pub remove_socket : ℕ → List Socket → List Socket
remove_socket n [] = []
remove_socket n (s ∷ sockets) =
    if eqb s.conn n then remove_socket n sockets else s ∷ remove_socket n sockets

-- Changes the socket `n`.
unfoldable pub set_open : ℕ → Bool → List Socket → List Socket
set_open n b [] = []
set_open n b (s ∷ sockets) =
    record s { is_open = if eqb s.conn n then b else s.is_open } ∷ set_open n b sockets

unfoldable pub set_beat : ℕ → Beat → List Socket → List Socket
set_beat n b [] = []
set_beat n b (s ∷ sockets) =
    record s { beat = if eqb s.conn n then b else s.beat } ∷ set_beat n b sockets

abbrev pub sender : Socket → LocalSender
sender s = record { conn = s.conn; member_id = s.member_id }

-- `send` of a connection passes the text on only while the socket is open.
unfoldable pub is_open_conn : List Socket → ℕ → Bool
unfolding find_socket
is_open_conn sockets n = elim (find_socket n sockets) [ none ↦ false | some s ↦ s.is_open ]

unfoldable pub send_open : List Socket → List Delivery → List Output
unfolding is_open_conn
send_open sockets [] = []
send_open sockets (d ∷ ds) =
    if is_open_conn sockets d.to then sent d ∷ send_open sockets ds else send_open sockets ds

module _ (env : Services) where
  pub record Server : Type 0 where
    pub world : World env
    pub sockets : List Socket
    pub next_conn : ℕ
    pub resolve_member : String → String → Promise (Option String)

  -- The upgrade handler: the heartbeat starts, and the connection is registered.
  unfoldable pub open_socket : Server → String → String → Server
  open_socket srv member convoy =
      let s : Socket = record {
        conn = srv.next_conn;
        member_id = member;
        convoy_id = convoy;
        beat = start_heartbeat;
        is_open = true;
      } in
      let w = srv.world in
      record srv {
        world = record w {
          connections = env.fanout.add_local_connection w.connections convoy (sender s);
        };
        sockets = srv.sockets ++ s ∷ [];
        next_conn = suc srv.next_conn;
      }

  -- `preValidation` answers 401 where the token names no member of the convoy.
  unfoldable pub on_connect : Server → String → String → Server × List Output
  unfolding open_socket
  on_connect srv token convoy = elim (srv.resolve_member token convoy) [
    | rejected ↦ (srv, failed ∷ [])
    | fulfilled none ↦ (srv, unauthorized ∷ [])
    | fulfilled (some member) ↦ (open_socket srv member convoy, [])
  ]

  unfoldable pub on_message : Server → Socket → Raw → Server × List Output
  unfolding send_open
  on_message srv s raw =
      let out =
        handle_frame env srv.world (record { member_id = s.member_id; convoy_id = s.convoy_id })
          raw in
      (record srv { world = out.world }, send_open srv.sockets out.sent)

  -- The sends of a replay, to a socket that is still open.
  unfoldable pub replay_to : Socket → List OutboundFrame → List Output
  replay_to s frames =
      if s.is_open
      then map (λ f. sent (record { to = s.conn; text = env.json_stringify f })) frames
      else []

  unfoldable pub on_positions : Server → Socket → Server × List Output
  unfolding replay_to
  on_positions srv s = elim srv.world.positions [
    | none ↦ (srv, [])
    | some positions ↦ elim (env.position_store.load_snapshot positions s.convoy_id s.member_id) [
      | rejected ↦ (srv, replay_failed ∷ [])
      | fulfilled ps ↦ (srv, replay_to s (map gps ps))
    ]
  ]

  unfoldable pub on_snapshot : Server → ℤ → Socket → Server × List Output
  unfolding replay_to
  on_snapshot srv ts s = elim srv.world.snapshots [
    | none ↦ (srv, [])
    | some snapshots ↦
        let (snapshots', answer) = env.snapshot_store.snapshot ts snapshots s.convoy_id in
        let w = srv.world in
        (
          record srv { world = record w { snapshots = some snapshots' } },
          elim answer [ rejected ↦ replay_failed ∷ [] | fulfilled frames ↦ replay_to s frames ],
        )
  ]

  unfoldable pub on_beat : Server → Socket → Heartbeat.Event → Server × List Output
  on_beat srv s e =
      let (b, actions) = Heartbeat.step s.beat e in
      (record srv { sockets = set_beat s.conn b srv.sockets }, map (heartbeat s.conn) actions)

  -- The close event: the heartbeat stops, and the connection is taken out of the fan-out.
  unfoldable pub on_closed : Server → Socket → Server × List Output
  unfolding remove_socket
  on_closed srv s =
      let w = srv.world in
      (
        record srv {
          world = record w {
            connections = env.fanout.unregister w.connections s.convoy_id (sender s);
          };
          sockets = remove_socket s.conn srv.sockets;
        },
        [],
      )

  -- An event of a socket that is gone does nothing.
  unfoldable pub with_socket : Server → ℕ → (Socket → Server × List Output) → Server × List Output
  unfolding find_socket
  with_socket srv n act = elim (find_socket n srv.sockets) [ none ↦ (srv, []) | some s ↦ act s ]

  unfoldable pub step : Server → Event → Server × List Output
  unfolding on_connect on_message on_positions on_snapshot on_beat on_closed with_socket
  step srv (connect token convoy) = on_connect srv token convoy
  step srv (message n raw) = with_socket srv n λ s. on_message srv s raw
  step srv (positions_loaded n) = with_socket srv n λ s. on_positions srv s
  step srv (snapshot_loaded ts n) = with_socket srv n λ s. on_snapshot srv ts s
  step srv (beats n e) = with_socket srv n λ s. on_beat srv s e
  step srv (closing n) = (record srv { sockets = set_open n false srv.sockets }, [])
  step srv (closed n) = with_socket srv n λ s. on_closed srv s
  step srv (resolvers member leader) =
      let w = srv.world in
      (record srv { world = record w { resolve_leader = leader }; resolve_member = member }, [])

  unfoldable pub run : Server → List Event → Server × List Output
  run srv [] = (srv, [])
  run srv (e ∷ es) =
      let (srv', outputs) = step srv e in let (last, more) = run srv' es in (last, outputs ++ more)
