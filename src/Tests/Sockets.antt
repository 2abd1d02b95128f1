-- ===== src/Tests/Sockets.antt =====
-- backend/src/realtime/convoy_gateway.ts: the sockets of Ann and Bob.
use crew_link.Base.{
  String, true, Option, none, some, List, [], ◌∷◌, if◌then◌else◌, In, ◌≡◌, ◌≢◌, ◌↔◌, refl, inl,
  ◌==◌, arith,
}
use crew_link.Promise.{Promise, fulfilled}
use crew_link.Fanout.Pool.{Delivery}
use crew_link.Wire.{InboundFrame, status}
use crew_link.FrameHandler.{text, World}
use crew_link.FrameHandler.Authorised.{IsAuthorised}
use crew_link.Gateway.{
  Socket, sent, unauthorized, Event, connect, message, Server, step, run, find_socket,
}
use crew_link.Gateway.Invariant.{Inv, run-Inv}
use crew_link.Gateway.Delivered.{message-sent_iff, message-sent}
use crew_link.Gateway.Registered.{senders_of}
use crew_link.Tests.Demo.{demo, bob, bob_pause, kind_of}
use crew_link.Tests.Realtime.{calm, bob_pauses-IsAuthorised, realtime, ann_leads}

-- The token is the member's name; only Ann and Bob are in the convoy.
abbrev pub by_name : String → String → Promise (Option String)
by_name token convoy =
    fulfilled (if token == "ann" then some "ann" else if token == "bob" then some "bob" else none)

abbrev pub empty_world : World demo
empty_world = record {
  connections = [];
  positions = none;
  snapshots = some [];
  resolve_leader = some ann_leads;
}

abbrev pub start : Server demo
start = record { world = empty_world; sockets = []; next_conn = 1; resolve_member = by_name }

start-Inv : Inv demo start
unfolding realtime senders_of
start-Inv = record { valid = tt; registered = λ c. refl; fresh = tt; apart = tt }

abbrev pub ann_socket : Socket
ann_socket = record {
  conn = 1;
  member_id = "ann";
  convoy_id = "c1";
  beat = record { alive = true; running = true };
  is_open = true;
}

abbrev pub bob_socket : Socket
bob_socket = record ann_socket { conn = 2; member_id = "bob" }

-- Both are connected.
abbrev joined : List Event
joined = connect "ann" "c1" ∷ connect "bob" "c1" ∷ []

run-Inv_example : Inv demo (run demo start joined).0
run-Inv_example = run-Inv demo start joined start-Inv

abbrev both : Server demo
both = record start { world = calm; sockets = ann_socket ∷ bob_socket ∷ []; next_conn = 3 }

both-Inv : Inv demo both
unfolding realtime senders_of
both-Inv = record {
  valid = (((λ e. cc), (refl, (refl, tt))), tt);
  registered = λ c. ground arith;
  fresh = omega arith;
  apart = omega arith;
}

-- A stranger is turned away; the pause of Bob reaches Ann's socket.
gateway_tests :
    ((step demo start (connect "eve" "c1")).1 ≡ unauthorized ∷ [])
    × ((step demo both (message 2 (text "bob pauses"))).1
        ≡ sent (record { to = 1; text = "status" }) ∷ [])
unfolding realtime step
gateway_tests = (refl, refl)

message-sent_iff_example :
    In
      (sent (record { to = 1; text = "status" }))
      (step demo both (message 2 (text "bob pauses"))).1
    ↔ (◌≢◌ {A = String} "ann" "bob")
unfolding find_socket
message-sent_iff_example =
    message-sent_iff demo both 2 (text "bob pauses") bob_socket refl (status bob_pause) ann_socket
      both-Inv bob_pauses-IsAuthorised (inl refl) refl refl

message-sent_example :
    (f : InboundFrame) × (t : Socket) × IsAuthorised demo calm bob (text "bob pauses") f
    × In t both.sockets
    × (t.convoy_id ≡ "c1")
    × (t.member_id ≢ "bob")
    × (t.is_open ≡ true)
    × (◌≡◌ {A = Delivery}
        (record { to = 1; text = "status" })
        (record { to = t.conn; text = kind_of f }))
unfolding realtime step
message-sent_example =
    message-sent demo both 2 (text "bob pauses") bob_socket refl
      (record { to = 1; text = "status" }) both-Inv (inl refl)
