-- ===== src/Gateway/Invariant.antt =====
-- backend/src/realtime/convoy_gateway.ts: after any events the fan-out knows exactly the sockets
-- that are connected, each under the member that its token was resolved to.
use crew_link.Base.{
  ℕ, suc, ◌<◌, ℤ, String, false, Option, none, some, List, [], ◌∷◌, ◌++◌, All-append, ◌==◌, ◌≡◌,
  refl, sym, ◌∙◌, arith, eq_iff, Bool-cases, Option-cases, inl, inr,
}
use crew_link.Promise.{Promise, fulfilled, rejected}
use crew_link.Fanout.Pool.{remove_conn, add_conn_new}
use mathlib.Core.Path.{subst}
use crew_link.Wire.{GpsPayload}
use crew_link.Heartbeat
use crew_link.Heartbeat.{Beat, start_heartbeat}
use crew_link.FrameHandler.{Services, Raw}
use crew_link.FrameHandler.Commit.{connections-handle_frame}
use crew_link.Gateway.{
  Socket, Output, Event, connect, message, positions_loaded, snapshot_loaded, beats, closing,
  closed, resolvers, find_socket, remove_socket, sender, Server, open_socket, on_connect,
  on_message, on_positions, on_snapshot, on_beat, on_closed, with_socket, step, run,
}
use crew_link.Gateway.Registered.{
  senders_of, Below, IsApart, Below-suc, Below-has_conn, append-IsApart, senders_of-append,
  remove_socket-Below, remove_socket-IsApart, senders_of-remove_self, senders_of-remove_other,
  set_open-senders_of, set_beat-senders_of, set_open-All, set_beat-All, set_open-IsApart,
  set_beat-IsApart, find_socket-conn,
}

module _ (env : Services) where
  pub record Inv (srv : Server env) : Type 0 where
    pub valid : env.fanout.IsValid srv.world.connections
    pub registered :
        (c : String) → env.fanout.pool srv.world.connections c ≡ senders_of c srv.sockets
    pub fresh : Below srv.next_conn srv.sockets
    pub apart : IsApart srv.sockets

  registered-add :
      (srv : Server env) (s : Socket) (c : String)
      → Inv srv
      → s.conn ≡ srv.next_conn
      → env.fanout.pool
          (env.fanout.add_local_connection srv.world.connections s.convoy_id (sender s))
          c
        ≡ senders_of c (srv.sockets ++ s ∷ [])
  registered-add srv s c v e = elim (Bool-cases (s.convoy_id == c)) [
    | inl same ↦
        rw
          (
            env.fanout.pool-add srv.world.connections s.convoy_id (sender s) c,
            same,
            v.registered c,
            senders_of-append c srv.sockets s,
            same,
          )
          (add_conn_new (sender s) (senders_of c srv.sockets)
            (Below-has_conn (sender s) c srv.sockets (below s e)))
    | inr other ↦
        rw
          (
            env.fanout.pool-add srv.world.connections s.convoy_id (sender s) c,
            other,
            senders_of-append c srv.sockets s,
            other,
          )
          (v.registered c)
  ]
    where
      below : (s : Socket) → s.conn ≡ srv.next_conn → Below s.conn srv.sockets
      below s e = rw e v.fresh

  open_socket-Inv :
      (srv : Server env) (member convoy : String)
      → Inv srv
      → Inv (open_socket env srv member convoy)
  unfolding open_socket
  open_socket-Inv srv member convoy v = record {
    valid = env.fanout.add-IsValid srv.world.connections convoy _ v.valid;
    registered = λ c. registered-add srv _ c v refl;
    fresh =
        All-append (λ s. s.conn < suc srv.next_conn) srv.sockets _
          (Below-suc srv.next_conn srv.sockets v.fresh) (omega arith, tt);
    apart = append-IsApart _ srv.sockets v.fresh v.apart;
  }

  on_connect-Inv :
      (srv : Server env) (token convoy : String) → Inv srv → Inv (on_connect env srv token convoy).0
  unfolding on_connect
  on_connect-Inv srv token convoy v = go (srv.resolve_member token convoy) refl
    where
      go :
          (answer : Promise (Option String))
          → srv.resolve_member token convoy ≡ answer
          → Inv (on_connect env srv token convoy).0
      go rejected e = rw (e, on_connect) v
      go (fulfilled none) e = rw (e, on_connect) v
      go (fulfilled (some member)) e = rw (e, on_connect) (open_socket-Inv srv member convoy v)

  registered-remove :
      (srv : Server env) (s : Socket)
      → Inv srv
      → find_socket s.conn srv.sockets ≡ some s
      → (c : String)
      → env.fanout.pool (env.fanout.unregister srv.world.connections s.convoy_id (sender s)) c
        ≡ senders_of c (remove_socket s.conn srv.sockets)
  registered-remove srv s v e c = elim (Bool-cases (s.convoy_id == c)) [
    | inl same ↦
        rw
          (
            env.fanout.pool-unregister srv.world.connections s.convoy_id (sender s) c v.valid,
            same,
            v.registered c,
          )
          (subst
            (λ k.
              remove_conn (sender s) (senders_of k srv.sockets)
              ≡ senders_of k (remove_socket s.conn srv.sockets))
            ((eq_iff s.convoy_id c).0 same) (sym (senders_of-remove_self s srv.sockets)))
    | inr other ↦
        rw
          (env.fanout.pool-unregister srv.world.connections s.convoy_id (sender s) c v.valid, other)
          (v.registered c
            ∙ sym (
                senders_of-remove_other s srv.sockets c v.apart e
                  (λ same. cc ((eq_iff s.convoy_id c).1 same))))
  ]

  on_closed-Inv :
      (srv : Server env) (s : Socket)
      → Inv srv
      → find_socket s.conn srv.sockets ≡ some s
      → Inv (on_closed env srv s).0
  unfolding on_closed
  on_closed-Inv srv s v e = record {
    valid = env.fanout.unregister-IsValid srv.world.connections s.convoy_id (sender s) v.valid;
    registered = registered-remove srv s v e;
    fresh = remove_socket-Below s.conn srv.next_conn srv.sockets v.fresh;
    apart = remove_socket-IsApart s.conn srv.sockets v.apart;
  }

  with_socket-Inv :
      (srv : Server env) (n : ℕ) (act : Socket → Server env × List Output)
      → Inv srv
      → ((s : Socket) → find_socket s.conn srv.sockets ≡ some s → Inv (act s).0)
      → Inv (with_socket env srv n act).0
  unfolding with_socket
  with_socket-Inv srv n act v keeps = elim (Option-cases (find_socket n srv.sockets)) [
    | inl e ↦ rw (e, with_socket) v
    | inr (s, e) ↦
        rw (e, with_socket)
          (keeps s (
            subst (λ k. find_socket k srv.sockets ≡ some s)
              (sym (find_socket-conn n srv.sockets s e)) e))
  ]

  on_message-Inv :
      (srv : Server env) (s : Socket) (raw : Raw) → Inv srv → Inv (on_message env srv s raw).0
  unfolding on_message
  on_message-Inv srv s raw v =
      let (valid, pools) =
        connections-handle_frame env srv.world
          (record { member_id = s.member_id; convoy_id = s.convoy_id }) raw in
      record {
        valid = valid v.valid;
        registered = λ c. pools c ∙ v.registered c;
        fresh = v.fresh;
        apart = v.apart;
      }

  on_positions-Inv : (srv : Server env) (s : Socket) → Inv srv → Inv (on_positions env srv s).0
  unfolding on_positions
  on_positions-Inv srv s v = elim (Option-cases srv.world.positions) [
    | inl e ↦ rw (e, on_positions) v
    | inr (positions, e) ↦
        go positions e (env.position_store.load_snapshot positions s.convoy_id s.member_id) refl
  ]
    where
      go :
          (positions : env.position_store.State)
          → srv.world.positions ≡ some positions
          → (answer : Promise (List GpsPayload))
          → env.position_store.load_snapshot positions s.convoy_id s.member_id ≡ answer
          → Inv (on_positions env srv s).0
      go positions e rejected a = rw (e, on_positions, a) v
      go positions e (fulfilled ps) a = rw (e, on_positions, a) v

  on_snapshot-Inv :
      (srv : Server env) (ts : ℤ) (s : Socket) → Inv srv → Inv (on_snapshot env srv ts s).0
  unfolding on_snapshot
  on_snapshot-Inv srv ts s v = elim (Option-cases srv.world.snapshots) [
    | inl e ↦ rw (e, on_snapshot) v
    | inr (snapshots, e) ↦
        rw (e, on_snapshot)
          (record { valid = v.valid; registered = v.registered; fresh = v.fresh; apart = v.apart })
  ]

  on_beat-Inv :
      (srv : Server env) (s : Socket) (e : Heartbeat.Event) → Inv srv → Inv (on_beat env srv s e).0
  unfolding on_beat
  on_beat-Inv srv s e v = record {
    valid = v.valid;
    registered = λ c. v.registered c ∙ sym (set_beat-senders_of s.conn _ c srv.sockets);
    fresh = set_beat-All (λ k. k < srv.next_conn) s.conn _ srv.sockets v.fresh;
    apart = set_beat-IsApart s.conn _ srv.sockets v.apart;
  }

  -- Every event keeps the invariant.
  pub step-Inv : (srv : Server env) (e : Event) → Inv srv → Inv (step env srv e).0
  unfolding step
  step-Inv srv (connect token convoy) v = on_connect-Inv srv token convoy v
  step-Inv srv (message n raw) v = with_socket-Inv srv n _ v λ s _. on_message-Inv srv s raw v
  step-Inv srv (positions_loaded n) v = with_socket-Inv srv n _ v λ s _. on_positions-Inv srv s v
  step-Inv srv (snapshot_loaded ts n) v =
      with_socket-Inv srv n _ v λ s _. on_snapshot-Inv srv ts s v
  step-Inv srv (beats n e) v = with_socket-Inv srv n _ v λ s _. on_beat-Inv srv s e v
  step-Inv srv (closing n) v = record {
    valid = v.valid;
    registered = λ c. v.registered c ∙ sym (set_open-senders_of n false c srv.sockets);
    fresh = set_open-All (λ k. k < srv.next_conn) n false srv.sockets v.fresh;
    apart = set_open-IsApart n false srv.sockets v.apart;
  }
  step-Inv srv (closed n) v = with_socket-Inv srv n _ v λ s e. on_closed-Inv srv s v e
  step-Inv srv (resolvers member leader) v = record {
    valid = v.valid;
    registered = v.registered;
    fresh = v.fresh;
    apart = v.apart;
  }

  -- So it holds after any run.
  pub run-Inv : (srv : Server env) (es : List Event) → Inv srv → Inv (run env srv es).0
  unfolding run
  run-Inv srv [] v = v
  run-Inv srv (e ∷ es) v = run-Inv (step env srv e).0 es (step-Inv srv e v)
