-- ===== src/Gateway/Delivered.antt =====
-- backend/src/realtime/convoy_gateway.ts: which sockets a message of a socket reaches.
use crew_link.Base.{
  ℕ, String, true, some, List, [], ◌∷◌, In, All-In, ◌==◌, ◌≡◌, ◌≢◌, ◌↔◌, ◌⊎◌, refl, sym, ap, ◌∙◌,
  arith, eq_iff, eq_refl, Bool-cases, inl, inr,
}
use mathlib.Core.Path.{subst}
use crew_link.Fanout.Pool.{LocalSender, Delivery, deliveries, In-deliveries, deliveries-In}
use crew_link.FrameHandler.{Services, Raw, Origin, handle_frame}
use crew_link.FrameHandler.Authorised.{IsAuthorised}
use crew_link.FrameHandler.Commit.{sent-deliveries, handle_frame-cases}
use crew_link.Wire.{InboundFrame}
use crew_link.Gateway.{
  Socket, sent, message, find_socket, is_open_conn, send_open, sender, Server, on_message,
  with_socket, step,
}
use crew_link.Gateway.Registered.{senders_of, IsApart}
use crew_link.Gateway.Invariant.{Inv}

In-senders_of :
    (x : LocalSender) (c : String) (sockets : List Socket)
    → In x (senders_of c sockets)
    → (t : Socket) × In t sockets × (t.convoy_id ≡ c) × (x ≡ sender t)
unfolding senders_of
In-senders_of x c [] i = elim i [ ]
In-senders_of x c (s ∷ sockets) i = elim (Bool-cases (s.convoy_id == c)) [
  | inl same ↦ elim (here (rw same at i)) [
    | inl e ↦ (s, inl refl, (eq_iff s.convoy_id c).0 same, e)
    | inr i' ↦ let (t, there, e, k) = In-senders_of x c sockets i' in (t, inr there, e, k)
  ]
  | inr apart ↦
      let (t, there, e, k) = In-senders_of x c sockets (rw apart at i) in (t, inr there, e, k)
]
  where
    here : In x (sender s ∷ senders_of c sockets) → (x ≡ sender s) ⊎ In x (senders_of c sockets)
    here i = i

senders_of-In :
    (t : Socket) (sockets : List Socket)
    → In t sockets
    → In (sender t) (senders_of t.convoy_id sockets)
unfolding senders_of
senders_of-In t [] i = elim i [ ]
senders_of-In t (s ∷ sockets) (inl e) = ground (arith, eq_refl t.convoy_id)
senders_of-In t (s ∷ sockets) (inr i) = ground (arith, senders_of-In t sockets i)

-- A socket's own flag decides.
In-is_open_conn :
    (t : Socket) (sockets : List Socket)
    → IsApart sockets
    → In t sockets
    → is_open_conn sockets t.conn ≡ t.is_open
unfolding is_open_conn
In-is_open_conn t [] a i = elim i [ ]
In-is_open_conn t (s ∷ sockets) a (inl e) = ground arith
In-is_open_conn t (s ∷ sockets) a (inr i) = ground (
  arith,
  In-is_open_conn t sockets a.1 i,
  All-In (λ (u : Socket). u.conn ≢ s.conn) sockets t a.0 i,
)

In-send_open :
    (d : Delivery) (sockets : List Socket) (ds : List Delivery)
    → In (sent d) (send_open sockets ds)
    → In d ds × (is_open_conn sockets d.to ≡ true)
unfolding send_open
In-send_open d sockets [] i = elim i [ ]
In-send_open d sockets (x ∷ ds) i = ground (arith, In-send_open d sockets ds)

send_open-In :
    (d : Delivery) (sockets : List Socket) (ds : List Delivery)
    → In d ds
    → is_open_conn sockets d.to ≡ true
    → In (sent d) (send_open sockets ds)
unfolding send_open
send_open-In d sockets [] i o = elim i [ ]
send_open-In d sockets (x ∷ ds) i o = ground (arith, send_open-In d sockets ds)

-- A connection belongs to one socket.
IsApart-In :
    (t u : Socket) (sockets : List Socket)
    → IsApart sockets
    → In t sockets
    → In u sockets
    → t.conn ≡ u.conn
    → t ≡ u
IsApart-In t u [] a i j e = elim i [ ]
IsApart-In t u (s ∷ sockets) a (inl h) (inl k) e = cc
IsApart-In t u (s ∷ sockets) a (inl h) (inr k) e =
    absurd (All-In (λ (x : Socket). x.conn ≢ s.conn) sockets u a.0 k (sym e ∙ ap (λ x. x.conn) h))
IsApart-In t u (s ∷ sockets) a (inr h) (inl k) e =
    absurd (All-In (λ (x : Socket). x.conn ≢ s.conn) sockets t a.0 h (e ∙ ap (λ x. x.conn) k))
IsApart-In t u (s ∷ sockets) a (inr h) (inr k) e = IsApart-In t u sockets a.1 h k e

module _ (env : Services) (srv : Server env) (n : ℕ) (raw : Raw) (s : Socket)
    (found : find_socket n srv.sockets ≡ some s) where
  abbrev origin : Origin
  origin = record { member_id = s.member_id; convoy_id = s.convoy_id }

  outputs_lem :
      (step env srv (message n raw)).1
      ≡ send_open srv.sockets (handle_frame env srv.world origin raw).sent
  unfolding step with_socket on_message
  outputs_lem = rw (found, step, with_socket, on_message)

  sent_lem :
      (f : InboundFrame)
      → Inv env srv
      → IsAuthorised env srv.world origin raw f
      → (handle_frame env srv.world origin raw).sent
        ≡ deliveries (senders_of s.convoy_id srv.sockets) (env.json_stringify f) s.member_id
  sent_lem f v a =
      sent-deliveries env srv.world origin raw f a
      ∙ ap (λ pool. deliveries pool (env.json_stringify f) s.member_id) (v.registered s.convoy_id)

  -- An open socket of the sender's convoy is sent the frame exactly if it is another member's.
  pub message-sent_iff :
      (f : InboundFrame) (t : Socket)
      → Inv env srv
      → IsAuthorised env srv.world origin raw f
      → In t srv.sockets
      → t.is_open ≡ true
      → t.convoy_id ≡ s.convoy_id
      → In
          (sent (record { to = t.conn; text = env.json_stringify f }))
          (step env srv (message n raw)).1
        ↔ (t.member_id ≢ s.member_id)
  message-sent_iff f t v a i opened same =
      rw (outputs_lem, sent_lem f v a)
        (
          (λ j. other (In-deliveries _ _ _ _ (In-send_open _ srv.sockets _ j).0)),
          λ apart.
              send_open-In _ srv.sockets _
                (deliveries-In (sender t) _ _ _
                  (subst (λ c. In (sender t) (senders_of c srv.sockets)) same
                    (senders_of-In t srv.sockets i))
                  apart)
                (In-is_open_conn t srv.sockets v.apart i ∙ opened),
        )
    where
      other :
          (x : LocalSender) × In x (senders_of s.convoy_id srv.sockets)
            × (x.member_id ≢ s.member_id)
            × (◌≡◌ {A = Delivery}
                (record { to = t.conn; text = env.json_stringify f })
                (record { to = x.conn; text = env.json_stringify f }))
          → t.member_id ≢ s.member_id
      other (x, there, apart, e) =
          let (u, i', _, k) = In-senders_of x s.convoy_id srv.sockets there in
          let one : t ≡ u =
            IsApart-In t u srv.sockets v.apart i i' (ap (λ d. d.to) e ∙ ap (λ y. y.conn) k) in
          λ m. apart (ap (λ y. y.member_id) k ∙ (sym (ap (λ y. y.member_id) one) ∙ m))

  -- Where the fan-out agrees with the sockets, all that a message makes an instance send is the text
  -- of an authorised frame, to open sockets of other members of the sender's convoy.
  pub message-sent :
      (d : Delivery)
      → Inv env srv
      → In (sent d) (step env srv (message n raw)).1
      → (f : InboundFrame) × (t : Socket) × IsAuthorised env srv.world origin raw f
        × In t srv.sockets
        × (t.convoy_id ≡ s.convoy_id)
        × (t.member_id ≢ s.member_id)
        × (t.is_open ≡ true)
        × (d ≡ record { to = t.conn; text = env.json_stringify f })
  message-sent d v i =
      let sent_once = In-send_open d srv.sockets _ (rw outputs_lem at i) in
      elim (handle_frame-cases env srv.world origin raw) [
        | inl (f, a, _) ↦
            let (x, there, apart, e) = In-deliveries d _ _ _ (rw (sent_lem f v a) at sent_once.0) in
            let (t, i', same, k) = In-senders_of x s.convoy_id srv.sockets there in
            (
              f,
              t,
              a,
              i',
              same,
              (λ m. apart (ap (λ y. y.member_id) k ∙ m)),
              sym (In-is_open_conn t srv.sockets v.apart i')
                  ∙ ap (is_open_conn srv.sockets) (sym (ap (λ y. y.to) e ∙ ap (λ y. y.conn) k))
                  ∙ sent_once.1,
              e ∙ ap (λ y. record { to = y.conn; text = env.json_stringify f }) k,
            )
        | inr (_, _, nothing) ↦ elim (subst (In d) nothing sent_once.0) [ ]
      ]
