-- ===== src/Server/Sockets.antt =====
-- backend/src/server.ts and backend/src/realtime/convoy_gateway.ts: the sockets that the gateway of a
-- built app opens.
use crew_link.Base.{String, none, some, In, In-append, ◌≡◌, ◌⊎◌, inl, inr, sym, ap, ◌∙◌}
use crew_link.Promise.{Promise-cases}
use crew_link.Db.{Tables}
use crew_link.Config.{production}
use crew_link.FrameHandler.{Services}
use crew_link.Gateway
use crew_link.Gateway.{Socket, connect, on_connect, open_socket, step}
use crew_link.Server.{Platform, BuildOptions, App, built, build_app, member_resolver}
use crew_link.Server.Members.{IsVerifiedMember, production_token-IsVerifiedMember}

opened-In :
    (env : Services) (srv : Gateway.Server env) (member c : String) (s : Socket)
    → In s (open_socket env srv member c).sockets
    → In s srv.sockets ⊎ ((s.convoy_id ≡ c) × (s.member_id ≡ member))
unfolding open_socket
opened-In env srv member c s i = elim (In-append s srv.sockets _ i) [
  | inl before ↦ inl before
  | inr (inl e) ↦ inr (ap (λ x. x.convoy_id) e, ap (λ x. x.member_id) e)
  | inr (inr h) ↦ elim h [ ]
]

-- In production, with no injected verifier and resolver and with a database, a connect event leaves
-- the gateway with the sockets that it had, and with none else but one for the convoy asked for,
-- under the id of the subject of a token that was verified for the configured Firebase project, where
-- that id is a current member of the convoy.
pub connect-IsVerifiedMember :
    (env : Platform) (o : BuildOptions env.date_parse) (a : App env.date_parse) (url : String)
    (services : Services) (srv : Gateway.Server services) (token c : String) (t : Tables)
    (s : Socket)
    → o.env.node_env ≡ production
    → o.verify_token ≡ none
    → o.gateway.resolve_member ≡ none
    → o.env.database_url ≡ some url
    → build_app env o ≡ built a
    → srv.resolve_member token c ≡ member_resolver env.date_parse a.gateway token c t
    → In s (step services srv (connect token c)).0.sockets
    → In s srv.sockets ⊎ ((s.convoy_id ≡ c) × IsVerifiedMember env o token c s.member_id t)
unfolding step on_connect
connect-IsVerifiedMember env o a url services srv token c t s prod v g d e r i =
    elim (Promise-cases (srv.resolve_member token c)) [
      | inl n ↦ inl (rw (n, on_connect) at i)
      | inr (none, n) ↦ inl (rw (n, on_connect) at i)
      | inr (some member, n) ↦ elim (opened-In services srv member c s (rw (n, on_connect) at i)) [
        | inl before ↦ inl before
        | inr (same, owner) ↦
            let verified =
              production_token-IsVerifiedMember env o a url token c member t prod v g d e
                (sym r ∙ n) in
            inr (same, rw owner verified)
      ]
    ]
