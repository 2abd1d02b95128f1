-- ===== src/FrameHandler/Task/Settled.antt =====
-- backend/src/realtime/frame_handler.ts: what a call has done when it has taken its turns.
use crew_link.Base.{ℕ, ◌≤◌, some, [], ◌≡◌, ◌⊎◌, inl, inr, refl, ap, ◌∙◌}
use crew_link.Wire.{InboundFrame}
use crew_link.Fanout.Pool.{deliveries}
use crew_link.FrameHandler.{Services, World, Origin, Raw, Outcome, handle_frame, commit}
use crew_link.FrameHandler.Authorised.{IsAuthorised}
use crew_link.FrameHandler.Commit.{handle_frame-cases, sent-deliveries, snapshots-commit}
use crew_link.FrameHandler.Task.{received, ended, alone}
use crew_link.FrameHandler.Task.Alone.{alone-handle_frame}

module _ (env : Services) (w : World env) (o : Origin) where
  -- The frame is sent to the pool, and recorded where a store is configured.
  abbrev pub Relays : InboundFrame → Outcome env → Type 0
  Relays f out =
      (out.sent
        ≡ deliveries (env.fanout.pool w.connections o.convoy_id) (env.json_stringify f) o.member_id)
      × ((s : env.snapshot_store.State)
          → w.snapshots ≡ some s
          → out.world.snapshots ≡ some (env.snapshot_store.record_frame s o.convoy_id f).0)

  relayed :
      (raw : Raw) (f : InboundFrame)
      → IsAuthorised env w o raw f
      → handle_frame env w o raw ≡ commit env w o f
      → Relays f (handle_frame env w o raw)
  relayed raw f a done = (
    sent-deliveries env w o raw f a,
    λ s e. ap (λ out. out.world.snapshots) done ∙ snapshots-commit env w o f s e,
  )

  -- After three turns or more with nothing in between, a call has ended, and either it has sent
  -- an authorised frame to the other members' connections of its convoy and handed it to the
  -- store, if there is one, or no frame of the message is authorised and it has sent nothing and
  -- left the state as it was.
  pub alone-cases :
      (n : ℕ) (raw : Raw)
      → 3 ≤ n
      → ((alone env n w o (received raw)).1 ≡ ended)
        × (((f : InboundFrame) × IsAuthorised env w o raw f
              × Relays f (alone env n w o (received raw)).0)
            ⊎ (((f : InboundFrame) → ¬ IsAuthorised env w o raw f)
                × ((alone env n w o (received raw)).0.world ≡ w)
                × ((alone env n w o (received raw)).0.sent ≡ [])))
  alone-cases n raw h = rw (alone-handle_frame env n w o raw h) (
    refl,
    elim (handle_frame-cases env w o raw) [
      | inl (f, a, done) ↦ inl (f, a, relayed raw f a done)
      | inr refused ↦ inr refused
    ],
  )
