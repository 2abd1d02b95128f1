-- ===== src/FrameHandler/Task/Keeps.antt =====
-- backend/src/realtime/frame_handler.ts: what a turn makes of the stored world state.
use crew_link.Base.{ℕ, String, some, ◌==◌, ◌≡◌, ◌⊎◌, inl, inr, refl, ap, ◌∙◌, Bool-cases, eq_iff}
use crew_link.Wire.{InboundFrame, hazard_remove}
use crew_link.Snapshot.{SnapshotView, fold_frame}
use crew_link.FrameHandler.{Services, World, Origin, Raw, proceed, decode, Outcome}
use crew_link.FrameHandler.Commit.{decode-safe_parse, snapshots-commit}
use crew_link.FrameHandler.Task.{
  Pc, received, asked_reporter, told_reporter, asked_leader, told_leader, ended, turn,
}
use crew_link.FrameHandler.Task.Commits.{Permits, turn-Turns}
use crew_link.FrameHandler.Task.Runs.{Follows, Reach-Holds}
use crew_link.FrameHandler.Task.System.{System, Reach, IsIdle}

module _ (env : Services) where
  decode-accepts :
      (raw : Raw) (f : InboundFrame) → decode env raw ≡ proceed f → env.snapshot_store.Accepts f
  decode-accepts raw f d = let (v, e) = decode-safe_parse env raw f d in env.accepted v f e

  -- The frame that a task holds is one that the store can keep.
  abbrev pub IsAccepted : Origin → Pc → Type 0
  IsAccepted o (received raw) = Unit {0}
  IsAccepted o (asked_reporter p) = env.snapshot_store.Accepts (hazard_remove p)
  IsAccepted o (told_reporter p answer) = env.snapshot_store.Accepts (hazard_remove p)
  IsAccepted o (asked_leader f) = env.snapshot_store.Accepts f
  IsAccepted o (told_leader f answer) = env.snapshot_store.Accepts f
  IsAccepted o ended = Unit {0}

  IsAccepted-Follows :
      (w : World env) (o : Origin) (pc : Pc) → IsAccepted o pc → Follows env (IsAccepted o) w o pc
  IsAccepted-Follows w o (received raw) h =
      (λ p d. decode-accepts raw (hazard_remove p) d, λ f d led. decode-accepts raw f d)
  IsAccepted-Follows w o (asked_reporter p) h = h
  IsAccepted-Follows w o (told_reporter p answer) h = tt
  IsAccepted-Follows w o (asked_leader f) h = h
  IsAccepted-Follows w o (told_leader f answer) h = tt
  IsAccepted-Follows w o ended h = tt

  pub Reach-IsAccepted :
      {P : World env → Type 0} {s t : System env}
      → IsIdle env s
      → Reach env P s t
      → (i : ℕ) → IsAccepted (t.tasks i).origin (t.tasks i).pc
  Reach-IsAccepted {P} idle r =
      Reach-Holds env P IsAccepted (λ o. tt) (λ o raw. tt)
        (λ w o pc p h. IsAccepted-Follows w o pc h) idle r

  Permits-Accepts :
      (w : World env) (o : Origin) (pc : Pc) (f : InboundFrame)
      → IsAccepted o pc
      → Permits env w o pc f
      → env.snapshot_store.Accepts f
  Permits-Accepts w o (received raw) f h (d, own, direct) = decode-accepts raw f d
  Permits-Accepts w o (told_reporter p answer) f h (same, told) = rw same h
  Permits-Accepts w o (told_leader g answer) f h (same, told) = rw same h
  Permits-Accepts w o (asked_reporter p) f h e = elim e [ ]
  Permits-Accepts w o (asked_leader g) f h e = elim e [ ]
  Permits-Accepts w o ended f h e = elim e [ ]

  -- What a turn makes of one convoy's world state: nothing, or the fold of a frame that it may
  -- commit.
  abbrev pub TurnFolds : World env → Origin → Pc → SnapshotView → SnapshotView → String → Type 0
  TurnFolds w o pc v v' j =
      (v' ≡ v)
      ⊎ ((f : InboundFrame) × Permits env w o pc f × (o.convoy_id ≡ j) × (v' ≡ fold_frame v f))

  commit-TurnFolds :
      (w : World env) (o : Origin) (pc : Pc) (f : InboundFrame) (s : env.snapshot_store.State)
      (j : String)
      → env.snapshot_store.IsValid s
      → env.snapshot_store.Accepts f
      → Permits env w o pc f
      → TurnFolds w o pc
          (env.snapshot_store.view s j)
          (env.snapshot_store.view (env.snapshot_store.record_frame s o.convoy_id f).0 j)
          j
  commit-TurnFolds w o pc f s j v a p =
      elim (env.snapshot_store.view-record_frame_any s o.convoy_id j f a v) [
        | inl e ↦ elim (Bool-cases (o.convoy_id == j)) [
          | inl same ↦ inr (f, p, (eq_iff o.convoy_id j).0 same, rw same at e)
          | inr other ↦ inl (rw other at e)
        ]
        | inr e ↦ inl e
      ]

  abbrev pub TurnKeeps : World env → Origin → Pc → env.snapshot_store.State → Type 0
  TurnKeeps w o pc s =
      (s' : env.snapshot_store.State) × ((turn env w o pc).0.world.snapshots ≡ some s')
      × env.snapshot_store.IsValid s'
      × ((j : String)
          → TurnFolds w o pc (env.snapshot_store.view s j) (env.snapshot_store.view s' j) j)

  pub turn-TurnKeeps :
      (w : World env) (o : Origin) (pc : Pc) (s : env.snapshot_store.State)
      → IsAccepted o pc
      → w.snapshots ≡ some s
      → env.snapshot_store.IsValid s
      → TurnKeeps w o pc s
  turn-TurnKeeps w o pc s h e v = elim (turn-Turns env w o pc) [
    | inl same ↦ (s, ap (λ (x : World env). x.snapshots) same ∙ e, v, λ j. inl refl)
    | inr (f, p, done, stops) ↦
        let a = Permits-Accepts w o pc f h p in
        (
          (env.snapshot_store.record_frame s o.convoy_id f).0,
          ap (λ (out : Outcome env). out.world.snapshots) done ∙ snapshots-commit env w o f s e,
          env.snapshot_store.record_frame-IsValid s o.convoy_id f a v,
          λ j. commit-TurnFolds w o pc f s j v a p,
        )
  ]
