-- ===== src/FrameHandler/Task/Conform.antt =====
-- backend/src/realtime/frame_handler.ts and wire.ts: interleaved calls and the schema of the stored
-- world state.
use crew_link.Base.{ℕ, String, Bool, some, ◌≡◌, inl, inr}
use crew_link.Wire.{InboundFrame, hazard_remove}
use crew_link.Snapshot.{SnapshotView}
use crew_link.FrameHandler.{Services, World, Origin}
use crew_link.FrameHandler.Conform.{
  Conforms, Meets, IsSoundParse, decode-Meets, fold_frame-Conforms,
}
use crew_link.FrameHandler.Task.{
  Pc, received, asked_reporter, told_reporter, asked_leader, told_leader, ended,
}
use crew_link.FrameHandler.Task.Commits.{Permits}
use crew_link.FrameHandler.Task.Keeps.{TurnFolds, Reach-IsAccepted, turn-TurnKeeps}
use crew_link.FrameHandler.Task.Runs.{Follows, Reach-Holds}
use crew_link.FrameHandler.Task.System.{System, Reach, IsIdle, turned}

module _ (env : Services) (is_datetime : String → Bool) (sound : IsSoundParse env is_datetime) where
  -- The frame that a task holds meets the schema.
  abbrev IsMet : Origin → Pc → Type 0
  IsMet o (received raw) = Unit {0}
  IsMet o (asked_reporter p) = Meets is_datetime (hazard_remove p)
  IsMet o (told_reporter p answer) = Meets is_datetime (hazard_remove p)
  IsMet o (asked_leader f) = Meets is_datetime f
  IsMet o (told_leader f answer) = Meets is_datetime f
  IsMet o ended = Unit {0}

  IsMet-Follows : (w : World env) (o : Origin) (pc : Pc) → IsMet o pc → Follows env (IsMet o) w o pc
  IsMet-Follows w o (received raw) h = (
    λ p d. decode-Meets env is_datetime sound raw (hazard_remove p) d,
    λ f d led. decode-Meets env is_datetime sound raw f d,
  )
  IsMet-Follows w o (asked_reporter p) h = h
  IsMet-Follows w o (told_reporter p answer) h = tt
  IsMet-Follows w o (asked_leader f) h = h
  IsMet-Follows w o (told_leader f answer) h = tt
  IsMet-Follows w o ended h = tt

  Permits-Meets :
      (w : World env) (o : Origin) (pc : Pc) (f : InboundFrame)
      → IsMet o pc
      → Permits env w o pc f
      → Meets is_datetime f
  Permits-Meets w o (received raw) f h (d, own, direct) = decode-Meets env is_datetime sound raw f d
  Permits-Meets w o (told_reporter p answer) f h (same, told) = rw same h
  Permits-Meets w o (told_leader g answer) f h (same, told) = rw same h
  Permits-Meets w o (asked_reporter p) f h e = elim e [ ]
  Permits-Meets w o (asked_leader g) f h e = elim e [ ]
  Permits-Meets w o ended f h e = elim e [ ]

  TurnFolds-Conforms :
      (w : World env) (o : Origin) (pc : Pc) (v v' : SnapshotView) (j : String)
      → IsMet o pc
      → Conforms is_datetime v
      → TurnFolds env w o pc v v' j
      → Conforms is_datetime v'
  TurnFolds-Conforms w o pc v v' j h c (inl same) = rw same c
  TurnFolds-Conforms w o pc v v' j h c (inr (f, p, here, folded)) =
      rw folded (fold_frame-Conforms is_datetime v f c (Permits-Meets w o pc f h p))

  -- The parser accepts only values within the schema. In a run of interleaved calls that starts
  -- with none under way, a turn in a state whose store is valid, and whose stored hazards, routes
  -- and waypoints of every convoy are within their schemas, leaves them and the store so.
  pub turned-Conforms :
      {s t : System env} (i : ℕ) (σ : env.snapshot_store.State)
      → IsIdle env s
      → Reach env (λ _. Unit {0}) s t
      → t.world.snapshots ≡ some σ
      → env.snapshot_store.IsValid σ
      → ((j : String) → Conforms is_datetime (env.snapshot_store.view σ j))
      → (σ' : env.snapshot_store.State) × ((turned env t i).world.snapshots ≡ some σ')
        × env.snapshot_store.IsValid σ'
        × ((j : String) → Conforms is_datetime (env.snapshot_store.view σ' j))
  unfolding turned
  turned-Conforms {s} {t} i σ idle r e v c =
      let task = t.tasks i in
      let met : IsMet task.origin task.pc =
        Reach-Holds env (λ _. Unit {0}) IsMet (λ o. tt) (λ o raw. tt)
          (λ w o pc p h. IsMet-Follows w o pc h) idle r i in
      let (σ', after, v', folds) =
        turn-TurnKeeps env t.world task.origin task.pc σ (Reach-IsAccepted env idle r i) e v in
      (σ', after, v', λ j. TurnFolds-Conforms t.world task.origin task.pc _ _ j met (c j) (folds j))
