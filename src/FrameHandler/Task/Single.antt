-- ===== src/FrameHandler/Task/Single.antt =====
-- backend/src/realtime/frame_handler.ts: the single turns of a call that passes its checks.
use crew_link.Base.{String, Bool, true, Option, some, ◌≡◌, inl, inr, refl, ap, ◌∙◌, arith, eq_refl}
use native.Mathlib.Decide.{ℕ_discrete}
use crew_link.Promise.{Promise, fulfilled}
use crew_link.Wire.{
  HazardPayload, HazardRemovePayload, InboundFrame, hazard, hazard_remove, tour, TourPayload,
  originator_of,
}
use crew_link.Snapshot.{fold_frame}
use crew_link.FrameHandler.{
  Services, World, Origin, Raw, Outcome, proceed, ◌>>=◌, ◌>>◌, guard, is_originator,
  originator_mismatch, decode, commit,
}
use crew_link.FrameHandler.Authorised.{
  IsOwn, is_originator_iff, guard_iff, await-is_reporter_iff, await-guard_iff,
}
use crew_link.FrameHandler.Commit.{decode-safe_parse, snapshots-commit}
use crew_link.FrameHandler.Takeover.{IsReliable}
use crew_link.FrameHandler.Task.{
  Pc, received, asked_reporter, told_reporter, asked_leader, told_leader, ended, quiet, turn,
  to_leader, to_reporter, own_frame, reporter_answer, leader_answer,
}
use crew_link.FrameHandler.Task.System.{Task, System, turned}

module _ (env : Services) where
  own_frame_lem :
      (o : Origin) (raw : Raw) (f : InboundFrame)
      → decode env raw ≡ proceed f
      → IsOwn o f
      → own_frame env o raw ≡ proceed f
  unfolding own_frame
  own_frame_lem o raw f d own =
      ap (λ c. c >>= λ g. guard (is_originator g o.member_id) originator_mismatch >> proceed g) d
      ∙ ap (λ c. c >> proceed f)
          ((guard_iff (is_originator f o.member_id) originator_mismatch).1
            ((is_originator_iff o f).1 own))

  to_reporter-asks :
      (w : World env) (o : Origin) (p : HazardRemovePayload) (s : env.snapshot_store.State)
      → w.snapshots ≡ some s
      → to_reporter env w o (hazard_remove p) ≡ (quiet env w, asked_reporter p)
  unfolding to_reporter
  to_reporter-asks w o p s e = ground arith

  to_leader-asks :
      (w : World env) (o : Origin) (p : TourPayload) (resolve : String → String → Promise Bool)
      → w.resolve_leader ≡ some resolve
      → to_leader env w o (tour p) ≡ (quiet env w, asked_leader (tour p))
  unfolding to_leader
  to_leader-asks w o p resolve e = ground arith

  module _ (w : World env) (o : Origin) (raw : Raw) where
    pub turn-hazard :
        (p : HazardPayload)
        → decode env raw ≡ proceed (hazard p)
        → IsOwn o (hazard p)
        → turn env w o (received raw) ≡ (commit env w o (hazard p), ended)
    unfolding turn to_reporter to_leader
    turn-hazard p d own = rw (own_frame_lem o raw (hazard p) d own) refl

    pub turn-removal :
        (p : HazardRemovePayload) (s : env.snapshot_store.State)
        → decode env raw ≡ proceed (hazard_remove p)
        → IsOwn o (hazard_remove p)
        → w.snapshots ≡ some s
        → turn env w o (received raw) ≡ (quiet env w, asked_reporter p)
    unfolding turn
    turn-removal p s d own e =
        rw (own_frame_lem o raw (hazard_remove p) d own) (to_reporter-asks w o p s e)

    pub turn-tour :
        (p : TourPayload) (resolve : String → String → Promise Bool)
        → decode env raw ≡ proceed (tour p)
        → w.resolve_leader ≡ some resolve
        → turn env w o (received raw) ≡ (quiet env w, asked_leader (tour p))
    unfolding turn to_reporter originator_of
    turn-tour p resolve d e =
        rw (own_frame_lem o raw (tour p) d (inl refl)) (to_leader-asks w o p resolve e)

  pub turn-told_leader :
      (w : World env) (o : Origin) (f : InboundFrame) (answer : Promise Bool)
      → answer ≡ fulfilled true
      → turn env w o (told_leader f answer) ≡ (commit env w o f, ended)
  unfolding turn
  turn-told_leader w o f answer e = rw ((await-guard_iff answer).1 e) refl

  pub turn-told_reporter :
      (w : World env) (o : Origin) (p : HazardRemovePayload) (answer : Promise (Option String))
      → answer ≡ fulfilled (some o.member_id)
      → turn env w o (told_reporter p answer) ≡ (commit env w o (hazard_remove p), ended)
  unfolding turn to_leader
  turn-told_reporter w o p answer e = rw ((await-is_reporter_iff answer o.member_id).1 (inr e)) refl

  pub turn-asked_reporter :
      (w : World env) (o : Origin) (p : HazardRemovePayload)
      → turn env w o (asked_reporter p) ≡ (quiet env w, told_reporter p (reporter_answer env w o p))
  unfolding turn
  turn-asked_reporter w o p = refl

  pub turn-asked_leader :
      (w : World env) (o : Origin) (f : InboundFrame)
      → turn env w o (asked_leader f) ≡ (quiet env w, told_leader f (leader_answer env w o))
  unfolding turn
  turn-asked_leader w o f = refl

  -- A commit that the store records, in the convoy's world state.
  pub view-commit :
      (w : World env) (o : Origin) (raw : Raw) (f : InboundFrame) (s : env.snapshot_store.State)
      → IsReliable env
      → decode env raw ≡ proceed f
      → w.snapshots ≡ some s
      → env.snapshot_store.IsValid s
      → (s' : env.snapshot_store.State) × ((commit env w o f).world.snapshots ≡ some s')
        × env.snapshot_store.IsValid s'
        × (env.snapshot_store.view s' o.convoy_id
            ≡ fold_frame (env.snapshot_store.view s o.convoy_id) f)
  view-commit w o raw f s reliable d e v =
      let (value, parsed) = decode-safe_parse env raw f d in
      let a = env.accepted value f parsed in
      (
        (env.snapshot_store.record_frame s o.convoy_id f).0,
        snapshots-commit env w o f s e,
        env.snapshot_store.record_frame-IsValid s o.convoy_id f a v,
        env.snapshot_store.view-record_frame s o.convoy_id o.convoy_id f a v
              (reliable.records s o.convoy_id f)
            ∙ rw (eq_refl o.convoy_id) refl,
      )

  -- Two of the calls at an instance, and the world that they find.
  abbrev pub IsAt : System env → World env → Task → Task → Type 0
  IsAt s w a b = (s.world ≡ w) × (s.tasks 0 ≡ a) × (s.tasks 1 ≡ b)

  pub turned-IsAt_first :
      (s : System env) (w : World env) (a b : Task) {out : Outcome env} {pc : Pc}
      → IsAt s w a b
      → turn env w a.origin a.pc ≡ (out, pc)
      → IsAt (turned env s 0) out.world (record { origin = a.origin; pc = pc }) b
  unfolding turned ℕ_discrete
  turned-IsAt_first s w a b (ew, ea, eb) e = (
    (λ i. (turn env (ew i) (ea i).origin (ea i).pc).0.world)
        ∙ ap (λ (x : Outcome env × Pc). x.0.world) e,
    (λ i. record { origin = (ea i).origin; pc = (turn env (ew i) (ea i).origin (ea i).pc).1 })
        ∙ ap (λ (x : Outcome env × Pc). record { origin = a.origin; pc = x.1 }) e,
    eb,
  )

  pub turned-IsAt_second :
      (s : System env) (w : World env) (a b : Task) {out : Outcome env} {pc : Pc}
      → IsAt s w a b
      → turn env w b.origin b.pc ≡ (out, pc)
      → IsAt (turned env s 1) out.world a (record { origin = b.origin; pc = pc })
  unfolding turned ℕ_discrete
  turned-IsAt_second s w a b (ew, ea, eb) e = (
    (λ i. (turn env (ew i) (eb i).origin (eb i).pc).0.world)
        ∙ ap (λ (x : Outcome env × Pc). x.0.world) e,
    ea,
    (λ i. record { origin = (eb i).origin; pc = (turn env (ew i) (eb i).origin (eb i).pc).1 })
        ∙ ap (λ (x : Outcome env × Pc). record { origin = b.origin; pc = x.1 }) e,
  )
