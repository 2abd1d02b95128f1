-- ===== src/FrameHandler/Task/Answers.antt =====
-- backend/src/realtime/frame_handler.ts: what the awaited queries answer.
use crew_link.Base.{String, Bool, Option, some, ◌≡◌, arith, ap, sym, ◌∙◌}
use mathlib.Core.Option
use crew_link.Promise.{Promise, fulfilled}
use crew_link.Wire.{HazardPayload, HazardRemovePayload}
use crew_link.FrameHandler.{Services, World, Origin}
use crew_link.FrameHandler.Task.{reporter_answer, leader_answer}

module _ (env : Services) (w : World env) (o : Origin) where
  pub leader_answer_lem :
      (resolve : String → String → Promise Bool)
      → w.resolve_leader ≡ some resolve
      → leader_answer env w o ≡ resolve o.member_id o.convoy_id
  unfolding leader_answer
  leader_answer_lem resolve e = ground arith

  pub reporter_answer_lem :
      (p : HazardRemovePayload) (s : env.snapshot_store.State)
      → w.snapshots ≡ some s
      → reporter_answer env w o p ≡ env.snapshot_store.hazard_reporter s o.convoy_id p.id
  unfolding reporter_answer
  reporter_answer_lem p s e = ground arith

  -- An answer about a tracked hazard is its reporter.
  pub reporter_answer-tracked :
      (p : HazardRemovePayload) (s : env.snapshot_store.State) (h : HazardPayload)
      (r : Option String)
      → w.snapshots ≡ some s
      → env.snapshot_store.IsValid s
      → (env.snapshot_store.view s o.convoy_id).hazards p.id ≡ some h
      → reporter_answer env w o p ≡ fulfilled r
      → r ≡ some h.reporter_id
  reporter_answer-tracked p s h r e v there told =
      env.snapshot_store.hazard_reporter-view s o.convoy_id p.id v
        (sym (reporter_answer_lem p s e) ∙ told)
      ∙ ap (Option.map (λ (k : HazardPayload). k.reporter_id)) there
