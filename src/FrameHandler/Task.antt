-- ===== src/FrameHandler/Task.antt =====
-- backend/src/realtime/frame_handler.ts: one call of `handleFrame` as a task that others can
-- overtake while it waits. A query that it awaits is answered at some moment after it was made,
-- and the task is resumed at some moment after that.
pub mod Alone
pub mod Answers
pub mod Commits
pub mod Conform
pub mod Runs
pub mod Settled
pub mod Keeps
pub mod Overtaken
pub mod Races
pub mod Safety
pub mod Single
pub mod System
use crew_link.Base.{ℕ, zero, suc, ◌||◌, String, Bool, true, false, Option, none, some, [], ◌++◌}
use crew_link.Promise.{Promise, rejected}
use crew_link.Wire.{HazardRemovePayload, InboundFrame, waypoint, hazard_remove, tour}
use crew_link.FrameHandler.{
  Services, World, Origin, Raw, Outcome, Check, Reason, proceed, drop, fail, ◌>>=◌, ◌>>◌, guard,
  await, is_originator, is_reporter, originator_mismatch, not_reporter, not_leader, decode, commit,
  finish,
}

-- Where a call of `handleFrame` stands, with the variables that are live there.
pub data Pc : Type 0 where
  received : Raw → Pc
  -- It has called `hazardReporter`, which has not answered yet.
  asked_reporter : HazardRemovePayload → Pc
  told_reporter : HazardRemovePayload → Promise (Option String) → Pc
  -- It has called `resolveLeader`, which has not answered yet.
  asked_leader : InboundFrame → Pc
  told_leader : InboundFrame → Promise Bool → Pc
  ended : Pc

module _ (env : Services) where
  abbrev pub quiet : World env → Outcome env
  quiet w = record { world = w; sent = []; log = []; unhandled = false }

  -- On with the value of a check, or the end of the task.
  abbrev pub resume :
      {A : Type 0} → World env → Origin → Check A → (A → Outcome env × Pc) → Outcome env × Pc
  resume w o (proceed a) k = k a
  resume w o (drop r) k = (finish env w o (drop r), ended)
  resume w o fail k = (finish env w o fail, ended)

  abbrev pub go_on : World env → Origin → InboundFrame → Outcome env × Pc
  go_on w o f = (commit env w o f, ended)

  abbrev pub start_leader : World env → Origin → InboundFrame → Outcome env × Pc
  start_leader w o f = elim w.resolve_leader [
    | none ↦ go_on w o f
    | some resolve ↦ (quiet w, asked_leader f)
  ]

  -- From the leader check on.
  unfoldable pub to_leader : World env → Origin → InboundFrame → Outcome env × Pc
  to_leader w o (tour p) = start_leader w o (tour p)
  to_leader w o (waypoint p) = start_leader w o (waypoint p)
  to_leader w o f = go_on w o f

  -- From the reporter check on.
  unfoldable pub to_reporter : World env → Origin → InboundFrame → Outcome env × Pc
  unfolding to_leader
  to_reporter w o (hazard_remove p) = elim w.snapshots [
    | none ↦ to_leader w o (hazard_remove p)
    | some s ↦ (quiet w, asked_reporter p)
  ]
  to_reporter w o f = to_leader w o f

  -- What the queries answer at this moment. A query is made only where its store or resolver is
  -- configured.
  unfoldable pub reporter_answer :
      World env → Origin → HazardRemovePayload → Promise (Option String)
  reporter_answer w o p = elim w.snapshots [
    | none ↦ rejected
    | some s ↦ env.snapshot_store.hazard_reporter s o.convoy_id p.id
  ]

  unfoldable pub leader_answer : World env → Origin → Promise Bool
  leader_answer w o = elim w.resolve_leader [
    | none ↦ rejected
    | some resolve ↦ resolve o.member_id o.convoy_id
  ]

  -- The frame of a raw message that is its sender's own.
  unfoldable pub own_frame : Origin → Raw → Check InboundFrame
  unfolding decode is_originator
  own_frame o raw = do
    f ← decode env raw
    guard (is_originator f o.member_id) originator_mismatch
    proceed f

  -- A turn of a task in the world that it finds: until it waits, or the answer to its query.
  unfoldable pub turn : World env → Origin → Pc → Outcome env × Pc
  unfolding own_frame to_reporter to_leader reporter_answer leader_answer is_reporter finish
  turn w o (received raw) = resume w o (own_frame o raw) (to_reporter w o)
  turn w o (asked_reporter p) = (quiet w, told_reporter p (reporter_answer w o p))
  turn w o (told_reporter p answer) =
      resume w o
        (await answer >>= λ reporter. guard (is_reporter reporter o.member_id) not_reporter)
        (λ _. to_leader w o (hazard_remove p))
  turn w o (asked_leader f) = (quiet w, told_leader f (leader_answer w o))
  turn w o (told_leader f answer) =
      resume w o (await answer >>= λ is_leader. guard is_leader not_leader) (λ _. go_on w o f)
  turn w o ended = (quiet w, ended)

  -- One turn, and what follows it.
  abbrev pub then_outcome : Outcome env → Outcome env → Outcome env
  then_outcome a b = record {
    world = b.world;
    sent = a.sent ++ b.sent;
    log = a.log ++ b.log;
    unhandled = a.unhandled || b.unhandled;
  }

  -- A task that takes its turns with nothing in between.
  unfoldable pub alone : ℕ → World env → Origin → Pc → Outcome env × Pc
  unfolding turn
  alone zero w o pc = (quiet w, pc)
  alone (suc n) w o pc =
      let (out, next) = turn w o pc in
      let (rest, last) = alone n out.world o next in (then_outcome out rest, last)
