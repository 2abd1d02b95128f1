-- ===== src/FrameHandler/Task/Runs.antt =====
-- backend/src/realtime/frame_handler.ts: what holds of every task in every state of a run.
use crew_link.Base.{ℕ, ap, ◌∙◌, none, some, ◌≡◌, refl}
use mathlib.Core.Logic.{dite}
use native.Mathlib.Decide.{ℕ_discrete}
use crew_link.Wire.{
  InboundFrame, HazardRemovePayload, gps, waypoint, hazard, hazard_remove, tour, checkin, status,
}
use crew_link.FrameHandler.{
  Services, World, Origin, Raw, Outcome, Check, proceed, drop, fail, ◌>>=◌, guard, await, decode,
  is_reporter, not_reporter, not_leader, commit,
}
use crew_link.FrameHandler.Task.{
  Pc, received, asked_reporter, told_reporter, asked_leader, told_leader, ended, resume, turn,
  to_leader, to_reporter, start_leader, own_frame, reporter_answer, leader_answer, quiet,
}
use crew_link.FrameHandler.Task.Commits.{own_frame-IsOwn}
use crew_link.FrameHandler.Task.System.{
  Task, System, Step, take_turn, call, elsewhere, Reach, here, next, IsIdle, update, turned, called,
}

-- The frames that the leader check is about.
abbrev pub IsLed : InboundFrame → Type 0
IsLed (tour p) = Unit {0}
IsLed (waypoint p) = Unit {0}
IsLed (gps p) = ⊥
IsLed (hazard p) = ⊥
IsLed (hazard_remove p) = ⊥
IsLed (checkin p) = ⊥
IsLed (status p) = ⊥

module _ (env : Services) where
  -- Where a task can stand after its turn, from where it stood.
  abbrev pub Follows : (Pc → Type 0) → World env → Origin → Pc → Type 0
  Follows Q w o (received raw) =
      ((p : HazardRemovePayload)
        → decode env raw ≡ proceed (hazard_remove p)
        → Q (asked_reporter p))
      × ((f : InboundFrame) → decode env raw ≡ proceed f → IsLed f → Q (asked_leader f))
  Follows Q w o (asked_reporter p) = Q (told_reporter p (reporter_answer env w o p))
  Follows Q w o (asked_leader f) = Q (told_leader f (leader_answer env w o))
  Follows Q w o (told_reporter p answer) = Unit {0}
  Follows Q w o (told_leader f answer) = Unit {0}
  Follows Q w o ended = Unit {0}

  module _ (Q : Pc → Type 0) (at_end : Q ended) where
    resume-next :
        {A : Type 0} (w : World env) (o : Origin) (c : Check A) (k : A → Outcome env × Pc)
        → ((a : A) → c ≡ proceed a → Q (k a).1)
        → Q (resume env w o c k).1
    resume-next w o (proceed a) k h = h a refl
    resume-next w o (drop r) k h = at_end
    resume-next w o fail k h = at_end

    start_leader-next :
        (w : World env) (o : Origin) (f : InboundFrame)
        → Q (asked_leader f)
        → Q (start_leader env w o f).1
    start_leader-next w o f h =
        elim w.resolve_leader
          as (λ r.
            Q
              (elim r as (λ _. Outcome env × Pc) [
                | none ↦ (commit env w o f, ended)
                | some resolve ↦ (quiet env w, asked_leader f)
              ]).1) [ none ↦ at_end | some resolve ↦ h ]

    to_reporter-next :
        (w : World env) (o : Origin) (f : InboundFrame)
        → ((p : HazardRemovePayload) → f ≡ hazard_remove p → Q (asked_reporter p))
        → (IsLed f → Q (asked_leader f))
        → Q (to_reporter env w o f).1
    unfolding to_reporter to_leader
    to_reporter-next w o (tour p) asks h = start_leader-next w o (tour p) (h tt)
    to_reporter-next w o (waypoint p) asks h = start_leader-next w o (waypoint p) (h tt)
    to_reporter-next w o (hazard_remove p) asks h =
        elim w.snapshots
          as (λ r.
            Q
              (elim r as (λ _. Outcome env × Pc) [
                | none ↦ to_leader env w o (hazard_remove p)
                | some s ↦ (quiet env w, asked_reporter p)
              ]).1) [ none ↦ at_end | some s ↦ asks p refl ]
    to_reporter-next w o (gps p) asks h = at_end
    to_reporter-next w o f asks h = at_end

    turn-next : (w : World env) (o : Origin) (pc : Pc) → Follows Q w o pc → Q (turn env w o pc).1
    unfolding turn to_leader
    turn-next w o (received raw) (removal, led) =
        resume-next w o (own_frame env o raw) (to_reporter env w o) (λ f e.
          let (d, own) = own_frame-IsOwn env o raw f e in
          to_reporter-next w o f (λ p same. removal p (d ∙ ap proceed same)) (led f d))
    turn-next w o (asked_reporter p) h = h
    turn-next w o (told_reporter p answer) h =
        resume-next w o
          (await answer >>= λ reporter. guard (is_reporter reporter o.member_id) not_reporter)
          (λ _. to_leader env w o (hazard_remove p)) (λ a e. at_end)
    turn-next w o (asked_leader f) h = h
    turn-next w o (told_leader f answer) h =
        resume-next w o (await answer >>= λ is_leader. guard is_leader not_leader)
          (λ _. (commit env w o f, ended)) (λ a e. at_end)
    turn-next w o ended h = at_end

  pub Reach-world : {P : World env → Type 0} {s t : System env} → Reach env P s t → P t.world
  Reach-world (here p) = p
  Reach-world (next r st p) = p

  -- What holds of a call that starts, and of the end, and is kept by a turn in any world of the
  -- run, holds of every task of the run.
  module _ (P : World env → Type 0) (Q : Origin → Pc → Type 0) (at_end : (o : Origin) → Q o ended)
      (at_call : (o : Origin) (raw : Raw) → Q o (received raw))
      (kept : (w : World env) (o : Origin) (pc : Pc) → P w → Q o pc → Follows (Q o) w o pc) where
    abbrev pub Holds : (ℕ → Task) → Type 0
    Holds tasks = (i : ℕ) → Q (tasks i).origin (tasks i).pc

    update-Holds :
        (tasks : ℕ → Task) (i : ℕ) (t : Task)
        → Holds tasks
        → Q t.origin t.pc
        → Holds (update tasks i t)
    update-Holds tasks i t h q j =
        elim (ℕ_discrete i j)
          as (λ d.
            Q (dite {C = Task} d (λ _. t) (λ _. tasks j)).origin
              (dite {C = Task} d (λ _. t) (λ _. tasks j)).pc) [ yes same ↦ q | no other ↦ h j ]

    Step-Holds : {s t : System env} → P s.world → Step env s t → Holds s.tasks → Holds t.tasks
    unfolding turned called
    Step-Holds {s} p (take_turn i) h =
        let task = s.tasks i in
        update-Holds s.tasks i _ h (
          turn-next (Q task.origin) (at_end task.origin) s.world task.origin task.pc
            (kept s.world task.origin task.pc p (h i)))
    Step-Holds {s} p (call i o raw free) h = update-Holds s.tasks i _ h (at_call o raw)
    Step-Holds p (elsewhere w) h = h

    pub Reach-Holds : {s t : System env} → IsIdle env s → Reach env P s t → Holds t.tasks
    Reach-Holds {s} idle (here p) = λ i. rw (idle i) (at_end (s.tasks i).origin)
    Reach-Holds idle (next r st p) = Step-Holds (Reach-world r) st (Reach-Holds idle r)
