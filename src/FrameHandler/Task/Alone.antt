-- ===== src/FrameHandler/Task/Alone.antt =====
-- backend/src/realtime/frame_handler.ts: the turns of one task, whatever it finds at each, and
-- where nothing comes in between.
use crew_link.Base.{
  ℕ, zero, suc, ◌≤◌, ◌||◌, String, Bool, true, false, Option, append-nil, ◌≡◌, ◌⊎◌, inl, inr, refl,
  sym, ap, ◌∙◌, arith, Option-cases,
}
use crew_link.Promise.{Promise}
use crew_link.Wire.{HazardRemovePayload, InboundFrame, gps, waypoint, hazard_remove, tour}
use crew_link.FrameHandler.{
  Services, World, Origin, Raw, Outcome, Check, proceed, drop, fail, ◌>>=◌, ◌>>◌, guard, await,
  is_originator, is_reporter, originator_mismatch, not_reporter, not_leader, decode, commit, finish,
  check_reporter, check_leader, ask_leader, authorise, handle_frame,
}
use crew_link.FrameHandler.Task.{
  Pc, received, asked_reporter, told_reporter, asked_leader, told_leader, ended, quiet, resume,
  start_leader, to_leader, leader_answer, reporter_answer, to_reporter, own_frame, turn,
  then_outcome, alone,
}

or-false : (b : Bool) → (b || false) ≡ b
or-false true = refl
or-false false = refl

module _ (env : Services) where
  alone-ended : (n : ℕ) (w : World env) (o : Origin) → alone env n w o ended ≡ (quiet env w, ended)
  unfolding alone turn
  alone-ended zero w o = refl
  alone-ended (suc n) w o = rw (alone-ended n w o) refl

  then-quiet : (out : Outcome env) → then_outcome env out (quiet env out.world) ≡ out
  then-quiet out = λ i. record {
    world = out.world;
    sent = append-nil out.sent i;
    log = append-nil out.log i;
    unhandled = or-false out.unhandled i;
  }

  -- What `n` more turns make of a turn.
  abbrev follow : ℕ → Origin → Outcome env × Pc → Outcome env × Pc
  follow n o (out, pc) =
      let (rest, last) = alone env n out.world o pc in (then_outcome env out rest, last)

  follow-finish :
      (n : ℕ) (w : World env) (o : Origin) (c : Check InboundFrame)
      → follow n o (finish env w o c, ended) ≡ (finish env w o c, ended)
  follow-finish n w o c =
      rw (alone-ended n (finish env w o c).world o, then-quiet (finish env w o c)) refl

  follow-go_on :
      (n : ℕ) (w : World env) (o : Origin) (f : InboundFrame)
      → follow n o (commit env w o f, ended) ≡ (commit env w o f, ended)
  follow-go_on n w o f =
      rw (alone-ended n (commit env w o f).world o, then-quiet (commit env w o f)) refl

  -- What the checks after the originator's make of a frame.
  abbrev checked : World env → Origin → InboundFrame → Check InboundFrame
  checked w o f = check_reporter env w o f >> (check_leader env w o f >> proceed f)

  authorise-own_frame :
      (w : World env) (o : Origin) (raw : Raw)
      → authorise env w o raw ≡ (own_frame env o raw >>= λ f. checked w o f)
  unfolding authorise own_frame
  authorise-own_frame w o raw =
      elim (decode env raw)
        as (λ d.
          (d >>= λ f. guard (is_originator f o.member_id) originator_mismatch >> checked w o f) ≡ (
            (d >>= λ f. guard (is_originator f o.member_id) originator_mismatch >> proceed f)
            >>= λ f. checked w o f)) [
              | proceed f ↦
                  elim (is_originator f o.member_id)
                    as (λ b.
                      (guard b originator_mismatch >> checked w o f)
                      ≡ ((guard b originator_mismatch >> proceed f) >>= λ f. checked w o f)) [
                        | true ↦ refl
                        | false ↦ refl
                      ]
              | drop r ↦ refl
              | fail ↦ refl
            ]

  resume-led :
      (w : World env) (o : Origin) (f : InboundFrame) (c : Check (Unit {0}))
      → resume env w o c (λ _. (commit env w o f, ended)) ≡ (finish env w o (c >> proceed f), ended)
  unfolding finish
  resume-led w o f (proceed tt) = refl
  resume-led w o f (drop r) = refl
  resume-led w o f fail = refl

  -- A turn that waits is followed by the next one in the same world.
  follow-suc :
      (n : ℕ) (w : World env) (o : Origin) (pc : Pc)
      → follow (suc n) o (quiet env w, pc) ≡ follow n o (turn env w o pc)
  unfolding alone
  follow-suc n w o pc = refl

  follow-asked_leader :
      (n : ℕ) (w : World env) (o : Origin) (f : InboundFrame)
      → follow (suc (suc n)) o (quiet env w, asked_leader f) ≡ (
        finish env w o (
            (await (leader_answer env w o) >>= λ is_leader. guard is_leader not_leader)
            >> proceed f),
        ended,
      )
  unfolding turn
  follow-asked_leader n w o f =
      follow-suc (suc n) w o (asked_leader f)
      ∙ (follow-suc n w o (told_leader f (leader_answer env w o))
          ∙ (ap (follow n o) (
                resume-led w o f
                  (await (leader_answer env w o) >>= λ is_leader. guard is_leader not_leader))
              ∙ follow-finish n w o (
                  (await (leader_answer env w o) >>= λ is_leader. guard is_leader not_leader)
                  >> proceed f)))

  abbrev led : World env → Origin → InboundFrame → Check (Unit {0}) → Outcome env × Pc
  led w o f c = (finish env w o (c >> proceed f), ended)

  -- Where no resolver is configured, and where one is.
  start_leader-cases :
      (w : World env) (o : Origin) (f : InboundFrame)
      → ((start_leader env w o f ≡ (commit env w o f, ended)) × (ask_leader env w o ≡ proceed tt))
        ⊎ ((start_leader env w o f ≡ (quiet env w, asked_leader f))
            × (ask_leader env w o
                ≡ (await (leader_answer env w o) >>= λ is_leader. guard is_leader not_leader)))
  unfolding ask_leader leader_answer
  start_leader-cases w o f = elim (Option-cases w.resolve_leader) [
    | inl e ↦ inl (ground arith, ground arith)
    | inr (resolve, e) ↦ inr (ground arith, ground arith)
  ]

  follow-start_leader :
      (n : ℕ) (w : World env) (o : Origin) (f : InboundFrame)
      → follow (suc (suc n)) o (start_leader env w o f)
        ≡ (finish env w o (ask_leader env w o >> proceed f), ended)
  unfolding finish
  follow-start_leader n w o f = elim (start_leader-cases w o f) [
    | inl (e, e') ↦
        ap (follow (suc (suc n)) o) e ∙ (follow-go_on (suc (suc n)) w o f ∙ ap (led w o f) (sym e'))
    | inr (e, e') ↦
        ap (follow (suc (suc n)) o) e ∙ (follow-asked_leader n w o f ∙ ap (led w o f) (sym e'))
  ]

  -- From the leader check on, and from the reporter check on, where nothing comes in between.
  follow-to_leader :
      (n : ℕ) (w : World env) (o : Origin) (f : InboundFrame)
      → follow (suc (suc n)) o (to_leader env w o f)
        ≡ (finish env w o (check_leader env w o f >> proceed f), ended)
  unfolding to_leader check_leader finish
  follow-to_leader n w o (tour p) = follow-start_leader n w o (tour p)
  follow-to_leader n w o (waypoint p) = follow-start_leader n w o (waypoint p)
  follow-to_leader n w o (gps p) = follow-go_on (suc (suc n)) w o (gps p)
  follow-to_leader n w o f = follow-go_on (suc (suc n)) w o f

  resume-removal :
      (w : World env) (o : Origin) (p : HazardRemovePayload) (c : Check (Unit {0}))
      → resume env w o c (λ _. to_leader env w o (hazard_remove p)) ≡ (
        finish env w o (c >> (check_leader env w o (hazard_remove p) >> proceed (hazard_remove p))),
        ended,
      )
  unfolding finish to_leader check_leader
  resume-removal w o p (proceed tt) = refl
  resume-removal w o p (drop r) = refl
  resume-removal w o p fail = refl

  abbrev judge : Origin → Promise (Option String) → Check (Unit {0})
  judge o answer =
      await answer >>= λ reporter. guard (is_reporter reporter o.member_id) not_reporter

  follow-asked_reporter :
      (n : ℕ) (w : World env) (o : Origin) (p : HazardRemovePayload)
      → follow (suc (suc n)) o (quiet env w, asked_reporter p) ≡ (
        finish env w o (
            judge o (reporter_answer env w o p)
            >> (check_leader env w o (hazard_remove p) >> proceed (hazard_remove p))),
        ended,
      )
  unfolding turn
  follow-asked_reporter n w o p =
      follow-suc (suc n) w o (asked_reporter p)
      ∙ (follow-suc n w o (told_reporter p (reporter_answer env w o p))
          ∙ (ap (follow n o) (resume-removal w o p (judge o (reporter_answer env w o p)))
              ∙ follow-finish n w o _))

  to_reporter-cases :
      (w : World env) (o : Origin) (p : HazardRemovePayload)
      → ((to_reporter env w o (hazard_remove p) ≡ to_leader env w o (hazard_remove p))
          × (check_reporter env w o (hazard_remove p) ≡ proceed tt))
        ⊎ ((to_reporter env w o (hazard_remove p) ≡ (quiet env w, asked_reporter p))
            × (check_reporter env w o (hazard_remove p) ≡ judge o (reporter_answer env w o p)))
  unfolding to_reporter check_reporter reporter_answer
  to_reporter-cases w o p = elim (Option-cases w.snapshots) [
    | inl e ↦ inl (ground arith, ground arith)
    | inr (s, e) ↦ inr (ground arith, ground arith)
  ]

  follow-to_reporter :
      (n : ℕ) (w : World env) (o : Origin) (f : InboundFrame)
      → follow (suc (suc n)) o (to_reporter env w o f) ≡ (finish env w o (checked w o f), ended)
  unfolding to_reporter check_reporter
  follow-to_reporter n w o (hazard_remove p) =
      let after : Check (Unit {0}) → Outcome env × Pc = λ c. (
        finish env w o (c >> (check_leader env w o (hazard_remove p) >> proceed (hazard_remove p))),
        ended,
      ) in
      elim (to_reporter-cases w o p) [
        | inl (e, e') ↦
            ap (follow (suc (suc n)) o) e
            ∙ (follow-to_leader n w o (hazard_remove p) ∙ ap after (sym e'))
        | inr (e, e') ↦
            ap (follow (suc (suc n)) o) e ∙ (follow-asked_reporter n w o p ∙ ap after (sym e'))
      ]
  follow-to_reporter n w o (gps p) = follow-to_leader n w o (gps p)
  follow-to_reporter n w o f = follow-to_leader n w o f

  resume-checked :
      (n : ℕ) (w : World env) (o : Origin) (c : Check InboundFrame)
      → follow (suc (suc n)) o (resume env w o c (to_reporter env w o))
        ≡ (finish env w o (c >>= λ f. checked w o f), ended)
  resume-checked n w o (proceed f) = follow-to_reporter n w o f
  resume-checked n w o (drop r) = follow-finish (suc (suc n)) w o (drop r)
  resume-checked n w o fail = follow-finish (suc (suc n)) w o fail

  -- A call that takes three turns or more with nothing in between has ended, with the outcome of
  -- `handle_frame`: the state, the sends, the log and the unhandled rejection.
  pub alone-handle_frame :
      (n : ℕ) (w : World env) (o : Origin) (raw : Raw)
      → 3 ≤ n
      → alone env n w o (received raw) ≡ (handle_frame env w o raw, ended)
  unfolding alone turn handle_frame
  alone-handle_frame zero w o raw h = absurd (omega arith)
  alone-handle_frame (suc zero) w o raw h = absurd (omega arith)
  alone-handle_frame (suc (suc zero)) w o raw h = absurd (omega arith)
  alone-handle_frame (suc (suc (suc n))) w o raw h =
      resume-checked n w o (own_frame env o raw)
      ∙ ap (λ c. (finish env w o c, ended)) (sym (authorise-own_frame w o raw))
