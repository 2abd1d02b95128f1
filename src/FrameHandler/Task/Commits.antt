-- ===== src/FrameHandler/Task/Commits.antt =====
-- backend/src/realtime/frame_handler.ts: what one turn of a task does to the world.
use crew_link.Base.{true, none, some, ◌≡◌, ◌⊎◌, inl, inr, refl, ap, ◌∙◌}
use crew_link.Promise.{fulfilled}
use crew_link.Wire.{InboundFrame, gps, waypoint, hazard, hazard_remove, tour, checkin, status}
use crew_link.FrameHandler.{
  Services, World, Origin, Raw, Outcome, Check, proceed, drop, fail, ◌>>=◌, ◌>>◌, guard, await,
  is_originator, is_reporter, originator_mismatch, not_reporter, not_leader, decode, commit, finish,
}
use crew_link.FrameHandler.Authorised.{
  IsOwn, is_originator_iff, bind-eq-proceed, guard_iff, await-is_reporter_iff, await-guard_iff,
}
use crew_link.FrameHandler.Task.{
  Pc, received, asked_reporter, told_reporter, asked_leader, told_leader, ended, quiet, resume,
  to_leader, to_reporter, own_frame, turn, start_leader,
}

proceed-injective :
    {a b : InboundFrame} → ◌≡◌ {A = Check InboundFrame} (proceed a) (proceed b) → a ≡ b
proceed-injective e = cc

module _ (env : Services) where
  -- A frame that is committed with the first turn: no query is made for it.
  abbrev pub IsDirect : World env → InboundFrame → Type 0
  IsDirect w (tour p) = w.resolve_leader ≡ none
  IsDirect w (waypoint p) = w.resolve_leader ≡ none
  IsDirect w (hazard_remove p) = w.snapshots ≡ none
  IsDirect w (gps p) = Unit {0}
  IsDirect w (hazard p) = Unit {0}
  IsDirect w (checkin p) = Unit {0}
  IsDirect w (status p) = Unit {0}

  -- What entitles a task to commit a frame with its next turn.
  abbrev pub Permits : World env → Origin → Pc → InboundFrame → Type 0
  Permits w o (received raw) f = (decode env raw ≡ proceed f) × IsOwn o f × IsDirect w f
  Permits w o (told_reporter p answer) f =
      (f ≡ hazard_remove p) × ((answer ≡ fulfilled none) ⊎ (answer ≡ fulfilled (some o.member_id)))
  Permits w o (told_leader g answer) f = (f ≡ g) × (answer ≡ fulfilled true)
  Permits w o (asked_reporter p) f = ⊥
  Permits w o (asked_leader g) f = ⊥
  Permits w o ended f = ⊥

  -- A turn leaves the world alone, or commits a frame that it may commit.
  abbrev pub Turns : World env → Origin → Pc → Outcome env × Pc → Type 0
  Turns w o pc (out, next) =
      (out.world ≡ w)
      ⊎ ((f : InboundFrame) × Permits w o pc f × (out ≡ commit env w o f) × (next ≡ ended))

  pub own_frame-IsOwn :
      (o : Origin) (raw : Raw) (f : InboundFrame)
      → own_frame env o raw ≡ proceed f
      → (decode env raw ≡ proceed f) × IsOwn o f
  unfolding own_frame
  own_frame-IsOwn o raw f e =
      let (g, decoded, rest) =
        bind-eq-proceed (decode env raw)
          (λ g. guard (is_originator g o.member_id) originator_mismatch >> proceed g) e in
      let (u, guarded, same) =
        bind-eq-proceed (guard (is_originator g o.member_id) originator_mismatch) (λ _. proceed g)
          rest in
      let own : IsOwn o g =
        (is_originator_iff o g).0
          ((guard_iff (is_originator g o.member_id) originator_mismatch).0 guarded) in
      let named : g ≡ f = proceed-injective same in (decoded ∙ ap proceed named, rw named at own)

  resume-Turns :
      {A : Type 0} (w : World env) (o : Origin) (pc : Pc) (c : Check A) (k : A → Outcome env × Pc)
      → ((a : A) → c ≡ proceed a → Turns w o pc (k a))
      → Turns w o pc (resume env w o c k)
  unfolding finish
  resume-Turns w o pc (proceed a) k h = h a refl
  resume-Turns w o pc (drop r) k h = inl refl
  resume-Turns w o pc fail k h = inl refl

  start_leader-Turns :
      (w : World env) (o : Origin) (pc : Pc) (f : InboundFrame)
      → (w.resolve_leader ≡ none → Permits w o pc f)
      → Turns w o pc (start_leader env w o f)
  start_leader-Turns w o pc f h =
      elim w.resolve_leader
          as (λ r.
            (r ≡ none → Permits w o pc f)
            → Turns w o pc (elim r [
              | none ↦ (commit env w o f, ended)
              | some resolve ↦ (quiet env w, asked_leader f)
            ])) [ none ↦ λ p. inr (f, p refl, refl, refl) | some resolve ↦ λ p. inl refl ]
        h

  to_reporter-Turns :
      (w : World env) (o : Origin) (raw : Raw) (f : InboundFrame)
      → decode env raw ≡ proceed f
      → IsOwn o f
      → Turns w o (received raw) (to_reporter env w o f)
  unfolding to_reporter to_leader
  to_reporter-Turns w o raw (tour p) d own =
      start_leader-Turns w o (received raw) (tour p) (λ e. (d, own, e))
  to_reporter-Turns w o raw (waypoint p) d own =
      start_leader-Turns w o (received raw) (waypoint p) (λ e. (d, own, e))
  to_reporter-Turns w o raw (hazard_remove p) d own =
      elim w.snapshots
          as (λ r.
            (r ≡ none → Permits w o (received raw) (hazard_remove p))
            → Turns w o (received raw) (elim r [
              | none ↦ to_leader env w o (hazard_remove p)
              | some s ↦ (quiet env w, asked_reporter p)
            ])) [ none ↦ λ m. inr (hazard_remove p, m refl, refl, refl) | some s ↦ λ m. inl refl ]
        (λ e. (d, own, e))
  to_reporter-Turns w o raw (gps p) d own = inr (gps p, (d, own, tt), refl, refl)
  to_reporter-Turns w o raw (hazard p) d own = inr (hazard p, (d, own, tt), refl, refl)
  to_reporter-Turns w o raw (checkin p) d own = inr (checkin p, (d, own, tt), refl, refl)
  to_reporter-Turns w o raw (status p) d own = inr (status p, (d, own, tt), refl, refl)

  pub turn-Turns : (w : World env) (o : Origin) (pc : Pc) → Turns w o pc (turn env w o pc)
  unfolding turn to_leader
  turn-Turns w o (received raw) =
      resume-Turns w o (received raw) (own_frame env o raw) (to_reporter env w o)
        (λ f e. let (d, own) = own_frame-IsOwn o raw f e in to_reporter-Turns w o raw f d own)
  turn-Turns w o (asked_reporter p) = inl refl
  turn-Turns w o (told_reporter p answer) =
      resume-Turns w o (told_reporter p answer)
        (await answer >>= λ reporter. guard (is_reporter reporter o.member_id) not_reporter)
        (λ _. to_leader env w o (hazard_remove p))
        (λ a e.
          inr (hazard_remove p, (refl, (await-is_reporter_iff answer o.member_id).0 e), refl, refl))
  turn-Turns w o (asked_leader f) = inl refl
  turn-Turns w o (told_leader f answer) =
      resume-Turns w o (told_leader f answer)
        (await answer >>= λ is_leader. guard is_leader not_leader) (λ _. (commit env w o f, ended))
        (λ a e. inr (f, (refl, (await-guard_iff answer).0 e), refl, refl))
  turn-Turns w o ended = inl refl
