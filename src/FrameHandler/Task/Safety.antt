-- ===== src/FrameHandler/Task/Safety.antt =====
-- backend/src/realtime/frame_handler.ts: whose turns can change what, whichever calls come between.
use crew_link.Base.{
  ℕ, String, true, Option, none, some, ◌==◌, ◌≡◌, ◌≢◌, ◌⊎◌, inl, inr, refl, sym, ap, ◌∙◌,
  Bool-cases, Option-cases, eq_iff,
}
use mathlib.Core.Option.{some-injective, some-ne-none}
use crew_link.Promise.{Promise, fulfilled}
use crew_link.Wire.{
  HazardPayload, HazardRemovePayload, InboundFrame, gps, waypoint, hazard, hazard_remove, tour,
  checkin, status,
}
use crew_link.Snapshot.{SnapshotView, fold_frame}
use crew_link.FrameHandler.{Services, World, Origin, Raw, proceed, decode}
use crew_link.FrameHandler.Authorised.{IsLeader}
use crew_link.FrameHandler.Protect.{SameRoute, hazard-IsOwn}
use crew_link.FrameHandler.Task.{
  Pc, received, asked_reporter, told_reporter, asked_leader, told_leader, ended, leader_answer,
  reporter_answer,
}
use crew_link.FrameHandler.Task.Answers.{leader_answer_lem, reporter_answer-tracked}
use crew_link.FrameHandler.Task.Commits.{Permits}
use crew_link.FrameHandler.Task.Runs.{IsLed, Follows, Reach-Holds, Reach-world}
use crew_link.FrameHandler.Task.System.{System, Reach, IsIdle, turned}
use crew_link.FrameHandler.Task.Keeps.{TurnFolds, Reach-IsAccepted, turn-TurnKeeps}

module _ (env : Services) (o : Origin) where
  -- A task of the connection has not been told that the connection's member is the leader.
  abbrev IsUnled : Origin → Pc → Type 0
  IsUnled u (told_leader f answer) = u ≡ o → answer ≢ fulfilled true
  IsUnled u (received raw) = Unit {0}
  IsUnled u (asked_reporter p) = Unit {0}
  IsUnled u (told_reporter p answer) = Unit {0}
  IsUnled u (asked_leader f) = Unit {0}
  IsUnled u ended = Unit {0}

  leader_answer-IsLeader :
      (w : World env) → leader_answer env w o ≡ fulfilled true → IsLeader env w o
  leader_answer-IsLeader w e = elim (Option-cases w.resolve_leader) [
    | inl none_set ↦ inl none_set
    | inr (resolve, set) ↦ inr (resolve, set, sym (leader_answer_lem env w o resolve set) ∙ e)
  ]

  IsUnled-Follows :
      (w : World env) (u : Origin) (pc : Pc)
      → ¬ IsLeader env w o
      → IsUnled u pc
      → Follows env (IsUnled u) w u pc
  IsUnled-Follows w u (received raw) n h = (λ p d. tt, λ f d led. tt)
  IsUnled-Follows w u (asked_reporter p) n h = tt
  IsUnled-Follows w u (asked_leader f) n h =
      λ same told. n (leader_answer-IsLeader w (rw same at told))
  IsUnled-Follows w u (told_reporter p answer) n h = tt
  IsUnled-Follows w u (told_leader f answer) n h = tt
  IsUnled-Follows w u ended n h = tt

  -- Without the leader's answer, what a task may commit is neither a route nor a waypoint.
  Permits-SameRoute :
      (w : World env) (u : Origin) (pc : Pc) (f : InboundFrame) (v : SnapshotView)
      → u ≡ o
      → ¬ IsLeader env w o
      → IsUnled u pc
      → Permits env w u pc f
      → SameRoute v (fold_frame v f)
  unfolding fold_frame
  Permits-SameRoute w u (received raw) (tour p) v same n h (d, own, unset) = absurd (n (inl unset))
  Permits-SameRoute w u (received raw) (waypoint p) v same n h (d, own, unset) =
      absurd (n (inl unset))
  Permits-SameRoute w u (received raw) (gps p) v same n h m = (refl, refl)
  Permits-SameRoute w u (received raw) (hazard p) v same n h m = (refl, refl)
  Permits-SameRoute w u (received raw) (hazard_remove p) v same n h m = (refl, refl)
  Permits-SameRoute w u (received raw) (checkin p) v same n h m = (refl, refl)
  Permits-SameRoute w u (received raw) (status p) v same n h m = (refl, refl)
  Permits-SameRoute w u (told_reporter p answer) f v same n h (is, told) = rw is (refl, refl)
  Permits-SameRoute w u (told_leader g answer) f v same n h (is, told) = absurd (h same told)
  Permits-SameRoute w u (asked_reporter p) f v same n h m = elim m [ ]
  Permits-SameRoute w u (asked_leader g) f v same n h m = elim m [ ]
  Permits-SameRoute w u ended f v same n h m = elim m [ ]

  TurnFolds-SameRoute :
      (w : World env) (u : Origin) (pc : Pc) (v v' : SnapshotView) (j : String)
      → u ≡ o
      → ¬ IsLeader env w o
      → IsUnled u pc
      → TurnFolds env w u pc v v' j
      → SameRoute v v'
  TurnFolds-SameRoute w u pc v v' j same n h (inl e) = rw e (refl, refl)
  TurnFolds-SameRoute w u pc v v' j same n h (inr (f, p, here, e)) =
      rw e (Permits-SameRoute w u pc f v same n h p)

  -- In a run of interleaved calls that starts with none under way, in whose every state a resolver
  -- is configured and does not say that the connection's member is the leader: a turn of a call of
  -- that connection, in a state whose store is valid, changes no convoy's route or waypoint.
  pub never_leader-SameRoute :
      {s t : System env} (i : ℕ) (σ : env.snapshot_store.State)
      → IsIdle env s
      → Reach env (λ w. ¬ IsLeader env w o) s t
      → (t.tasks i).origin ≡ o
      → t.world.snapshots ≡ some σ
      → env.snapshot_store.IsValid σ
      → (σ' : env.snapshot_store.State) × ((turned env t i).world.snapshots ≡ some σ')
        × ((j : String) → SameRoute (env.snapshot_store.view σ j) (env.snapshot_store.view σ' j))
  unfolding turned
  never_leader-SameRoute {s} {t} i σ idle r own e v =
      let task = t.tasks i in
      let unled : IsUnled task.origin task.pc =
        Reach-Holds env (λ w. ¬ IsLeader env w o) IsUnled (λ u. tt) (λ u raw. tt) IsUnled-Follows
          idle r i in
      let (σ', after, v', folds) =
        turn-TurnKeeps env t.world task.origin task.pc σ (Reach-IsAccepted env idle r i) e v in
      (
        σ',
        after,
        λ j.
            TurnFolds-SameRoute t.world task.origin task.pc _ _ j own (Reach-world env r) unled
              (folds j),
      )

module _ (env : Services) (o : Origin) (id : String) where
  -- The hazard under the id is tracked, and was reported by another member.
  abbrev pub IsOfOther : World env → Type 0
  IsOfOther w =
      (σ : env.snapshot_store.State) × (w.snapshots ≡ some σ)
      × env.snapshot_store.IsValid σ
      × ((h : HazardPayload) × ((env.snapshot_store.view σ o.convoy_id).hazards id ≡ some h)
          × (h.reporter_id ≢ o.member_id))

  -- The answer lets nobody of the connection remove the hazard.
  abbrev IsDenial : HazardRemovePayload → Promise (Option String) → Type 0
  IsDenial p answer =
      p.id ≡ id → (answer ≢ fulfilled none) × (answer ≢ fulfilled (some o.member_id))

  abbrev IsDenied : Origin → Pc → Type 0
  IsDenied u (told_reporter p answer) = u ≡ o → IsDenial p answer
  IsDenied u (received raw) = Unit {0}
  IsDenied u (asked_reporter p) = Unit {0}
  IsDenied u (asked_leader f) = IsLed f
  IsDenied u (told_leader f answer) = IsLed f
  IsDenied u ended = Unit {0}

  reporter_answer-IsDenial :
      (w : World env) (p : HazardRemovePayload)
      → IsOfOther w
      → IsDenial p (reporter_answer env w o p)
  reporter_answer-IsDenial w p (σ, e, v, (h, there, other)) same =
      let at_id : (env.snapshot_store.view σ o.convoy_id).hazards p.id ≡ some h =
        ap (env.snapshot_store.view σ o.convoy_id).hazards same ∙ there in
      (
        (λ told.
            some-ne-none h.reporter_id
              (sym (reporter_answer-tracked env w o p σ h none e v at_id told))),
        (λ told. other (
            sym (
              some-injective _ _
                (reporter_answer-tracked env w o p σ h (some o.member_id) e v at_id told)))),
      )

  IsDenied-Follows :
      (w : World env) (u : Origin) (pc : Pc)
      → IsOfOther w
      → IsDenied u pc
      → Follows env (IsDenied u) w u pc
  IsDenied-Follows w u (received raw) n h = (λ p d. tt, λ f d led. led)
  IsDenied-Follows w u (asked_reporter p) n h = λ same. rw same (reporter_answer-IsDenial w p n)
  IsDenied-Follows w u (asked_leader f) n h = h
  IsDenied-Follows w u (told_reporter p answer) n h = tt
  IsDenied-Follows w u (told_leader f answer) n h = tt
  IsDenied-Follows w u ended n h = tt

  -- The turn is the first of the connection's own report under the id.
  abbrev pub IsOwnReport : Pc → Type 0
  IsOwnReport pc =
      (raw : Raw) × (p : HazardPayload) × (pc ≡ received raw)
      × (decode env raw ≡ proceed (hazard p))
      × (p.id ≡ id)
      × (p.reporter_id ≡ o.member_id)

  led-hazard :
      (g : InboundFrame)
      → IsLed g
      → (v : SnapshotView) {h : Option HazardPayload} → v.hazards id ≡ h
      → (fold_frame v g).hazards id ≡ h
  unfolding fold_frame
  led-hazard (tour p) led v there = there
  led-hazard (waypoint p) led v there = there
  led-hazard (gps p) led v there = elim led [ ]
  led-hazard (hazard p) led v there = elim led [ ]
  led-hazard (hazard_remove p) led v there = elim led [ ]
  led-hazard (checkin p) led v there = elim led [ ]
  led-hazard (status p) led v there = elim led [ ]

  Permits-hazard :
      (w : World env) (u : Origin) (pc : Pc) (f : InboundFrame) (v : SnapshotView)
      (h : HazardPayload)
      → u ≡ o
      → IsOfOther w
      → IsDenied u pc
      → Permits env w u pc f
      → v.hazards id ≡ some h
      → ((fold_frame v f).hazards id ≡ some h) ⊎ IsOwnReport pc
  unfolding fold_frame
  Permits-hazard w u (received raw) (hazard p) v h same n k (d, own, direct) there =
      elim (Bool-cases (p.id == id)) [
        | inl at_id ↦ inr (
          raw,
          p,
          refl,
          d,
          (eq_iff p.id id).0 at_id,
          hazard-IsOwn u p own ∙ ap (λ (x : Origin). x.member_id) same,
        )
        | inr apart ↦ inl (rw apart there)
      ]
  Permits-hazard w u (received raw) (hazard_remove p) v h same (σ, e, _, _) k (d, own, unset)
        there =
      absurd (some-ne-none σ (sym e ∙ unset))
  Permits-hazard w u (received raw) (gps p) v h same n k m there = inl there
  Permits-hazard w u (received raw) (tour p) v h same n k m there = inl there
  Permits-hazard w u (received raw) (waypoint p) v h same n k m there = inl there
  Permits-hazard w u (received raw) (checkin p) v h same n k m there = inl there
  Permits-hazard w u (received raw) (status p) v h same n k m there = inl there
  Permits-hazard w u (told_reporter p answer) f v h same n k (is, told) there = inl (
      ap (λ (g : InboundFrame). (fold_frame v g).hazards id) is ∙ elim (Bool-cases (p.id == id)) [
        | inl at_id ↦
            let (unknown, mine) = k same ((eq_iff p.id id).0 at_id) in
            elim told [
              | inl e ↦ absurd (unknown e)
              | inr e ↦ absurd (mine (e ∙ ap (λ (x : Origin). fulfilled (some x.member_id)) same))
            ]
        | inr apart ↦ rw apart there
      ])
  Permits-hazard w u (told_leader g answer) f v h same n k (is, told) there =
      inl (ap (λ (x : InboundFrame). (fold_frame v x).hazards id) is ∙ led-hazard g k v there)
  Permits-hazard w u (asked_reporter p) f v h same n k m there = elim m [ ]
  Permits-hazard w u (asked_leader g) f v h same n k m there = elim m [ ]
  Permits-hazard w u ended f v h same n k m there = elim m [ ]

  TurnFolds-hazard :
      (w : World env) (u : Origin) (pc : Pc) (v v' : SnapshotView) (h : HazardPayload)
      → u ≡ o
      → IsOfOther w
      → IsDenied u pc
      → TurnFolds env w u pc v v' o.convoy_id
      → v.hazards id ≡ some h
      → (v'.hazards id ≡ some h) ⊎ IsOwnReport pc
  TurnFolds-hazard w u pc v v' h same n k (inl e) there = inl (rw e there)
  TurnFolds-hazard w u pc v v' h same n k (inr (f, p, here, e)) there =
      rw e (Permits-hazard w u pc f v h same n k p there)

  -- In a run of interleaved calls that starts with none under way, in whose every state the store
  -- is valid and the hazard under the id is one that another member reported: a turn of a call of
  -- the connection leaves the hazard as it is, unless it is the first turn of the member's own
  -- report under the id.
  pub never_reporter-hazard :
      {s t : System env} (i : ℕ) (σ : env.snapshot_store.State) (h : HazardPayload)
      → IsIdle env s
      → Reach env IsOfOther s t
      → (t.tasks i).origin ≡ o
      → t.world.snapshots ≡ some σ
      → env.snapshot_store.IsValid σ
      → (env.snapshot_store.view σ o.convoy_id).hazards id ≡ some h
      → (σ' : env.snapshot_store.State) × ((turned env t i).world.snapshots ≡ some σ')
        × (((env.snapshot_store.view σ' o.convoy_id).hazards id ≡ some h)
            ⊎ IsOwnReport (t.tasks i).pc)
  unfolding turned
  never_reporter-hazard {s} {t} i σ h idle r own e v there =
      let task = t.tasks i in
      let denied : IsDenied task.origin task.pc =
        Reach-Holds env IsOfOther IsDenied (λ u. tt) (λ u raw. tt) IsDenied-Follows idle r i in
      let (σ', after, v', folds) =
        turn-TurnKeeps env t.world task.origin task.pc σ (Reach-IsAccepted env idle r i) e v in
      (
        σ',
        after,
        TurnFolds-hazard t.world task.origin task.pc _ _ h own (Reach-world env r) denied
            (folds o.convoy_id) there,
      )
