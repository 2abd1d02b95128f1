-- ===== src/FrameHandler/Task/Overtaken.antt =====
-- backend/src/realtime/frame_handler.ts: two routes that the leader sends one after the other.
use crew_link.Base.{ℕ, String, Bool, true, Option, some, List, [], ◌∷◌, ◌≡◌, refl, ap, ◌∙◌}
use crew_link.Promise.{Promise, fulfilled}
use crew_link.Wire.{TourPayload, InboundFrame, tour}
use crew_link.Snapshot.{SnapshotView, fold_frame, stops_or_none}
use crew_link.FrameHandler.{Services, World, Origin, Raw, proceed, decode, commit}
use crew_link.FrameHandler.Takeover.{IsReliable}
use crew_link.FrameHandler.Task.{
  Pc, received, asked_leader, told_leader, ended, leader_answer, quiet, turn,
}
use crew_link.FrameHandler.Task.Answers.{leader_answer_lem}
use crew_link.FrameHandler.Task.Single.{
  turn-tour, turn-asked_leader, turn-told_leader, view-commit, IsAt, turned-IsAt_first,
  turned-IsAt_second,
}
use crew_link.FrameHandler.Task.System.{Task, System, schedule, turned}

module _ (env : Services) (o : Origin) (reliable : IsReliable env) where
  -- The resolver answers that the sender is the leader.
  abbrev pub Leads : World env → Type 0
  Leads w =
      (resolve : String → String → Promise Bool) × (w.resolve_leader ≡ some resolve)
      × (resolve o.member_id o.convoy_id ≡ fulfilled true)

  abbrev pub HasRoute : World env → Option TourPayload → Type 0
  HasRoute w r =
      (σ : env.snapshot_store.State) × (w.snapshots ≡ some σ)
      × env.snapshot_store.IsValid σ
      × ((env.snapshot_store.view σ o.convoy_id).route ≡ r)

  leader_answer-Leads : (w : World env) → Leads w → leader_answer env w o ≡ fulfilled true
  leader_answer-Leads w (resolve, set, leads) = leader_answer_lem env w o resolve set ∙ leads

  commit-Leads : (w : World env) (f : InboundFrame) → Leads w → Leads (commit env w o f).world
  unfolding commit
  commit-Leads w f l = l

  commit-HasRoute :
      (w : World env) (raw : Raw) (p : TourPayload) {r : Option TourPayload}
      → decode env raw ≡ proceed (tour p)
      → HasRoute w r
      → HasRoute (commit env w o (tour p)).world (stops_or_none p)
  unfolding fold_frame
  commit-HasRoute w raw p d (σ, e, v, there) =
      let (σ', after, v', folded) = view-commit env w o raw (tour p) σ reliable d e v in
      (σ', after, v', ap (λ (x : SnapshotView). x.route) folded)

  HasRoute-eq : {w w' : World env} {r : Option TourPayload} → w ≡ w' → HasRoute w' r → HasRoute w r
  HasRoute-eq same (σ, e, v, there) = (σ, ap (λ (x : World env). x.snapshots) same ∙ e, v, there)

  abbrev at_pc : Pc → Task
  at_pc pc = record { origin = o; pc = pc }

  -- A call that waits for the leader check with its route, and one that has its answer.
  abbrev asks : TourPayload → Task
  asks p = at_pc (asked_leader (tour p))

  abbrev has_answer : TourPayload → Task
  has_answer p = at_pc (told_leader (tour p) (fulfilled true))

  turn-asks :
      (w : World env) (p : TourPayload)
      → Leads w
      → turn env w o (asked_leader (tour p)) ≡ (quiet env w, told_leader (tour p) (fulfilled true))
  turn-asks w p l =
      turn-asked_leader env w o (tour p)
      ∙ ap (λ answer. (quiet env w, told_leader (tour p) answer)) (leader_answer-Leads w l)

  turn-told :
      (w : World env) (p : TourPayload)
      → turn env w o (told_leader (tour p) (fulfilled true)) ≡ (commit env w o (tour p), ended)
  turn-told w p = turn-told_leader env w o (tour p) (fulfilled true) refl

  -- A turn of either call.
  first_asks :
      (s : System env) (w : World env) (p : TourPayload) (b : Task)
      → Leads w
      → IsAt env s w (asks p) b
      → IsAt env (turned env s 0) w (has_answer p) b
  first_asks s w p b l at = turned-IsAt_first env s w (asks p) b at (turn-asks w p l)

  first_told :
      (s : System env) (w : World env) (p : TourPayload) (b : Task)
      → IsAt env s w (has_answer p) b
      → IsAt env (turned env s 0) (commit env w o (tour p)).world (at_pc ended) b
  first_told s w p b at = turned-IsAt_first env s w (has_answer p) b at (turn-told w p)

  second_asks :
      (s : System env) (w : World env) (p : TourPayload) (a : Task)
      → Leads w
      → IsAt env s w a (asks p)
      → IsAt env (turned env s 1) w a (has_answer p)
  second_asks s w p a l at = turned-IsAt_second env s w a (asks p) at (turn-asks w p l)

  second_told :
      (s : System env) (w : World env) (p : TourPayload) (a : Task)
      → IsAt env s w a (has_answer p)
      → IsAt env (turned env s 1) (commit env w o (tour p)).world a (at_pc ended)
  second_told s w p a at = turned-IsAt_second env s w a (has_answer p) at (turn-told w p)

  started :
      (s : System env) (raw_a raw_b : Raw) (a b : TourPayload)
      → s.tasks 0 ≡ at_pc (received raw_a)
      → s.tasks 1 ≡ at_pc (received raw_b)
      → Leads s.world
      → decode env raw_a ≡ proceed (tour a)
      → decode env raw_b ≡ proceed (tour b)
      → IsAt env (turned env (turned env s 0) 1) s.world (asks a) (asks b)
  started s raw_a raw_b a b t0 t1 (resolve, set, leads) da db =
      turned-IsAt_second env _ s.world _ _
        (turned-IsAt_first env s s.world (at_pc (received raw_a)) (at_pc (received raw_b))
          (refl, t0, t1) (turn-tour env s.world o raw_a a resolve da set))
        (turn-tour env s.world o raw_b b resolve db set)

  -- The calls 0 and 1 have started in this order, and have taken their other turns in `order`.
  abbrev pub Leaves : System env → List ℕ → TourPayload → Type 0
  Leaves s order p = HasRoute (schedule env s (0 ∷ 1 ∷ order)).world (stops_or_none p)

  -- The store's operations go through and it is valid, and the resolver says that the sender
  -- leads. Two frames with a route start in the order in which they came, and both wait for the
  -- leader check. In every order of the two turns that each has left, the convoy is left with the
  -- second frame's route if the second call takes the last turn, and with the first frame's if the
  -- first does, and with no route where that frame has no stops.
  pub last_answer-HasRoute :
      (s : System env) (raw_a raw_b : Raw) (a b : TourPayload) {r : Option TourPayload}
      → s.tasks 0 ≡ at_pc (received raw_a)
      → s.tasks 1 ≡ at_pc (received raw_b)
      → Leads s.world
      → HasRoute s.world r
      → decode env raw_a ≡ proceed (tour a)
      → decode env raw_b ≡ proceed (tour b)
      → (Leaves s (0 ∷ 0 ∷ 1 ∷ 1 ∷ []) b
          × Leaves s (0 ∷ 1 ∷ 0 ∷ 1 ∷ []) b
          × Leaves s (1 ∷ 0 ∷ 0 ∷ 1 ∷ []) b)
        × (Leaves s (1 ∷ 1 ∷ 0 ∷ 0 ∷ []) a
            × Leaves s (1 ∷ 0 ∷ 1 ∷ 0 ∷ []) a
            × Leaves s (0 ∷ 1 ∷ 1 ∷ 0 ∷ []) a)
  unfolding schedule
  last_answer-HasRoute s raw_a raw_b a b t0 t1 l route da db =
      let w = s.world in
      let wa = (commit env w o (tour a)).world in
      let wb = (commit env w o (tour b)).world in
      let la = commit-Leads w (tour a) l in
      let lb = commit-Leads w (tour b) l in
      let asked = started s raw_a raw_b a b t0 t1 l da db in
      let first = first_asks _ w a _ l asked in
      let second = second_asks _ w b _ l asked in
      let both = second_asks _ w b _ l first in
      let both' = first_asks _ w a _ l second in
      let left_b = commit-HasRoute wa raw_b b db (commit-HasRoute w raw_a a da route) in
      let left_a = commit-HasRoute wb raw_a a da (commit-HasRoute w raw_b b db route) in
      (
        (
          HasRoute-eq (second_told _ wa b _ (second_asks _ wa b _ la (first_told _ w a _ first))).0
              left_b,
          HasRoute-eq (second_told _ wa b _ (first_told _ w a _ both)).0 left_b,
          HasRoute-eq (second_told _ wa b _ (first_told _ w a _ both')).0 left_b,
        ),
        (
          HasRoute-eq (first_told _ wb a _ (first_asks _ wb a _ lb (second_told _ w b _ second))).0
              left_a,
          HasRoute-eq (first_told _ wb a _ (second_told _ w b _ both')).0 left_a,
          HasRoute-eq (first_told _ wb a _ (second_told _ w b _ both)).0 left_a,
        ),
      )
