-- ===== src/FrameHandler/Task/Races.antt =====
-- backend/src/realtime/frame_handler.ts: a removal that waits while another member reports under
-- its id.
use crew_link.Base.{String, Option, none, some, [], ◌∷◌, ◌≡◌, inl, refl, ap, ◌∙◌, eq_refl}
use mathlib.Core.Option
use crew_link.Promise.{fulfilled}
use crew_link.Wire.{HazardPayload, HazardRemovePayload, hazard, hazard_remove, originator_of}
use crew_link.Snapshot.{SnapshotView, fold_frame}
use crew_link.FrameHandler.{Services, World, Origin, Raw, proceed, decode, commit}
use crew_link.FrameHandler.Takeover.{IsReliable, hazard-IsOwn}
use crew_link.FrameHandler.Task.{received, reporter_answer}
use crew_link.FrameHandler.Task.Answers.{reporter_answer_lem}
use crew_link.FrameHandler.Task.Single.{
  turn-asked_reporter, turn-hazard, turn-removal, turn-told_reporter, view-commit,
  turned-IsAt_first, turned-IsAt_second,
}
use crew_link.FrameHandler.Task.System.{Task, System, schedule}

module _ (env : Services) (o : Origin) (m : String) (reliable : IsReliable env) where
  -- The other member's connection to the same convoy.
  abbrev pub other_of : Origin
  other_of = record { member_id = m; convoy_id = o.convoy_id }

  abbrev pub Tracks : World env → String → Option HazardPayload → Type 0
  Tracks w id h =
      (σ : env.snapshot_store.State) × (w.snapshots ≡ some σ)
      × env.snapshot_store.IsValid σ
      × ((env.snapshot_store.view σ o.convoy_id).hazards id ≡ h)

  Tracks-eq :
      {w w' : World env} {id : String} {h : Option HazardPayload}
      → w ≡ w'
      → Tracks w' id h
      → Tracks w id h
  Tracks-eq same (σ, e, v, there) = (σ, ap (λ (x : World env). x.snapshots) same ∙ e, v, there)

  commit-report :
      (w : World env) (raw : Raw) (p : HazardPayload) (σ : env.snapshot_store.State)
      → decode env raw ≡ proceed (hazard p)
      → w.snapshots ≡ some σ
      → env.snapshot_store.IsValid σ
      → Tracks (commit env w other_of (hazard p)).world p.id (some p)
  unfolding fold_frame
  commit-report w raw p σ d e v =
      let (σ', after, v', folded) = view-commit env w other_of raw (hazard p) σ reliable d e v in
      (σ', after, v', ap (λ (x : SnapshotView). x.hazards p.id) folded ∙ rw (eq_refl p.id) refl)

  commit-removal :
      (w : World env) (raw : Raw) (q : HazardRemovePayload) {h : Option HazardPayload}
      → decode env raw ≡ proceed (hazard_remove q)
      → Tracks w q.id h
      → Tracks (commit env w o (hazard_remove q)).world q.id none
  unfolding fold_frame
  commit-removal w raw q d (σ, e, v, there) =
      let (σ', after, v', folded) = view-commit env w o raw (hazard_remove q) σ reliable d e v in
      (σ', after, v', ap (λ (x : SnapshotView). x.hazards q.id) folded ∙ rw (eq_refl q.id) refl)

  -- The answer to the removal of an own hazard.
  own_answer :
      (w : World env) (q : HazardRemovePayload) (h : HazardPayload)
      → Tracks w q.id (some h)
      → h.reporter_id ≡ o.member_id
      → reporter_answer env w o q ≡ fulfilled (some o.member_id)
  own_answer w q h (σ, e, v, there) own =
      let (r, answer) = reliable.answers σ o.convoy_id q.id in
      let read : r ≡ some o.member_id =
        env.snapshot_store.hazard_reporter-view σ o.convoy_id q.id v answer
        ∙ (ap (Option.map (λ (k : HazardPayload). k.reporter_id)) there ∙ ap some own) in
      reporter_answer_lem env w o q σ e ∙ (answer ∙ ap fulfilled read)

  -- The store's operations go through and it is valid. A reporter's removal has its answer when
  -- another member's report under the id is handled: the report is tracked, and the removal, which
  -- goes on after it, takes the other member's hazard out.
  pub stale_removal :
      (s : System env) (remove_raw report_raw : Raw) (h p : HazardPayload)
      → s.tasks 0 ≡ record { origin = o; pc = received remove_raw }
      → s.tasks 1 ≡ record { origin = other_of; pc = received report_raw }
      → Tracks s.world p.id (some h)
      → h.reporter_id ≡ o.member_id
      → p.reporter_id ≡ m
      → decode env remove_raw ≡ proceed (hazard_remove (record { id = p.id }))
      → decode env report_raw ≡ proceed (hazard p)
      → Tracks (schedule env s (0 ∷ 0 ∷ 1 ∷ [])).world p.id (some p)
        × Tracks (schedule env s (0 ∷ 0 ∷ 1 ∷ 0 ∷ [])).world p.id none
  unfolding schedule originator_of
  stale_removal s remove_raw report_raw h p t0 t1 there mine theirs d d' =
      let w = s.world in
      let q : HazardRemovePayload = record { id = p.id } in
      let (σ, e, v, at_id) = there in
      let removal : Task = record { origin = o; pc = received remove_raw } in
      let report : Task = record { origin = other_of; pc = received report_raw } in
      let asked =
        turned-IsAt_first env s w removal report (refl, t0, t1)
          (turn-removal env w o remove_raw q σ d (inl refl) e) in
      let told = turned-IsAt_first env _ w _ report asked (turn-asked_reporter env w o q) in
      let reported =
        turned-IsAt_second env _ w _ report told
          (turn-hazard env w other_of report_raw p d' (hazard-IsOwn other_of p theirs)) in
      let tracked = commit-report w report_raw p σ d' e v in
      let w' = (commit env w other_of (hazard p)).world in
      let removed =
        turned-IsAt_first env _ w' _ _ reported (
          turn-told_reporter env w' o q (reporter_answer env w o q)
            (own_answer w q h there mine)) in
      (Tracks-eq reported.0 tracked, Tracks-eq removed.0 (commit-removal w' remove_raw q d tracked))
