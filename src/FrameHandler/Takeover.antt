-- ===== src/FrameHandler/Takeover.antt =====
-- backend/src/realtime/frame_handler.ts and snapshot_store.ts: reporting under a known id makes
-- the sender the reporter.
use crew_link.Base.{String, Option, none, some, ◌≡◌, inl, inr, refl, ap, ◌∙◌, eq_refl}
use mathlib.Core.Option
use mathlib.Core.Option.{some-injective}
use crew_link.Promise.{fulfilled}
use crew_link.Wire.{
  HazardPayload, HazardRemovePayload, InboundFrame, hazard, hazard_remove, originator_of,
}
use crew_link.Snapshot.{SnapshotView, fold_frame}
use crew_link.FrameHandler.{Services, Origin, Raw, World, proceed, decode, handle_frame}
use crew_link.FrameHandler.Authorised.{IsOwn, IsAuthorised}
use crew_link.FrameHandler.Commit.{view-handle_frame}

-- The store's operations go through.
pub record IsReliable (env : Services) : Type 0 where
  pub records :
      (s : env.snapshot_store.State) (c : String) (f : InboundFrame)
      → (env.snapshot_store.record_frame s c f).1 ≡ fulfilled tt
  pub answers :
      (s : env.snapshot_store.State) (c id : String)
      → (r : Option String) × (env.snapshot_store.hazard_reporter s c id ≡ fulfilled r)

pub hazard-IsOwn :
    (o : Origin) (p : HazardPayload) → p.reporter_id ≡ o.member_id → IsOwn o (hazard p)
unfolding originator_of
hazard-IsOwn o p e = inr (ap some e)

module _ (env : Services) (o : Origin) (reliable : IsReliable env) where
  abbrev hazard_at : env.snapshot_store.State → String → Option HazardPayload
  hazard_at s id = (env.snapshot_store.view s o.convoy_id).hazards id

  -- A member's own report is tracked, whoever reported under the id before.
  report :
      (w : World env) (raw : Raw) (s : env.snapshot_store.State) (p : HazardPayload)
      → w.snapshots ≡ some s
      → env.snapshot_store.IsValid s
      → decode env raw ≡ proceed (hazard p)
      → p.reporter_id ≡ o.member_id
      → (s' : env.snapshot_store.State) × ((handle_frame env w o raw).world.snapshots ≡ some s')
        × env.snapshot_store.IsValid s'
        × (hazard_at s' p.id ≡ some p)
  unfolding fold_frame
  report w raw s p e v d own =
      let a : IsAuthorised env w o raw (hazard p) = (d, hazard-IsOwn o p own, tt, tt) in
      let (s', after, v', folded) =
        view-handle_frame env w o raw (hazard p) s a e v
          (reliable.records s o.convoy_id (hazard p)) in
      (
        s',
        after,
        v',
        ap (λ (x : SnapshotView). x.hazards p.id) (folded o.convoy_id)
            ∙ rw (eq_refl o.convoy_id, eq_refl p.id) refl,
      )

  -- The tracked reporter's removal takes the hazard out.
  remove :
      (w : World env) (raw : Raw) (s : env.snapshot_store.State) (h : HazardPayload)
      (q : HazardRemovePayload)
      → w.snapshots ≡ some s
      → env.snapshot_store.IsValid s
      → decode env raw ≡ proceed (hazard_remove q)
      → hazard_at s q.id ≡ some h
      → h.reporter_id ≡ o.member_id
      → (s' : env.snapshot_store.State) × ((handle_frame env w o raw).world.snapshots ≡ some s')
        × (hazard_at s' q.id ≡ none)
  unfolding fold_frame originator_of
  remove w raw s h q e v d there own =
      let (r, answer) = reliable.answers s o.convoy_id q.id in
      let read : r ≡ some o.member_id =
        env.snapshot_store.hazard_reporter-view s o.convoy_id q.id v answer
        ∙ (ap (Option.map (λ (k : HazardPayload). k.reporter_id)) there ∙ ap some own) in
      let a : IsAuthorised env w o raw (hazard_remove q) =
        (d, inl refl, inr (s, e, inr (answer ∙ ap fulfilled read)), tt) in
      let (s', after, _, folded) =
        view-handle_frame env w o raw (hazard_remove q) s a e v
          (reliable.records s o.convoy_id (hazard_remove q)) in
      (
        s',
        after,
        ap (λ (x : SnapshotView). x.hazards q.id) (folded o.convoy_id)
            ∙ rw (eq_refl o.convoy_id, eq_refl q.id) refl,
      )

  -- Whoever reported the hazard: any member can report under its id and then remove it.
  pub takeover :
      (w : World env) (report_raw remove_raw : Raw) (s : env.snapshot_store.State)
      (p : HazardPayload)
      → w.snapshots ≡ some s
      → env.snapshot_store.IsValid s
      → decode env report_raw ≡ proceed (hazard p)
      → p.reporter_id ≡ o.member_id
      → decode env remove_raw ≡ proceed (hazard_remove (record { id = p.id }))
      → (s' : env.snapshot_store.State) × ((handle_frame env
            (handle_frame env w o report_raw).world
            o
            remove_raw).world.snapshots
          ≡ some s')
        × (hazard_at s' p.id ≡ none)
  takeover w report_raw remove_raw s p e v d own d' =
      let (s1, after, v1, there) = report w report_raw s p e v d own in
      remove (handle_frame env w o report_raw).world remove_raw s1 p (record { id = p.id }) after v1
        d' there own
