-- ===== src/FrameHandler/Protect.antt =====
-- backend/src/realtime/frame_handler.ts: whose frames can change what of a convoy's world state.
use crew_link.Base.{
  String, Option, none, some, ◌==◌, ◌≡◌, ◌≢◌, ◌⊎◌, inl, inr, refl, eq_iff, Bool-cases, ap, ◌∙◌, sym,
}
use mathlib.Core.Option
use mathlib.Core.Option.{some-injective, some-ne-none}
use crew_link.Promise.{fulfilled}
use crew_link.Wire.{
  HazardPayload, HazardRemovePayload, InboundFrame, gps, waypoint, hazard, hazard_remove, tour,
  originator_of,
}
use crew_link.Snapshot.{SnapshotView, fold_frame}
use crew_link.FrameHandler.{Services, Origin, Raw, World, proceed, decode, handle_frame}
use crew_link.FrameHandler.Authorised.{IsOwn, MayRemove, MayLead, IsLeader, IsAuthorised}
use crew_link.FrameHandler.Commit.{Folds, handle_frame-Keeps}

-- The route and the waypoint of a convoy.
abbrev pub SameRoute : SnapshotView → SnapshotView → Type 0
SameRoute v v' = (v'.route ≡ v.route) × (v'.target ≡ v.target)

pub hazard-IsOwn :
    (o : Origin) (p : HazardPayload) → IsOwn o (hazard p) → p.reporter_id ≡ o.member_id
unfolding originator_of
hazard-IsOwn o p (inl e) = cc
hazard-IsOwn o p (inr e) = some-injective _ _ e

module _ (env : Services) (w : World env) (o : Origin) (raw : Raw) where
  fold_frame-SameRoute :
      (f : InboundFrame) (v : SnapshotView)
      → ¬ IsLeader env w o
      → MayLead env w o f
      → SameRoute v (fold_frame v f)
  unfolding fold_frame
  fold_frame-SameRoute (tour p) v n m = absurd (n m)
  fold_frame-SameRoute (waypoint p) v n m = absurd (n m)
  fold_frame-SameRoute (gps p) v n m = (refl, refl)
  fold_frame-SameRoute _ v n m = (refl, refl)

  Folds-SameRoute :
      (v v' : SnapshotView) (j : String)
      → ¬ IsLeader env w o
      → Folds env w o raw v v' j
      → SameRoute v v'
  Folds-SameRoute v v' j n (inl e) = rw e (refl, refl)
  Folds-SameRoute v v' j n (inr (f, (_, _, _, leads), _, e)) =
      rw e (fold_frame-SameRoute f v n leads)

  -- Whatever a member who is not the leader sends, no convoy's route or waypoint changes.
  pub non_leader-SameRoute :
      (s : env.snapshot_store.State)
      → w.snapshots ≡ some s
      → env.snapshot_store.IsValid s
      → ¬ IsLeader env w o
      → (s' : env.snapshot_store.State) × ((handle_frame env w o raw).world.snapshots ≡ some s')
        × ((j : String) → SameRoute (env.snapshot_store.view s j) (env.snapshot_store.view s' j))
  non_leader-SameRoute s e v n =
      let (s', after, _, folds) = handle_frame-Keeps env w o raw s e v in
      (s', after, λ j. Folds-SameRoute _ _ j n (folds j))

  -- The sender reports a hazard of its own under the id.
  abbrev pub Overwrites : String → Type 0
  Overwrites id =
      (p : HazardPayload) × (decode env raw ≡ proceed (hazard p))
      × (p.id ≡ id)
      × (p.reporter_id ≡ o.member_id)

  reporter-some :
      (s : env.snapshot_store.State) (p : HazardRemovePayload) (h : HazardPayload)
      (r : Option String)
      → env.snapshot_store.IsValid s
      → (env.snapshot_store.view s o.convoy_id).hazards p.id ≡ some h
      → env.snapshot_store.hazard_reporter s o.convoy_id p.id ≡ fulfilled r
      → r ≡ some h.reporter_id
  reporter-some s p h r v there answer =
      env.snapshot_store.hazard_reporter-view s o.convoy_id p.id v answer
      ∙ ap (Option.map (λ (k : HazardPayload). k.reporter_id)) there

  -- A tracked hazard of somebody else cannot be removed.
  not_MayRemove :
      (s : env.snapshot_store.State) (p : HazardRemovePayload) (h : HazardPayload)
      → w.snapshots ≡ some s
      → env.snapshot_store.IsValid s
      → (env.snapshot_store.view s o.convoy_id).hazards p.id ≡ some h
      → h.reporter_id ≢ o.member_id
      → ¬ MayRemove env w o (hazard_remove p)
  not_MayRemove s p h e v there other (inl n) = cc
  not_MayRemove s p h e v there other (inr (t, e', inl answer)) =
      let same : t ≡ s = some-injective t s (sym e' ∙ e) in
      some-ne-none h.reporter_id (sym (reporter-some s p h none v there (rw same at answer)))
  not_MayRemove s p h e v there other (inr (t, e', inr answer)) =
      let same : t ≡ s = some-injective t s (sym e' ∙ e) in
      other (
        sym
          (some-injective _ _ (reporter-some s p h (some o.member_id) v there (rw same at answer))))

  fold_frame-hazard :
      (s : env.snapshot_store.State) (f : InboundFrame) (id : String) (h : HazardPayload)
      → w.snapshots ≡ some s
      → env.snapshot_store.IsValid s
      → (env.snapshot_store.view s o.convoy_id).hazards id ≡ some h
      → h.reporter_id ≢ o.member_id
      → IsAuthorised env w o raw f
      → ((fold_frame (env.snapshot_store.view s o.convoy_id) f).hazards id ≡ some h) ⊎ Overwrites id
  unfolding fold_frame
  fold_frame-hazard s (hazard p) id h e v there other (decoded, own, _, _) =
      elim (Bool-cases (p.id == id)) [
        | inl same ↦ inr (p, decoded, (eq_iff p.id id).0 same, hazard-IsOwn o p own)
        | inr apart ↦ inl (rw apart there)
      ]
  fold_frame-hazard s (hazard_remove p) id h e v there other (_, _, may, _) =
      elim (Bool-cases (p.id == id)) [
        | inl same ↦ absurd (
            not_MayRemove s p h e v
              (ap (env.snapshot_store.view s o.convoy_id).hazards ((eq_iff p.id id).0 same) ∙ there)
              other may)
        | inr apart ↦ inl (rw apart there)
      ]
  fold_frame-hazard s (gps p) id h e v there other a = inl there
  fold_frame-hazard s _ id h e v there other a = inl there

  -- A hazard of another member stays as it is, unless the sender reports one under its id.
  pub hazard-kept :
      (s : env.snapshot_store.State) (id : String) (h : HazardPayload)
      → w.snapshots ≡ some s
      → env.snapshot_store.IsValid s
      → (env.snapshot_store.view s o.convoy_id).hazards id ≡ some h
      → h.reporter_id ≢ o.member_id
      → (s' : env.snapshot_store.State) × ((handle_frame env w o raw).world.snapshots ≡ some s')
        × (((env.snapshot_store.view s' o.convoy_id).hazards id ≡ some h) ⊎ Overwrites id)
  hazard-kept s id h e v there other =
      let (s', after, _, folds) = handle_frame-Keeps env w o raw s e v in
      (s', after, kept s' (folds o.convoy_id))
    where
      kept :
          (s' : env.snapshot_store.State)
          → Folds env w o raw
              (env.snapshot_store.view s o.convoy_id)
              (env.snapshot_store.view s' o.convoy_id)
              o.convoy_id
          → ((env.snapshot_store.view s' o.convoy_id).hazards id ≡ some h) ⊎ Overwrites id
      kept s' (inl same) = inl (rw same there)
      kept s' (inr (f, a, _, folded)) = rw folded (fold_frame-hazard s f id h e v there other a)
