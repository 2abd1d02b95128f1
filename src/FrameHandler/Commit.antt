-- ===== src/FrameHandler/Commit.antt =====
-- backend/src/realtime/frame_handler.ts: what a call of `handleFrame` leaves behind.
use crew_link.Base.{
  String, Option, none, some, [], ◌==◌, if◌then◌else◌, ◌≡◌, ◌⊎◌, inl, inr, refl, eq_iff, Bool-cases,
  ap, ◌∙◌,
}
use crew_link.Promise.{fulfilled}
use crew_link.Wire.{InboundFrame}
use crew_link.Fanout.Pool.{deliveries}
use crew_link.Snapshot.{SnapshotView, fold_frame}
use crew_link.FrameHandler.{
  Reason, or_drop, decode, buffer_to_string, not_text, malformed_json, failed_schema, Services,
  Origin, Raw, Check, proceed, drop, fail, World, authorise, commit, finish, handle_frame,
  record_snapshot,
}
use crew_link.FrameHandler.Authorised.{bind-eq-proceed, IsAuthorised, authorise_iff}

or_drop-eq-proceed :
    {A : Type 0} (x : Option A) (r : Reason) (a : A) → or_drop x r ≡ proceed a → x ≡ some a
or_drop-eq-proceed none r a e = cc
or_drop-eq-proceed (some b) r a e = cc

-- A decoded frame comes from the schema library's parser.
pub decode-safe_parse :
    (env : Services) (raw : Raw) (f : InboundFrame)
    → decode env raw ≡ proceed f
    → (v : env.Value) × (env.safe_parse v ≡ some f)
unfolding decode
decode-safe_parse env raw f e =
    let (s, _, e1) = bind-eq-proceed (or_drop (buffer_to_string env raw) not_text) _ e in
    let (v, _, e2) = bind-eq-proceed (or_drop (env.json_parse s) malformed_json) _ e1 in
    (v, or_drop-eq-proceed (env.safe_parse v) failed_schema f e2)

-- The snapshot store after a commit.
pub snapshots-commit :
    (env : Services) (w : World env) (o : Origin) (f : InboundFrame) (s : env.snapshot_store.State)
    → w.snapshots ≡ some s
    → (commit env w o f).world.snapshots ≡ some (env.snapshot_store.record_frame s o.convoy_id f).0
unfolding commit record_snapshot
snapshots-commit env w o f s e = rw (e, commit, record_snapshot)

module _ (env : Services) (w : World env) (o : Origin) (raw : Raw) where
  accepts : (f : InboundFrame) → IsAuthorised env w o raw f → env.snapshot_store.Accepts f
  accepts f (d, _, _, _) = let (v, e) = decode-safe_parse env raw f d in env.accepted v f e

  -- A frame passed the checks and was committed.
  abbrev pub Commits : Type 0
  Commits =
      (f : InboundFrame) × IsAuthorised env w o raw f
      × (handle_frame env w o raw ≡ commit env w o f)

  -- No frame passed, the state is as before, and nothing was sent.
  abbrev pub Refuses : Type 0
  Refuses =
      ((f : InboundFrame) → ¬ IsAuthorised env w o raw f)
      × ((handle_frame env w o raw).world ≡ w)
      × ((handle_frame env w o raw).sent ≡ [])

  finish-cases : (c : Check InboundFrame) → authorise env w o raw ≡ c → Commits ⊎ Refuses
  unfolding handle_frame finish
  finish-cases (proceed f) e =
      inl (f, (authorise_iff env w o raw f).0 e, rw (e, handle_frame, finish))
  finish-cases (drop r) e = inr (
    (λ f a. cc ((authorise_iff env w o raw f).1 a)),
    rw (e, handle_frame, finish),
    rw (e, handle_frame, finish),
  )
  finish-cases fail e = inr (
    (λ f a. cc ((authorise_iff env w o raw f).1 a)),
    rw (e, handle_frame, finish),
    rw (e, handle_frame, finish),
  )

  -- Every call either commits an authorised frame, or finds none and leaves all as it was.
  pub handle_frame-cases : Commits ⊎ Refuses
  handle_frame-cases = finish-cases (authorise env w o raw) refl

  -- What is sent is sent to the other members' connections of the convoy, the frame's own text.
  pub sent-deliveries :
      (f : InboundFrame)
      → IsAuthorised env w o raw f
      → (handle_frame env w o raw).sent
        ≡ deliveries (env.fanout.pool w.connections o.convoy_id) (env.json_stringify f) o.member_id
  unfolding handle_frame finish commit
  sent-deliveries f a =
      rw ((authorise_iff env w o raw f).1 a, handle_frame, finish)
        (env.fanout.publish-deliveries w.connections o.convoy_id (env.json_stringify f) o.member_id)

  commit_of_IsAuthorised :
      (f : InboundFrame) → IsAuthorised env w o raw f → handle_frame env w o raw ≡ commit env w o f
  unfolding handle_frame finish
  commit_of_IsAuthorised f a = rw ((authorise_iff env w o raw f).1 a, handle_frame, finish)

  -- What a call makes of one convoy's world state: nothing, or the fold of an authorised frame of
  -- a connection to this convoy.
  abbrev pub Folds : SnapshotView → SnapshotView → String → Type 0
  Folds v v' j =
      (v' ≡ v)
      ⊎ ((f : InboundFrame) × IsAuthorised env w o raw f
          × (o.convoy_id ≡ j)
          × (v' ≡ fold_frame v f))

  abbrev pub Keeps : env.snapshot_store.State → Type 0
  Keeps s =
      (s' : env.snapshot_store.State) × ((handle_frame env w o raw).world.snapshots ≡ some s')
      × env.snapshot_store.IsValid s'
      × ((j : String) → Folds (env.snapshot_store.view s j) (env.snapshot_store.view s' j) j)

  record_frame-Folds :
      (s : env.snapshot_store.State) (f : InboundFrame) (j : String)
      → env.snapshot_store.IsValid s
      → IsAuthorised env w o raw f
      → Folds
          (env.snapshot_store.view s j)
          (env.snapshot_store.view (env.snapshot_store.record_frame s o.convoy_id f).0 j)
          j
  record_frame-Folds s f j v a =
      elim (env.snapshot_store.view-record_frame_any s o.convoy_id j f (accepts f a) v) [
        | inl e ↦ elim (Bool-cases (o.convoy_id == j)) [
          | inl same ↦ inr (f, a, (eq_iff o.convoy_id j).0 same, rw same at e)
          | inr other ↦ inl (rw other at e)
        ]
        | inr e ↦ inl e
      ]

  -- The snapshot store after any call of the handler.
  pub handle_frame-Keeps :
      (s : env.snapshot_store.State) → w.snapshots ≡ some s → env.snapshot_store.IsValid s → Keeps s
  handle_frame-Keeps s e v = elim handle_frame-cases [
    | inl (f, a, done) ↦ (
      (env.snapshot_store.record_frame s o.convoy_id f).0,
      ap (λ out. out.world.snapshots) done ∙ snapshots-commit env w o f s e,
      env.snapshot_store.record_frame-IsValid s o.convoy_id f (accepts f a) v,
      λ j. record_frame-Folds s f j v a,
    )
    | inr (none_passes, same, _) ↦
        (s, ap (λ (x : World env). x.snapshots) same ∙ e, v, λ j. inl refl)
  ]

  -- An authorised frame that the store records is folded into its convoy's world state, and into
  -- no other's.
  pub view-handle_frame :
      (f : InboundFrame) (s : env.snapshot_store.State)
      → IsAuthorised env w o raw f
      → w.snapshots ≡ some s
      → env.snapshot_store.IsValid s
      → (env.snapshot_store.record_frame s o.convoy_id f).1 ≡ fulfilled tt
      → (s' : env.snapshot_store.State) × ((handle_frame env w o raw).world.snapshots ≡ some s')
        × env.snapshot_store.IsValid s'
        × ((j : String)
            → env.snapshot_store.view s' j ≡ (
                if o.convoy_id == j
                then fold_frame (env.snapshot_store.view s j) f
                else env.snapshot_store.view s j))
  view-handle_frame f s a e v done = (
    (env.snapshot_store.record_frame s o.convoy_id f).0,
    ap (λ out. out.world.snapshots) (commit_of_IsAuthorised f a) ∙ snapshots-commit env w o f s e,
    env.snapshot_store.record_frame-IsValid s o.convoy_id f (accepts f a) v,
    λ j. env.snapshot_store.view-record_frame s o.convoy_id j f (accepts f a) v done,
  )

  -- The registered connections after any call of the handler.
  pub connections-handle_frame :
      (env.fanout.IsValid w.connections
        → env.fanout.IsValid (handle_frame env w o raw).world.connections)
      × ((c : String)
          → env.fanout.pool (handle_frame env w o raw).world.connections c
            ≡ env.fanout.pool w.connections c)
  unfolding commit
  connections-handle_frame = elim handle_frame-cases [
    | inl (f, a, done) ↦ rw done (
      env.fanout.publish-IsValid w.connections o.convoy_id (env.json_stringify f) o.member_id,
      env.fanout.pool-publish w.connections o.convoy_id (env.json_stringify f) o.member_id,
    )
    | inr (_, same, _) ↦ rw same (λ v. v, λ c. refl)
  ]
