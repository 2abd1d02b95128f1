-- ===== src/FrameHandler/Conform.antt =====
-- backend/src/realtime/frame_handler.ts, wire.ts and snapshot_store.ts: what the schemas let in is
-- all that the stores hold and replay.
use crew_link.Base.{
  String, ℤ, Bool, true, Option, none, some, List, [], ◌∷◌, In, ◌==◌, if◌then◌else◌, ◌≡◌, inl, inr,
  Bool-cases,
}
use mathlib.Core.Option.{some-injective, none-ne-some}
use crew_link.Promise.{fulfilled}
use crew_link.Wire.{
  HazardPayload, TourPayload, WaypointPayload, InboundFrame, OutboundFrame, hazard, hazard_remove,
  tour, waypoint, gps, checkin, status,
}
use crew_link.Wire.Schema.{inbound_frame_schema}
use crew_link.Snapshot.{SnapshotView, fold_frame, stops_or_none, IsCurrent}
use crew_link.FrameHandler.{Services, Origin, Raw, World, proceed, decode, handle_frame}
use crew_link.FrameHandler.Commit.{decode-safe_parse}
use crew_link.FrameHandler.Commit.{Folds, handle_frame-Keeps}

-- Each hazard, the route and the waypoint of the world state meet their schemas.
pub record Conforms (is_datetime : String → Bool) (v : SnapshotView) : Type 0 where
  pub of_hazards :
      (id : String) (h : HazardPayload)
      → v.hazards id ≡ some h
      → inbound_frame_schema is_datetime (hazard h) ≡ true
  pub of_route :
      (p : TourPayload) → v.route ≡ some p → inbound_frame_schema is_datetime (tour p) ≡ true
  pub of_target :
      (p : Option WaypointPayload)
      → v.target ≡ p
      → inbound_frame_schema is_datetime (waypoint p) ≡ true

module _ (is_datetime : String → Bool) where
  abbrev pub Meets : InboundFrame → Type 0
  Meets f = inbound_frame_schema is_datetime f ≡ true

  set_hazard-Meets :
      (v : SnapshotView) (k id : String) (p h : HazardPayload)
      → Conforms is_datetime v
      → Meets (hazard p)
      → (if k == id then some p else v.hazards id) ≡ some h
      → Meets (hazard h)
  set_hazard-Meets v k id p h c m e = elim (Bool-cases (k == id)) [
    | inl same ↦ rw (← some-injective p h (rw same at e)) m
    | inr apart ↦ c.of_hazards id h (rw apart at e)
  ]

  delete_hazard-Meets :
      (v : SnapshotView) (k id : String) (h : HazardPayload)
      → Conforms is_datetime v
      → (if k == id then none else v.hazards id) ≡ some h
      → Meets (hazard h)
  delete_hazard-Meets v k id h c e = elim (Bool-cases (k == id)) [
    | inl same ↦ absurd (none-ne-some h (rw same at e))
    | inr apart ↦ c.of_hazards id h (rw apart at e)
  ]

  stops_or_none-Meets :
      (stops : List WaypointPayload) (q : TourPayload)
      → Meets (tour (record { stops = stops }))
      → stops_or_none (record { stops = stops }) ≡ some q
      → Meets (tour q)
  stops_or_none-Meets [] q m e = absurd (none-ne-some q e)
  stops_or_none-Meets (x ∷ stops) q m e = rw (← some-injective _ q e) m

  -- Folding a frame that meets the schema keeps the world state within the schemas.
  pub fold_frame-Conforms :
      (v : SnapshotView) (f : InboundFrame)
      → Conforms is_datetime v
      → Meets f
      → Conforms is_datetime (fold_frame v f)
  unfolding fold_frame
  fold_frame-Conforms v (hazard p) c m = record {
    of_hazards = λ id h. set_hazard-Meets v p.id id p h c m;
    of_route = c.of_route;
    of_target = c.of_target;
  }
  fold_frame-Conforms v (hazard_remove p) c m = record {
    of_hazards = λ id h. delete_hazard-Meets v p.id id h c;
    of_route = c.of_route;
    of_target = c.of_target;
  }
  fold_frame-Conforms v (tour p) c m = record {
    of_hazards = c.of_hazards;
    of_route = λ q. stops_or_none-Meets p.stops q m;
    of_target = c.of_target;
  }
  fold_frame-Conforms v (waypoint p) c m = record {
    of_hazards = c.of_hazards;
    of_route = c.of_route;
    of_target = λ q e. rw (← e) m;
  }
  fold_frame-Conforms v (gps p) c m = c
  fold_frame-Conforms v _ c m = c

  -- The frames that tell such a world state meet the schema too.
  pub IsCurrent-Meets :
      (date_parse : String → Option ℤ) (ts : ℤ) (v : SnapshotView) (f : OutboundFrame)
      → Conforms is_datetime v
      → IsCurrent date_parse ts v f
      → Meets f
  IsCurrent-Meets date_parse ts v (hazard p) c (e, _) = c.of_hazards p.id p e
  IsCurrent-Meets date_parse ts v (tour p) c e = c.of_route p e
  IsCurrent-Meets date_parse ts v (waypoint p) c (_, e) = c.of_target p e
  IsCurrent-Meets date_parse ts v (gps p) c e = elim e [ ]
  IsCurrent-Meets date_parse ts v (hazard_remove p) c e = elim e [ ]
  IsCurrent-Meets date_parse ts v (checkin p) c e = elim e [ ]
  IsCurrent-Meets date_parse ts v (status p) c e = elim e [ ]

-- `safeParse` succeeds only with values that meet the schema (documented by the library).
abbrev pub IsSoundParse : Services → (String → Bool) → Type 0
IsSoundParse env is_datetime =
    (v : env.Value) (f : InboundFrame)
    → env.safe_parse v ≡ some f
    → inbound_frame_schema is_datetime f ≡ true

module _ (env : Services) (is_datetime : String → Bool) (sound : IsSoundParse env is_datetime) where
  pub decode-Meets :
      (raw : Raw) (f : InboundFrame) → decode env raw ≡ proceed f → Meets is_datetime f
  decode-Meets raw f e = let (value, parsed) = decode-safe_parse env raw f e in sound value f parsed

  -- A call of the handler keeps the stored world state of every convoy within the schemas.
  pub handle_frame-Conforms :
      (w : World env) (o : Origin) (raw : Raw) (s : env.snapshot_store.State)
      → w.snapshots ≡ some s
      → env.snapshot_store.IsValid s
      → ((j : String) → Conforms is_datetime (env.snapshot_store.view s j))
      → (s' : env.snapshot_store.State) × ((handle_frame env w o raw).world.snapshots ≡ some s')
        × env.snapshot_store.IsValid s'
        × ((j : String) → Conforms is_datetime (env.snapshot_store.view s' j))
  handle_frame-Conforms w o raw s e v c =
      let (s', after, v', folds) = handle_frame-Keeps env w o raw s e v in
      (s', after, v', λ j. kept _ _ j (c j) (folds j))
    where
      kept :
          (x x' : SnapshotView) (j : String)
          → Conforms is_datetime x
          → Folds env w o raw x x' j
          → Conforms is_datetime x'
      kept x x' j c (inl same) = rw same c
      kept x x' j c (inr (f, (d, _, _, _), _, folded)) =
          rw folded (fold_frame-Conforms is_datetime x f c (decode-Meets raw f d))

  -- So every frame that the store replays to a late joiner meets the inbound schema.
  pub snapshot-Meets :
      (s : env.snapshot_store.State) (ts : ℤ) (c : String) {fs : List OutboundFrame}
      (f : OutboundFrame)
      → env.snapshot_store.IsValid s
      → Conforms is_datetime (env.snapshot_store.view s c)
      → (env.snapshot_store.snapshot ts s c).1 ≡ fulfilled fs
      → In f fs
      → inbound_frame_schema is_datetime f ≡ true
  snapshot-Meets s ts c f v conforms e i =
      IsCurrent-Meets is_datetime env.date_parse ts _ f conforms
        ((env.snapshot_store.snapshot-IsCurrent ts s c f v e).0 i)
