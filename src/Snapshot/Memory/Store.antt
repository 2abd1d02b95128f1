-- ===== src/Snapshot/Memory/Store.antt =====
-- The in-process store of backend/src/realtime/snapshot_store.ts fills the interface.
use crew_link.Base.{String, ℤ, Option, ◌≡◌, Option-cases, inl, inr}
use mathlib.Core.Option
use crew_link.JsMap.{get}
use crew_link.Promise.{fulfilled}
use crew_link.Snapshot.{SnapshotStore}
use crew_link.Snapshot.Memory.{Convoys, record_frame, snapshot, clear, hazard_reporter}
use crew_link.Snapshot.Memory.View.{
  IsValid, view, view_found, view_missing, record_frame-IsValid, clear-IsValid, view-record_frame,
  view-clear,
}
use crew_link.Snapshot.Memory.Replay.{snapshot-IsValid, view-snapshot, snapshot-IsCurrent}

-- `hazardReporter` reads the reporter of the hazard that the view has under the id.
hazard_reporter_lem :
    (convoys : Convoys) (c id : String)
    → hazard_reporter convoys c id
      ≡ fulfilled (Option.map (λ h. h.reporter_id) ((view convoys c).hazards id))
unfolding hazard_reporter
hazard_reporter_lem convoys c id = elim (Option-cases (get c convoys)) [
  | inl e ↦ rw (view_missing convoys c e, e, hazard_reporter)
  | inr (s, e) ↦ rw (view_found convoys c s e, e, hazard_reporter)
]

pub hazard_reporter-view :
    (convoys : Convoys) (c id : String) {r : Option String}
    → hazard_reporter convoys c id ≡ fulfilled r
    → r ≡ Option.map (λ h. h.reporter_id) ((view convoys c).hazards id)
hazard_reporter-view convoys c id e = cc (hazard_reporter_lem convoys c id)

-- `createInMemorySnapshotStore`
abbrev pub memory_store : (date_parse : String → Option ℤ) → SnapshotStore date_parse
memory_store date_parse = record {
  State = Convoys;
  IsValid = IsValid;
  view = view;
  Accepts = λ f. Unit {0};
  record_frame = record_frame;
  snapshot = snapshot date_parse;
  clear = clear;
  hazard_reporter = hazard_reporter;
  record_frame-IsValid = λ s c f _. record_frame-IsValid s c f;
  snapshot-IsValid = snapshot-IsValid date_parse;
  clear-IsValid = clear-IsValid;
  view-record_frame = λ s c j f _ _ _. view-record_frame s c j f;
  view-record_frame_any = λ s c j f _ _. inl (view-record_frame s c j f);
  view-snapshot = λ ts s c j v _. view-snapshot date_parse ts s c j v;
  view-clear = λ s c j _ _. view-clear s c j;
  snapshot-IsCurrent = snapshot-IsCurrent date_parse;
  hazard_reporter-view = λ s c id _. hazard_reporter-view s c id;
}
