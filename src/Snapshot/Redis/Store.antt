-- ===== src/Snapshot/Redis/Store.antt =====
-- backend/src/realtime/redis_snapshot_store.ts: the store in Redis fills the interface.
use crew_link.Base.{String, ℤ, Option}
use crew_link.Redis.{Redis}
use crew_link.Snapshot.{SnapshotStore}
use crew_link.Snapshot.Redis.{PayloadJson, record_frame, snapshot, clear, hazard_reporter}
use crew_link.Snapshot.Redis.View.{
  IsValid, view, Survives, record_frame-IsValid, clear-IsValid, view-record_frame,
  view-record_frame_any, view-clear,
}
use crew_link.Snapshot.Redis.Replay.{
  snapshot-IsValid, view-snapshot, snapshot-IsCurrent, hazard_reporter-view,
}

-- `RedisSnapshotStore`
abbrev pub redis_store :
    Redis → PayloadJson → (date_parse : String → Option ℤ) → SnapshotStore date_parse
redis_store r json date_parse = record {
  State = r.State;
  IsValid = IsValid json r;
  view = view json r;
  Accepts = Survives json;
  record_frame = record_frame json r;
  snapshot = snapshot json date_parse r;
  clear = clear r;
  hazard_reporter = hazard_reporter json r;
  record_frame-IsValid = record_frame-IsValid json r;
  snapshot-IsValid = snapshot-IsValid json date_parse r;
  clear-IsValid = clear-IsValid json r;
  view-record_frame = λ s c j f a _. view-record_frame json r s c j f a;
  view-record_frame_any = λ s c j f a _. view-record_frame_any json r s c j f a;
  view-snapshot = λ ts s c j _. view-snapshot json date_parse r ts s c j;
  view-clear = λ s c j _. view-clear json r s c j;
  snapshot-IsCurrent = snapshot-IsCurrent json date_parse r;
  hazard_reporter-view = λ s c id _. hazard_reporter-view json r s c id;
}
