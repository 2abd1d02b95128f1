-- ===== src/Snapshot/Redis/Race.antt =====
-- backend/src/realtime/redis_snapshot_store.ts: `snapshot` while another instance writes. The loop
-- goes over fields that were read before, in a state that has moved on.
use crew_link.Base.{String, ℤ, true, Option, none, some, List, [], ◌≡◌, refl, eq_refl}
use crew_link.JsMap.{JsMap}
use crew_link.Promise.{fulfilled}
use crew_link.Wire.{HazardPayload, OutboundFrame}
use crew_link.Redis.{Redis}
use crew_link.Snapshot.{is_expired}
use crew_link.Snapshot.Redis.{PayloadJson, key_for, hazard_field, replay}
use crew_link.Snapshot.Redis.View.{view, view_of}
use crew_link.Snapshot.Redis.Replay.{expired-dead}
use crew_link.Snapshot.Redis.Loop.{hash-replay}

-- Where the fields that a replay has read held an expired hazard, its loop, if it ends, takes the id's
-- entry away from any later state, whatever was reported under the id in the meantime.
pub report_lost :
    (json : PayloadJson) (date_parse : String → Option ℤ) (r : Redis) (ts : ℤ)
    (before later : r.State) (c id : String) (p : HazardPayload) {m : JsMap String}
    {fs : List OutboundFrame}
    → r.hgetall before (key_for c) ≡ fulfilled m
    → (view json r before c).hazards id ≡ some p
    → is_expired date_parse ts p ≡ true
    → (replay json date_parse r ts later (key_for c) m []).1 ≡ fulfilled fs
    → (view json r (replay json date_parse r ts later (key_for c) m []).0 c).hazards id ≡ none
unfolding view view_of
report_lost json date_parse r ts before later c id p {m} read there old done =
    let swept =
      hash-replay json date_parse r ts later (key_for c) (key_for c) (hazard_field id) m []
        (r.hgetall-IsMap before (key_for c) read) done in
    let is_dead =
      expired-dead json date_parse r ts id (r.hash before (key_for c) (hazard_field id)) p there
        old in
    rw
      (swept, eq_refl (key_for c), r.get-hgetall before (key_for c) (hazard_field id) read, is_dead)
      refl
