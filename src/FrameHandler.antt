-- ===== src/FrameHandler.antt =====
-- backend/src/realtime/frame_handler.ts: one inbound frame is validated, authorised, sent to the
-- other members and folded into the stores.
pub mod Authorised
pub mod Commit
pub mod Protect
pub mod Conform
pub mod Takeover
pub mod Task
use crew_link.Base.{
  ℕ, ℤ, String, Bool, true, false, Option, none, some, List, [], ◌∷◌, ◌++◌, ◌==◌, if◌then◌else◌,
  ◌≡◌,
}
use mathlib.Core.List.{flatten}
use crew_link.Promise.{Promise, fulfilled, rejected}
use crew_link.Wire.{
  InboundFrame, OutboundFrame, gps, waypoint, hazard, hazard_remove, tour, checkin, status,
  originator_of,
}
use crew_link.Fanout.{FanoutAdapter}
use crew_link.Fanout.Pool.{Delivery}
use crew_link.Snapshot.{SnapshotStore}
use crew_link.Positions.{PositionStore}

-- What the handler is given: the platform's text and JSON functions, the schema library's
-- `safeParse` of the inbound frame schema, and the implementations of the interfaces.
pub record Services : Type 1 where
  pub Value : Type 0
  pub utf8 : List ℕ → String
  pub json_parse : String → Option Value
  pub safe_parse : Value → Option InboundFrame
  pub json_stringify : OutboundFrame → String
  pub date_parse : String → Option ℤ
  pub fanout : FanoutAdapter
  pub snapshot_store : SnapshotStore date_parse
  pub position_store : PositionStore
  -- The numbers of a frame that meets the schema are finite, so its JSON text gives it back.
  pub accepted : (v : Value) (f : InboundFrame) → safe_parse v ≡ some f → snapshot_store.Accepts f

-- What `ws` hands over; `other` is anything else.
pub data Raw : Type 0 where
  text : String → Raw
  buffer : List ℕ → Raw
  buffers : List (List ℕ) → Raw
  array_buffer : List ℕ → Raw
  other : Raw

-- The connection that a frame comes from.
pub record Origin : Type 0 where
  pub member_id : String
  pub convoy_id : String

pub data Reason : Type 0 where
  not_text malformed_json failed_schema originator_mismatch : Reason
  not_reporter not_leader : Reason

pub data LogEntry : Type 0 where
  frame_dropped : Reason → LogEntry
  position_persist_failed snapshot_record_failed : LogEntry

-- The way through the checks: on with a value, an early return, or a rejected query.
pub data Check (A : Type 0) : Type 0 where
  proceed : A → Check A
  drop : Reason → Check A
  fail : Check A

infixl 5 ◌>>=◌ ◌>>◌
abbrev pub ◌>>=◌ : {A B : Type 0} → Check A → (A → Check B) → Check B
proceed a >>= k = k a
drop r >>= k = drop r
fail >>= k = fail

abbrev pub ◌>>◌ : {B : Type 0} → Check (Unit {0}) → Check B → Check B
m >> k = m >>= λ _. k

abbrev pub or_drop : {A : Type 0} → Option A → Reason → Check A
or_drop none r = drop r
or_drop (some a) r = proceed a

abbrev pub guard : Bool → Reason → Check (Unit {0})
guard true r = proceed tt
guard false r = drop r

abbrev pub await : {A : Type 0} → Promise A → Check A
await (fulfilled a) = proceed a
await rejected = fail

pub is_originator : InboundFrame → String → Bool
is_originator f member = elim (originator_of f) [ none ↦ true | some claimed ↦ claimed == member ]

pub is_reporter : Option String → String → Bool
is_reporter none member = true
is_reporter (some reporter) member = reporter == member

module _ (env : Services) where
  -- The state that a frame finds. A store that is not configured is `none`. `resolve_leader` is
  -- what the resolver answers at this moment.
  pub record World : Type 0 where
    pub connections : env.fanout.State
    pub positions : Option env.position_store.State
    pub snapshots : Option env.snapshot_store.State
    pub resolve_leader : Option (String → String → Promise Bool)

  -- What a call of the handler leaves: the state, the calls of `send`, the log, and whether a
  -- rejection reached no handler.
  pub record Outcome : Type 0 where
    pub world : World
    pub sent : List Delivery
    pub log : List LogEntry
    pub unhandled : Bool

  unfoldable pub buffer_to_string : Raw → Option String
  buffer_to_string (text s) = some s
  buffer_to_string (buffer bytes) = some (env.utf8 bytes)
  buffer_to_string (buffers chunks) = some (env.utf8 (flatten chunks))
  buffer_to_string (array_buffer bytes) = some (env.utf8 bytes)
  buffer_to_string other = none

  -- From the raw message to a frame that met the schema.
  unfoldable pub decode : Raw → Check InboundFrame
  unfolding buffer_to_string
  decode raw = do
    s ← or_drop (buffer_to_string raw) not_text
    parsed ← or_drop (env.json_parse s) malformed_json
    or_drop (env.safe_parse parsed) failed_schema

  -- A tracked hazard is removed by its reporter only; an unknown one may be removed by anybody.
  unfoldable pub check_reporter : World → Origin → InboundFrame → Check (Unit {0})
  unfolding is_reporter
  check_reporter w o (hazard_remove p) = elim w.snapshots [
    | none ↦ proceed tt
    | some s ↦ do
      reporter ← await (env.snapshot_store.hazard_reporter s o.convoy_id p.id)
      guard (is_reporter reporter o.member_id) not_reporter
  ]
  check_reporter w o _ = proceed tt

  ask_leader : World → Origin → Check (Unit {0})
  ask_leader w o = elim w.resolve_leader [
    | none ↦ proceed tt
    | some resolve ↦ do
      is_leader ← await (resolve o.member_id o.convoy_id)
      guard is_leader not_leader
  ]

  -- The route and the waypoint are the leader's.
  unfoldable pub check_leader : World → Origin → InboundFrame → Check (Unit {0})
  unfolding ask_leader
  check_leader w o (tour p) = ask_leader w o
  check_leader w o (waypoint p) = ask_leader w o
  check_leader w o _ = proceed tt

  -- The checks of `handleFrame`, up to the point where the frame is sent on.
  unfoldable pub authorise : World → Origin → Raw → Check InboundFrame
  unfolding decode is_originator check_reporter check_leader
  authorise w o raw = do
    f ← decode raw
    guard (is_originator f o.member_id) originator_mismatch
    check_reporter w o f
    check_leader w o f
    proceed f

  -- A gps frame is saved, in the store's own time; a failure is logged.
  unfoldable pub save_position :
      World → Origin → InboundFrame → Option env.position_store.State × List LogEntry
  save_position w o (gps p) = elim w.positions [
    | none ↦ (none, [])
    | some s ↦
        let (s', done) = env.position_store.save s o.convoy_id o.member_id p in
        (some s', elim done [ fulfilled _ ↦ [] | rejected ↦ position_persist_failed ∷ [] ])
  ]
  save_position w o _ = (w.positions, [])

  unfoldable pub record_snapshot :
      World → Origin → InboundFrame → Option env.snapshot_store.State × List LogEntry
  record_snapshot w o f = elim w.snapshots [
    | none ↦ (none, [])
    | some s ↦
        let (s', done) = env.snapshot_store.record_frame s o.convoy_id f in
        (some s', elim done [ fulfilled _ ↦ [] | rejected ↦ snapshot_record_failed ∷ [] ])
  ]

  abbrev escapes : Promise (Unit {0}) → Bool
  escapes (fulfilled _) = false
  escapes rejected = true

  -- The rest of `handleFrame`: `void fanout.publish(...)` has no handler for a rejection.
  unfoldable pub commit : World → Origin → InboundFrame → Outcome
  unfolding save_position record_snapshot
  commit w o f =
      let (conns, sent, published) =
        env.fanout.publish w.connections o.convoy_id (env.json_stringify f) o.member_id in
      let (positions, position_log) = save_position w o f in
      let (snapshots, snapshot_log) = record_snapshot w o f in
      record {
        world = record w { connections = conns; positions = positions; snapshots = snapshots };
        sent = sent;
        log = position_log ++ snapshot_log;
        unhandled = escapes published;
      }

  -- `not_text` returns without a log entry.
  abbrev entries : Reason → List LogEntry
  entries not_text = []
  entries r = frame_dropped r ∷ []

  -- What follows the checks.
  unfoldable pub finish : World → Origin → Check InboundFrame → Outcome
  unfolding commit
  finish w o (proceed f) = commit w o f
  finish w o (drop r) = record { world = w; sent = []; log = entries r; unhandled = false }
  finish w o fail = record { world = w; sent = []; log = []; unhandled = true }

  -- `handleFrame`, where nothing else runs while it waits.
  unfoldable pub handle_frame : World → Origin → Raw → Outcome
  unfolding authorise finish
  handle_frame w o raw = finish w o (authorise w o raw)
