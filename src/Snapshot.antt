-- ===== src/Snapshot.antt =====
-- backend/src/realtime/snapshot_store.ts, the interface: what a snapshot store promises, stated on
-- an abstract view of a convoy's world state. `Memory` is the in-process implementation.
pub mod Memory
pub mod Redis
pub mod Agree
pub mod Served
use crew_link.Base.{
  String, ℤ, leℤ, Bool, true, false, Option, none, some, List, [], ◌∷◌, In, ◌==◌, if◌then◌else◌,
  ◌≡◌, ◌≢◌, ◌↔◌, ◌⊎◌,
}
use mathlib.Core.Option
use crew_link.Promise.{Promise, fulfilled}
use crew_link.Wire.{
  HazardPayload, TourPayload, WaypointPayload, InboundFrame, OutboundFrame, gps, waypoint, hazard,
  hazard_remove, tour, checkin, status,
}

-- The world state of a convoy: the hazards by id, the route, the waypoint.
pub record SnapshotView : Type 0 where
  pub hazards : String → Option HazardPayload
  pub route : Option TourPayload
  pub target : Option WaypointPayload

abbrev pub empty_view : SnapshotView
empty_view = record { hazards = λ _. none; route = none; target = none }

-- An empty list of stops clears the route.
abbrev pub stops_or_none : TourPayload → Option TourPayload
stops_or_none p = elim p.stops [ [] ↦ none | _ ∷ _ ↦ some p ]

-- What a broadcast frame makes of the world state; gps, check-in and status leave it alone.
unfoldable pub fold_frame : SnapshotView → InboundFrame → SnapshotView
fold_frame v (hazard p) = record v { hazards = λ id. if p.id == id then some p else v.hazards id }
fold_frame v (hazard_remove p) = record v {
  hazards = λ id. if p.id == id then none else v.hazards id;
}
fold_frame v (tour p) = record v { route = stops_or_none p }
fold_frame v (waypoint p) = record v { target = p }
fold_frame v (gps p) = v
fold_frame v (checkin p) = v
fold_frame v (status p) = v

module _ (date_parse : String → Option ℤ) where
  -- `Date.parse(t) <= ts`, which is false where the parse gives NaN (`none`).
  unfoldable pub parsed_le : String → ℤ → Bool
  parsed_le t ts = elim (date_parse t) [ none ↦ false | some ms ↦ leℤ ms ts ]

  unfoldable pub is_expired : ℤ → HazardPayload → Bool
  unfolding parsed_le
  is_expired ts h = elim h.expires_at [ none ↦ false | some t ↦ parsed_le t ts ]

  abbrev pub unexpired : ℤ → Option HazardPayload → Option HazardPayload
  unexpired ts none = none
  unexpired ts (some h) = if is_expired ts h then none else some h

  -- The world state without the hazards that have expired.
  abbrev pub prune : ℤ → SnapshotView → SnapshotView
  prune ts v = record v { hazards = λ id. unexpired ts (v.hazards id) }

  -- The frames that tell a late joiner the world state at time `ts`.
  abbrev pub IsCurrent : ℤ → SnapshotView → OutboundFrame → Type 0
  IsCurrent ts v (hazard p) = (v.hazards p.id ≡ some p) × (is_expired ts p ≡ false)
  IsCurrent ts v (tour p) = v.route ≡ some p
  IsCurrent ts v (waypoint p) = (p ≢ none) × (v.target ≡ p)
  IsCurrent ts v (gps p) = ⊥
  IsCurrent ts v (hazard_remove p) = ⊥
  IsCurrent ts v (checkin p) = ⊥
  IsCurrent ts v (status p) = ⊥

  -- A store, its operations with the state made explicit, and the laws that its clients use.
  pub record SnapshotStore : Type 1 where
    pub State : Type 0
    pub IsValid : State → Type 0
    pub view : State → String → SnapshotView
    -- The frames that the store can keep as they are.
    pub Accepts : InboundFrame → Type 0
    pub record_frame : State → String → InboundFrame → State × Promise (Unit {0})
    pub snapshot : ℤ → State → String → State × Promise (List OutboundFrame)
    pub clear : State → String → State × Promise (Unit {0})
    pub hazard_reporter : State → String → String → Promise (Option String)
    pub record_frame-IsValid :
        (s : State) (c : String) (f : InboundFrame)
        → Accepts f
        → IsValid s
        → IsValid (record_frame s c f).0
    pub snapshot-IsValid :
        (ts : ℤ) (s : State) (c : String) → IsValid s → IsValid (snapshot ts s c).0
    pub clear-IsValid : (s : State) (c : String) → IsValid s → IsValid (clear s c).0
    pub view-record_frame :
        (s : State) (c j : String) (f : InboundFrame)
        → Accepts f
        → IsValid s
        → (record_frame s c f).1 ≡ fulfilled tt
        → view (record_frame s c f).0 j ≡ (if c == j then fold_frame (view s j) f else view s j)
    -- A rejected `record` may have been carried out or not; nothing else can have happened.
    pub view-record_frame_any :
        (s : State) (c j : String) (f : InboundFrame)
        → Accepts f
        → IsValid s
        → (view (record_frame s c f).0 j ≡ (if c == j then fold_frame (view s j) f else view s j))
          ⊎ (view (record_frame s c f).0 j ≡ view s j)
    pub view-snapshot :
        (ts : ℤ) (s : State) (c j : String) {fs : List OutboundFrame}
        → IsValid s
        → (snapshot ts s c).1 ≡ fulfilled fs
        → view (snapshot ts s c).0 j ≡ (if c == j then prune ts (view s j) else view s j)
    pub view-clear :
        (s : State) (c j : String)
        → IsValid s
        → (clear s c).1 ≡ fulfilled tt
        → view (clear s c).0 j ≡ (if c == j then empty_view else view s j)
    pub snapshot-IsCurrent :
        (ts : ℤ) (s : State) (c : String) {fs : List OutboundFrame} (f : OutboundFrame)
        → IsValid s
        → (snapshot ts s c).1 ≡ fulfilled fs
        → In f fs ↔ IsCurrent ts (view s c) f
    pub hazard_reporter-view :
        (s : State) (c id : String) {r : Option String}
        → IsValid s
        → hazard_reporter s c id ≡ fulfilled r
        → r ≡ Option.map (λ h. h.reporter_id) ((view s c).hazards id)
