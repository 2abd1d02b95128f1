-- ===== src/Snapshot/Redis/Replay.antt =====
-- backend/src/realtime/redis_snapshot_store.ts: `snapshot` on the world state that a hash tells.
use crew_link.Base.{
  String, ℤ, true, false, Option, none, some, List, [], ◌==◌, if◌then◌else◌, ◌≡◌, ◌⊎◌, fun_ext, ◌↔◌,
  inl, inr, refl, ap, ◌∙◌, arith, eq_iff, In, Option-cases, Bool-cases, sym,
}
use text.Mathlib.Text.{starts_with}
use text.Mathlib.TextEquality.{starts_with_iff}
use text.Mathlib.TextPositions.{starts_with-append}
use mathlib.Core.Option
use mathlib.Core.Option.{some-injective}
use crew_link.JsMap.{JsMap}
use crew_link.JsMap.Laws.{In-get, get-In}
use crew_link.Promise.{fulfilled, Promise-cases}
use crew_link.Wire.{
  HazardPayload, OutboundFrame, TourPayload, WaypointPayload, gps, waypoint, hazard, hazard_remove,
  tour, checkin, status,
}
use crew_link.Redis.{Redis}
use crew_link.Snapshot.{is_expired, unexpired, prune, IsCurrent}
use crew_link.Snapshot.Redis.{
  PayloadJson, key_for, hazard_field, decode_field, is_old, snapshot, hazard_reporter, reporter_of,
}
use crew_link.Snapshot.Redis.View.{parsed, view_of, view_path, view, key_for-eq, IsValid}
use crew_link.Snapshot.Redis.Loop.{
  dead, dead_frame, live, replay-live, hash-replay, hash-replay_any, In-live, live-In,
}

module _ (json : PayloadJson) where
  -- What a field decodes to, by the kind of the field.
  pub decode_hazard :
      (id value : String)
      → decode_field json (hazard_field id) value ≡ Option.map hazard (json.hazard_parse value)
  unfolding decode_field hazard_field
  decode_hazard id value = rw (starts_with-append "hazard:" id) refl

  -- A frame that a field tells is one of three.
  abbrev Told : String → String → OutboundFrame → Type 0
  Told field value f =
      ((id : String) × (p : HazardPayload) × (field ≡ hazard_field id)
        × (json.hazard_parse value ≡ some p)
        × (f ≡ hazard p))
      ⊎ (((p : TourPayload) × (field ≡ "tour") × (json.tour_parse value ≡ some p) × (f ≡ tour p))
          ⊎ ((p : WaypointPayload) × (field ≡ "waypoint")
              × (json.waypoint_parse value ≡ some p)
              × (f ≡ waypoint (some p))))

  decode_field-Told :
      (field value : String) (f : OutboundFrame)
      → decode_field json field value ≡ some f
      → Told field value f
  unfolding decode_field hazard_field
  decode_field-Told field value f e = elim (Bool-cases (starts_with field "hazard:")) [
    | inl b ↦
        let (id, is_hazard) = (starts_with_iff field "hazard:").0 b in
        elim (Option-cases (json.hazard_parse value)) [
          | inl n ↦ let h = rw (b, n, decode_field) at e in cc
          | inr (p, n) ↦
              let h : some (hazard p) ≡ some f = rw (b, n, decode_field) at e in
              inl (id, p, sym is_hazard, n, sym (some-injective _ _ h))
        ]
    | inr b ↦ ground (arith, eq_iff field "tour", eq_iff field "waypoint")
  ]

  reporter_of_hazard :
      (o : Option HazardPayload)
      → reporter_of json (Option.map hazard o) ≡ Option.map (λ h. h.reporter_id) o
  reporter_of_hazard none = refl
  reporter_of_hazard (some p) = refl

  reported_of :
      (id : String) (stored o : Option String)
      → elim stored [
        | none ↦ fulfilled none
        | some value ↦ fulfilled (reporter_of json (decode_field json (hazard_field id) value))
      ]
        ≡ fulfilled o
      → o ≡ Option.map (λ h. h.reporter_id) (parsed json.hazard_parse stored)
  reported_of id none o e = ground arith
  reported_of id (some value) o e =
      ground (arith, decode_hazard id value, reporter_of_hazard (json.hazard_parse value))

  pub hazard_reporter-view :
      (r : Redis) (s : r.State) (c id : String) {o : Option String}
      → hazard_reporter json r s c id ≡ fulfilled o
      → o ≡ Option.map (λ h. h.reporter_id) ((view json r s c).hazards id)
  unfolding hazard_reporter view view_of
  hazard_reporter-view r s c id {o} e =
      elim (Promise-cases (r.hget s (key_for c) (hazard_field id))) [
        | inl n ↦ let h = rw (n, hazard_reporter) at e in cc
        | inr (stored, n) ↦
            rw (sym (r.hget-hash s (key_for c) (hazard_field id) n))
              (reported_of id stored o (rw (n, hazard_reporter) at e))
      ]

  module _ (date_parse : String → Option ℤ) (r : Redis) where
    pub snapshot-IsValid :
        (ts : ℤ) (s : r.State) (c : String)
        → IsValid json r s
        → IsValid json r (snapshot json date_parse r ts s c).0
    unfolding snapshot view view_of
    snapshot-IsValid ts s c v = record { own_id = own }
      where
        own :
            (j id : String) (p : HazardPayload)
            → (view json r (snapshot json date_parse r ts s c).0 j).hazards id ≡ some p
            → p.id ≡ id
        own j id p e = elim (Promise-cases (r.hgetall s (key_for c))) [
          | inl n ↦ v.own_id j id p (rw (n, snapshot) at e)
          | inr (m, n) ↦
              elim (hash-replay_any json date_parse r ts s (key_for c) (key_for j) (hazard_field id)
                m []) [
                  | inl h ↦ v.own_id j id p (rw h at (rw (n, snapshot) at e))
                  | inr h ↦
                      let gone : ◌≡◌ {A = Option HazardPayload} none (some p) =
                        rw h at (rw (n, snapshot) at e) in
                      cc
                ]
        ]

    dead_hazard :
        (ts : ℤ) (id : String) (o : Option String)
        → parsed json.hazard_parse (if dead json date_parse ts (hazard_field id) o then none else o)
          ≡ unexpired date_parse ts (parsed json.hazard_parse o)
    unfolding dead dead_frame is_old
    dead_hazard ts id none = refl
    dead_hazard ts id (some value) = elim (Option-cases (json.hazard_parse value)) [
      | inl n ↦ rw (decode_hazard id value, n) (ground (arith, n))
      | inr (p, n) ↦ rw (decode_hazard id value, n) (ground (arith, n))
    ]

    pub expired-dead :
        (ts : ℤ) (id : String) (o : Option String) (p : HazardPayload)
        → parsed json.hazard_parse o ≡ some p
        → is_expired date_parse ts p ≡ true
        → dead json date_parse ts (hazard_field id) o ≡ true
    unfolding dead dead_frame is_old
    expired-dead ts id none p e x = cc
    expired-dead ts id (some value) p e x = rw (decode_hazard id value, e) x

    dead_tour : (ts : ℤ) (o : Option String) → dead json date_parse ts "tour" o ≡ false
    unfolding dead dead_frame is_old decode_field
    dead_tour ts none = refl
    dead_tour ts (some value) = ground (arith, Option-cases (json.tour_parse value))

    dead_waypoint : (ts : ℤ) (o : Option String) → dead json date_parse ts "waypoint" o ≡ false
    unfolding dead dead_frame is_old decode_field
    dead_waypoint ts none = refl
    dead_waypoint ts (some value) = ground (arith, Option-cases (json.waypoint_parse value))

    -- The expired hazards' fields are gone from the convoy's hash, and nothing else has changed.
    pub hash-snapshot :
        (ts : ℤ) (s : r.State) (c j g : String) {fs : List OutboundFrame}
        → (snapshot json date_parse r ts s c).1 ≡ fulfilled fs
        → r.hash (snapshot json date_parse r ts s c).0 (key_for j) g ≡ (
            if c == j
            then if dead json date_parse ts g (r.hash s (key_for j) g)
              then none
              else r.hash s (key_for j) g
            else r.hash s (key_for j) g)
    unfolding snapshot
    hash-snapshot ts s c j g e = elim (Promise-cases (r.hgetall s (key_for c))) [
      | inl n ↦ let h = rw (n, snapshot) at e in cc
      | inr (m, n) ↦
          let swept =
            hash-replay json date_parse r ts s (key_for c) (key_for j) g m []
              (r.hgetall-IsMap s (key_for c) n) (rw (n, snapshot) at e) in
          let read = r.get-hgetall s (key_for c) g n in
          rw (n, snapshot) (swept ∙ rw (key_for-eq c j, read) (ground (arith, eq_iff c j)))
    ]

    pub view-snapshot :
        (ts : ℤ) (s : r.State) (c j : String) {fs : List OutboundFrame}
        → (snapshot json date_parse r ts s c).1 ≡ fulfilled fs
        → view json r (snapshot json date_parse r ts s c).0 j
          ≡ (if c == j then prune date_parse ts (view json r s j) else view json r s j)
    unfolding view view_of
    view-snapshot ts s c j e = elim (Bool-cases (c == j)) [
      | inl b ↦ rw b (
          view_path json _ _
            (λ id.
              ap (parsed json.hazard_parse) (hash-snapshot ts s c j (hazard_field id) e)
              ∙ rw b (dead_hazard ts id (r.hash s (key_for j) (hazard_field id))))
            (ap (parsed json.tour_parse) (hash-snapshot ts s c j "tour" e)
              ∙ rw (b, dead_tour ts (r.hash s (key_for j) "tour")) refl)
            (ap (parsed json.waypoint_parse) (hash-snapshot ts s c j "waypoint" e)
              ∙ rw (b, dead_waypoint ts (r.hash s (key_for j) "waypoint")) refl))
      | inr b ↦
          let same : (g : String)
              → r.hash (snapshot json date_parse r ts s c).0 (key_for j) g
                ≡ r.hash s (key_for j) g =
            λ g. rw b at (hash-snapshot ts s c j g e) in
          rw b (ap (view_of json) (fun_ext same))
    ]

    In-IsCurrent :
        (ts : ℤ) (s : r.State) (c : String) (m : JsMap String) (f : OutboundFrame)
        → IsValid json r s
        → r.hgetall s (key_for c) ≡ fulfilled m
        → In f (live json date_parse ts m)
        → IsCurrent date_parse ts (view json r s c) f
    unfolding view view_of is_old
    In-IsCurrent ts s c m f v n i =
        let (field, value, place, frame, fine) = In-live json date_parse ts m f i in
        let stored : r.hash s (key_for c) field ≡ some value =
          sym (r.get-hgetall s (key_for c) field n)
          ∙ In-get field value m (r.hgetall-IsMap s (key_for c) n) place in
        elim (decode_field-Told field value f frame) [
          | inl (id, p, own, parse, same) ↦
              let there : (view json r s c).hazards id ≡ some p = rw (sym own, stored) parse in
              rw same (
                ap (λ x. (view json r s c).hazards x) (v.own_id c id p there) ∙ there,
                rw same at fine,
              )
          | inr (inl (p, own, parse, same)) ↦ rw same (rw (sym own, stored) parse)
          | inr (inr (p, own, parse, same)) ↦ rw same (λ e. cc, rw (sym own, stored) parse)
        ]

    parsed-some :
        {A : Type 0} (parse : String → Option A) (o : Option String) (p : A)
        → parsed parse o ≡ some p
        → (value : String) × (o ≡ some value) × (parse value ≡ some p)
    parsed-some parse none p e = let h : ◌≡◌ none (some p) = e in cc
    parsed-some parse (some value) p e = (value, refl, e)

    -- A stored field that tells a frame which has not expired is replayed.
    stored_In :
        {A : Type 0} (parse : String → Option A) (ts : ℤ) (s : r.State) (c field : String)
        (m : JsMap String) (f : OutboundFrame) (p : A)
        → r.hgetall s (key_for c) ≡ fulfilled m
        → parsed parse (r.hash s (key_for c) field) ≡ some p
        → ((value : String) → parse value ≡ some p → decode_field json field value ≡ some f)
        → is_old date_parse ts f ≡ false
        → In f (live json date_parse ts m)
    stored_In parse ts s c field m f p n there told fine =
        let (value, stored, parse_some) = parsed-some parse (r.hash s (key_for c) field) p there in
        live-In json date_parse ts m f field value
          (get-In field value m (r.get-hgetall s (key_for c) field n ∙ stored))
          (told value parse_some) fine

    IsCurrent-In :
        (ts : ℤ) (s : r.State) (c : String) (m : JsMap String) (f : OutboundFrame)
        → r.hgetall s (key_for c) ≡ fulfilled m
        → IsCurrent date_parse ts (view json r s c) f
        → In f (live json date_parse ts m)
    unfolding view view_of is_old decode_field
    IsCurrent-In ts s c m (hazard p) n (there, fine) =
        stored_In json.hazard_parse ts s c (hazard_field p.id) m (hazard p) p n there
          (λ value e. decode_hazard p.id value ∙ rw e refl) fine
    IsCurrent-In ts s c m (tour p) n there =
        stored_In json.tour_parse ts s c "tour" m (tour p) p n there (λ value e. rw e refl) refl
    IsCurrent-In ts s c m (waypoint none) n (h, there) = elim (h refl) [ ]
    IsCurrent-In ts s c m (waypoint (some p)) n (h, there) =
        stored_In json.waypoint_parse ts s c "waypoint" m (waypoint (some p)) p n there
          (λ value e. rw e refl) refl
    IsCurrent-In ts s c m (gps p) n h = elim h [ ]
    IsCurrent-In ts s c m (hazard_remove p) n h = elim h [ ]
    IsCurrent-In ts s c m (checkin p) n h = elim h [ ]
    IsCurrent-In ts s c m (status p) n h = elim h [ ]

    pub snapshot-IsCurrent :
        (ts : ℤ) (s : r.State) (c : String) {fs : List OutboundFrame} (f : OutboundFrame)
        → IsValid json r s
        → (snapshot json date_parse r ts s c).1 ≡ fulfilled fs
        → In f fs ↔ IsCurrent date_parse ts (view json r s c) f
    unfolding snapshot
    snapshot-IsCurrent ts s c f v e = elim (Promise-cases (r.hgetall s (key_for c))) [
      | inl n ↦ let h = rw (n, snapshot) at e in cc
      | inr (m, n) ↦
          let frames =
            replay-live json date_parse r ts s (key_for c) m [] (rw (n, snapshot) at e) in
          rw frames (In-IsCurrent ts s c m f v n, IsCurrent-In ts s c m f n)
    ]
