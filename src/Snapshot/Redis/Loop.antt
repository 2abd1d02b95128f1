-- ===== src/Snapshot/Redis/Loop.antt =====
-- backend/src/realtime/redis_snapshot_store.ts: the loop of `snapshot` over the fields of a hash.
use crew_link.Base.{
  String, ℤ, Bool, false, Option, none, some, List, [], ◌∷◌, ◌++◌, ◌==◌, if◌then◌else◌, ◌≡◌, ◌⊎◌,
  inl, inr, refl, ap, ◌∙◌, arith, eq_iff, In, In-append, In-append_left, In-append_right,
  append-nil, append_assoc, Option-cases, Bool-cases,
}
use crew_link.JsMap.{JsMap, get}
use crew_link.JsMap.Laws.{IsMap, get_of_IsFresh}
use crew_link.Promise.{fulfilled, Promise-cases}
use crew_link.Wire.{OutboundFrame}
use crew_link.Redis.{Redis, Hash, effect, hdel}
use crew_link.Snapshot.Redis.{PayloadJson, decode_field, is_old, replay}

-- The frame is a hazard that has expired.
unfoldable pub dead_frame : (String → Option ℤ) → ℤ → Option OutboundFrame → Bool
dead_frame date_parse ts none = false
dead_frame date_parse ts (some f) = is_old date_parse ts f

unfoldable pub shown : (String → Option ℤ) → ℤ → Option OutboundFrame → List OutboundFrame
shown date_parse ts none = []
shown date_parse ts (some f) = if is_old date_parse ts f then [] else f ∷ []

field_gone :
    (r : Redis) (s : r.State) (k j field g : String)
    → (r.exec s k (hdel field)).1 ≡ fulfilled tt
    → r.hash (r.exec s k (hdel field)).0 j g
      ≡ (if k == j then if field == g then none else r.hash s j g else r.hash s j g)
unfolding effect
field_gone r s k j field g d =
    ap (λ (h : Hash). h g) (r.hash-exec s k j (hdel field) d) ∙ ground arith

-- Rejected or not, the delete takes away that field at most.
pub field_gone_any :
    (r : Redis) (s : r.State) (k j field g : String)
    → (r.hash (r.exec s k (hdel field)).0 j g ≡ r.hash s j g)
      ⊎ (r.hash (r.exec s k (hdel field)).0 j g ≡ none)
unfolding effect
field_gone_any r s k j field g = elim (r.hash-exec_any s k (hdel field)) [
  | inl h ↦ ground (arith, ap (λ (u : Hash). u g) (h j))
  | inr h ↦ inl (ap (λ (u : Hash). u g) (h j))
]

In-shown :
    (date_parse : String → Option ℤ) (ts : ℤ) (f : OutboundFrame) (o : Option OutboundFrame)
    → In f (shown date_parse ts o)
    → (o ≡ some f) × (is_old date_parse ts f ≡ false)
unfolding shown
In-shown date_parse ts f none i = elim i [ ]
In-shown date_parse ts f (some x) i = ground arith

module _ (json : PayloadJson) (date_parse : String → Option ℤ) where
  unfoldable pub dead : ℤ → String → Option String → Bool
  dead ts field none = false
  dead ts field (some value) = dead_frame date_parse ts (decode_field json field value)

  -- The frames of the fields, in order, without the expired hazards.
  unfoldable pub live : ℤ → JsMap String → List OutboundFrame
  live ts [] = []
  live ts ((field, value) ∷ rest) =
      shown date_parse ts (decode_field json field value) ++ live ts rest

  pub replay-live :
      (r : Redis) (ts : ℤ) (s : r.State) (k : String) (m : JsMap String)
      (frames : List OutboundFrame) {fs : List OutboundFrame}
      → (replay json date_parse r ts s k m frames).1 ≡ fulfilled fs
      → fs ≡ frames ++ live ts m
  unfolding replay live shown
  replay-live r ts s k [] frames {fs} e = ground (arith, append-nil frames)
  replay-live r ts s k ((field, value) ∷ rest) frames e =
      elim (Option-cases (decode_field json field value)) [
        | inl n ↦ rw n (replay-live r ts s k rest frames (rw (n, replay) at e))
        | inr (f, n) ↦ elim (Bool-cases (is_old date_parse ts f)) [
          | inl o ↦ elim (Promise-cases (r.exec s k (hdel field)).1) [
            | inl d ↦ let h = rw (n, o, d, replay) at e in cc
            | inr (_, d) ↦ rw (n, o) (replay-live r ts _ k rest frames (rw (n, o, d, replay) at e))
          ]
          | inr o ↦
              rw (n, o)
                (replay-live r ts s k rest (frames ++ f ∷ []) (rw (n, o, replay) at e)
                  ∙ append_assoc frames _ _)
        ]
      ]

  -- A field is gone from the convoy's hash where it was dead, and nothing else has changed.
  pub hash-replay :
      (r : Redis) (ts : ℤ) (s : r.State) (k j g : String) (m : JsMap String)
      (frames : List OutboundFrame) {fs : List OutboundFrame}
      → IsMap m
      → (replay json date_parse r ts s k m frames).1 ≡ fulfilled fs
      → r.hash (replay json date_parse r ts s k m frames).0 j g
        ≡ (if k == j then if dead ts g (get g m) then none else r.hash s j g else r.hash s j g)
  unfolding replay dead dead_frame get
  hash-replay r ts s k j g [] frames v e = ground arith
  hash-replay r ts s k j g ((field, value) ∷ rest) frames v e =
      elim (Option-cases (decode_field json field value)) [
        | inl n ↦
            let ih = hash-replay r ts s k j g rest frames v.1 (rw (n, replay) at e) in
            rw (n, replay) (ground (arith, ih, n, eq_iff field g, get_of_IsFresh field rest v.0))
        | inr (f, n) ↦ elim (Bool-cases (is_old date_parse ts f)) [
          | inl o ↦ elim (Promise-cases (r.exec s k (hdel field)).1) [
            | inl d ↦ let h = rw (n, o, d, replay) at e in cc
            | inr (_, d) ↦
                let ih = hash-replay r ts _ k j g rest frames v.1 (rw (n, o, d, replay) at e) in
                let gone = field_gone r s k j field g d in
                rw (n, o, d, replay)
                  (ground (arith, ih, gone, n, o, eq_iff field g, get_of_IsFresh field rest v.0))
          ]
          | inr o ↦
              let ih =
                hash-replay r ts s k j g rest (frames ++ f ∷ []) v.1 (rw (n, o, replay) at e) in
              rw (n, o, replay)
                (ground (arith, ih, n, o, eq_iff field g, get_of_IsFresh field rest v.0))
        ]
      ]

  -- Rejected or not, the loop writes no field.
  pub hash-replay_any :
      (r : Redis) (ts : ℤ) (s : r.State) (k j g : String) (m : JsMap String)
      (frames : List OutboundFrame)
      → (r.hash (replay json date_parse r ts s k m frames).0 j g ≡ r.hash s j g)
        ⊎ (r.hash (replay json date_parse r ts s k m frames).0 j g ≡ none)
  unfolding replay
  hash-replay_any r ts s k j g [] frames = inl refl
  hash-replay_any r ts s k j g ((field, value) ∷ rest) frames =
      elim (Option-cases (decode_field json field value)) [
        | inl n ↦ rw (n, replay) (hash-replay_any r ts s k j g rest frames)
        | inr (f, n) ↦ elim (Bool-cases (is_old date_parse ts f)) [
          | inl o ↦ elim (Promise-cases (r.exec s k (hdel field)).1) [
            | inl d ↦ rw (n, o, d, replay) (field_gone_any r s k j field g)
            | inr (_, d) ↦
                let ih = hash-replay_any r ts (r.exec s k (hdel field)).0 k j g rest frames in
                rw (n, o, d, replay) (ground (arith, ih, field_gone_any r s k j field g))
          ]
          | inr o ↦ rw (n, o, replay) (hash-replay_any r ts s k j g rest (frames ++ f ∷ []))
        ]
      ]

  -- The frame is that of a field, and not an expired hazard.
  abbrev pub Live : ℤ → JsMap String → OutboundFrame → Type 0
  Live ts m f =
      (field : String) × (value : String) × In (field, value) m
      × (decode_field json field value ≡ some f)
      × (is_old date_parse ts f ≡ false)

  pub In-live : (ts : ℤ) (m : JsMap String) (f : OutboundFrame) → In f (live ts m) → Live ts m f
  unfolding live shown
  In-live ts [] f i = elim i [ ]
  In-live ts ((field, value) ∷ rest) f i =
      elim (In-append f (shown date_parse ts (decode_field json field value)) (live ts rest) i) [
        | inl here ↦
            let (frame, fine) = In-shown date_parse ts f (decode_field json field value) here in
            (field, value, inl refl, frame, fine)
        | inr there ↦
            let (g, v, place, frame, fine) = In-live ts rest f there in
            (g, v, inr place, frame, fine)
      ]

  pub live-In :
      (ts : ℤ) (m : JsMap String) (f : OutboundFrame) (field value : String)
      → In (field, value) m
      → decode_field json field value ≡ some f
      → is_old date_parse ts f ≡ false
      → In f (live ts m)
  unfolding live shown
  live-In ts [] f field value i d o = elim i [ ]
  live-In ts ((g, v) ∷ rest) f field value (inl e) d o =
      In-append_left f (shown date_parse ts (decode_field json g v)) (live ts rest) (ground arith)
  live-In ts ((g, v) ∷ rest) f field value (inr i) d o =
      In-append_right f (shown date_parse ts (decode_field json g v)) (live ts rest)
        (live-In ts rest f field value i d o)
