-- ===== src/Snapshot/Redis/View.antt =====
-- backend/src/realtime/redis_snapshot_store.ts: a convoy's hash seen as its world state, and what
-- `record` and `clear` make of it.
use Prim.Native.String.{◌++◌ as ◌append◌}
use text.Mathlib.Text.{starts_with}
use text.Mathlib.TextPositions.{starts_with-append}
use text.Mathlib.TextLemmas.{append_cancel_left}
use crew_link.Base.{
  ℕ, String, Bool, true, false, Option, none, some, ◌==◌, ◌≡◌, ◌≢◌, ◌⊎◌, refl, sym, ap, ◌∙◌,
  fun_ext, arith, eq_iff, inl, inr, Bool-cases, Option-cases, List-cases, if◌then◌else◌,
}
use mathlib.Core.Option.{some-injective}
use crew_link.Promise.{Promise-cases, fulfilled}
use crew_link.Wire.{
  HazardPayload, InboundFrame, gps, waypoint, hazard, hazard_remove, tour, checkin, status,
}
use crew_link.Snapshot.{SnapshotView, empty_view, fold_frame}
use crew_link.Redis.{Redis, Hash, Command, effect, expire, del, lapses}
use crew_link.Snapshot.Redis.{
  PayloadJson, key_for, hazard_field, exec_kept, clear, command_of, record_frame,
  snapshot_ttl_seconds,
}

abbrev pub parsed : {A : Type 0} → (String → Option A) → Option String → Option A
parsed parse none = none
parsed parse (some text) = parse text

same_prefix : (p a b : String) → ((p append a) == (p append b)) ≡ (a == b)
same_prefix p a b =
    ground (arith, eq_iff a b, eq_iff (p append a) (p append b), same, append_cancel_left p a b)
  where
    same : a ≡ b → (p append a) ≡ (p append b)
    same e = ap (λ x. p append x) e

pub key_for-eq : (c j : String) → (key_for c == key_for j) ≡ (c == j)
unfolding key_for
key_for-eq c j = same_prefix "crewlink:snapshot:" c j

pub hazard_field-eq : (c j : String) → (hazard_field c == hazard_field j) ≡ (c == j)
unfolding hazard_field
hazard_field-eq c j = same_prefix "hazard:" c j

-- A hazard's field is told from the others by its first seven characters.
pub hazard_field-ne :
    (id field : String)
    → starts_with field "hazard:" ≡ false
    → ((hazard_field id == field) ≡ false) × ((field == hazard_field id) ≡ false)
unfolding hazard_field
hazard_field-ne id field e = (
  ground (arith, eq_iff ("hazard:" append id) field, apart),
  ground (arith, eq_iff field ("hazard:" append id), apart),
)
  where
    apart : ("hazard:" append id) ≢ field
    apart same = let h = rw same at (starts_with-append "hazard:" id) in cc

module _ (json : PayloadJson) where
  unfoldable pub view_of : Hash → SnapshotView
  view_of h = record {
    hazards = λ id. parsed json.hazard_parse (h (hazard_field id));
    route = parsed json.tour_parse (h "tour");
    target = parsed json.waypoint_parse (h "waypoint");
  }

  unfoldable pub view : (r : Redis) → r.State → String → SnapshotView
  view r s c = view_of (r.hash s (key_for c))

  -- The payload is read back from its text.
  unfoldable pub Survives : InboundFrame → Type 0
  Survives (hazard p) = json.hazard_parse (json.hazard_text p) ≡ some p
  Survives (tour p) = json.tour_parse (json.tour_text p) ≡ some p
  Survives (waypoint none) = Unit {0}
  Survives (waypoint (some p)) = json.waypoint_parse (json.waypoint_text p) ≡ some p
  Survives (hazard_remove p) = Unit {0}
  Survives (gps p) = Unit {0}
  Survives (checkin p) = Unit {0}
  Survives (status p) = Unit {0}

  -- A field is written, or deleted.
  abbrev put : String → Option String → Hash → Hash
  put f o h g = if f == g then o else h g

  parsed-put :
      {A : Type 0} (parse : String → Option A) (f : String) (o : Option String) (h : Hash)
      (g : String)
      → parsed parse (put f o h g) ≡ (if f == g then parsed parse o else parsed parse (h g))
  parsed-put parse f o h g = ground arith

  pub view_path :
      (v w : SnapshotView)
      → ((id : String) → v.hazards id ≡ w.hazards id)
      → v.route ≡ w.route
      → v.target ≡ w.target
      → v ≡ w
  view_path v w h r t = cc (fun_ext h)

  view_of-put_hazard :
      (h : Hash) (id : String) (o : Option String)
      → view_of (put (hazard_field id) o h) ≡ record (view_of h) {
        hazards = λ j. if id == j then parsed json.hazard_parse o else (view_of h).hazards j;
      }
  unfolding view_of
  view_of-put_hazard h id o =
      view_path _ _
        (λ j.
          parsed-put json.hazard_parse (hazard_field id) o h (hazard_field j)
          ∙ rw (hazard_field-eq id j) refl)
        (rw (hazard_field-ne id "tour" refl).0 refl)
        (rw (hazard_field-ne id "waypoint" refl).0 refl)

  view_of-put_tour :
      (h : Hash) (o : Option String)
      → view_of (put "tour" o h) ≡ record (view_of h) { route = parsed json.tour_parse o }
  unfolding view_of
  view_of-put_tour h o = view_path _ _ (λ j. rw (hazard_field-ne j "tour" refl).1 refl) refl refl

  view_of-put_waypoint :
      (h : Hash) (o : Option String)
      → view_of (put "waypoint" o h) ≡ record (view_of h) { target = parsed json.waypoint_parse o }
  unfolding view_of
  view_of-put_waypoint h o =
      view_path _ _ (λ j. rw (hazard_field-ne j "waypoint" refl).1 refl) refl refl

  -- The command of a frame does to the hash what the frame does to the world state.
  pub view_of-command :
      (h : Hash) (f : InboundFrame) (c : Command)
      → Survives f
      → command_of json f ≡ some c
      → view_of (effect c h) ≡ fold_frame (view_of h) f
  unfolding Survives command_of fold_frame effect
  view_of-command h (hazard p) c s e =
      rw (sym (some-injective _ c e))
        (view_of-put_hazard h p.id (some (json.hazard_text p)) ∙ rw s refl)
  view_of-command h (hazard_remove p) c s e =
      rw (sym (some-injective _ c e)) (view_of-put_hazard h p.id none)
  view_of-command h (tour p) c s e = elim (List-cases p.stops) [
    | inl n ↦ ground (arith, view_of-put_tour h none)
    | inr (x, xs, n) ↦ ground (arith, view_of-put_tour h (some (json.tour_text p)))
  ]
  view_of-command h (waypoint none) c s e =
      rw (sym (some-injective _ c e)) (view_of-put_waypoint h none)
  view_of-command h (waypoint (some p)) c s e =
      rw (sym (some-injective _ c e))
        (view_of-put_waypoint h (some (json.waypoint_text p)) ∙ rw s refl)
  view_of-command h (gps p) c s e = cc
  view_of-command h (checkin p) c s e = cc
  view_of-command h (status p) c s e = cc

-- A new time to live leaves the fields alone.
pub kept_hash :
    (r : Redis) (s : r.State) (k j : String) (n : ℕ)
    → (r.exec s k (expire n)).1 ≡ fulfilled tt
    → r.hash (r.exec s k (expire n)).0 j ≡ r.hash s j
unfolding effect
kept_hash r s k j n e = r.hash-exec s k j (expire n) e ∙ ground arith

kept_hash_any :
    (r : Redis) (s : r.State) (k j : String) (n : ℕ)
    → r.hash (r.exec s k (expire n)).0 j ≡ r.hash s j
unfolding effect
kept_hash_any r s k j n = elim (r.hash-exec_any s k (expire n)) [
  | inl h ↦ h j ∙ ground arith
  | inr h ↦ h j
]

-- What a command with a new time to live does, where it is answered.
pub exec_kept-hash :
    (r : Redis) (s : r.State) (k j : String) (c : Command)
    → (exec_kept r s k c).1 ≡ fulfilled tt
    → r.hash (exec_kept r s k c).0 j ≡ (if k == j then effect c (r.hash s j) else r.hash s j)
unfolding exec_kept effect
exec_kept-hash r s k j c e = elim (Promise-cases (r.exec s k c).1) [
  | inl n ↦ let f = rw (n, exec_kept) at e in cc
  | inr (tt, d) ↦
      let f : (r.exec (r.exec s k c).0 k (expire snapshot_ttl_seconds)).1 ≡ fulfilled tt =
        rw (d, exec_kept) at e in
      rw (d, exec_kept) (kept_hash r _ k j _ f ∙ r.hash-exec s k j c d)
]

pub exec_kept-hash_any :
    (r : Redis) (s : r.State) (k : String) (c : Command)
    → ((j : String)
        → r.hash (exec_kept r s k c).0 j ≡ (if k == j then effect c (r.hash s j) else r.hash s j))
      ⊎ ((j : String) → r.hash (exec_kept r s k c).0 j ≡ r.hash s j)
unfolding exec_kept effect
exec_kept-hash_any r s k c = elim (Promise-cases (r.exec s k c).1) [
  | inl n ↦ rw (n, exec_kept) (r.hash-exec_any s k c)
  | inr (tt, d) ↦ inl (λ j. rw (d, exec_kept) (kept_hash_any r _ k j _ ∙ r.hash-exec s k j c d))
]

module _ (json : PayloadJson) (r : Redis) where
  -- A hazard stands under its own id.
  pub record IsValid (s : r.State) : Type 0 where
    pub own_id :
        (c id : String) (p : HazardPayload) → (view json r s c).hazards id ≡ some p → p.id ≡ id

  view_of-if :
      (b : Bool) (h k : Hash)
      → view_of json (if b then h else k) ≡ (if b then view_of json h else view_of json k)
  view_of-if true h k = refl
  view_of-if false h k = refl

  pub view_at :
      (s t : r.State) (c j : String) (h : Hash)
      → r.hash s (key_for j) ≡ (if key_for c == key_for j then h else r.hash t (key_for j))
      → view json r s j ≡ (if c == j then view_of json h else view json r t j)
  unfolding view
  view_at s t c j h e =
      ap (view_of json) e ∙ rw (key_for-eq c j) (view_of-if (c == j) h (r.hash t (key_for j)))

  view_at_command :
      (s t : r.State) (c j : String) (f : InboundFrame) (cmd : Command)
      → Survives json f
      → command_of json f ≡ some cmd
      → r.hash s (key_for j) ≡ (
          if key_for c == key_for j
          then effect cmd (r.hash t (key_for j))
          else r.hash t (key_for j))
      → view json r s j ≡ (if c == j then fold_frame (view json r t j) f else view json r t j)
  unfolding view
  view_at_command s t c j f cmd a n e =
      view_at s t c j _ e ∙ rw (view_of-command json (r.hash t (key_for j)) f cmd a n) refl

  -- A frame without a command leaves the world state alone.
  fold_frame_of_transient :
      (v : SnapshotView) (f : InboundFrame) → command_of json f ≡ none → fold_frame v f ≡ v
  unfolding command_of fold_frame
  fold_frame_of_transient v (gps p) n = refl
  fold_frame_of_transient v (checkin p) n = refl
  fold_frame_of_transient v (status p) n = refl
  fold_frame_of_transient v (hazard p) n = cc
  fold_frame_of_transient v (hazard_remove p) n = cc
  fold_frame_of_transient v (tour p) n = ground (arith, List-cases p.stops)
  fold_frame_of_transient v (waypoint none) n = cc
  fold_frame_of_transient v (waypoint (some p)) n = cc

  pub view-record_frame :
      (s : r.State) (c j : String) (f : InboundFrame)
      → Survives json f
      → (record_frame json r s c f).1 ≡ fulfilled tt
      → view json r (record_frame json r s c f).0 j
        ≡ (if c == j then fold_frame (view json r s j) f else view json r s j)
  unfolding record_frame
  view-record_frame s c j f a e = elim (Option-cases (command_of json f)) [
    | inl n ↦
        rw (n, record_frame) (rw (fold_frame_of_transient (view json r s j) f n) (ground arith))
    | inr (cmd, n) ↦
        rw (n, record_frame)
          (view_at_command _ s c j f cmd a n
            (exec_kept-hash r s (key_for c) (key_for j) cmd (rw (n, record_frame) at e)))
  ]

  -- Rejected, it was carried out, or nothing has happened.
  pub view-record_frame_any :
      (s : r.State) (c j : String) (f : InboundFrame)
      → Survives json f
      → (view json r (record_frame json r s c f).0 j
          ≡ (if c == j then fold_frame (view json r s j) f else view json r s j))
        ⊎ (view json r (record_frame json r s c f).0 j ≡ view json r s j)
  unfolding record_frame view
  view-record_frame_any s c j f a = elim (Option-cases (command_of json f)) [
    | inl n ↦ rw (n, record_frame) (inr refl)
    | inr (cmd, n) ↦ elim (exec_kept-hash_any r s (key_for c) cmd) [
      | inl h ↦ rw (n, record_frame) (inl (view_at_command _ s c j f cmd a n (h (key_for j))))
      | inr h ↦ rw (n, record_frame) (inr (ap (view_of json) (h (key_for j))))
    ]
  ]

  pub view-clear :
      (s : r.State) (c j : String)
      → (clear r s c).1 ≡ fulfilled tt
      → view json r (clear r s c).0 j ≡ (if c == j then empty_view else view json r s j)
  unfolding clear effect view_of
  view-clear s c j e = view_at _ s c j _ (r.hash-exec s (key_for c) (key_for j) del e)

  -- A frame puts a hazard under its id.
  fold_frame-own :
      (v : SnapshotView) (f : InboundFrame)
      → ((id : String) (p : HazardPayload) → v.hazards id ≡ some p → p.id ≡ id)
      → (id : String) (p : HazardPayload) → (fold_frame v f).hazards id ≡ some p
      → p.id ≡ id
  unfolding fold_frame
  fold_frame-own v (hazard q) h id p e = ground (arith, h id p, eq_iff q.id id)
  fold_frame-own v (hazard_remove q) h id p e = ground (arith, h id p)
  fold_frame-own v (gps q) h id p e = h id p e
  fold_frame-own v (waypoint q) h id p e = h id p e
  fold_frame-own v (tour q) h id p e = h id p e
  fold_frame-own v (checkin q) h id p e = h id p e
  fold_frame-own v (status q) h id p e = h id p e

  pub record_frame-IsValid :
      (s : r.State) (c : String) (f : InboundFrame)
      → Survives json f
      → IsValid s
      → IsValid (record_frame json r s c f).0
  record_frame-IsValid s c f a v = record { own_id = own }
    where
      own :
          (j id : String) (p : HazardPayload)
          → (view json r (record_frame json r s c f).0 j).hazards id ≡ some p
          → p.id ≡ id
      own j id p e = elim (view-record_frame_any s c j f a) [
        | inl h ↦ elim (Bool-cases (c == j)) [
          | inl b ↦ fold_frame-own (view json r s j) f (v.own_id j) id p (rw (h, b) at e)
          | inr b ↦ v.own_id j id p (rw (h, b) at e)
        ]
        | inr h ↦ v.own_id j id p (rw h at e)
      ]

  view-clear_any :
      (s : r.State) (c j : String)
      → (view json r (clear r s c).0 j ≡ (if c == j then empty_view else view json r s j))
        ⊎ (view json r (clear r s c).0 j ≡ view json r s j)
  unfolding clear effect view view_of
  view-clear_any s c j = elim (r.hash-exec_any s (key_for c) del) [
    | inl h ↦ inl (view_at _ s c j _ (h (key_for j)))
    | inr h ↦ inr (ap (view_of json) (h (key_for j)))
  ]

  pub clear-IsValid : (s : r.State) (c : String) → IsValid s → IsValid (clear r s c).0
  clear-IsValid s c v = record { own_id = own }
    where
      own :
          (j id : String) (p : HazardPayload)
          → (view json r (clear r s c).0 j).hazards id ≡ some p
          → p.id ≡ id
      own j id p e = elim (view-clear_any s c j) [
        | inl h ↦ elim (Bool-cases (c == j)) [
          | inl b ↦ let empty : ◌≡◌ {A = Option HazardPayload} none (some p) = rw (h, b) at e in cc
          | inr b ↦ v.own_id j id p (rw (h, b) at e)
        ]
        | inr h ↦ v.own_id j id p (rw h at e)
      ]

  pub view-same :
      (s t : r.State) (c : String)
      → r.hash s (key_for c) ≡ r.hash t (key_for c)
      → view json r s c ≡ view json r t c
  unfolding view
  view-same s t c e = ap (view_of json) e

  -- A lapsed key leaves an empty world state, and any other is as it was.
  pub view-elapse :
      (n : ℕ) (s : r.State) (c : String)
      → view json r (r.elapse n s) c
        ≡ (if lapses n (r.ttl s (key_for c)) then empty_view else view json r s c)
  unfolding view view_of
  view-elapse n s c =
      ap (view_of json) (r.hash-elapse n s (key_for c))
      ∙ view_of-if (lapses n (r.ttl s (key_for c))) (λ f. none) (r.hash s (key_for c))

  pub elapse-IsValid : (n : ℕ) (s : r.State) → IsValid s → IsValid (r.elapse n s)
  elapse-IsValid n s v = record { own_id = own }
    where
      own :
          (c id : String) (p : HazardPayload)
          → (view json r (r.elapse n s) c).hazards id ≡ some p
          → p.id ≡ id
      own c id p e = elim (Bool-cases (lapses n (r.ttl s (key_for c)))) [
        | inl b ↦
            let empty : ◌≡◌ {A = Option HazardPayload} none (some p) =
              rw (view-elapse n s c, b) at e in
            cc
        | inr b ↦ v.own_id c id p (rw (view-elapse n s c, b) at e)
      ]

  -- Without a field there is nothing in the world.
  pub blank-view :
      (s : r.State)
      → ((j g : String) → r.hash s (key_for j) g ≡ none)
      → (j : String) → view json r s j ≡ empty_view
  unfolding view view_of
  blank-view s blank j =
      let no_field : r.hash s (key_for j) ≡ (λ g. none) = fun_ext (blank j) in rw no_field refl

  pub blank-IsValid : (s : r.State) → ((j g : String) → r.hash s (key_for j) g ≡ none) → IsValid s
  blank-IsValid s blank = record { own_id = own }
    where
      own : (c id : String) (p : HazardPayload) → (view json r s c).hazards id ≡ some p → p.id ≡ id
      own c id p e =
          let empty : ◌≡◌ {A = Option HazardPayload} none (some p) =
            rw (blank-view s blank c) at e in
          cc
