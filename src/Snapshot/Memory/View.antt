-- ===== src/Snapshot/Memory/View.antt =====
-- The in-process store of backend/src/realtime/snapshot_store.ts seen through the abstract view:
-- its well-formedness, and what `record` and `clear` do to the view.
use crew_link.Base.{
  none, some, String, Option, if◌then◌else◌, ◌==◌, ◌≡◌, refl, ap, ◌∙◌, fun_ext, eq_iff, All,
  Bool-cases, Option-cases, inl, inr,
}
use crew_link.JsMap.{get, set}
use crew_link.JsMap.Laws.{
  get-set, get-delete, IsMap, set-IsMap, delete-IsMap, set-All, delete-All, get-All,
}
use crew_link.Wire.{HazardPayload, InboundFrame, waypoint, hazard, hazard_remove, tour}
use crew_link.Snapshot.{SnapshotView, empty_view, fold_frame}
use crew_link.Snapshot.Memory.{
  ConvoySnapshot, Convoys, fresh, state_for, apply_frame, record_frame, clear,
}

abbrev pub view_of : ConvoySnapshot → SnapshotView
view_of s = record { hazards = λ id. get id s.hazards; route = s.route; target = s.target }

unfoldable pub view : Convoys → String → SnapshotView
view convoys c = view_of (state_for convoys c)

pub view_lem : (convoys : Convoys) (c : String) → view convoys c ≡ view_of (state_for convoys c)
unfolding view
view_lem convoys c = refl

pub view_found :
    (convoys : Convoys) (j : String) (s : ConvoySnapshot)
    → get j convoys ≡ some s
    → view convoys j ≡ view_of s
unfolding view state_for
view_found convoys j s e = rw (e, state_for)

pub view_missing :
    (convoys : Convoys) (j : String) → get j convoys ≡ none → view convoys j ≡ empty_view
unfolding view state_for get
view_missing convoys j e = rw (e, state_for)

-- The hazards are a map, and each stands under its own id.
pub record IsSound (s : ConvoySnapshot) : Type 0 where
  pub apart : IsMap s.hazards
  pub keyed : All (λ e. e.0 ≡ e.1.id) s.hazards

abbrev pub IsValid : Convoys → Type 0
IsValid convoys = All (λ e. IsSound e.1) convoys

fresh-IsSound : IsSound fresh
fresh-IsSound = record { apart = tt; keyed = tt }

pub state_for-IsSound :
    (convoys : Convoys) (c : String) → IsValid convoys → IsSound (state_for convoys c)
unfolding state_for
state_for-IsSound convoys c v = elim (Option-cases (get c convoys)) [
  | inl e ↦ rw e fresh-IsSound
  | inr (s, e) ↦ rw e (get-All (λ e. IsSound e.1) c s convoys v e)
]

apply_frame-IsSound :
    (s : ConvoySnapshot) (f : InboundFrame) → IsSound s → IsSound (apply_frame s f)
unfolding apply_frame
apply_frame-IsSound s (hazard p) v = record {
  apart = set-IsMap p.id p s.hazards v.apart;
  keyed = set-All (λ e. e.0 ≡ e.1.id) p.id p s.hazards v.keyed refl;
}
apply_frame-IsSound s (hazard_remove p) v = record {
  apart = delete-IsMap p.id s.hazards v.apart;
  keyed = delete-All (λ e. e.0 ≡ e.1.id) p.id s.hazards v.keyed;
}
apply_frame-IsSound s (tour p) v = record { apart = v.apart; keyed = v.keyed }
apply_frame-IsSound s (waypoint p) v = record { apart = v.apart; keyed = v.keyed }
apply_frame-IsSound s _ v = v

pub record_frame-IsValid :
    (convoys : Convoys) (c : String) (f : InboundFrame)
    → IsValid convoys
    → IsValid (record_frame convoys c f).0
unfolding record_frame
record_frame-IsValid convoys c f v =
    set-All (λ e. IsSound e.1) c _ convoys v
      (apply_frame-IsSound _ f (state_for-IsSound convoys c v))

pub clear-IsValid : (convoys : Convoys) (c : String) → IsValid convoys → IsValid (clear convoys c).0
unfolding clear
clear-IsValid convoys c v = delete-All (λ e. IsSound e.1) c convoys v

-- The `switch` of `record` is the abstract fold.
apply_frame-fold_frame :
    (s : ConvoySnapshot) (f : InboundFrame) → view_of (apply_frame s f) ≡ fold_frame (view_of s) f
unfolding apply_frame fold_frame
apply_frame-fold_frame s (hazard p) =
    ap (λ (h : String → Option HazardPayload). record (view_of s) { hazards = h })
      (fun_ext λ id. get-set p.id id p s.hazards)
apply_frame-fold_frame s (hazard_remove p) =
    ap (λ (h : String → Option HazardPayload). record (view_of s) { hazards = h })
      (fun_ext λ id. get-delete p.id id s.hazards)
apply_frame-fold_frame s (tour p) = refl
apply_frame-fold_frame s _ = refl

-- Writing an entry changes the view of its convoy alone.
pub view-set :
    (convoys : Convoys) (c j : String) (s : ConvoySnapshot)
    → view (set c s convoys) j ≡ (if c == j then view_of s else view convoys j)
unfolding view state_for
view-set convoys c j s = elim (Bool-cases (c == j)) [
  | inl e ↦ rw (get-set c j s convoys, e)
  | inr e ↦ rw (get-set c j s convoys, e)
]

pub view-record_frame :
    (convoys : Convoys) (c j : String) (f : InboundFrame)
    → view (record_frame convoys c f).0 j
      ≡ (if c == j then fold_frame (view convoys j) f else view convoys j)
unfolding record_frame view
view-record_frame convoys c j f = elim (Bool-cases (c == j)) [
  | inl e ↦
      rw (view-set convoys c j (apply_frame (state_for convoys c) f), e)
        (apply_frame-fold_frame (state_for convoys c) f
          ∙ ap (λ k. fold_frame (view_of (state_for convoys k)) f) ((eq_iff c j).0 e))
  | inr e ↦ rw (view-set convoys c j (apply_frame (state_for convoys c) f), e)
]

pub view-clear :
    (convoys : Convoys) (c j : String)
    → view (clear convoys c).0 j ≡ (if c == j then empty_view else view convoys j)
unfolding view state_for clear get
view-clear convoys c j = elim (Bool-cases (c == j)) [
  | inl e ↦ rw (get-delete c j convoys, e)
  | inr e ↦ rw (get-delete c j convoys, e)
]
