-- ===== src/Snapshot/Memory/Replay.antt =====
-- `snapshot` of the in-process store (backend/src/realtime/snapshot_store.ts): the frames that it
-- replays, and the expired hazards that it takes out on the way.
use crew_link.Base.{
  String, ℤ, false, Option, none, some, List, [], ◌∷◌, ◌++◌, if◌then◌else◌, ◌==◌, ◌≡◌, ◌↔◌, refl,
  ap, ◌∙◌, fun_ext, arith, eq_iff, In, In-append, In-append_left, In-append_right, All, All-In,
  Bool-cases, Option-cases, ◌⊎◌, inl, inr, append-nil, append_assoc,
}
use crew_link.JsMap.{JsMap, get, set, delete}
use crew_link.JsMap.Laws.{
  get-delete, IsMap, delete-IsMap, delete-All, set-All, get-In, In-get, get_of_IsFresh, get-All,
}
use crew_link.Promise.{fulfilled}
use crew_link.Wire.{
  HazardPayload, TourPayload, WaypointPayload, OutboundFrame, gps, waypoint, hazard, hazard_remove,
  tour, checkin, status,
}
use crew_link.Snapshot.{is_expired, unexpired, prune, IsCurrent}
use crew_link.Snapshot.Memory.{
  ConvoySnapshot, Convoys, state_for, replay, route_frames, target_frames, snapshot,
}
use crew_link.Snapshot.Memory.View.{
  view_of, view, view-set, IsSound, IsValid, state_for-IsSound, view_lem, view_found, view_missing,
}

module _ (date_parse : String → Option ℤ) where
  -- The two results of the loop apart: the hazards left, and the frames of those not expired.
  sweep : ℤ → JsMap HazardPayload → JsMap HazardPayload → JsMap HazardPayload
  sweep ts [] left = left
  sweep ts ((id, h) ∷ rest) left =
      sweep ts rest (if is_expired date_parse ts h then delete id left else left)

  live : ℤ → JsMap HazardPayload → List OutboundFrame
  live ts [] = []
  live ts ((id, h) ∷ rest) =
      if is_expired date_parse ts h then live ts rest else hazard h ∷ live ts rest

  replay-sweep-live :
      (ts : ℤ) (es left : JsMap HazardPayload) (frames : List OutboundFrame)
      → replay date_parse ts es left frames ≡ (sweep ts es left, frames ++ live ts es)
  unfolding replay sweep live
  replay-sweep-live ts [] left frames = ground (arith, append-nil frames)
  replay-sweep-live ts ((id, h) ∷ rest) left frames =
      elim (Bool-cases (is_expired date_parse ts h)) [
        | inl e ↦ rw e (replay-sweep-live ts rest (delete id left) frames)
        | inr e ↦ rw e (
            replay-sweep-live ts rest left (frames ++ hazard h ∷ [])
            ∙ ap (λ (l : List OutboundFrame). (sweep ts rest left, l)) (append_assoc frames _ _))
      ]

  -- What is read after the sweep: nothing where the hazard has expired.
  abbrev swept : ℤ → Option HazardPayload → Option HazardPayload → Option HazardPayload
  swept ts none old = old
  swept ts (some h) old = if is_expired date_parse ts h then none else old

  get-sweep :
      (ts : ℤ) (es left : JsMap HazardPayload) (j : String)
      → IsMap es
      → get j (sweep ts es left) ≡ swept ts (get j es) (get j left)
  unfolding sweep get
  get-sweep ts [] left j m = refl
  get-sweep ts ((id, h) ∷ rest) left j m = ground (
    arith,
    get-sweep ts rest (delete id left) j m.1,
    get-sweep ts rest left j m.1,
    get-delete id j left,
    eq_iff id j,
    get_of_IsFresh id rest m.0,
  )

  sweep-IsSound :
      (ts : ℤ) (es left : JsMap HazardPayload)
      → IsMap left × All (λ e. e.0 ≡ e.1.id) left
      → IsMap (sweep ts es left) × All (λ e. e.0 ≡ e.1.id) (sweep ts es left)
  unfolding sweep
  sweep-IsSound ts [] left v = v
  sweep-IsSound ts ((id, h) ∷ rest) left v = elim (Bool-cases (is_expired date_parse ts h)) [
    | inl e ↦ rw e (
        sweep-IsSound ts rest (delete id left) (delete-IsMap id left v.0, delete-All _ id left v.1))
    | inr e ↦ rw e (sweep-IsSound ts rest left v)
  ]

  live-In :
      (ts : ℤ) (es : JsMap HazardPayload) (k : String) (h : HazardPayload)
      → In (k, h) es
      → is_expired date_parse ts h ≡ false
      → In (hazard h) (live ts es)
  unfolding live
  live-In ts [] k h i e = elim i [ ]
  live-In ts ((id, g) ∷ rest) k h i e = ground (arith, live-In ts rest k h)

  -- Each frame of the sweep is a hazard of the map that has not expired.
  abbrev Live : ℤ → JsMap HazardPayload → OutboundFrame → Type 0
  Live ts es f =
      (k : String) × (h : HazardPayload) × (f ≡ hazard h)
      × In (k, h) es
      × (is_expired date_parse ts h ≡ false)

  In-live :
      (ts : ℤ) (es : JsMap HazardPayload) (f : OutboundFrame) → In f (live ts es) → Live ts es f
  unfolding live
  In-live ts [] f i = elim i [ ]
  In-live ts ((id, g) ∷ rest) f i = elim (Bool-cases (is_expired date_parse ts g)) [
    | inl e ↦
        let (k, h, same, there, fine) = In-live ts rest f (ground arith) in
        (k, h, same, inr there, fine)
    | inr e ↦
        let here_or_there : (f ≡ hazard g) ⊎ In f (live ts rest) = ground arith in
        elim here_or_there [
          | inl same ↦ (id, g, same, inl refl, e)
          | inr i' ↦
              let (k, h, same, there, fine) = In-live ts rest f i' in (k, h, same, inr there, fine)
        ]
  ]

  -- The frames of one entry are those that tell its view.
  frames_of : ℤ → ConvoySnapshot → List OutboundFrame
  frames_of ts s = (live ts s.hazards ++ route_frames s.route) ++ target_frames s.target

  swept_entry : ℤ → ConvoySnapshot → ConvoySnapshot
  swept_entry ts s = record s { hazards = sweep ts s.hazards s.hazards }

  snapshot_lem :
      (ts : ℤ) (convoys : Convoys) (c : String) (s : ConvoySnapshot)
      → get c convoys ≡ some s
      → snapshot date_parse ts convoys c
        ≡ (set c (swept_entry ts s) convoys, fulfilled (frames_of ts s))
  unfolding snapshot frames_of swept_entry
  snapshot_lem ts convoys c s e = rw (e, snapshot, replay-sweep-live ts s.hazards s.hazards [])

  swept_entry-IsSound : (ts : ℤ) (s : ConvoySnapshot) → IsSound s → IsSound (swept_entry ts s)
  unfolding swept_entry
  swept_entry-IsSound ts s v =
      let (apart, keyed) = sweep-IsSound ts s.hazards s.hazards (v.apart, v.keyed) in
      record { apart = apart; keyed = keyed }

  view_of-swept_entry :
      (ts : ℤ) (s : ConvoySnapshot)
      → IsSound s
      → view_of (swept_entry ts s) ≡ prune date_parse ts (view_of s)
  unfolding swept_entry
  view_of-swept_entry ts s v =
      ap (λ (h : String → Option HazardPayload). record (view_of s) { hazards = h })
        (fun_ext λ j. swept-unexpired j (get-sweep ts s.hazards s.hazards j v.apart))
    where
      swept-unexpired :
          (j : String)
          → get j (sweep ts s.hazards s.hazards) ≡ swept ts (get j s.hazards) (get j s.hazards)
          → get j (sweep ts s.hazards s.hazards) ≡ unexpired date_parse ts (get j s.hazards)
      swept-unexpired j e = ground arith

  live-IsCurrent :
      (ts : ℤ) (s : ConvoySnapshot) (f : OutboundFrame)
      → IsSound s
      → In f (live ts s.hazards)
      → IsCurrent date_parse ts (view_of s) f
  live-IsCurrent ts s f v i =
      let (k, h, same, there, fine) = In-live ts s.hazards f i in
      let key : k ≡ h.id =
        All-In (λ (e : String × HazardPayload). e.0 ≡ e.1.id) s.hazards (k, h) v.keyed there in
      rw same (rw (← key) (In-get k h s.hazards v.apart there), fine)

  route-IsCurrent :
      (ts : ℤ) (s : ConvoySnapshot) (f : OutboundFrame) (r : Option TourPayload)
      → s.route ≡ r
      → In f (route_frames r)
      → IsCurrent date_parse ts (view_of s) f
  unfolding route_frames
  route-IsCurrent ts s f none e i = elim i [ ]
  route-IsCurrent ts s f (some p) e (inl same) = rw same e
  route-IsCurrent ts s f (some p) e (inr i) = elim i [ ]

  target-IsCurrent :
      (ts : ℤ) (s : ConvoySnapshot) (f : OutboundFrame) (r : Option WaypointPayload)
      → s.target ≡ r
      → In f (target_frames r)
      → IsCurrent date_parse ts (view_of s) f
  unfolding target_frames
  target-IsCurrent ts s f none e i = elim i [ ]
  target-IsCurrent ts s f (some p) e (inl same) = rw same ((λ k. cc), e)
  target-IsCurrent ts s f (some p) e (inr i) = elim i [ ]

  snapshot_frames :
      (ts : ℤ) (convoys : Convoys) (c : String)
      → (snapshot date_parse ts convoys c).1 ≡ fulfilled (frames_of ts (state_for convoys c))
  unfolding snapshot state_for frames_of live route_frames target_frames
  snapshot_frames ts convoys c = elim (Option-cases (get c convoys)) [
    | inl e ↦ rw (e, snapshot)
    | inr (s, e) ↦ rw (e, snapshot, replay-sweep-live ts s.hazards s.hazards [])
  ]

  frames_of-IsCurrent :
      (ts : ℤ) (s : ConvoySnapshot) (f : OutboundFrame)
      → IsSound s
      → In f (frames_of ts s)
      → IsCurrent date_parse ts (view_of s) f
  unfolding frames_of route_frames target_frames
  frames_of-IsCurrent ts s f v i = elim (In-append _ _ _ i) [
    | inl j ↦ elim (In-append _ _ _ j) [
      | inl k ↦ live-IsCurrent ts s f v k
      | inr k ↦ route-IsCurrent ts s f s.route refl k
    ]
    | inr j ↦ target-IsCurrent ts s f s.target refl j
  ]

  IsCurrent-frames_of :
      (ts : ℤ) (s : ConvoySnapshot) (f : OutboundFrame)
      → IsSound s
      → IsCurrent date_parse ts (view_of s) f
      → In f (frames_of ts s)
  unfolding frames_of route_frames target_frames
  IsCurrent-frames_of ts s (hazard h) v (e, fine) =
      In-append_left (hazard h) (live ts s.hazards ++ route_frames s.route) (target_frames s.target)
        (In-append_left (hazard h) (live ts s.hazards) (route_frames s.route)
          (live-In ts s.hazards h.id h (get-In h.id h s.hazards e) fine))
  IsCurrent-frames_of ts s (tour p) v e =
      let there : In (tour p) (route_frames s.route) = rw (e, route_frames) (inl refl) in
      In-append_left (tour p) (live ts s.hazards ++ route_frames s.route) (target_frames s.target)
        (In-append_right (tour p) (live ts s.hazards) (route_frames s.route) there)
  IsCurrent-frames_of ts s (waypoint none) v (e, k) = absurd (e refl)
  IsCurrent-frames_of ts s (waypoint (some p)) v (e, k) =
      let there : In (waypoint (some p)) (target_frames s.target) =
        rw (k, target_frames) (inl refl) in
      In-append_right (waypoint (some p)) (live ts s.hazards ++ route_frames s.route)
        (target_frames s.target) there
  IsCurrent-frames_of ts s (gps _) v e = elim e [ ]
  IsCurrent-frames_of ts s (hazard_remove _) v e = elim e [ ]
  IsCurrent-frames_of ts s (checkin _) v e = elim e [ ]
  IsCurrent-frames_of ts s (status _) v e = elim e [ ]

  pub snapshot-IsValid :
      (ts : ℤ) (convoys : Convoys) (c : String)
      → IsValid convoys
      → IsValid (snapshot date_parse ts convoys c).0
  unfolding snapshot
  snapshot-IsValid ts convoys c v = elim (Option-cases (get c convoys)) [
    | inl e ↦ rw (e, snapshot) v
    | inr (s, e) ↦
        let sound = get-All (λ e. IsSound e.1) c s convoys v e in
        rw (snapshot_lem ts convoys c s e) (
          set-All (λ e. IsSound e.1) c (swept_entry ts s) convoys v
            (swept_entry-IsSound ts s sound))
  ]

  view_missing-prune :
      (ts : ℤ) (convoys : Convoys) (j : String)
      → get j convoys ≡ none
      → view convoys j ≡ prune date_parse ts (view convoys j)
  view_missing-prune ts convoys j e = rw (view_missing convoys j e)

  view_found-prune :
      (ts : ℤ) (convoys : Convoys) (j : String) (s : ConvoySnapshot)
      → IsValid convoys
      → get j convoys ≡ some s
      → view_of (swept_entry ts s) ≡ prune date_parse ts (view convoys j)
  view_found-prune ts convoys j s v e =
      rw (view_found convoys j s e)
        (view_of-swept_entry ts s (get-All (λ e. IsSound e.1) j s convoys v e))

  -- `snapshot` takes the expired hazards out of its convoy, and changes nothing else.
  pub view-snapshot :
      (ts : ℤ) (convoys : Convoys) (c j : String)
      → IsValid convoys
      → view (snapshot date_parse ts convoys c).0 j
        ≡ (if c == j then prune date_parse ts (view convoys j) else view convoys j)
  unfolding snapshot
  view-snapshot ts convoys c j v = elim (Option-cases (get c convoys)) [
    | inl e ↦ elim (Bool-cases (c == j)) [
      | inl same ↦
          rw (e, snapshot, same) (view_missing-prune ts convoys j (rw ((eq_iff c j).0 same) at e))
      | inr other ↦ rw (e, snapshot, other)
    ]
    | inr (s, e) ↦ elim (Bool-cases (c == j)) [
      | inl same ↦
          rw (snapshot_lem ts convoys c s e, view-set convoys c j (swept_entry ts s), same)
            (view_found-prune ts convoys j s v (rw ((eq_iff c j).0 same) at e))
      | inr other ↦
          rw (snapshot_lem ts convoys c s e, view-set convoys c j (swept_entry ts s), other)
    ]
  ]

  -- The frames are exactly those that tell the view.
  pub snapshot-IsCurrent :
      (ts : ℤ) (convoys : Convoys) (c : String) {fs : List OutboundFrame} (f : OutboundFrame)
      → IsValid convoys
      → (snapshot date_parse ts convoys c).1 ≡ fulfilled fs
      → In f fs ↔ IsCurrent date_parse ts (view convoys c) f
  snapshot-IsCurrent ts convoys c {fs} f v e =
      let sent : frames_of ts (state_for convoys c) ≡ fs = cc (snapshot_frames ts convoys c) in
      let sound = state_for-IsSound convoys c v in
      rw (← sent, view_lem convoys c)
        (frames_of-IsCurrent ts _ f sound, IsCurrent-frames_of ts _ f sound)
