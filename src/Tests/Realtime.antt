-- ===== src/Tests/Realtime.antt =====
-- backend/src/realtime/: the theorems on a convoy of Ann, its leader, and Bob.
use crew_link.Base.{
  pos, String, Bool, true, none, some, [], ◌∷◌, if◌then◌else◌, In, ◌≡◌, ◌≢◌, ◌↔◌, refl, ap, ◌∙◌,
  Bool-cases, inl, inr, arith, eq_iff, ◌==◌,
}
use mathlib.Core.Option.{some-injective, none-ne-some}
use crew_link.JsMap.{get, set, delete}
use crew_link.Promise.{Promise, fulfilled}
use crew_link.Wire.{hazard, hazard_remove, tour, status, originator_of}
use crew_link.Wire.Schema.{inbound_frame_schema}
use crew_link.Fanout.Pool.{LocalSender, count_to, deliveries, remove_conn, add_conn}
use crew_link.Fanout.InProcess.{pool, publish, unregister, add_local_connection}
use crew_link.Heartbeat.{pong, timer, terminate, run, start_heartbeat}
use crew_link.Heartbeat.Silence.{IsSilent, terminate_iff}
use crew_link.Snapshot.{IsCurrent, fold_frame, is_expired}
use crew_link.Snapshot.Memory.{Convoys, snapshot, record_frame, hazard_reporter, state_for}
use crew_link.Snapshot.Memory.View.{view-record_frame}
use crew_link.Snapshot.Memory.View as Snapshots
use crew_link.Snapshot.Memory.Replay.{snapshot-IsCurrent}
use crew_link.FrameHandler.{World, text, proceed, authorise, handle_frame, commit}
use crew_link.FrameHandler.Authorised.{IsAuthorised, authorise_iff, IsLeader}
use crew_link.FrameHandler.Takeover.{takeover, IsReliable}
use crew_link.FrameHandler.Conform.{Conforms, IsSoundParse}
use crew_link.Tests.Demo.{
  demo, ann, bob, ann_hazard, bob_hazard, route_a, any_time, later_is_9, bob_pause,
}

-- What the tests compute with.
unfoldable pub realtime : Unit {0}
unfolding state_for Snapshots.view handle_frame authorise commit record_frame snapshot unregister
    add_local_connection run inbound_frame_schema start_heartbeat get set delete pool remove_conn
    add_conn deliveries count_to fold_frame originator_of publish hazard_reporter is_expired
realtime = tt

abbrev ann_1 : LocalSender
ann_1 = record { conn = 1; member_id = "ann" }

abbrev bob_2 : LocalSender
bob_2 = record { conn = 2; member_id = "bob" }

abbrev pub ann_leads : String → String → Promise Bool
ann_leads member convoy = fulfilled (member == "ann")

abbrev pub tracked : Convoys
tracked =
    ("c1", record { hazards = ("h1", ann_hazard) ∷ []; route = some route_a; target = none }) ∷ []

abbrev pub calm : World demo
calm = record {
  connections = ("c1", ann_1 ∷ bob_2 ∷ []) ∷ [];
  positions = none;
  snapshots = some tracked;
  resolve_leader = some ann_leads;
}

-- Bob's pause goes to Ann, and not back to Bob.
pause_goes_to_ann :
    (handle_frame demo calm bob (text "bob pauses")).sent ≡ record { to = 1; text = "status" } ∷ []
unfolding realtime
pause_goes_to_ann = refl

-- Bob cannot set the route or remove Ann's hazard, and speaks for himself only.
bob_refused :
    ((handle_frame demo calm bob (text "route a")).sent ≡ [])
    × ((handle_frame demo calm bob (text "remove h1")).sent ≡ [])
    × ((handle_frame demo calm bob (text "ann reports h1")).sent ≡ [])
unfolding realtime
bob_refused = (refl, refl, refl)

-- The tracked hazard and its key are in order.
pub tracked-IsValid : Snapshots.IsValid tracked
tracked-IsValid = (record { apart = (tt, tt); keyed = (refl, tt) }, tt)

pub bob_pauses-IsAuthorised : IsAuthorised demo calm bob (text "bob pauses") (status bob_pause)
unfolding realtime
bob_pauses-IsAuthorised = (refl, inr refl, tt, tt)

authorise_iff_example :
    (authorise demo calm bob (text "bob pauses") ≡ proceed (status bob_pause))
    ↔ IsAuthorised demo calm bob (text "bob pauses") (status bob_pause)
authorise_iff_example = authorise_iff demo calm bob (text "bob pauses") (status bob_pause)

ann_reports-IsAuthorised : IsAuthorised demo calm ann (text "ann reports h1") (hazard ann_hazard)
unfolding realtime
ann_reports-IsAuthorised = (refl, inr refl, tt, tt)

pub bob-not-IsLeader : ¬ IsLeader demo calm bob
bob-not-IsLeader (inl e) = cc
bob-not-IsLeader (inr (resolve, e, led)) =
    let asked : ann_leads "bob" "c1" ≡ fulfilled true =
      ap (λ (f : String → String → Promise Bool). f "bob" "c1") (some-injective ann_leads resolve e)
      ∙ led in
    cc

pub ann_hazard-tracked : (Snapshots.view tracked "c1").hazards "h1" ≡ some ann_hazard
unfolding realtime
ann_hazard-tracked = refl

pub ann-ne-bob : ◌≢◌ {A = String} "ann" "bob"
ann-ne-bob = ground (arith, eq_iff "ann" "bob")

pub demo-IsReliable : IsReliable demo
unfolding realtime
demo-IsReliable = record { records = λ s c f. refl; answers = λ s c id. (_, refl) }

takeover_example :
    (s' : Convoys) × ((handle_frame demo
        (handle_frame demo calm bob (text "bob reports h1")).world
        bob
        (text "remove h1")).world.snapshots
      ≡ some s')
    × ((Snapshots.view s' "c1").hazards "h1" ≡ none)
unfolding realtime
takeover_example =
    takeover demo bob demo-IsReliable calm (text "bob reports h1") (text "remove h1") tracked
      bob_hazard refl tracked-IsValid refl refl refl

pub demo-IsSoundParse : IsSoundParse demo any_time
demo-IsSoundParse v f e = elim (Bool-cases (inbound_frame_schema any_time v)) [
  | inl meets ↦ rw (← some-injective v f (rw meets at e)) meets
  | inr fails ↦ absurd (none-ne-some f (rw fails at e))
]

-- The instance has just started.
abbrev pub started : World demo
started = record calm { snapshots = some [] }

pub started-Conforms : (j : String) → Conforms any_time (Snapshots.view [] j)
unfolding realtime
started-Conforms j = record {
  of_hazards = λ id h e. absurd (none-ne-some h e);
  of_route = λ p e. absurd (none-ne-some p e);
  of_target = λ p e. rw (← e) refl;
}

snapshot-IsCurrent_example :
    In (hazard ann_hazard) (hazard ann_hazard ∷ tour route_a ∷ [])
    ↔ IsCurrent later_is_9 (pos 5) (Snapshots.view tracked "c1") (hazard ann_hazard)
unfolding realtime
snapshot-IsCurrent_example =
    snapshot-IsCurrent later_is_9 (pos 5) tracked "c1" (hazard ann_hazard) tracked-IsValid refl

-- At time 9 the hazard has expired.
expired_at_9 : (snapshot later_is_9 (pos 9) tracked "c1").1 ≡ fulfilled (tour route_a ∷ [])
unfolding realtime
expired_at_9 = refl

view-record_frame_example :
    Snapshots.view (record_frame tracked "c1" (hazard_remove (record { id = "h1" }))).0 "c1" ≡ (
      if "c1" == "c1"
      then fold_frame (Snapshots.view tracked "c1") (hazard_remove (record { id = "h1" }))
      else Snapshots.view tracked "c1")
view-record_frame_example =
    view-record_frame tracked "c1" "c1" (hazard_remove (record { id = "h1" }))

terminate_iff_example :
    In terminate (run start_heartbeat (timer ∷ pong ∷ timer ∷ timer ∷ []))
    ↔ IsSilent (timer ∷ pong ∷ timer ∷ timer ∷ [])
terminate_iff_example = terminate_iff (timer ∷ pong ∷ timer ∷ timer ∷ [])
