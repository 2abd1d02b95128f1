-- ===== src/Tests/Tasks.antt =====
-- backend/src/realtime/frame_handler.ts: the theorems on interleaved calls, at a convoy of Ann, its
-- leader, and Bob.
use crew_link.Base.{ℕ, String, List, none, some, [], ◌∷◌, ◌≡◌, ◌⊎◌, refl, arith}
use mathlib.Core.Logic.{ite}
use native.Mathlib.Decide.{ℕ_discrete}
use crew_link.Wire.{InboundFrame, TourPayload}
use crew_link.Snapshot.Memory.{Convoys}
use crew_link.Snapshot.Memory.View as Snapshots
use crew_link.FrameHandler.{Outcome, text}
use crew_link.FrameHandler.Authorised.{IsAuthorised, IsLeader}
use crew_link.FrameHandler.Protect.{SameRoute}
use crew_link.FrameHandler.Task.{Pc, received, ended, alone, turn, own_frame}
use crew_link.FrameHandler.Task.Settled.{Relays, alone-cases}
use crew_link.FrameHandler.Conform.{Conforms}
use crew_link.FrameHandler.Task.Conform.{turned-Conforms}
use crew_link.FrameHandler.Task.Overtaken.{Leaves, last_answer-HasRoute}
use crew_link.FrameHandler.Task.Races.{Tracks, stale_removal}
use crew_link.FrameHandler.Task.Safety.{
  never_leader-SameRoute, never_reporter-hazard, IsOwnReport, IsOfOther,
}
use crew_link.FrameHandler.Task.System.{
  Task, System, take_turn, call, Reach, here, next, turned, called, schedule,
}
use crew_link.Tests.Demo.{any_time, demo, ann, bob, ann_hazard, bob_hazard, route_a}
use crew_link.Tests.Realtime.{
  calm, tracked, tracked-IsValid, realtime, bob-not-IsLeader, ann_hazard-tracked, ann-ne-bob,
  demo-IsReliable, ann_leads, started, started-Conforms, demo-IsSoundParse,
}

-- Two calls, and no other.
abbrev two_calls : Task → Task → ℕ → Task
two_calls a b i =
    ite (ℕ_discrete 0 i) a (ite (ℕ_discrete 1 i) b (record { origin = ann; pc = ended }))

abbrev of_ann : String → Task
of_ann message = record { origin = ann; pc = received (text message) }

abbrev of_bob : String → Task
of_bob message = record { origin = bob; pc = received (text message) }

abbrev removal : Outcome demo × Pc
removal = alone demo 3 calm bob (received (text "remove h1"))

alone-cases_example :
    (removal.1 ≡ ended)
    × (((f : InboundFrame) × IsAuthorised demo calm bob (text "remove h1") f
          × Relays demo calm bob f removal.0)
        ⊎ (((f : InboundFrame) → ¬ IsAuthorised demo calm bob (text "remove h1") f)
            × (removal.0.world ≡ calm)
            × (removal.0.sent ≡ [])))
alone-cases_example = alone-cases demo calm bob 3 (text "remove h1") (omega arith)

abbrev race : System demo
race = record { world = calm; tasks = two_calls (of_ann "remove h1") (of_bob "bob reports h1") }

stale_removal_example :
    Tracks demo ann "bob" demo-IsReliable
      (schedule demo race (0 ∷ 0 ∷ 1 ∷ [])).world
      "h1"
      (some bob_hazard)
    × Tracks demo ann "bob" demo-IsReliable
        (schedule demo race (0 ∷ 0 ∷ 1 ∷ 0 ∷ [])).world
        "h1"
        none
unfolding realtime ℕ_discrete
stale_removal_example =
    stale_removal demo ann "bob" demo-IsReliable race (text "remove h1") (text "bob reports h1")
      ann_hazard bob_hazard refl refl (tracked, refl, tracked-IsValid, refl) refl refl refl refl

abbrev routes : System demo
routes = record { world = calm; tasks = two_calls (of_ann "no route") (of_ann "route a") }

-- What the two calls leave, with the first frame's route, which has no stops, or the second's.
abbrev Left : List ℕ → TourPayload → Type 0
Left = Leaves demo ann demo-IsReliable routes

last_answer-HasRoute_example :
    (Left (0 ∷ 0 ∷ 1 ∷ 1 ∷ []) route_a
      × Left (0 ∷ 1 ∷ 0 ∷ 1 ∷ []) route_a
      × Left (1 ∷ 0 ∷ 0 ∷ 1 ∷ []) route_a)
    × (Left (1 ∷ 1 ∷ 0 ∷ 0 ∷ []) (record { stops = [] })
        × Left (1 ∷ 0 ∷ 1 ∷ 0 ∷ []) (record { stops = [] })
        × Left (0 ∷ 1 ∷ 1 ∷ 0 ∷ []) (record { stops = [] }))
unfolding realtime ℕ_discrete
last_answer-HasRoute_example =
    last_answer-HasRoute demo ann demo-IsReliable routes (text "no route") (text "route a")
      (record { stops = [] }) route_a refl refl (ann_leads, refl, refl)
      (tracked, refl, tracked-IsValid, refl) refl refl

-- Nobody's frame is under way.
abbrev idle : System demo
idle = record { world = calm; tasks = λ i. record { origin = ann; pc = ended } }

-- Bob's call with a message has taken its first two turns.
abbrev waiting : String → System demo
waiting message = turned demo (turned demo (called demo idle 0 bob (text message)) 0) 0

route_refused : Reach demo (λ w. ¬ IsLeader demo w bob) idle (waiting "route a")
unfolding realtime ℕ_discrete turn turned called own_frame
route_refused =
    next
      (next (next (here bob-not-IsLeader) (call 0 bob (text "route a") refl) bob-not-IsLeader)
        (take_turn 0) bob-not-IsLeader)
      (take_turn 0) bob-not-IsLeader

never_leader-SameRoute_example :
    (σ' : Convoys) × ((turned demo (waiting "route a") 0).world.snapshots ≡ some σ')
    × ((j : String) → SameRoute (Snapshots.view tracked j) (Snapshots.view σ' j))
unfolding realtime ℕ_discrete turn turned called own_frame
never_leader-SameRoute_example =
    never_leader-SameRoute demo bob {s = idle} {t = waiting "route a"} 0 tracked (λ i. refl)
      route_refused refl refl tracked-IsValid

calm-IsOfOther : IsOfOther demo bob "h1" calm
unfolding realtime
calm-IsOfOther = (tracked, refl, tracked-IsValid, (ann_hazard, refl, ann-ne-bob))

removal_refused : Reach demo (IsOfOther demo bob "h1") idle (waiting "remove h1")
unfolding realtime ℕ_discrete turn turned called own_frame
removal_refused =
    next
      (next (next (here calm-IsOfOther) (call 0 bob (text "remove h1") refl) calm-IsOfOther)
        (take_turn 0) calm-IsOfOther)
      (take_turn 0) calm-IsOfOther

never_reporter-hazard_example :
    (σ' : Convoys) × ((turned demo (waiting "remove h1") 0).world.snapshots ≡ some σ')
    × (((Snapshots.view σ' "c1").hazards "h1" ≡ some ann_hazard)
        ⊎ IsOwnReport demo bob "h1" ((waiting "remove h1").tasks 0).pc)
unfolding realtime ℕ_discrete turn turned called own_frame
never_reporter-hazard_example =
    never_reporter-hazard demo bob "h1" {s = idle} {t = waiting "remove h1"} 0 tracked ann_hazard
      (λ i. refl) removal_refused refl refl tracked-IsValid ann_hazard-tracked

-- Ann's route waits for its second turn.
abbrev route_waits : System demo
route_waits =
    turned demo
      (turned demo
        (called demo (record { world = started; tasks = idle.tasks }) 0 ann (text "route a")) 0)
      0

route_comes :
    Reach demo (λ _. Unit {0}) (record { world = started; tasks = idle.tasks }) route_waits
unfolding realtime ℕ_discrete turn turned called own_frame
route_comes =
    next (next (next (here tt) (call 0 ann (text "route a") refl) tt) (take_turn 0) tt)
      (take_turn 0) tt

turned-Conforms_example :
    (σ' : Convoys) × ((turned demo route_waits 0).world.snapshots ≡ some σ')
    × Snapshots.IsValid σ'
    × ((j : String) → Conforms any_time (Snapshots.view σ' j))
unfolding realtime ℕ_discrete turn turned called own_frame
turned-Conforms_example =
    turned-Conforms demo any_time demo-IsSoundParse
      {s = record { world = started; tasks = idle.tasks }} {t = route_waits} 0 [] (λ i. refl)
      route_comes refl tt started-Conforms
