-- ===== src/Tests/Instances.antt =====
-- Two instances of the backend.
use crew_link.Base.{false, true, [], ◌∷◌, refl, ◌≡◌}
use crew_link.JsMap.{get}
use crew_link.Fanout.Pool.{LocalSender, deliveries}
use crew_link.Fanout.InProcess.{pool}
use crew_link.Fanout.Redis.{RedisFanout, add_local_connection, is_first, subscribe}
use crew_link.Fanout.Redis.Once.{sends_of, sends_of-deliveries}
use crew_link.Fanout.Redis.Subscribed.{IsSubscribed, came, went, run, run-IsSubscribed}

abbrev ann_conn : LocalSender
ann_conn = record { conn = 1; member_id = "ann" }

abbrev bob_conn : LocalSender
bob_conn = record { conn = 2; member_id = "bob" }

abbrev idle : RedisFanout
idle = record { instance_id = "a"; local_conns = []; subscribed = λ c. false }

abbrev other : RedisFanout
other = record idle { instance_id = "b" }

idle-IsSubscribed : IsSubscribed idle
unfolding IsSubscribed get is_first
idle-IsSubscribed c = refl

run-IsSubscribed_example :
    IsSubscribed (run idle (came "c1" ann_conn ∷ came "c1" bob_conn ∷ went "c1" ann_conn ∷ []))
run-IsSubscribed_example =
    run-IsSubscribed (came "c1" ann_conn ∷ came "c1" bob_conn ∷ went "c1" ann_conn ∷ []) idle
      idle-IsSubscribed

abbrev with_bob : RedisFanout
with_bob = add_local_connection idle "c1" bob_conn

bob_subscribed : with_bob.subscribed "c1" ≡ true
unfolding add_local_connection subscribe is_first get
bob_subscribed = refl

sends_of-deliveries_example :
    sends_of other with_bob "c1" "frame" "ann"
    ≡ deliveries (pool with_bob.local_conns "c1") "frame" "ann"
sends_of-deliveries_example = sends_of-deliveries other with_bob "c1" "frame" "ann" bob_subscribed
