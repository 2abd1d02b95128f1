-- ===== src/Fanout/Redis/Once.antt =====
-- backend/src/realtime/redis_fanout.ts: what the instances send for one published frame.
use crew_link.Base.{
  String, true, some, Option-cases, List, [], ◌++◌, append-nil, ◌==◌, ◌≡◌, refl, ap, Bool-cases,
  inl, inr, if◌then◌else◌,
}
use text.Mathlib.TextPositions.{starts_with-append, len-append, slice-append_right}
use crew_link.JsMap.{get}
use crew_link.Fanout.Pool.{Delivery, deliveries}
use crew_link.Fanout.InProcess.{pool}
use crew_link.Fanout.Redis.{
  RedisFanout, RedisMessage, publish, on_message, on_parsed, deliver, channel_for, convoy_of,
}

-- A published message is received on its channel.
unfoldable pub received : RedisFanout → List Delivery × String × RedisMessage → List Delivery
received r (local, channel, message) = on_message r channel (some message)

-- A message is for the convoy whose channel it was published on.
convoy_of-channel_for : (c : String) → convoy_of (channel_for c) ≡ some c
unfolding convoy_of channel_for
convoy_of-channel_for c =
    rw (starts_with-append "crewlink:convoy:" c, len-append "crewlink:convoy:" c)
      (ap some (slice-append_right "crewlink:convoy:" c))

received-publish :
    (publisher r : RedisFanout) (c frame origin : String)
    → received r (publish publisher c frame origin)
      ≡ on_parsed r c
          (record { frame = frame; origin_member_id = origin; instance_id = publisher.instance_id })
unfolding received publish on_message
received-publish publisher r c frame origin = rw (convoy_of-channel_for c, on_message) refl

-- What an instance sends when another or itself publishes: its own sends where it is the one that
-- publishes, and those for the message, which Redis gives to every subscribed instance.
unfoldable pub sends_of : RedisFanout → RedisFanout → String → String → String → List Delivery
sends_of publisher r c frame origin =
    (if publisher.instance_id == r.instance_id then (publish r c frame origin).0 else [])
    ++ (if r.subscribed c then received r (publish publisher c frame origin) else [])

pub deliver-pool :
    (r : RedisFanout) (c frame origin : String)
    → deliver (get c r.local_conns) frame origin ≡ deliveries (pool r.local_conns c) frame origin
unfolding pool deliveries
deliver-pool r c frame origin = elim (Option-cases (get c r.local_conns)) [
  | inl e ↦ rw e refl
  | inr (conns, e) ↦ rw e refl
]

-- When an instance publishes a frame to a convoy, every instance that is subscribed, that one too,
-- sends it once to each of its connections of the convoy but the origin's: what it sends is the
-- one delivery to its pool, also where Redis gives an instance its own message back.
pub sends_of-deliveries :
    (publisher r : RedisFanout) (c frame origin : String)
    → r.subscribed c ≡ true
    → sends_of publisher r c frame origin ≡ deliveries (pool r.local_conns c) frame origin
unfolding sends_of publish on_parsed
sends_of-deliveries publisher r c frame origin s =
    elim (Bool-cases (publisher.instance_id == r.instance_id)) [
      | inl e ↦
          rw
            (
              s,
              received-publish publisher r c frame origin,
              e,
              append-nil (deliver (get c r.local_conns) frame origin),
            )
            (deliver-pool r c frame origin)
      | inr e ↦
          rw (s, received-publish publisher r c frame origin, e) (deliver-pool r c frame origin)
    ]
