-- ===== src/Fanout/Redis.antt =====
-- backend/src/realtime/redis_fanout.ts, `RedisFanout`: one instance of several, which reach each
-- other by Redis' publish and subscribe. `subscribed` is what the commands that the instance sent to
-- Redis amount to, by the convoy of a channel, where none of them fails.
pub mod Subscribed
pub mod Once
pub mod Adapter
use Prim.Native.String.{◌++◌ as ◌append◌, slice, len}
use text.Mathlib.Text.{starts_with}
use crew_link.Base.{
  String, Bool, true, false, Option, none, some, List, [], ◌∷◌, ◌++◌, ◌==◌, if◌then◌else◌,
}
use crew_link.JsMap.{get, set, delete}
use crew_link.Fanout.Pool.{LocalSender, Delivery, add_conn, remove_conn, deliveries}
use crew_link.Fanout.InProcess.{Registry}

pub record RedisMessage : Type 0 where
  pub frame : String
  pub origin_member_id : String
  pub instance_id : String

pub record RedisFanout : Type 0 where
  pub instance_id : String
  pub local_conns : Registry
  pub subscribed : String → Bool

abbrev pub deliver : Option (List LocalSender) → String → String → List Delivery
deliver none frame origin = []
deliver (some pool) frame origin = deliveries pool frame origin

unfoldable pub channel_for : String → String
channel_for convoy_id = "crewlink:convoy:" append convoy_id

-- The convoy of a channel; none for a channel of something else.
unfoldable pub convoy_of : String → Option String
convoy_of channel =
    if starts_with channel "crewlink:convoy:"
    then some (slice channel (len "crewlink:convoy:") (len channel))
    else none

unfoldable pub on_parsed : RedisFanout → String → RedisMessage → List Delivery
on_parsed r c parsed =
    if parsed.instance_id == r.instance_id
    then []
    else deliver (get c r.local_conns) parsed.frame parsed.origin_member_id

-- The handler of `message` events; the message is none for a text that is not JSON.
unfoldable pub on_message : RedisFanout → String → Option RedisMessage → List Delivery
on_message r channel message = elim (convoy_of channel) [
  | none ↦ []
  | some c ↦ elim message [ none ↦ [] | some parsed ↦ on_parsed r c parsed ]
]

-- What is sent at once, and what is published to the other instances, on which channel.
unfoldable pub publish :
    RedisFanout → String → String → String → List Delivery × String × RedisMessage
publish r c frame origin = (
  deliver (get c r.local_conns) frame origin,
  channel_for c,
  record { frame = frame; origin_member_id = origin; instance_id = r.instance_id },
)

unfoldable pub is_first : Option (List LocalSender) → Bool
is_first none = true
is_first (some []) = true
is_first (some (x ∷ pool)) = false

unfoldable pub subscribe : Bool → String → (String → Bool) → String → Bool
subscribe false c subscribed j = subscribed j
subscribe true c subscribed j = if c == j then true else subscribed j

abbrev or_empty : Option (List LocalSender) → List LocalSender
or_empty none = []
or_empty (some pool) = pool

unfoldable pub add_local_connection : RedisFanout → String → LocalSender → RedisFanout
add_local_connection r c conn = record r {
  local_conns = set c (add_conn conn (or_empty (get c r.local_conns))) r.local_conns;
  subscribed = subscribe (is_first (get c r.local_conns)) c r.subscribed;
}

unfoldable pub unsubscribe : String → (String → Bool) → String → Bool
unsubscribe c subscribed j = if c == j then false else subscribed j

-- The pool without the connection; an empty one goes, and its channel with it.
unfoldable pub store_pool : RedisFanout → String → List LocalSender → RedisFanout
store_pool r c [] = record r {
  local_conns = delete c r.local_conns;
  subscribed = unsubscribe c r.subscribed;
}
store_pool r c (x ∷ pool) = record r { local_conns = set c (x ∷ pool) r.local_conns }

-- The function that `addLocalConnection` returns.
unfoldable pub unregister : RedisFanout → String → LocalSender → RedisFanout
unregister r c conn = elim (get c r.local_conns) [
  | none ↦ r
  | some pool ↦ store_pool r c (remove_conn conn pool)
]

-- Both connections to Redis are ended.
unfoldable pub close : RedisFanout → RedisFanout
close r = record r { local_conns = []; subscribed = λ c. false }
