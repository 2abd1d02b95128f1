-- ===== src/Redis.antt =====
-- The part of Redis that the backend relies on: hashes under keys, changed by commands. The client
-- and the server are a parameter, of which the laws are documented behaviour: a command that is
-- answered was carried out, one that is rejected was carried out or not, and a read tells what is
-- there. A key may have a time to live, which EXPIRE sets where the key is there; when it is over,
-- the key lapses with all its fields.
use crew_link.Base.{
  ℕ, ◌-◌, String, Bool, false, leb, Option, none, some, ◌==◌, if◌then◌else◌, ◌≡◌, ◌⊎◌,
}
use crew_link.JsMap.{JsMap, get}
use crew_link.JsMap.Laws.{IsMap}
use crew_link.Promise.{Promise, fulfilled}

-- The fields of one hash.
abbrev pub Hash : Type 0
Hash = String → Option String

pub data Command : Type 0 where
  hset : String → String → Command
  hdel : String → Command
  expire : ℕ → Command
  del : Command

-- What a command does to the fields at its moment; EXPIRE changes the time to live only.
unfoldable pub effect : Command → Hash → Hash
effect (hset f v) h g = if f == g then some v else h g
effect (hdel f) h g = if f == g then none else h g
effect (expire n) h g = h g
effect del h g = none

-- Whether a key with this time to live, in seconds, is gone after `n` seconds.
unfoldable pub lapses : ℕ → Option ℕ → Bool
lapses n none = false
lapses n (some left) = leb left n

pub record Redis : Type 1 where
  pub State : Type 0
  pub hash : State → String → Hash
  pub exec : State → String → Command → State × Promise (Unit {0})
  pub hgetall : State → String → Promise (JsMap String)
  pub hget : State → String → String → Promise (Option String)
  -- The seconds that a key has left, none where it is not to lapse.
  pub ttl : State → String → Option ℕ
  -- The state after so many seconds without a command.
  pub elapse : ℕ → State → State
  pub hash-exec :
      (s : State) (k j : String) (c : Command)
      → (exec s k c).1 ≡ fulfilled tt
      → hash (exec s k c).0 j ≡ (if k == j then effect c (hash s j) else hash s j)
  pub hash-exec_any :
      (s : State) (k : String) (c : Command)
      → ((j : String) → hash (exec s k c).0 j ≡ (if k == j then effect c (hash s j) else hash s j))
        ⊎ ((j : String) → hash (exec s k c).0 j ≡ hash s j)
  pub hgetall-IsMap :
      (s : State) (k : String) {m : JsMap String} → hgetall s k ≡ fulfilled m → IsMap m
  pub get-hgetall :
      (s : State) (k f : String) {m : JsMap String}
      → hgetall s k ≡ fulfilled m
      → get f m ≡ hash s k f
  pub hget-hash :
      (s : State) (k f : String) {v : Option String} → hget s k f ≡ fulfilled v → v ≡ hash s k f
  pub ttl-expire :
      (s : State) (k f : String) (n : ℕ) {v : String}
      → hash s k f ≡ some v
      → (exec s k (expire n)).1 ≡ fulfilled tt
      → ttl (exec s k (expire n)).0 k ≡ some n
  pub hash-elapse :
      (n : ℕ) (s : State) (k : String)
      → hash (elapse n s) k ≡ (if lapses n (ttl s k) then (λ f. none) else hash s k)
  -- HDEL leaves the time to live of a key alone that is still there, and so do commands to others.
  pub ttl-hdel :
      (s : State) (k j g f : String) {v : String}
      → hash (exec s k (hdel g)).0 j f ≡ some v
      → ttl (exec s k (hdel g)).0 j ≡ ttl s j
  pub ttl-other :
      (s : State) (k j : String) (c : Command) → (k == j) ≡ false → ttl (exec s k c).0 j ≡ ttl s j
  pub ttl-elapse :
      (n m : ℕ) (s : State) (k f : String) {v : String}
      → hash (elapse n s) k f ≡ some v
      → ttl s k ≡ some m
      → ttl (elapse n s) k ≡ some (m - n)
