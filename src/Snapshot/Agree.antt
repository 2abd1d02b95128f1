-- ===== src/Snapshot/Agree.antt =====
-- backend/src/realtime/snapshot_store.ts and redis_snapshot_store.ts: the two stores under the same
-- requests, while a key in Redis lapses after its time to live.
use crew_link.Base.{ℕ, ◌+◌, ◌<◌, String, ℤ, Option, List, [], ◌∷◌, ◌≡◌, refl}
use crew_link.Redis.{Redis}
use crew_link.Snapshot.Memory.Store.{memory_store}
use crew_link.Snapshot.Redis.{PayloadJson, key_for, snapshot_ttl_seconds}
use crew_link.Snapshot.Redis.Life.{age_after_frame}
use crew_link.Snapshot.Redis.View.{view-same, elapse-IsValid}
use crew_link.Snapshot.Redis.Store.{redis_store}
use crew_link.Snapshot.Served.{Aging, Request, recorded, replayed, cleared, waited, serve, Answers}

-- The in-process store keeps what it has, and Redis drops a key whose time to live is over.
abbrev pub memory_age :
    (date_parse : String → Option ℤ) → Aging date_parse (memory_store date_parse)
memory_age date_parse = record {
  pass = λ n s. s;
  Lasts = λ n s c. Unit {0};
  pass-IsValid = λ n s v. v;
  view-pass = λ n s c a. refl;
}

abbrev pub redis_age :
    (r : Redis) (json : PayloadJson) (date_parse : String → Option ℤ)
    → Aging date_parse (redis_store r json date_parse)
redis_age r json date_parse = record {
  pass = r.elapse;
  Lasts = λ n s c. r.hash (r.elapse n s) (key_for c) ≡ r.hash s (key_for c);
  pass-IsValid = elapse-IsValid json r;
  view-pass = λ n s c a. view-same json r (r.elapse n s) s c a;
}

module _ (r : Redis) (json : PayloadJson) (date_parse : String → Option ℤ) (c : String) where
  -- The seconds since the convoy's last frame that is kept, after a request.
  abbrev pub age_after : Request → ℕ → ℕ
  age_after (recorded d f) age = age_after_frame json c d f age
  age_after (waited n) age = n + age
  age_after (replayed ts d) age = age
  age_after (cleared d) age = age

  -- A frame's payload is read back from its text, and Redis answers the request. A wait ends within
  -- a day of the convoy's last frame that is kept.
  abbrev pub IsServed : ℕ → r.State → Request → Type 0
  IsServed age s (waited n) = n + age < snapshot_ttl_seconds
  IsServed age s q =
      Answers date_parse (redis_store r json date_parse) (redis_age r json date_parse) c s q

  abbrev pub AreServed : ℕ → r.State → List Request → Type 0
  AreServed age s [] = Unit {0}
  AreServed age s (q ∷ qs) =
      IsServed age s q
      × AreServed (age_after q age)
          (serve date_parse (redis_store r json date_parse) (redis_age r json date_parse) s q) qs
