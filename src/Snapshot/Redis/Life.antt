-- ===== src/Snapshot/Redis/Life.antt =====
-- backend/src/realtime/redis_snapshot_store.ts: the time to live of a convoy's hash, counted from its
-- last frame that was recorded.
use crew_link.Base.{
  ℕ, ◌+◌, ◌-◌, ◌≤◌, ◌<◌, String, ℤ, true, false, Option, none, some, [], ◌∷◌, ◌++◌, List, ◌==◌,
  if◌then◌else◌, ◌≡◌, inl, inr, refl, sym, ap, ◌∙◌, arith, fun_ext, Option-cases, Bool-cases,
  eq_iff,
}
use crew_link.JsMap.{JsMap}
use crew_link.Promise.{fulfilled, Promise-cases}
use crew_link.Wire.{InboundFrame, OutboundFrame}
use crew_link.Redis.{Redis, Hash, Command, hdel, expire, del, effect, lapses}
use crew_link.Snapshot.Redis.{
  PayloadJson, key_for, command_of, exec_kept, record_frame, clear, replay, snapshot, decode_field,
  is_old, snapshot_ttl_seconds,
}
use crew_link.Snapshot.Redis.Loop.{field_gone_any}
use crew_link.Snapshot.Redis.View.{key_for-eq, kept_hash}

-- A convoy's age after a frame: it starts anew with a frame of the convoy that is kept.
unfoldable pub age_after_frame : PayloadJson → String → String → InboundFrame → ℕ → ℕ
age_after_frame json c d f age = elim (command_of json f) [
  | none ↦ age
  | some cmd ↦ if d == c then 0 else age
]

module _ (json : PayloadJson) (date_parse : String → Option ℤ) (r : Redis) (c : String) where
  -- Unless the convoy has no fields, its key has a day left, less the convoy's age.
  abbrev pub Lives : ℕ → r.State → Type 0
  Lives age s =
      (f v : String)
      → r.hash s (key_for c) f ≡ some v
      → (m : ℕ) × (r.ttl s (key_for c) ≡ some m) × (snapshot_ttl_seconds ≤ m + age)

  -- A delete of a field takes fields away at most.
  hdel-Lives :
      (age : ℕ) (s : r.State) (k g : String) → Lives age s → Lives age (r.exec s k (hdel g)).0
  hdel-Lives age s k g lives f v e = elim (field_gone_any r s k (key_for c) g f) [
    | inl same ↦
        let (m, left, h) = lives f v (sym same ∙ e) in
        (m, r.ttl-hdel s k (key_for c) g f e ∙ left, h)
    | inr gone ↦ cc
  ]

  replay-Lives :
      (age : ℕ) (ts : ℤ) (s : r.State) (k : String) (fields : JsMap String)
      (frames : List OutboundFrame)
      → Lives age s
      → Lives age (replay json date_parse r ts s k fields frames).0
  unfolding replay
  replay-Lives age ts s k [] frames lives = lives
  replay-Lives age ts s k ((field, value) ∷ fields) frames lives =
      elim (Option-cases (decode_field json field value)) [
        | inl n ↦ rw (n, replay) (replay-Lives age ts s k fields frames lives)
        | inr (f, n) ↦ elim (Bool-cases (is_old date_parse ts f)) [
          | inl o ↦ elim (Promise-cases (r.exec s k (hdel field)).1) [
            | inl d ↦ rw (n, o, d, replay) (hdel-Lives age s k field lives)
            | inr (_, d) ↦
                rw (n, o, d, replay)
                  (replay-Lives age ts (r.exec s k (hdel field)).0 k fields frames
                    (hdel-Lives age s k field lives))
          ]
          | inr o ↦ rw (n, o, replay) (replay-Lives age ts s k fields (frames ++ f ∷ []) lives)
        ]
      ]

  pub snapshot-Lives :
      (age : ℕ) (ts : ℤ) (s : r.State) (d : String)
      → Lives age s
      → Lives age (snapshot json date_parse r ts s d).0
  unfolding snapshot
  snapshot-Lives age ts s d lives = elim (Promise-cases (r.hgetall s (key_for d))) [
    | inl n ↦ rw (n, snapshot) lives
    | inr (m, n) ↦ rw (n, snapshot) (replay-Lives age ts s (key_for d) m [] lives)
  ]

  -- A command to another convoy's key.
  other-Lives :
      (age : ℕ) (s : r.State) (k : String) (cmd : Command)
      → (k == key_for c) ≡ false
      → Lives age s
      → Lives age (r.exec s k cmd).0
  other-Lives age s k cmd other lives f v e =
      let same : r.hash (r.exec s k cmd).0 (key_for c) f ≡ r.hash s (key_for c) f =
        elim (r.hash-exec_any s k cmd) [
          | inl h ↦ ap (λ (u : Hash). u f) (rw other at (h (key_for c)))
          | inr h ↦ ap (λ (u : Hash). u f) (h (key_for c))
        ] in
      let (m, left, h) = lives f v (sym same ∙ e) in
      (m, r.ttl-other s k (key_for c) cmd other ∙ left, h)

  exec_kept_other-Lives :
      (age : ℕ) (s : r.State) (k : String) (cmd : Command)
      → (k == key_for c) ≡ false
      → Lives age s
      → Lives age (exec_kept r s k cmd).0
  unfolding exec_kept
  exec_kept_other-Lives age s k cmd other lives = elim (Promise-cases (r.exec s k cmd).1) [
    | inl d ↦ rw (d, exec_kept) (other-Lives age s k cmd other lives)
    | inr (_, d) ↦
        rw (d, exec_kept) (other-Lives age _ k _ other (other-Lives age s k cmd other lives))
  ]

  -- EXPIRE that is answered leaves a key without fields, or one that has a day left.
  exec_kept-Lives :
      (s : r.State) (cmd : Command)
      → (exec_kept r s (key_for c) cmd).1 ≡ fulfilled tt
      → Lives 0 (exec_kept r s (key_for c) cmd).0
  unfolding exec_kept
  exec_kept-Lives s cmd e = elim (Promise-cases (r.exec s (key_for c) cmd).1) [
    | inl d ↦ let f = rw (d, exec_kept) at e in cc
    | inr (_, d) ↦
        rw (d, exec_kept)
          (λ f v there.
            let done : (r.exec (r.exec s (key_for c) cmd).0 (key_for c)
                  (expire snapshot_ttl_seconds)).1
                ≡ fulfilled tt =
              rw (d, exec_kept) at e in
            let same = kept_hash r (r.exec s (key_for c) cmd).0 (key_for c) (key_for c) _ done in
            (
              snapshot_ttl_seconds,
              r.ttl-expire _ (key_for c) f _ (ap (λ (u : Hash). u f) (sym same) ∙ there) done,
              omega arith,
            ))
  ]

  pub record_frame-Lives :
      (age : ℕ) (s : r.State) (d : String) (f : InboundFrame)
      → (record_frame json r s d f).1 ≡ fulfilled tt
      → Lives age s
      → Lives (age_after_frame json c d f age) (record_frame json r s d f).0
  unfolding record_frame age_after_frame
  record_frame-Lives age s d f e lives = elim (Option-cases (command_of json f)) [
    | inl n ↦ rw (n, record_frame, age_after_frame) lives
    | inr (cmd, n) ↦ elim (Bool-cases (d == c)) [
      | inl b ↦ rw (n, b, record_frame, age_after_frame) (own d cmd b (rw (n, record_frame) at e))
      | inr b ↦
          rw (n, b, record_frame, age_after_frame)
            (exec_kept_other-Lives age s (key_for d) cmd (key_for-eq d c ∙ b) lives)
    ]
  ]
    where
      own :
          (d : String) (cmd : Command)
          → (d == c) ≡ true
          → (exec_kept r s (key_for d) cmd).1 ≡ fulfilled tt
          → Lives 0 (exec_kept r s (key_for d) cmd).0
      own d cmd b e =
          let same : d ≡ c = (eq_iff d c).0 b in rw same (exec_kept-Lives s cmd (rw same at e))

  pub clear-Lives :
      (age : ℕ) (s : r.State) (d : String)
      → (clear r s d).1 ≡ fulfilled tt
      → Lives age s
      → Lives age (clear r s d).0
  unfolding clear effect
  clear-Lives age s d e lives = elim (Bool-cases (key_for d == key_for c)) [
    | inl b ↦ λ f v there.
        let empty = rw b at (r.hash-exec s (key_for d) (key_for c) del e) in
        let gone : ◌≡◌ {A = Option String} none (some v) =
          sym (ap (λ (u : Hash). u f) empty) ∙ there in
        cc
    | inr b ↦ other-Lives age s (key_for d) del b lives
  ]

  -- Before the convoy's age is a day, time takes none of its fields away.
  field_stays :
      (n age : ℕ) (s : r.State) (f : String)
      → Lives age s
      → n + age < snapshot_ttl_seconds
      → r.hash (r.elapse n s) (key_for c) f ≡ r.hash s (key_for c) f
  unfolding lapses
  field_stays n age s f lives young = elim (Option-cases (r.hash s (key_for c) f)) [
    | inl e ↦
        ap (λ (u : Hash). u f) (r.hash-elapse n s (key_for c))
        ∙ (elim (Bool-cases (lapses n (r.ttl s (key_for c)))) [
          | inl b ↦ rw b (sym e)
          | inr b ↦ rw b refl
        ])
    | inr (v, e) ↦
        let (m, left, h) = lives f v e in
        let lasts : lapses n (some m) ≡ false = ground arith in
        ap (λ (u : Hash). u f) (r.hash-elapse n s (key_for c)) ∙ rw (left, lasts) refl
  ]

  pub hash_stays :
      (n age : ℕ) (s : r.State)
      → Lives age s
      → n + age < snapshot_ttl_seconds
      → r.hash (r.elapse n s) (key_for c) ≡ r.hash s (key_for c)
  hash_stays n age s lives young = fun_ext (λ f. field_stays n age s f lives young)

  pub elapse-Lives :
      (n age : ℕ) (s : r.State)
      → Lives age s
      → n + age < snapshot_ttl_seconds
      → Lives (n + age) (r.elapse n s)
  elapse-Lives n age s lives young f v e =
      let (m, left, h) = lives f v (sym (field_stays n age s f lives young) ∙ e) in
      (m - n, r.ttl-elapse n m s (key_for c) f e left, omega arith)
