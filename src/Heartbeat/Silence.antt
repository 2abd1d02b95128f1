-- ===== src/Heartbeat/Silence.antt =====
-- When the keepalive tears a connection down (backend/src/realtime/heartbeat.ts).
use crew_link.Base.{
  Bool, true, false, List, [], ◌∷◌, ◌++◌, In, All, ◌≡◌, ◌≢◌, ◌↔◌, ◌⊎◌, inl, inr, refl, ap,
}
use crew_link.Heartbeat.{Event, pong, timer, stop, terminate, Beat, start_heartbeat, step, run}

-- No answer came, and the heartbeat was not stopped.
abbrev pub IsQuiet : List Event → Type 0
IsQuiet = All λ e. (e ≢ pong) × (e ≢ stop)

abbrev pub IsRunning : List Event → Type 0
IsRunning = All λ e. e ≢ stop

-- The timer fired twice with no answer in between, while the heartbeat ran.
pub record IsSilent (es : List Event) : Type 0 where
  pub before : List Event
  pub between : List Event
  pub rest : List Event
  pub parts : es ≡ before ++ (timer ∷ (between ++ (timer ∷ rest)))
  pub ran : IsRunning before
  pub quiet : IsQuiet between

-- The timer fires before any answer comes: what is left to see of a silence.
pub record IsUnanswered (es : List Event) : Type 0 where
  pub between : List Event
  pub rest : List Event
  pub parts : es ≡ between ++ (timer ∷ rest)
  pub quiet : IsQuiet between

abbrev up : Bool → Beat
up alive = record { alive = alive; running = true }

IsSilent-cons : (e : Event) (es : List Event) → e ≢ stop → IsSilent es → IsSilent (e ∷ es)
IsSilent-cons e es n s = record {
  before = e ∷ s.before;
  between = s.between;
  rest = s.rest;
  parts = ap (◌∷◌ e) s.parts;
  ran = (n, s.ran);
  quiet = s.quiet;
}

IsUnanswered-IsSilent : (es : List Event) → IsUnanswered es → IsSilent (timer ∷ es)
IsUnanswered-IsSilent es u = record {
  before = [];
  between = u.between;
  rest = u.rest;
  parts = ap (◌∷◌ timer) u.parts;
  ran = tt;
  quiet = u.quiet;
}

stopped_quiet :
    (es : List Event) (alive : Bool)
    → ¬ In terminate (run (record { alive = alive; running = false }) es)
unfolding run step
stopped_quiet [] alive i = elim i [ ]
stopped_quiet (pong ∷ es) alive i = stopped_quiet es true i
stopped_quiet (timer ∷ es) alive i = stopped_quiet es alive i
stopped_quiet (stop ∷ es) alive i = stopped_quiet es alive i

mutual
  unfolding run step

  -- A terminate of a connection that was alive shows a silence.
  alive_terminates : (es : List Event) → In terminate (run (up true) es) → IsSilent es
  alive_terminates [] i = elim i [ ]
  alive_terminates (pong ∷ es) i = IsSilent-cons pong es (λ e. cc) (alive_terminates es i)
  alive_terminates (timer ∷ es) (inl e) = cc
  alive_terminates (timer ∷ es) (inr i) = elim (waiting_terminates es i) [
    | inl u ↦ IsUnanswered-IsSilent es u
    | inr s ↦ IsSilent-cons timer es (λ e. cc) s
  ]
  alive_terminates (stop ∷ es) i = absurd (stopped_quiet es true i)

  -- One that was waiting for its answer was not answered in time, or shows a later silence.
  waiting_terminates :
      (es : List Event) → In terminate (run (up false) es) → IsUnanswered es ⊎ IsSilent es
  waiting_terminates [] i = elim i [ ]
  waiting_terminates (pong ∷ es) i = inr (IsSilent-cons pong es (λ e. cc) (alive_terminates es i))
  waiting_terminates (timer ∷ es) i =
      inl (record { between = []; rest = es; parts = refl; quiet = tt })
  waiting_terminates (stop ∷ es) i = absurd (stopped_quiet es false i)

unanswered_terminates :
    (between rest : List Event)
    → IsQuiet between
    → In terminate (run (up false) (between ++ (timer ∷ rest)))
unfolding run step
unanswered_terminates [] rest q = inl refl
unanswered_terminates (pong ∷ es) rest q = absurd (q.0.0 refl)
unanswered_terminates (timer ∷ es) rest q = inl refl
unanswered_terminates (stop ∷ es) rest q = absurd (q.0.1 refl)

silence_terminates :
    (before between rest : List Event) (alive : Bool)
    → IsRunning before
    → IsQuiet between
    → In terminate (run (up alive) (before ++ (timer ∷ (between ++ (timer ∷ rest)))))
unfolding run step
silence_terminates [] between rest true r q = inr (unanswered_terminates between rest q)
silence_terminates [] between rest false r q = inl refl
silence_terminates (pong ∷ es) between rest alive r q =
    silence_terminates es between rest true r.1 q
silence_terminates (timer ∷ es) between rest true r q =
    inr (silence_terminates es between rest false r.1 q)
silence_terminates (timer ∷ es) between rest false r q = inl refl
silence_terminates (stop ∷ es) between rest alive r q = absurd (r.0 refl)

-- The socket is terminated exactly when the timer fired twice without an answer in between.
pub terminate_iff : (es : List Event) → In terminate (run start_heartbeat es) ↔ IsSilent es
unfolding start_heartbeat
terminate_iff es = (
  alive_terminates es,
  λ s. rw s.parts (silence_terminates s.before s.between s.rest true s.ran s.quiet),
)

-- After `stop` the socket is left alone, whatever fires.
run_stopped :
    (es : List Event) (alive : Bool) → run (record { alive = alive; running = false }) es ≡ []
unfolding run step
run_stopped [] alive = refl
run_stopped (pong ∷ es) alive = run_stopped es true
run_stopped (timer ∷ es) alive = run_stopped es alive
run_stopped (stop ∷ es) alive = run_stopped es alive

pub run-stop : (b : Beat) (es : List Event) → run b (stop ∷ es) ≡ []
unfolding run step
run-stop b es = run_stopped es b.alive
