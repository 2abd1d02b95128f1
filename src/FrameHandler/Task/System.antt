-- ===== src/FrameHandler/Task/System.antt =====
-- backend/src/realtime/frame_handler.ts: the calls of `handleFrame` at one instance, which take
-- their turns over one world in any order.
use crew_link.Base.{ℕ, List, [], ◌∷◌, ◌≡◌}
use mathlib.Core.Logic.{ite}
use native.Mathlib.Decide.{ℕ_discrete}
use crew_link.FrameHandler.{Services, World, Origin, Raw}
use crew_link.FrameHandler.Task.{Pc, received, ended, turn}

-- A call: the connection that its frame came from, and where it stands.
pub record Task : Type 0 where
  pub origin : Origin
  pub pc : Pc

abbrev pub update {ℓ} : {A : Type ℓ} → (ℕ → A) → ℕ → A → ℕ → A
update f i a j = ite (ℕ_discrete i j) a (f j)

module _ (env : Services) where
  -- An index whose task has ended is free for the next call.
  pub record System : Type 0 where
    pub world : World env
    pub tasks : ℕ → Task

  -- Task `i` takes a turn.
  unfoldable pub turned : System → ℕ → System
  turned s i =
      let task = s.tasks i in
      let (out, next) = turn env s.world task.origin task.pc in
      record {
        world = out.world;
        tasks = update s.tasks i (record { origin = task.origin; pc = next });
      }

  -- The gateway calls `handleFrame` for a message.
  unfoldable pub called : System → ℕ → Origin → Raw → System
  called s i o raw = record s {
    tasks = update s.tasks i (record { origin = o; pc = received raw });
  }

  -- Everything else leaves any world: connections, replays, the clock, the database and the other
  -- instances.
  pub data Step (s : System) : System → Type 0 where
    take_turn : (i : ℕ) → Step s (turned s i)
    call : (i : ℕ) (o : Origin) (raw : Raw) → (s.tasks i).pc ≡ ended → Step s (called s i o raw)
    elsewhere : (w : World env) → Step s (record s { world = w })

  -- A run in whose every state the world satisfies `P`.
  pub data Reach (P : World env → Type 0) (s : System) : System → Type 0 where
    here : P s.world → Reach P s s
    next : {t u : System} → Reach P s t → Step t u → P u.world → Reach P s u

  abbrev pub IsIdle : System → Type 0
  IsIdle s = (i : ℕ) → (s.tasks i).pc ≡ ended

  -- The tasks take turns in this order.
  unfoldable pub schedule : System → List ℕ → System
  schedule s [] = s
  schedule s (i ∷ is) = schedule (turned s i) is
