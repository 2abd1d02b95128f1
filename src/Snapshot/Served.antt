-- ===== src/Snapshot/Served.antt =====
-- backend/src/realtime/snapshot_store.ts: two implementations of SnapshotStore side by side, given
-- the same operations in the same order, with time that passes in between.
use crew_link.Base.{
  ℕ, String, ℤ, Option, List, [], ◌∷◌, In, if◌then◌else◌, ◌==◌, ◌≡◌, ◌↔◌, ◌∙◌, sym,
}
use crew_link.Promise.{fulfilled}
use crew_link.Wire.{InboundFrame, OutboundFrame}
use crew_link.Snapshot.{SnapshotView, SnapshotStore, empty_view, fold_frame, prune}

-- What a client asks of a store.
pub data Request : Type 0 where
  recorded : String → InboundFrame → Request
  replayed : ℤ → String → Request
  cleared : String → Request
  -- So many seconds pass.
  waited : ℕ → Request

-- What time does to a store, and when it leaves a convoy's world state alone.
pub record Aging (date_parse : String → Option ℤ) (st : SnapshotStore date_parse) : Type 1 where
  pub pass : ℕ → st.State → st.State
  pub Lasts : ℕ → st.State → String → Type 0
  pub pass-IsValid : (n : ℕ) (s : st.State) → st.IsValid s → st.IsValid (pass n s)
  pub view-pass :
      (n : ℕ) (s : st.State) (c : String) → Lasts n s c → st.view (pass n s) c ≡ st.view s c

module _ (date_parse : String → Option ℤ) (st : SnapshotStore date_parse)
    (age : Aging date_parse st) where
  unfoldable pub serve : st.State → Request → st.State
  serve s (recorded c f) = (st.record_frame s c f).0
  serve s (replayed ts c) = (st.snapshot ts s c).0
  serve s (cleared c) = (st.clear s c).0
  serve s (waited n) = age.pass n s

  unfoldable pub serve_all : st.State → List Request → st.State
  serve_all s [] = s
  serve_all s (q ∷ qs) = serve_all (serve s q) qs

  -- The store could keep the frame, and its answer was not a rejection. What convoy `j` has
  -- outlasts the wait.
  abbrev pub Answers : String → st.State → Request → Type 0
  Answers j s (recorded c f) = st.Accepts f × ((st.record_frame s c f).1 ≡ fulfilled tt)
  Answers j s (replayed ts c) = (fs : List OutboundFrame) × ((st.snapshot ts s c).1 ≡ fulfilled fs)
  Answers j s (cleared c) = (st.clear s c).1 ≡ fulfilled tt
  Answers j s (waited n) = age.Lasts n s j

  abbrev pub AnswersAll : String → st.State → List Request → Type 0
  AnswersAll j s [] = Unit {0}
  AnswersAll j s (q ∷ qs) = Answers j s q × AnswersAll j (serve s q) qs

  -- What the request makes of a convoy's world state.
  abbrev served_view : Request → String → SnapshotView → SnapshotView
  served_view (recorded c f) j v = if c == j then fold_frame v f else v
  served_view (replayed ts c) j v = if c == j then prune date_parse ts v else v
  served_view (cleared c) j v = if c == j then empty_view else v
  served_view (waited n) j v = v

  serve-IsValid :
      (j : String) (s : st.State) (q : Request)
      → Answers j s q
      → st.IsValid s
      → st.IsValid (serve s q)
  unfolding serve
  serve-IsValid j s (recorded c f) (a, e) v = st.record_frame-IsValid s c f a v
  serve-IsValid j s (replayed ts c) a v = st.snapshot-IsValid ts s c v
  serve-IsValid j s (cleared c) a v = st.clear-IsValid s c v
  serve-IsValid j s (waited n) a v = age.pass-IsValid n s v

  view-serve :
      (s : st.State) (q : Request) (j : String)
      → Answers j s q
      → st.IsValid s
      → st.view (serve s q) j ≡ served_view q j (st.view s j)
  unfolding serve
  view-serve s (recorded c f) j (a, e) v = st.view-record_frame s c j f a v e
  view-serve s (replayed ts c) j (fs, e) v = st.view-snapshot ts s c j v e
  view-serve s (cleared c) j e v = st.view-clear s c j v e
  view-serve s (waited n) j a v = age.view-pass n s j a

module _ (date_parse : String → Option ℤ) (st other : SnapshotStore date_parse)
    (age : Aging date_parse st) (other_age : Aging date_parse other) where
  views_agree :
      (qs : List Request) (s : st.State) (t : other.State) (c : String)
      → AnswersAll date_parse st age c s qs
      → AnswersAll date_parse other other_age c t qs
      → st.IsValid s
      → other.IsValid t
      → st.view s c ≡ other.view t c
      → (st.view (serve_all date_parse st age s qs) c
          ≡ other.view (serve_all date_parse other other_age t qs) c)
        × st.IsValid (serve_all date_parse st age s qs)
        × other.IsValid (serve_all date_parse other other_age t qs)
  unfolding serve_all
  views_agree [] s t c a b v w same = (same, v, w)
  views_agree (q ∷ qs) s t c (a, a') (b, b') v w same =
      views_agree qs (serve date_parse st age s q) (serve date_parse other other_age t q) c a' b'
        (serve-IsValid date_parse st age c s q a v)
        (serve-IsValid date_parse other other_age c t q b w)
        (view-serve date_parse st age s q c a v
          ∙ rw same (sym (view-serve date_parse other other_age t q c b w)))

  pub replays_alike :
      (qs : List Request) (s : st.State) (t : other.State) (ts : ℤ) (c : String) (f : OutboundFrame)
      {fs gs : List OutboundFrame}
      → AnswersAll date_parse st age c s qs
      → AnswersAll date_parse other other_age c t qs
      → st.IsValid s
      → other.IsValid t
      → st.view s c ≡ other.view t c
      → (st.snapshot ts (serve_all date_parse st age s qs) c).1 ≡ fulfilled fs
      → (other.snapshot ts (serve_all date_parse other other_age t qs) c).1 ≡ fulfilled gs
      → In f fs ↔ In f gs
  replays_alike qs s t ts c f a b v w same d e =
      let (same', v', w') = views_agree qs s t c a b v w same in
      let here = st.snapshot-IsCurrent ts (serve_all date_parse st age s qs) c f v' d in
      let there =
        other.snapshot-IsCurrent ts (serve_all date_parse other other_age t qs) c f w' e in
      (λ i. there.1 (rw same' at (here.0 i)), λ i. here.1 (rw (sym same') at (there.0 i)))
