-- ===== src/Tests/Redis.antt =====
-- A Redis that answers everything, and the stores beside it.
use crew_link.Base.{
  Bool-cases, inr, String, Bool, none, some, [], ◌∷◌, List, ◌==◌, if◌then◌else◌, ◌≡◌, inl, refl,
  sym, ap, ◌∙◌, fun_ext, pos, Option, ℕ, ◌-◌, eq_refl, true, false,
}
use mathlib.Core.Path.{subst}
use mathlib.Core.Option
use crew_link.JsMap.{JsMap, get, set, delete}
use crew_link.JsMap.Laws.{IsMap, set-IsMap, delete-IsMap, get-set, get-delete}
use crew_link.Promise.{fulfilled, fulfilled-injective}
use crew_link.Wire.{hazard, tour}
use crew_link.Redis.{Redis, Hash, Command, effect, hset, hdel, expire, del, lapses}
use crew_link.Snapshot.{is_expired, parsed_le}
use crew_link.Snapshot.Redis.{PayloadJson, key_for, hazard_field, replay, decode_field, is_old}
use crew_link.Snapshot.Redis
use crew_link.Snapshot.Memory
use crew_link.Snapshot.Redis.View.{view, view_of}
use crew_link.Snapshot.Redis.Race.{report_lost}
use crew_link.Snapshot.Served.{Request, recorded, replayed, cleared, waited}
use crew_link.Tests.Demo.{ann_hazard, bob_hazard, route_a, stop_a, later_is_9}

-- Each key's hash, and the seconds that the key has left. A key without fields is not there.
abbrev pub Shelf : Type 0
Shelf = (String → JsMap String) × (String → Option ℕ)

abbrev applied : Command → JsMap String → JsMap String
applied (hset f v) m = set f v m
applied (hdel f) m = delete f m
applied (expire n) m = m
applied del m = []

-- A key that is new has no time to live.
abbrev left_after : Command → JsMap String → Option ℕ → Option ℕ
left_after (expire n) m left = some n
left_after (hset f v) [] left = none
left_after (hset f v) (_ ∷ _) left = left
left_after (hdel f) m left = left
left_after del m left = left

abbrev pub carry_out : Shelf → String → Command → Shelf
carry_out (hashes, left) k c = (
  λ j. if k == j then applied c (hashes j) else hashes j,
  λ j. if k == j then left_after c (hashes j) (left j) else left j,
)

abbrev left_of : JsMap String → Option ℕ → Option ℕ
left_of [] left = none
left_of (_ ∷ _) left = left

abbrev time_to_live : Shelf → String → Option ℕ
time_to_live (hashes, left) k = left_of (hashes k) (left k)

abbrev pass_time : ℕ → Shelf → Shelf
pass_time n (hashes, left) = (
  λ j. if lapses n (time_to_live (hashes, left) j) then [] else hashes j,
  λ j. Option.map (λ m. m - n) (left j),
)

abbrev fields_of : JsMap String → Hash
fields_of m f = get f m

abbrev hash_of : Shelf → String → Hash
hash_of (hashes, left) k = fields_of (hashes k)

get-if :
    (b : Bool) (m n : JsMap String)
    → fields_of (if b then m else n) ≡ (if b then fields_of m else fields_of n)
get-if true m n = refl
get-if false m n = refl

get-applied : (c : Command) (m : JsMap String) → fields_of (applied c m) ≡ effect c (fields_of m)
unfolding effect get
get-applied (hset f v) m = fun_ext (λ g. get-set f g v m)
get-applied (hdel f) m = fun_ext (λ g. get-delete f g m)
get-applied (expire n) m = refl
get-applied del m = refl

pub hash_of-carry_out :
    (s : Shelf) (k j : String) (c : Command)
    → hash_of (carry_out s k c) j ≡ (if k == j then effect c (hash_of s j) else hash_of s j)
hash_of-carry_out (hashes, left) k j c =
    get-if (k == j) (applied c (hashes j)) (hashes j)
    ∙ ap (λ (h : Hash). if k == j then h else fields_of (hashes j)) (get-applied c (hashes j))

pub hash_of-pass_time :
    (n : ℕ) (s : Shelf) (k : String)
    → hash_of (pass_time n s) k ≡ (if lapses n (time_to_live s k) then (λ f. none) else hash_of s k)
unfolding get
hash_of-pass_time n (hashes, left) k =
    get-if (lapses n (time_to_live (hashes, left) k)) [] (hashes k)

left_of-some :
    (m : JsMap String) (f v : String) (left : Option ℕ) → get f m ≡ some v → left_of m left ≡ left
unfolding get
left_of-some [] f v left e = cc
left_of-some (_ ∷ _) f v left e = refl

pub time_to_live-expire :
    (s : Shelf) (k f : String) (n : ℕ) {v : String}
    → hash_of s k f ≡ some v
    → time_to_live (carry_out s k (expire n)) k ≡ some n
time_to_live-expire (hashes, left) k f n {v} e =
    rw (eq_refl k) (left_of-some (hashes k) f v (some n) e)

-- A hash with a field is there, and was there before one of its fields was deleted.
left_of-delete :
    (m : JsMap String) (g f v : String) (left : Option ℕ)
    → get f (delete g m) ≡ some v
    → left_of (delete g m) left ≡ left_of m left
unfolding get delete
left_of-delete [] g f v left e = cc
left_of-delete (x ∷ m) g f v left e = left_of-some (delete g (x ∷ m)) f v left e

pub time_to_live-hdel :
    (s : Shelf) (k j g f : String) {v : String}
    → hash_of (carry_out s k (hdel g)) j f ≡ some v
    → time_to_live (carry_out s k (hdel g)) j ≡ time_to_live s j
time_to_live-hdel (hashes, left) k j g f {v} e = elim (Bool-cases (k == j)) [
  | inl b ↦ rw b (left_of-delete (hashes j) g f v (left j) (rw b at e))
  | inr b ↦ rw b refl
]

pub time_to_live-other :
    (s : Shelf) (k j : String) (c : Command)
    → (k == j) ≡ false
    → time_to_live (carry_out s k c) j ≡ time_to_live s j
time_to_live-other (hashes, left) k j c b = rw b refl

pub time_to_live-pass_time :
    (n m : ℕ) (s : Shelf) (k f : String) {v : String}
    → hash_of (pass_time n s) k f ≡ some v
    → time_to_live s k ≡ some m
    → time_to_live (pass_time n s) k ≡ some (m - n)
unfolding get
time_to_live-pass_time n m (hashes, left) k f {v} e there =
    elim (Bool-cases (lapses n (time_to_live (hashes, left) k))) [
      | inl b ↦ let none_left : ◌≡◌ {A = Option String} none (some v) = rw b at e in cc
      | inr b ↦
          let here : get f (hashes k) ≡ some v = rw b at e in
          let left_here : left k ≡ some m =
            sym (left_of-some (hashes k) f v (left k) here) ∙ there in
          rw (b, left_here) (left_of-some (hashes k) f v (some (m - n)) here)
    ]

abbrev AreMaps : Shelf → Type 0
AreMaps (hashes, left) = (k : String) → IsMap (hashes k)

applied-IsMap : (c : Command) (m : JsMap String) → IsMap m → IsMap (applied c m)
applied-IsMap (hset f v) m h = set-IsMap f v m h
applied-IsMap (hdel f) m h = delete-IsMap f m h
applied-IsMap (expire n) m h = h
applied-IsMap del m h = tt

if-IsMap : (b : Bool) (m n : JsMap String) → IsMap m → IsMap n → IsMap (if b then m else n)
if-IsMap true m n h k = h
if-IsMap false m n h k = k

pub carry_out-AreMaps :
    (s : Shelf) (k : String) (c : Command) → AreMaps s → AreMaps (carry_out s k c)
carry_out-AreMaps (hashes, left) k c h j =
    if-IsMap (k == j) (applied c (hashes j)) (hashes j) (applied-IsMap c (hashes j) (h j)) (h j)

pub pass_time-AreMaps : (n : ℕ) (s : Shelf) → AreMaps s → AreMaps (pass_time n s)
pass_time-AreMaps n (hashes, left) h j =
    if-IsMap (lapses n (time_to_live (hashes, left) j)) [] (hashes j) tt (h j)

abbrev pub Shelves : Type 0
Shelves = (s : Shelf) × AreMaps s

abbrev shelve : Shelves → String → Command → Shelves
shelve (s, h) k c = (carry_out s k c, carry_out-AreMaps s k c h)

abbrev nothing_stored : Shelves
nothing_stored = ((λ k. [], λ k. none), λ k. tt)

-- A Redis that answers everything.
abbrev pub shelf_redis : Redis
shelf_redis = record {
  State = Shelves;
  hash = λ (s, _). hash_of s;
  exec = λ s k c. (shelve s k c, fulfilled tt);
  hgetall = λ (s, _) k. fulfilled (s.0 k);
  hget = λ (s, _) k f. fulfilled (hash_of s k f);
  ttl = λ (s, _). time_to_live s;
  elapse = λ n (s, h). (pass_time n s, pass_time-AreMaps n s h);
  hash-exec = λ s k j c e. hash_of-carry_out s.0 k j c;
  hash-exec_any = λ s k c. inl (λ j. hash_of-carry_out s.0 k j c);
  hgetall-IsMap = λ s k e. subst IsMap (fulfilled-injective e) (s.1 k);
  get-hgetall = λ s k f e. ap (λ m. get f m) (sym (fulfilled-injective e));
  hget-hash = λ s k f e. sym (fulfilled-injective e);
  ttl-expire = λ s k f n e d. time_to_live-expire s.0 k f n e;
  hash-elapse = λ n s k. hash_of-pass_time n s.0 k;
  ttl-hdel = λ s k j g f e. time_to_live-hdel s.0 k j g f e;
  ttl-other = λ s k j c e. time_to_live-other s.0 k j c e;
  ttl-elapse = λ n m s k f e h. time_to_live-pass_time n m s.0 k f e h;
}

-- The reporter stands for the text of a hazard.
abbrev pub demo_json : PayloadJson
demo_json = record {
  hazard_text = λ p. p.reporter_id;
  tour_text = λ p. "tour";
  waypoint_text = λ p. p.label;
  hazard_parse = λ text.
      if text == "ann" then some ann_hazard else if text == "bob" then some bob_hazard else none;
  tour_parse = λ text. some route_a;
  waypoint_parse = λ text. some stop_a;
}

-- An hour, and the twenty-three hours after it, pass between frames.
abbrev requests : List Request
requests =
    recorded "c1" (hazard ann_hazard)
    ∷ recorded "c1" (tour route_a)
    ∷ recorded "c2" (hazard ann_hazard)
    ∷ replayed (pos 10) "c1"
    ∷ recorded "c1" (hazard bob_hazard)
    ∷ waited 3600
    ∷ recorded "c1" (tour route_a)
    ∷ cleared "c2"
    ∷ waited 82800
    ∷ []

-- Bob reports a hazard under an id after Ann.
abbrev ann_reported : Shelves
ann_reported = shelve nothing_stored (key_for "c1") (hset (hazard_field "h1") "ann")

abbrev bob_reported : Shelves
bob_reported = shelve ann_reported (key_for "c1") (hset (hazard_field "h1") "bob")

report_lost_example :
    (view demo_json shelf_redis
        (replay demo_json later_is_9 shelf_redis
          (pos 10)
          bob_reported
          (key_for "c1")
          ((hazard_field "h1", "ann") ∷ [])
          []).0
        "c1").hazards
      "h1"
    ≡ none
unfolding is_expired parsed_le key_for set get delete hazard_field view view_of replay decode_field
    is_old
report_lost_example =
    report_lost demo_json later_is_9 shelf_redis (pos 10) ann_reported bob_reported "c1" "h1"
      ann_hazard refl refl refl refl
