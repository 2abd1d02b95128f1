-- ===== src/JsMap/Laws.antt =====
-- What `get` reads after `set` and `delete`, and the keys stay apart.
use crew_link.Base.{
  String, false, none, some, [], ◌∷◌, ◌==◌, if◌then◌else◌, ◌≡◌, refl, arith, eq_iff, eq_refl, In,
  All, All-In, inl, inr,
}
use crew_link.JsMap.{JsMap, get, set, delete}

module _ {V : Type 0} where
  pub get-set :
      (k j : String) (v : V) (m : JsMap V)
      → get j (set k v m) ≡ (if k == j then some v else get j m)
  unfolding get set
  get-set k j v [] = refl
  get-set k j v ((i, w) ∷ m) = ground (arith, eq_iff k j, eq_iff i k, eq_iff i j, get-set k j v m)

  pub get-delete :
      (k j : String) (m : JsMap V) → get j (delete k m) ≡ (if k == j then none else get j m)
  unfolding get delete
  get-delete k j [] = ground arith
  get-delete k j ((i, w) ∷ m) = ground (arith, eq_iff k j, eq_iff i k, eq_iff i j, get-delete k j m)

  -- No entry of the map has this key.
  abbrev pub IsFresh : String → JsMap V → Type 0
  IsFresh k = All λ e. (e.0 == k) ≡ false

  -- The keys of the map are pairwise different.
  abbrev pub IsMap : JsMap V → Type 0
  IsMap [] = Unit {0}
  IsMap ((k, v) ∷ m) = IsFresh k m × IsMap m

  set-IsFresh :
      (j k : String) (v : V) (m : JsMap V) → (k == j) ≡ false → IsFresh j m → IsFresh j (set k v m)
  unfolding set
  set-IsFresh j k v [] h f = (h, tt)
  set-IsFresh j k v ((i, w) ∷ m) h f = ground (arith, set-IsFresh j k v m)

  delete-IsFresh : (j k : String) (m : JsMap V) → IsFresh j m → IsFresh j (delete k m)
  unfolding delete
  delete-IsFresh j k [] f = tt
  delete-IsFresh j k ((i, w) ∷ m) f = ground (arith, delete-IsFresh j k m)

  pub set-IsMap : (k : String) (v : V) (m : JsMap V) → IsMap m → IsMap (set k v m)
  unfolding set
  set-IsMap k v [] h = (tt, tt)
  set-IsMap k v ((i, w) ∷ m) h =
      ground (arith, set-IsMap k v m, set-IsFresh i k v m, eq_iff i k, eq_iff k i)

  pub delete-IsMap : (k : String) (m : JsMap V) → IsMap m → IsMap (delete k m)
  unfolding delete
  delete-IsMap k [] h = tt
  delete-IsMap k ((i, w) ∷ m) h = ground (arith, delete-IsMap k m, delete-IsFresh i k m)

  -- An entry is what its key reads.
  pub In-get : (k : String) (v : V) (m : JsMap V) → IsMap m → In (k, v) m → get k m ≡ some v
  unfolding get
  In-get k v [] h i = elim i [ ]
  In-get k v ((j, w) ∷ m) h (inl e) = ground (arith, eq_iff j k)
  In-get k v ((j, w) ∷ m) h (inr i) = ground (
    arith,
    In-get k v m h.1 i,
    All-In (λ (e : String × V). (e.0 == j) ≡ false) m (k, v) h.0 i,
    eq_iff j k,
    eq_refl k,
  )

  pub get-In : (k : String) (v : V) (m : JsMap V) → get k m ≡ some v → In (k, v) m
  unfolding get
  get-In k v [] h = ground arith
  get-In k v ((j, w) ∷ m) h = ground (arith, eq_iff j k, get-In k v m)

  -- A property of every entry is kept by a write that has it, and by `delete`.
  pub set-All :
      (P : String × V → Type 0) (k : String) (v : V) (m : JsMap V)
      → All P m
      → P (k, v)
      → All P (set k v m)
  unfolding set
  set-All P k v [] h p = (p, tt)
  set-All P k v ((j, w) ∷ m) h p = ground (arith, set-All P k v m h.1 p, eq_iff j k)

  pub delete-All :
      (P : String × V → Type 0) (k : String) (m : JsMap V) → All P m → All P (delete k m)
  unfolding delete
  delete-All P k [] h = tt
  delete-All P k ((j, w) ∷ m) h = ground (arith, delete-All P k m h.1)

  -- So it holds of what is read.
  pub get-All :
      (P : String × V → Type 0) (k : String) (v : V) (m : JsMap V)
      → All P m
      → get k m ≡ some v
      → P (k, v)
  get-All P k v m h e = All-In P m (k, v) h (get-In k v m e)

  pub get_of_IsFresh : (k : String) (m : JsMap V) → IsFresh k m → get k m ≡ none
  unfolding get
  get_of_IsFresh k [] h = refl
  get_of_IsFresh k ((j, w) ∷ m) h = ground (arith, get_of_IsFresh k m h.1)
