-- ===== src/Db/Rows.antt =====
-- The statements of SQL that the services use, on one table: select and delete are those of
-- `keep`, `limit(1)` is the first row.
use crew_link.Base.{
  Bool, true, false, not, Option, none, some, List, [], ◌∷◌, ◌++◌, map, if◌then◌else◌, keep, In,
  All, ◌≡◌, refl, arith, inl, inr, Bool-cases,
}

module _ {A : Type 0} where
  unfoldable pub first : List A → Option A
  first [] = none
  first (x ∷ xs) = some x

  unfoldable pub exists : (A → Bool) → List A → Bool
  exists test [] = false
  exists test (x ∷ xs) = if test x then true else exists test xs

  unfoldable pub update_where : (A → Bool) → (A → A) → List A → List A
  update_where test change [] = []
  update_where test change (x ∷ xs) = (if test x then change x else x) ∷ update_where test change xs

  abbrev pub delete_where : (A → Bool) → List A → List A
  delete_where test = keep (λ x. not (test x))

  pub exists-In :
      (test : A → Bool) (xs : List A) → exists test xs ≡ true → (x : A) × In x xs × (test x ≡ true)
  unfolding exists
  exists-In test [] e = cc
  exists-In test (x ∷ xs) e = elim (Bool-cases (test x)) [
    | inl h ↦ (x, inl refl, h)
    | inr h ↦ let (y, i, t) = exists-In test xs (rw h at e) in (y, inr i, t)
  ]

  pub In-exists :
      (test : A → Bool) (xs : List A) (x : A) → In x xs → test x ≡ true → exists test xs ≡ true
  unfolding exists
  In-exists test [] x i t = elim i [ ]
  In-exists test (y ∷ ys) x i t = ground (arith, In-exists test ys x)

  pub first-keep :
      (test : A → Bool) (xs : List A) (x : A)
      → first (keep test xs) ≡ some x
      → In x xs × (test x ≡ true)
  unfolding first
  first-keep test [] x e = cc
  first-keep test (y ∷ ys) x e = ground (arith, first-keep test ys x)

  pub first-keep-none :
      (test : A → Bool) (xs : List A) → first (keep test xs) ≡ none → All (λ x. test x ≡ false) xs
  unfolding first
  first-keep-none test [] e = tt
  first-keep-none test (y ∷ ys) e = ground (arith, first-keep-none test ys)

  pub All-first-none :
      (test : A → Bool) (xs : List A) → All (λ x. test x ≡ false) xs → first (keep test xs) ≡ none
  unfolding first
  All-first-none test [] h = refl
  All-first-none test (x ∷ xs) (e, h) = rw e (All-first-none test xs h)

  pub update_where-All :
      (P : A → Type 0) (test : A → Bool) (change : A → A) (xs : List A)
      → All P xs
      → ((x : A) → P x → test x ≡ true → P (change x))
      → All P (update_where test change xs)
  unfolding update_where
  update_where-All P test change [] h k = tt
  update_where-All P test change (x ∷ xs) (p, h) k = (kept, update_where-All P test change xs h k)
    where
      kept : P (if test x then change x else x)
      kept = elim (Bool-cases (test x)) [ inl e ↦ rw e (k x p e) | inr e ↦ rw e p ]

  pub keep-All : (P : A → Type 0) (test : A → Bool) (xs : List A) → All P xs → All P (keep test xs)
  keep-All P test [] h = tt
  keep-All P test (x ∷ xs) h = ground (arith, keep-All P test xs h.1)

  pub All-impl : (P Q : A → Type 0) → ((x : A) → P x → Q x) → (xs : List A) → All P xs → All Q xs
  All-impl P Q f [] h = tt
  All-impl P Q f (x ∷ xs) (p, h) = (f x p, All-impl P Q f xs h)

  pub All-exists :
      (test : A → Bool) (xs : List A) → All (λ x. test x ≡ false) xs → exists test xs ≡ false
  unfolding exists
  All-exists test [] h = refl
  All-exists test (x ∷ xs) (p, h) = ground (arith, All-exists test xs h)

  pub exists-All :
      (test : A → Bool) (xs : List A) → exists test xs ≡ false → All (λ x. test x ≡ false) xs
  unfolding exists
  exists-All test [] e = tt
  exists-All test (x ∷ xs) e = ground (arith, exists-All test xs)

  pub delete_where-All :
      (P Q : A → Type 0) (test : A → Bool) (xs : List A)
      → ((x : A) → P x → test x ≡ false → Q x)
      → All P xs
      → All Q (delete_where test xs)
  delete_where-All P Q test [] f h = tt
  delete_where-All P Q test (x ∷ xs) f (p, h) = elim (Bool-cases (test x)) [
    | inl e ↦ rw e (delete_where-All P Q test xs f h)
    | inr e ↦ rw e (f x p e, delete_where-All P Q test xs f h)
  ]

  pub All-unit : (xs : List A) → All (λ _. Unit {0}) xs
  All-unit [] = tt
  All-unit (x ∷ xs) = (tt, All-unit xs)

module _ {B : Type 0} where
  abbrev pub or_null : List B → List (Option B)
  or_null [] = none ∷ []
  or_null (y ∷ ys) = map some (y ∷ ys)

module _ {A B : Type 0} where
  pub All-map :
      (P : B → Type 0) (f : A → B) (xs : List A) → All (λ x. P (f x)) xs → All P (map f xs)
  All-map P f [] h = tt
  All-map P f (x ∷ xs) (p, h) = (p, All-map P f xs h)

-- `innerJoin` and `leftJoin`: the pairs in the order of the first table.
module _ {A B : Type 0} where
  unfoldable pub inner_join : (A → B → Bool) → List A → List B → List (A × B)
  inner_join on [] ys = []
  inner_join on (x ∷ xs) ys = map (λ y. (x, y)) (keep (on x) ys) ++ inner_join on xs ys

  unfoldable pub left_join : (A → B → Bool) → List A → List B → List (A × Option B)
  left_join on [] ys = []
  left_join on (x ∷ xs) ys = map (λ y. (x, y)) (or_null (keep (on x) ys)) ++ left_join on xs ys

abbrev pub is_null : {A : Type 0} → Option A → Bool
is_null none = true
is_null (some a) = false
