-- ===== src/Db/Joins.antt =====
-- The statements of SQL that the services use: which rows a join gives, and when there is a first.
use crew_link.Base.{
  Bool, true, false, Option, none, some, List, [], ◌∷◌, map, In, In-append, In-append_left,
  In-append_right, In-keep, keep-In, keep, ◌≡◌, inl, inr, refl, sym, arith, if◌then◌else◌,
}
use crew_link.Db.Rows.{first, update_where, inner_join, left_join, or_null}

module _ {A B : Type 0} where
  pub In-map : (f : A → B) (x : A) (xs : List A) → In x xs → In (f x) (map f xs)
  In-map f x (y ∷ ys) (inl e) = inl (rw e refl)
  In-map f x (y ∷ ys) (inr i) = inr (In-map f x ys i)
  In-map f x [] i = elim i [ ]

  pub map-In : (f : A → B) (y : B) (xs : List A) → In y (map f xs) → (x : A) × In x xs × (y ≡ f x)
  map-In f y [] i = elim i [ ]
  map-In f y (x ∷ xs) (inl e) = (x, inl refl, e)
  map-In f y (x ∷ xs) (inr i) = let (x', j, e) = map-In f y xs i in (x', inr j, e)

or_null-In : {B : Type 0} (y : B) (ys : List B) → In y ys → In (some y) (or_null ys)
or_null-In y [] i = elim i [ ]
or_null-In y (z ∷ zs) i = In-map some y (z ∷ zs) i

module _ {A B : Type 0} where
  -- A pair is in an inner join exactly when its rows are in the tables and match.
  pub inner_join-In :
      (on : A → B → Bool) (xs : List A) (ys : List B) (x : A) (y : B)
      → In x xs
      → In y ys
      → on x y ≡ true
      → In (x, y) (inner_join on xs ys)
  unfolding inner_join
  inner_join-In on (z ∷ zs) ys x y (inl e) j k =
      In-append_left (x, y) (map (λ w. (z, w)) (keep (on z) ys)) (inner_join on zs ys)
        (rw (sym e) (In-map (λ w. (x, w)) y (keep (on x) ys) (keep-In (on x) ys y j k)))
  inner_join-In on (z ∷ zs) ys x y (inr i) j k =
      In-append_right (x, y) (map (λ w. (z, w)) (keep (on z) ys)) (inner_join on zs ys)
        (inner_join-In on zs ys x y i j k)
  inner_join-In on [] ys x y i j k = elim i [ ]

  pub In-inner_join :
      (on : A → B → Bool) (xs : List A) (ys : List B) (p : A × B)
      → In p (inner_join on xs ys)
      → In p.0 xs × In p.1 ys × (on p.0 p.1 ≡ true)
  unfolding inner_join
  In-inner_join on [] ys p i = elim i [ ]
  In-inner_join on (z ∷ zs) ys p i =
      elim (In-append p (map (λ w. (z, w)) (keep (on z) ys)) (inner_join on zs ys) i) [
        | inl j ↦
            let (y, k, e) = map-In (λ w. (z, w)) p (keep (on z) ys) j in
            let (k', h) = In-keep (on z) ys y k in rw e (inl refl, k', h)
        | inr j ↦ let (a, b, c) = In-inner_join on zs ys p j in (inr a, b, c)
      ]

  -- A left join has the rows of the first table and no others.
  pub left_join-In :
      (on : A → B → Bool) (xs : List A) (ys : List B) (x : A)
      → In x xs
      → (y : Option B) × In (x, y) (left_join on xs ys)
  unfolding left_join
  left_join-In on (z ∷ zs) ys x (inl e) =
      let (y, i) = some_row (keep (on z) ys) in
      (
        y,
        In-append_left (x, y) (map (λ w. (z, w)) (or_null (keep (on z) ys))) (left_join on zs ys)
            (rw e (In-map (λ w. (z, w)) y (or_null (keep (on z) ys)) i)),
      )
    where
      some_row : (ws : List B) → (y : Option B) × In y (or_null ws)
      some_row [] = (none, inl refl)
      some_row (w ∷ ws) = (some w, inl refl)
  left_join-In on (z ∷ zs) ys x (inr i) =
      let (y, j) = left_join-In on zs ys x i in
      (
        y,
        In-append_right (x, y) (map (λ w. (z, w)) (or_null (keep (on z) ys))) (left_join on zs ys)
            j,
      )
  left_join-In on [] ys x i = elim i [ ]

  -- A left join has each pair of rows that match.
  pub left_join-In_match :
      (on : A → B → Bool) (xs : List A) (ys : List B) (x : A) (y : B)
      → In x xs
      → In y ys
      → on x y ≡ true
      → In (x, some y) (left_join on xs ys)
  unfolding left_join
  left_join-In_match on (z ∷ zs) ys x y (inl e) j k =
      In-append_left (x, some y) (map (λ w. (z, w)) (or_null (keep (on z) ys))) (left_join on zs ys)
        (rw (sym e) (
          In-map (λ w. (x, w)) (some y) (or_null (keep (on x) ys))
            (or_null-In y (keep (on x) ys) (keep-In (on x) ys y j k))))
  left_join-In_match on (z ∷ zs) ys x y (inr i) j k =
      In-append_right (x, some y) (map (λ w. (z, w)) (or_null (keep (on z) ys)))
        (left_join on zs ys) (left_join-In_match on zs ys x y i j k)
  left_join-In_match on [] ys x y i j k = elim i [ ]

  pub In-left_join :
      (on : A → B → Bool) (xs : List A) (ys : List B) (p : A × Option B)
      → In p (left_join on xs ys)
      → In p.0 xs
  unfolding left_join
  In-left_join on [] ys p i = elim i [ ]
  In-left_join on (z ∷ zs) ys p i =
      elim (In-append p (map (λ w. (z, w)) (or_null (keep (on z) ys))) (left_join on zs ys) i) [
        | inl j ↦
            let (y, k, e) = map-In (λ w. (z, w)) p (or_null (keep (on z) ys)) j in rw e (inl refl)
        | inr j ↦ inr (In-left_join on zs ys p j)
      ]

module _ {A : Type 0} where
  pub first-In : (xs : List A) (x : A) → first xs ≡ some x → In x xs
  unfolding first
  first-In [] x e = cc
  first-In (y ∷ ys) x e = ground arith

  pub In-first : (xs : List A) (x : A) → In x xs → (y : A) × (first xs ≡ some y)
  unfolding first
  In-first [] x i = elim i [ ]
  In-first (y ∷ ys) x i = (y, refl)

  pub update_where-In :
      (test : A → Bool) (change : A → A) (xs : List A) (x : A)
      → In x xs
      → In (if test x then change x else x) (update_where test change xs)
  unfolding update_where
  update_where-In test change (y ∷ ys) x (inl e) = inl (rw e refl)
  update_where-In test change (y ∷ ys) x (inr i) = inr (update_where-In test change ys x i)
  update_where-In test change [] x i = elim i [ ]

  pub In-update_where :
      (test : A → Bool) (change : A → A) (xs : List A) (x : A)
      → In x (update_where test change xs)
      → (y : A) × In y xs × (x ≡ (if test y then change y else y))
  unfolding update_where
  In-update_where test change [] x i = elim i [ ]
  In-update_where test change (y ∷ ys) x (inl e) = (y, inl refl, e)
  In-update_where test change (y ∷ ys) x (inr i) =
      let (z, j, e) = In-update_where test change ys x i in (z, inr j, e)

  pub update_where-In_kept :
      (test : A → Bool) (change : A → A) (xs : List A) (x : A)
      → In x xs
      → test x ≡ false
      → In x (update_where test change xs)
  update_where-In_kept test change xs x i e = rw e at (update_where-In test change xs x i)

  pub update_where-In_changed :
      (test : A → Bool) (change : A → A) (xs : List A) (x : A)
      → In x xs
      → test x ≡ true
      → In (change x) (update_where test change xs)
  update_where-In_changed test change xs x i e = rw e at (update_where-In test change xs x i)
