-- ===== src/Routes/Ranges.antt =====
-- backend/src/routes/vehicles.ts beside backend/src/db/schema/vehicles.ts: what the schema lets
-- through, and what the columns hold.
use crew_link.Base.{
  ℕ, suc, ℤ, pos, negsuc, leℤ, String, true, Option, none, some, List, [], ◌∷◌, ◌≡◌, ◌≢◌, refl, sym,
  inl, inr, arith, Bool-cases, Option-cases,
}
use mathlib.Core.Option
use mathlib.Core.Option.{some-injective}
use crew_link.Number.{Number, int_within, integer_of}
use crew_link.Db.{Vehicle, VehicleMod, Tables}
use crew_link.Db.Query.{Query, Answer, Error, ok, err, out_of_range, then_query, or_restore}
use crew_link.Db.Sql.{fits, null_or, insert_vehicle, insert_mod}
use crew_link.Vehicles.{
  ModInput, SetVehicleInput, insert_mods, new_vehicle, new_mod, set_user_vehicle,
}
use crew_link.Routes.Vehicles.{
  PutBody, optional_int, with_numbers, put_body, safe_parse_put, put_me, texts_schema,
}

-- The columns of a vehicle hold its numbers.
abbrev Fits : SetVehicleInput → Type 0
Fits input =
    (null_or (fits 16) input.year ≡ true)
    × (null_or (fits 32) input.power_kw ≡ true)
    × (null_or (fits 32) input.displacement ≡ true)

fits_16 :
    (low : ℕ) (high i : ℤ)
    → leℤ high (pos 32767) ≡ true
    → leℤ (pos low) i ≡ true
    → leℤ i high ≡ true
    → fits 16 i ≡ true
unfolding fits
fits_16 low (pos h) (pos n) a b c = ground arith
fits_16 low (negsuc h) (pos n) a b c = ground arith
fits_16 low high (negsuc n) a b c = ground arith

fits_32 :
    (low : ℕ) (high i : ℤ)
    → leℤ high (pos 2147483647) ≡ true
    → leℤ (pos low) i ≡ true
    → leℤ i high ≡ true
    → fits 32 i ≡ true
unfolding fits
fits_32 low (pos h) (pos n) a b c = ground arith
fits_32 low (negsuc h) (pos n) a b c = ground arith
fits_32 low high (negsuc n) a b c = ground arith

int_within-some :
    (low high : ℤ) (x : Number) (i : ℤ)
    → int_within low high x ≡ some i
    → (leℤ low i ≡ true) × (leℤ i high ≡ true)
unfolding int_within
int_within-some low high x i e = elim (Option-cases (integer_of x)) [
  | inl n ↦ let f = rw (n, int_within) at e in cc
  | inr (j, n) ↦ elim (Bool-cases (leℤ low j)) [
    | inl a ↦ elim (Bool-cases (leℤ j high)) [
      | inl b ↦ let f = some-injective _ _ (rw (n, a, b, int_within) at e) in rw (sym f) (a, b)
      | inr b ↦ let f = rw (n, a, b, int_within) at e in cc
    ]
    | inr a ↦ let f = rw (n, a, int_within) at e in cc
  ]
]

optional_int-fits :
    (bits : ℕ) (low high : ℤ) (o : Option Number) (r : Option ℤ)
    → ((i : ℤ) → leℤ low i ≡ true → leℤ i high ≡ true → fits bits i ≡ true)
    → optional_int low high o ≡ some r
    → null_or (fits bits) r ≡ true
unfolding optional_int
optional_int-fits bits low high none r h e = rw (sym (some-injective none r e)) refl
optional_int-fits bits low high (some x) r h e = elim (Option-cases (int_within low high x)) [
  | inl n ↦ let f = rw (n, optional_int) at e in cc
  | inr (i, n) ↦
      let (a, b) = int_within-some low high x i n in
      rw (sym (some-injective (some i) r (rw (n, optional_int) at e))) (h i a b)
]

with_numbers-some :
    (v : PutBody) (a b c : Option (Option ℤ)) (input : SetVehicleInput)
    → with_numbers v a b c ≡ some input
    → (a ≡ some input.year) × (b ≡ some input.power_kw) × (c ≡ some input.displacement)
unfolding with_numbers
with_numbers-some v (some a) (some b) (some c) input e = (cc, cc, cc)
with_numbers-some v none b c input e = cc
with_numbers-some v (some a) none c input e = cc
with_numbers-some v (some a) (some b) none input e = cc

numbers-Fits :
    (year_max : ℤ) (v : PutBody) (input : SetVehicleInput)
    → leℤ year_max (pos 32767) ≡ true
    → with_numbers v
        (optional_int (pos 1900) year_max v.year)
        (optional_int (pos 0) (pos 5000) v.power_kw)
        (optional_int (pos 0) (pos 20000) v.displacement)
      ≡ some input
    → Fits input
numbers-Fits year_max v input top e =
    let (a, b, c) = with_numbers-some v _ _ _ input e in
    (
      optional_int-fits 16 (pos 1900) year_max v.year input.year
          (λ i low high. fits_16 1900 year_max i top low high) a,
      optional_int-fits 32 (pos 0) (pos 5000) v.power_kw input.power_kw
          (λ i low high. fits_32 0 (pos 5000) i refl low high) b,
      optional_int-fits 32 (pos 0) (pos 20000) v.displacement input.displacement
          (λ i low high. fits_32 0 (pos 20000) i refl low high) c,
    )

put_body-Fits :
    (year_max : ℤ) (v : PutBody) (input : SetVehicleInput)
    → leℤ year_max (pos 32767) ≡ true
    → put_body year_max v ≡ some input
    → Fits input
unfolding put_body
put_body-Fits year_max v input top e = elim (Bool-cases (texts_schema v)) [
  | inl b ↦ numbers-Fits year_max v input top (rw (b, put_body) at e)
  | inr b ↦ let f = rw (b, put_body) at e in cc
]

-- A statement is not refused for a value out of its column's range.
abbrev InRange : {A : Type 0} → Answer A × Tables → Type 0
InRange r = r.0 ≢ err out_of_range

same_error :
    {A B : Type 0} (x y : Error)
    → ◌≡◌ {A = Answer B} (err x) (err y)
    → ◌≡◌ {A = Answer A} (err x) (err y)
same_error x y e = cc

then_query-InRange :
    {A B : Type 0} (r : Answer A × Tables) (k : A → Query B)
    → InRange r
    → ((a : A) (t : Tables) → InRange (k a t))
    → InRange (then_query r k)
then_query-InRange (ok a, t) k h f = f a t
then_query-InRange (err x, t) k h f = λ e. h (same_error x out_of_range e)

or_restore-InRange :
    {A : Type 0} (before : Tables) (r : Answer A × Tables)
    → InRange r
    → InRange (or_restore before r)
or_restore-InRange before (ok a, t) h = h
or_restore-InRange before (err x, t) h = h

insert_vehicle-InRange :
    (v : Vehicle) (t : Tables)
    → null_or (fits 16) v.year ≡ true
    → null_or (fits 32) v.power_kw ≡ true
    → null_or (fits 32) v.displacement ≡ true
    → InRange (insert_vehicle v t)
unfolding insert_vehicle
insert_vehicle-InRange v t a b c = rw (a, b, c) (ground arith)

insert_mod-InRange : (m : VehicleMod) (t : Tables) → InRange (insert_mod m t)
unfolding insert_mod
insert_mod-InRange m t = ground arith

insert_mods-InRange :
    (uuids : ℕ → String) (n : ℕ) (now : ℤ) (id : String) (mods : List ModInput) (t : Tables)
    → InRange (insert_mods uuids n now id mods t)
unfolding insert_mods
insert_mods-InRange uuids n now id [] t = λ e. cc
insert_mods-InRange uuids n now id (m ∷ mods) t =
    then_query-InRange (insert_mod (new_mod (uuids n) now id m) t) _
      (insert_mod-InRange (new_mod (uuids n) now id m) t)
      (λ _ s.
        then_query-InRange (insert_mods uuids (suc n) now id mods s) _
          (insert_mods-InRange uuids (suc n) now id mods s) (λ rest u e. cc))

set_user_vehicle-InRange :
    (uuid : String) (uuids : ℕ → String) (now : ℤ) (user_id : String) (input : SetVehicleInput)
    (t : Tables)
    → Fits input
    → InRange (set_user_vehicle uuid uuids now user_id input t)
unfolding set_user_vehicle new_vehicle
set_user_vehicle-InRange uuid uuids now user_id input t (a, b, c) = or_restore-InRange t _ (
    then_query-InRange (insert_vehicle (new_vehicle uuid now user_id input) _) _
      (insert_vehicle-InRange (new_vehicle uuid now user_id input) _ a b c)
      (λ _ s.
        then_query-InRange (insert_mods uuids 0 now uuid (Option.get_or input.mods []) s) _
          (insert_mods-InRange uuids 0 now uuid (Option.get_or input.mods []) s) (λ ps u e. cc)))

-- Where the latest year that the schema allows fits 16 bits, no body makes Postgres refuse a number
-- of a vehicle as out of its column's range.
pub put_me-InRange :
    (year_max : ℤ) (uuid : String) (uuids : ℕ → String) (now : ℤ) (user_id : String)
    (shape : Option PutBody) (t : Tables)
    → leℤ year_max (pos 32767) ≡ true
    → (put_me year_max uuid uuids now user_id shape t).0 ≢ err out_of_range
unfolding put_me safe_parse_put
put_me-InRange year_max uuid uuids now user_id none t top = λ e. cc
put_me-InRange year_max uuid uuids now user_id (some v) t top =
    elim (Option-cases (put_body year_max v)) [
      | inl n ↦ rw (n, put_me) (λ e. cc)
      | inr (input, n) ↦
          rw (n, put_me)
            (then_query-InRange (set_user_vehicle uuid uuids now user_id input t) _
              (set_user_vehicle-InRange uuid uuids now user_id input t
                (put_body-Fits year_max v input top n))
              (λ p s e. cc))
    ]
