-- ===== src/Db/Query.antt =====
-- A service as a state and exception monad over the tables: an error keeps what was written before
-- it, and `transaction` puts the tables back.
use crew_link.Base.{String, Bool, true, false, Option, none, some, ◌≡◌, refl, ◌⊎◌, inl, inr}
use crew_link.Db.{Tables}

pub data Error : Type 0 where
  -- Postgres: a unique index, a foreign key, a value out of a column's range, a text that is no
  -- UUID
  unique_violation foreign_key_violation out_of_range invalid_uuid : Error
  -- the services' own
  invite_code_not_found convoy_not_found not_convoy_owner not_convoy_member : Error
  internal : Error

pub data Answer (A : Type 0) : Type 0 where
  ok : A → Answer A
  err : Error → Answer A

abbrev pub Query : Type 0 → Type 0
Query A = Tables → Answer A × Tables

abbrev pub then_query : {A B : Type 0} → Answer A × Tables → (A → Query B) → Answer B × Tables
then_query (ok a, t) k = k a t
then_query (err e, t) k = (err e, t)

infixl 5 ◌>>=◌ ◌>>◌
abbrev pub ◌>>=◌ : {A B : Type 0} → Query A → (A → Query B) → Query B
◌>>=◌ m k t = then_query (m t) k

abbrev pub ◌>>◌ : {B : Type 0} → Query (Unit {0}) → Query B → Query B
◌>>◌ m k t = then_query (m t) (λ _. k)

abbrev pub return : {A : Type 0} → A → Query A
return a t = (ok a, t)

abbrev pub throw : {A : Type 0} → Error → Query A
throw e t = (err e, t)

abbrev pub read : {A : Type 0} → (Tables → A) → Query A
read f t = (ok (f t), t)

abbrev pub write : (Tables → Tables) → Query (Unit {0})
write f t = (ok tt, f t)

abbrev pub or_throw : {A : Type 0} → Option A → Error → Query A
or_throw none e = throw e
or_throw (some a) e = return a

abbrev pub require : Bool → Error → Query (Unit {0})
require true e = return tt
require false e = throw e

abbrev pub or_restore : {A : Type 0} → Tables → Answer A × Tables → Answer A × Tables
or_restore before (ok a, t) = (ok a, t)
or_restore before (err e, t) = (err e, before)

-- The text of a UUID as Postgres prints it.
abbrev pub Uuid : Type 0
Uuid = String

-- A request's text that is compared with a uuid column: Postgres casts it, to the UUID's text, or
-- fails the query.
abbrev pub with_uuid : {A : Type 0} → (String → Option Uuid) → String → (Uuid → Query A) → Query A
with_uuid uuid_of text k = or_throw (uuid_of text) invalid_uuid >>= k

-- `db.transaction`
abbrev pub transaction : {A : Type 0} → Query A → Query A
transaction m t = or_restore t (m t)

-- A chain that succeeds has succeeded at its first part.
pub then_query-ok :
    {A B : Type 0} (r : Answer A × Tables) (k : A → Query B) (b : B) (after : Tables)
    → then_query r k ≡ (ok b, after)
    → (a : A) × (t : Tables) × (r ≡ (ok a, t)) × (k a t ≡ (ok b, after))
then_query-ok (ok a, t) k b after e = (a, t, refl, e)
then_query-ok (err x, t) k b after e = cc

pub Answer-cases :
    (r : Answer (Unit {0}) × Tables)
    → ((e : Error) × (t : Tables) × (r ≡ (err e, t))) ⊎ ((t : Tables) × (r ≡ (ok tt, t)))
Answer-cases (ok tt, t) = inr (t, refl)
Answer-cases (err e, t) = inl (e, t, refl)

pub or_restore-ok :
    {A : Type 0} (before : Tables) (r : Answer A × Tables) (a : A) (after : Tables)
    → or_restore before r ≡ (ok a, after)
    → r ≡ (ok a, after)
or_restore-ok before (ok b, t) a after e = e
or_restore-ok before (err x, t) a after e = cc
