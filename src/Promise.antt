-- ===== src/Promise.antt =====
-- The outcome of an awaited operation: its value, or a rejection.
use mathlib.Core.Path.{◌≡◌, refl}
use mathlib.Core.Logic.{◌⊎◌, inl, inr}

pub data Promise (A : Type 0) : Type 0 where
  fulfilled : A → Promise A
  rejected : Promise A

pub rejected-ne-fulfilled : {A : Type 0} {a : A} → ◌≡◌ {A = Promise A} rejected (fulfilled a) → ⊥
rejected-ne-fulfilled e = cc

pub Promise-cases : {A : Type 0} (p : Promise A) → (p ≡ rejected) ⊎ ((a : A) × (p ≡ fulfilled a))
Promise-cases (fulfilled a) = inr (a, refl)
Promise-cases rejected = inl refl

pub fulfilled-injective :
    {A : Type 0} {a b : A} → ◌≡◌ {A = Promise A} (fulfilled a) (fulfilled b) → a ≡ b
fulfilled-injective e = cc
