-- ===== src/FixPostgis/Fuel.antt =====
-- backend/scripts/fix-postgis-migration.ts: the steps that the replacement takes.
use crew_link.Base.{
  ℕ, zero, suc, ◌≤◌, ◌<◌, Bool-cases, Option, Option-cases, none, some, List, [], ◌∷◌, ◌++◌, eqb,
  length, ◌≡◌, refl, sym, ◌∙◌, arith, inl, inr,
}
use crew_link.FixPostgis.{
  strip, until_quote, group, args_of, typed, match_kind, geo_match, match_at, replace, geography,
  geometry, quote, before_close,
}

strip-shorter : (p s t : List ℕ) → strip p s ≡ some t → length t ≤ length s
unfolding strip
strip-shorter [] s t e = ground arith
strip-shorter (p ∷ ps) [] t e = ground arith
strip-shorter (p ∷ ps) (c ∷ s) t e = ground (arith, strip-shorter ps s t)

until_quote-shorter :
    (s inside rest : List ℕ) → until_quote s ≡ some (inside, rest) → length rest < length s
unfolding until_quote
until_quote-shorter [] inside rest e = ground arith
until_quote-shorter (c ∷ s) inside rest e = elim (Option-cases (until_quote s)) [
  | inl n ↦ ground arith
  | inr ((a, b), n) ↦ ground (arith, until_quote-shorter s a b n)
]

group-rest :
    (rest : List ℕ) (o : Option (List ℕ)) (args left : List ℕ)
    → group rest o ≡ some (args, left)
    → left ≡ rest
group-rest rest none args left e = cc
group-rest rest (some []) args left e = cc
group-rest rest (some (c ∷ s)) args left e = cc

args_of-shorter : (s args rest : List ℕ) → args_of s ≡ some (args, rest) → length rest < length s
unfolding args_of
args_of-shorter s args rest e = elim (Option-cases (until_quote s)) [
  | inl n ↦ let f = rw (n, args_of) at e in cc
  | inr ((inside, more), n) ↦
      rw (group-rest more (before_close inside) args rest (rw (n, args_of) at e))
        (until_quote-shorter s inside more n)
]

typed-shorter :
    (kind s : List ℕ) (o : Option (List ℕ × List ℕ)) (found rest : List ℕ)
    → ((args left : List ℕ) → o ≡ some (args, left) → length left < length s)
    → typed kind o ≡ some (found, rest)
    → length rest < length s
typed-shorter kind s none found rest h e = cc
typed-shorter kind s (some (args, left)) found rest h e =
    let same : left ≡ rest = cc in rw (sym same) (h args left refl)

match_kind-shorter :
    (kind s found rest : List ℕ) → match_kind kind s ≡ some (found, rest) → length rest < length s
unfolding match_kind
match_kind-shorter kind s found rest e = elim (Option-cases (strip (kind ++ b'(' ∷ []) s)) [
  | inl n ↦ let f = rw (n, match_kind) at e in cc
  | inr (inside, n) ↦
      let near =
        typed-shorter kind inside (args_of inside) found rest (args_of-shorter inside)
          (rw (n, match_kind) at e) in
      omega (arith, near, strip-shorter (kind ++ b'(' ∷ []) s inside n)
]

geo_match-shorter :
    (s found rest : List ℕ) → geo_match s ≡ some (found, rest) → length rest < length s
unfolding geo_match
geo_match-shorter s found rest e = elim (Option-cases (match_kind geography s)) [
  | inl n ↦ match_kind-shorter geometry s found rest (rw (n, geo_match) at e)
  | inr (r, n) ↦ match_kind-shorter geography s found rest (n ∙ (rw (n, geo_match) at e))
]

pub match_at-shorter :
    (c : ℕ) (s found rest : List ℕ) → match_at c s ≡ some (found, rest) → length rest < length s
unfolding match_at
match_at-shorter c s found rest e = elim (Bool-cases (eqb c quote)) [
  | inl b ↦ geo_match-shorter s found rest (rw b at e)
  | inr b ↦ let f = rw b at e in cc
]

-- With as many steps as the text is long the replacement comes to the text's end: more steps change
-- nothing.
pub replace_enough :
    (n m : ℕ) (s : List ℕ) → length s ≤ n → length s ≤ m → replace n s ≡ replace m s
unfolding replace
replace_enough zero zero [] a b = refl
replace_enough zero (suc m) [] a b = refl
replace_enough (suc n) zero [] a b = refl
replace_enough (suc n) (suc m) [] a b = refl
replace_enough zero m (c ∷ s) a b = ground arith
replace_enough (suc n) zero (c ∷ s) a b = ground arith
replace_enough (suc n) (suc m) (c ∷ s) a b = elim (Option-cases (match_at c s)) [
  | inl h ↦ rw (h, replace) (rw (replace_enough n m s (omega arith) (omega arith)) refl)
  | inr ((found, rest), h) ↦
      let near = match_at-shorter c s found rest h in
      rw (h, replace)
        (rw (replace_enough n m rest (omega (arith, near)) (omega (arith, near))) refl)
]
