-- ===== src/FixPostgis/Unquoted.antt =====
-- backend/scripts/fix-postgis-migration.ts: what the replacement makes of a quoted type.
use crew_link.Base.{
  ℕ, suc, ◌≤◌, ◌⊎◌, inl, inr, false, none, some, List, [], ◌∷◌, ◌++◌, All, eqb, length, ◌≡◌, ◌≢◌,
  refl, ◌∙◌, arith,
}
use crew_link.FixPostgis.{
  strip, until_quote, group, args_of, match_kind, geo_match, match_at, replace, fixed, geography,
  geometry, quote, before_close,
}
use crew_link.FixPostgis.Fuel.{replace_enough, match_at-shorter}

abbrev pub HasNoQuote : List ℕ → Type 0
HasNoQuote = All λ c. eqb c quote ≡ false

strip-append : (p s : List ℕ) → strip p (p ++ s) ≡ some s
unfolding strip
strip-append [] s = refl
strip-append (c ∷ p) s = ground (arith, strip-append p s)

until_quote-append :
    (inside rest : List ℕ)
    → HasNoQuote inside
    → until_quote (inside ++ quote ∷ rest) ≡ some (inside, rest)
unfolding until_quote
until_quote-append [] rest h = refl
until_quote-append (c ∷ inside) rest (b, h) = rw (b, until_quote-append inside rest h) refl

before_close-append : (args : List ℕ) → before_close (args ++ b')' ∷ []) ≡ some args
unfolding before_close
before_close-append [] = refl
before_close-append (c ∷ []) = refl
before_close-append (c ∷ (d ∷ args)) = rw (before_close-append (d ∷ args)) refl

HasNoQuote-close : (args : List ℕ) → HasNoQuote args → HasNoQuote (args ++ b')' ∷ [])
HasNoQuote-close [] h = (refl, tt)
HasNoQuote-close (c ∷ args) (b, h) = (b, HasNoQuote-close args h)

group-some : (args rest : List ℕ) → args ≢ [] → group rest (some args) ≡ some (args, rest)
group-some [] rest n = elim (n refl) [ ]
group-some (c ∷ args) rest n = refl

args_of-append :
    (args rest : List ℕ)
    → HasNoQuote args
    → args ≢ []
    → args_of ((args ++ b')' ∷ []) ++ quote ∷ rest) ≡ some (args, rest)
unfolding args_of
args_of-append args rest h n =
    rw
      (
        until_quote-append (args ++ b')' ∷ []) rest (HasNoQuote-close args h),
        before_close-append args,
      )
      (group-some args rest n)

-- A type of PostGIS with its arguments, and what follows its first quote.
abbrev pub geo_type : List ℕ → List ℕ → List ℕ
geo_type kind args = kind ++ b'(' ∷ (args ++ b')' ∷ [])

abbrev pub quoted_tail : List ℕ → List ℕ → List ℕ → List ℕ
quoted_tail kind args post = (kind ++ b'(' ∷ []) ++ ((args ++ b')' ∷ []) ++ quote ∷ post)

match_kind-quoted :
    (kind args post : List ℕ)
    → HasNoQuote args
    → args ≢ []
    → match_kind kind (quoted_tail kind args post) ≡ some (geo_type kind args, post)
unfolding match_kind
match_kind-quoted kind args post h n =
    rw (strip-append (kind ++ b'(' ∷ []) ((args ++ b')' ∷ []) ++ quote ∷ post), match_kind)
      (rw (args_of-append args post h n) refl)

geo_match-quoted :
    (kind args post : List ℕ)
    → (kind ≡ geography) ⊎ (kind ≡ geometry)
    → HasNoQuote args
    → args ≢ []
    → geo_match (quoted_tail kind args post) ≡ some (geo_type kind args, post)
unfolding geo_match match_kind strip
geo_match-quoted kind args post (inl k) h n =
    rw (k) (rw (match_kind-quoted geography args post h n, geo_match) refl)
geo_match-quoted kind args post (inr k) h n = rw (k) (match_kind-quoted geometry args post h n)

match_at-plain : (c : ℕ) (s : List ℕ) → eqb c quote ≡ false → match_at c s ≡ none
unfolding match_at
match_at-plain c s b = rw b refl

fixed-plain :
    (c : ℕ) (s : List ℕ) → eqb c quote ≡ false → fixed (c ∷ s) ≡ (c ∷ (fixed s).0, (fixed s).1)
unfolding fixed replace
fixed-plain c s b = rw (match_at-plain c s b, replace) refl

fixed-match :
    (s found rest : List ℕ)
    → geo_match s ≡ some (found, rest)
    → fixed (quote ∷ s) ≡ (found ++ (fixed rest).0, suc (fixed rest).1)
unfolding fixed replace match_at
fixed-match s found rest e =
    let near = match_at-shorter quote s found rest e in
    rw (e, replace)
      (rw (replace_enough (length s) (length rest) rest (omega (arith, near)) (omega arith)) refl)

-- In a text in which no quote stands before a quoted type of PostGIS, the script takes the quotes of
-- that type off, and goes on after it; with more steps than the text is long it does the same.
pub replace-unquotes :
    (pre kind args post : List ℕ) (n : ℕ)
    → HasNoQuote pre
    → (kind ≡ geography) ⊎ (kind ≡ geometry)
    → HasNoQuote args
    → args ≢ []
    → length (pre ++ quote ∷ quoted_tail kind args post) ≤ n
    → replace n (pre ++ quote ∷ quoted_tail kind args post)
      ≡ (pre ++ (geo_type kind args ++ (fixed post).0), suc (fixed post).1)
unfolding fixed
replace-unquotes pre kind args post n h k f g enough =
    replace_enough n _ (pre ++ quote ∷ quoted_tail kind args post) enough (omega arith)
    ∙ fixed_pre pre h
  where
    fixed_pre :
        (before : List ℕ)
        → HasNoQuote before
        → fixed (before ++ quote ∷ quoted_tail kind args post)
          ≡ (before ++ (geo_type kind args ++ (fixed post).0), suc (fixed post).1)
    fixed_pre [] h = fixed-match _ _ post (geo_match-quoted kind args post k f g)
    fixed_pre (c ∷ before) (b, h) =
        fixed-plain c (before ++ quote ∷ quoted_tail kind args post) b
        ∙ rw (fixed_pre before h) refl
