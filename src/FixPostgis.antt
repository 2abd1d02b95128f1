-- ===== src/FixPostgis.antt =====
-- backend/scripts/fix-postgis-migration.ts: the quotes that the script takes off the types of PostGIS.
-- A file's text is the list of its UTF-16 units.
pub mod Fuel
pub mod Unquoted
pub mod Files
use crew_link.Base.{
  ℕ, zero, suc, Option, none, some, List, [], ◌∷◌, ◌++◌, eqb, length, if◌then◌else◌,
}

abbrev pub quote : ℕ
quote = b'"'

abbrev pub geography : List ℕ
geography = b'g' ∷ b'e' ∷ b'o' ∷ b'g' ∷ b'r' ∷ b'a' ∷ b'p' ∷ b'h' ∷ b'y' ∷ []

abbrev pub geometry : List ℕ
geometry = b'g' ∷ b'e' ∷ b'o' ∷ b'm' ∷ b'e' ∷ b't' ∷ b'r' ∷ b'y' ∷ []

-- The text after a prefix.
unfoldable pub strip : List ℕ → List ℕ → Option (List ℕ)
strip [] s = some s
strip (p ∷ ps) [] = none
strip (p ∷ ps) (c ∷ s) = let rest = strip ps s in if eqb c p then rest else none

abbrev pub prepend : ℕ → Option (List ℕ × List ℕ) → Option (List ℕ × List ℕ)
prepend c none = none
prepend c (some (inside, rest)) = some (c ∷ inside, rest)

-- What stands before and after the first quote.
unfoldable pub until_quote : List ℕ → Option (List ℕ × List ℕ)
until_quote [] = none
until_quote (c ∷ s) =
    let more = prepend c (until_quote s) in if eqb c quote then some ([], s) else more

abbrev pub cons_some : ℕ → Option (List ℕ) → Option (List ℕ)
cons_some c none = none
cons_some c (some s) = some (c ∷ s)

-- What stands before a parenthesis that closes the text.
unfoldable pub before_close : List ℕ → Option (List ℕ)
before_close [] = none
before_close (c ∷ []) = if eqb c b')' then some [] else none
before_close (c ∷ (d ∷ s)) = cons_some c (before_close (d ∷ s))

-- The second group has one unit at least, and no quote: it ends before the first one.
abbrev pub group : List ℕ → Option (List ℕ) → Option (List ℕ × List ℕ)
group rest none = none
group rest (some []) = none
group rest (some (c ∷ args)) = some (c ∷ args, rest)

abbrev pub args_in : Option (List ℕ × List ℕ) → Option (List ℕ × List ℕ)
args_in none = none
args_in (some (inside, rest)) = group rest (before_close inside)

unfoldable pub args_of : List ℕ → Option (List ℕ × List ℕ)
args_of s = args_in (until_quote s)

-- The replacement, and the text after the match.
abbrev pub typed : List ℕ → Option (List ℕ × List ℕ) → Option (List ℕ × List ℕ)
typed kind none = none
typed kind (some (args, rest)) = some (kind ++ b'(' ∷ (args ++ b')' ∷ []), rest)

unfoldable pub match_kind : List ℕ → List ℕ → Option (List ℕ × List ℕ)
match_kind kind s = elim (strip (kind ++ b'(' ∷ []) s) [
  | none ↦ none
  | some inside ↦ typed kind (args_of inside)
]

-- `GEO_TYPE_PATTERN`, after its first quote.
unfoldable pub geo_match : List ℕ → Option (List ℕ × List ℕ)
geo_match s = elim (match_kind geography s) [
  | some found ↦ some found
  | none ↦ match_kind geometry s
]

unfoldable pub match_at : ℕ → List ℕ → Option (List ℕ × List ℕ)
match_at c s = let found = geo_match s in if eqb c quote then found else none

-- `original.replace(…)` with the number of replacements, from left to right; the fuel is the number
-- of steps.
unfoldable pub replace : ℕ → List ℕ → List ℕ × ℕ
replace zero s = (s, 0)
replace (suc n) [] = ([], 0)
replace (suc n) (c ∷ s) = elim (match_at c s) [
  | none ↦ let (t, k) = replace n s in (c ∷ t, k)
  | some (found, rest) ↦ let (t, k) = replace n rest in (found ++ t, suc k)
]

unfoldable pub fixed : List ℕ → List ℕ × ℕ
fixed s = replace (length s) s

-- What is written to the file; none where nothing is.
unfoldable pub patched : List ℕ → Option (List ℕ)
patched s = let (t, k) = fixed s in if eqb k 0 then none else some t
