-- ===== src/Tests/Postgis.antt =====
-- Quoted types of PostGIS.
use Prim.Native.Nat.{ℕ}
use crew_link.Base.{true, List, [], ◌∷◌, ◌++◌, ◌≡◌, refl, inl, arith}
use crew_link.FixPostgis.{
  geometry, geography, quote, fixed, replace, match_at, geo_match, match_kind, args_of,
  before_close, until_quote, strip,
}
use crew_link.FixPostgis.Files.{
  File, fix_main, fix_files, one_round, fix_file, is_sql, ends_with, patched_file,
}
use crew_link.FixPostgis.Unquoted.{geo_type, quoted_tail, replace-unquotes}

abbrev point : List ℕ
point = b'P' ∷ []

-- `"geography(P)"`
abbrev quoted_point : List ℕ
quoted_point = quote ∷ quoted_tail geography point []

untouched : (fixed (quote ∷ (b'i' ∷ (b'd' ∷ (quote ∷ []))))).1 ≡ 0
unfolding fixed replace match_at geo_match match_kind args_of before_close until_quote strip
untouched = refl

-- Two pairs of quotes: each run takes one.
first_run : (fixed (quote ∷ (quoted_point ++ quote ∷ []))).0 ≡ quoted_point
unfolding fixed replace match_at geo_match match_kind args_of before_close until_quote strip
first_run = refl

second_run : (fixed quoted_point).0 ≡ geo_type geography point
unfolding fixed replace match_at geo_match match_kind args_of before_close until_quote strip
second_run = refl

replace-unquotes_example :
    replace 20 ((b' ' ∷ []) ++ quoted_point)
    ≡ ((b' ' ∷ []) ++ (geo_type geography point ++ (fixed []).0), ℕ.suc (fixed []).1)
replace-unquotes_example =
    replace-unquotes (b' ' ∷ []) geography point [] 20 (refl, tt) (inl refl) (refl, tt) (λ e. cc)
      (omega arith)

-- The files `a.sql`, which has a quoted type, and `b.md`, which the script does not look at.
abbrev quoted_type : List ℕ
quoted_type = quote ∷ (geometry ++ b'(' ∷ b'P' ∷ b')' ∷ quote ∷ [])

abbrev sql_file : File
sql_file = record { name = "a.sql"; units = quoted_type; readable = true; writable = true }

abbrev md_file : File
md_file = record { name = "b.md"; units = quoted_type; readable = true; writable = true }

one_file_patched : fix_main (sql_file ∷ md_file ∷ []) ≡ (
  record sql_file { units = geometry ++ b'(' ∷ b'P' ∷ b')' ∷ [] } ∷ md_file ∷ [],
  patched_file "a.sql" 1 ∷ [],
  0,
)
unfolding fix_main fix_files one_round fix_file is_sql ends_with fixed replace match_at geo_match
    match_kind strip args_of until_quote before_close
one_file_patched = refl
