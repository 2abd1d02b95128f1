-- ===== src/FixPostgis/Files.antt =====
-- backend/scripts/fix-postgis-migration.ts: `main`, over the files of the directory in the order in
-- which it lists them. Another program that writes them meanwhile is left out.
use Prim.Native.String.{◌∷◌ as ◌cons◌}
use crew_link.Base.{
  ℕ, zero, suc, ◌+◌, String, Bool, true, false, ◌||◌, Option, none, some, List, [], ◌∷◌, ◌++◌, eqb,
  ◌==◌, if◌then◌else◌, ◌≡◌, ◌⊎◌, refl, sym, ap, ◌∙◌, arith, inl, inr, Option-cases, Bool-cases,
  length,
}
use mathlib.Core.Path.{subst}
use crew_link.FixPostgis.{match_at, replace, fixed}

-- Whether reading and writing the file go through is the file's own.
pub record File : Type 0 where
  pub name : String
  pub units : List ℕ
  pub readable : Bool
  pub writable : Bool

pub data Line : Type 0 where
  patched_file : String → ℕ → Line
  nothing_to_fix fix_failed : Line

-- `.endsWith(…)`
unfoldable pub ends_with : String → String → Bool
ends_with suffix String.[] = suffix == ""
ends_with suffix (String.◌∷◌ c s) = (c cons s) == suffix || ends_with suffix s

unfoldable pub is_sql : String → Bool
unfolding ends_with
is_sql name = ends_with ".sql" name

-- The file after one round of the loop, with the number of replacements; none where it fails.
unfoldable pub fix_file : File → Option (File × ℕ)
fix_file f =
    let (t, k) = fixed f.units in
    if f.readable
    then if eqb k 0
      then some (f, 0)
      else if f.writable
      then some (record f { units = t }, k)
      else none
    else none

-- Files of another kind are passed over.
unfoldable pub one_round : File → Option (File × ℕ)
one_round f = if is_sql f.name then fix_file f else some (f, 0)

abbrev pub told : String → ℕ → List Line
told name k = if eqb k 0 then [] else patched_file name k ∷ []

-- What the loop leaves: the files, the number of replacements, what is printed, and whether it came
-- to its end.
pub record Fixing : Type 0 where
  pub files : List File
  pub total : ℕ
  pub lines : List Line
  pub ended : Bool

-- A failure leaves the files that follow as they are.
abbrev pub go_on_files : File → List File → Option (File × ℕ) → Fixing → Fixing
go_on_files f fs none rest = record { files = f ∷ fs; total = 0; lines = []; ended = false }
go_on_files f fs (some (g, k)) rest = record {
  files = g ∷ rest.files;
  total = k + rest.total;
  lines = told f.name k ++ rest.lines;
  ended = rest.ended;
}

unfoldable pub fix_files : List File → Fixing
fix_files [] = record { files = []; total = 0; lines = []; ended = true }
fix_files (f ∷ fs) = go_on_files f fs (one_round f) (fix_files fs)

-- The files, what is printed and the exit code.
unfoldable pub fix_main : List File → List File × List Line × ℕ
fix_main fs =
    let run = fix_files fs in
    if run.ended
    then (run.files, run.lines ++ (if eqb run.total 0 then nothing_to_fix ∷ [] else []), 0)
    else (run.files, run.lines ++ fix_failed ∷ [], 1)

-- Without a replacement the text is as it was.
replace-zero : (n : ℕ) (s : List ℕ) → (replace n s).1 ≡ 0 → (replace n s).0 ≡ s
unfolding replace
replace-zero zero s e = refl
replace-zero (suc n) [] e = refl
replace-zero (suc n) (c ∷ s) e = elim (Option-cases (match_at c s)) [
  | inl h ↦ rw (h, replace) (ap (λ t. c ∷ t) (replace-zero n s (rw (h, replace) at e)))
  | inr ((found, rest), h) ↦ absurd (omega (arith, rw (h, replace) at e))
]

fixed-zero : (s : List ℕ) → (fixed s).1 ≡ 0 → (fixed s).0 ≡ s
unfolding fixed
fixed-zero s e = replace-zero (length s) s e

-- A file of SQL has the text that the replacement makes of it, and any other file is as it was.
abbrev pub IsFixed : File → File → Type 0
IsFixed f g =
    (g.name ≡ f.name)
    × (is_sql f.name ≡ true → g.units ≡ (fixed f.units).0)
    × (is_sql f.name ≡ false → g ≡ f)

abbrev pub Each : (File → File → Type 0) → List File → List File → Type 0
Each P [] [] = Unit {0}
Each P [] (g ∷ gs) = ⊥
Each P (f ∷ fs) [] = ⊥
Each P (f ∷ fs) (g ∷ gs) = P f g × Each P fs gs

fix_file_lem :
    (f g : File) (k : ℕ)
    → fix_file f ≡ some (g, k)
    → (g.name ≡ f.name)
      × (k ≡ (fixed f.units).1)
      × ((g.units ≡ (fixed f.units).0) ⊎ (((fixed f.units).1 ≡ 0) × (g.units ≡ f.units)))
unfolding fix_file
fix_file_lem f g k e = ground arith

fix_file-IsFixed :
    (f g : File) (k : ℕ) → is_sql f.name ≡ true → fix_file f ≡ some (g, k) → IsFixed f g
fix_file-IsFixed f g k sql e =
    let (named, counted, texts) = fix_file_lem f g k e in
    (
      named,
      (λ _. elim texts [
        | inl made ↦ made
        | inr (none_made, same) ↦ same ∙ sym (fixed-zero f.units none_made)
      ]),
      λ other. cc,
    )

skipped-IsFixed : (f : File) → is_sql f.name ≡ false → IsFixed f f
skipped-IsFixed f other = (refl, (λ sql. cc), λ _. refl)

one_round-IsFixed : (f g : File) (k : ℕ) → one_round f ≡ some (g, k) → IsFixed f g
unfolding one_round
one_round-IsFixed f g k e = elim (Bool-cases (is_sql f.name)) [
  | inl sql ↦ fix_file-IsFixed f g k sql (rw (sql, one_round) at e)
  | inr other ↦
      let same : f ≡ g = cc (rw (other, one_round) at e) in
      subst (IsFixed f) same (skipped-IsFixed f other)
]

-- A loop that comes to its end has rewritten every file of SQL, and nothing else.
pub fix_files-IsFixed :
    (fs : List File) → (fix_files fs).ended ≡ true → Each IsFixed fs (fix_files fs).files
unfolding fix_files
fix_files-IsFixed [] e = tt
fix_files-IsFixed (f ∷ fs) e = elim (Option-cases (one_round f)) [
  | inl fails ↦ let never = rw fails at e in cc
  | inr ((g, k), made) ↦ rw made (one_round-IsFixed f g k made, fix_files-IsFixed fs (rw made at e))
]
