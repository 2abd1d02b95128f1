-- ===== src/Text.antt =====
-- What the backend asks of JavaScript's texts: white space, `trim`, and `slice` in UTF-16 units.
use Prim.Native.Char.{code}
use Prim.Native.String.{◌∷◌ as ◌cons◌}
use crew_link.Base.{ℕ, ◌-◌, String, Bool, false, ◌||◌, ◌&&◌, leb, eqb, if◌then◌else◌, ◌==◌}

-- `\s`, which is also what `trim` takes away.
unfoldable pub is_space : ℕ → Bool
is_space c =
    (leb 9 c && leb c 13)
    || (eqb c 32 || eqb c 160)
    || (eqb c 0x1680 || (leb 0x2000 c && leb c 0x200a))
    || (eqb c 0x2028 || eqb c 0x2029)
    || (eqb c 0x202f || eqb c 0x205f)
    || (eqb c 0x3000 || eqb c 0xfeff)

-- What `.` does not match.
unfoldable pub is_line_end : ℕ → Bool
is_line_end c = (eqb c 10 || eqb c 13) || (eqb c 0x2028 || eqb c 0x2029)

unfoldable pub has_line_end : String → Bool
has_line_end String.[] = false
has_line_end (String.◌∷◌ c s) = is_line_end (code c) || has_line_end s

unfoldable pub trim_start : String → String
trim_start String.[] = ""
trim_start (String.◌∷◌ c s) =
    let rest = trim_start s in if is_space (code c) then rest else c cons s

-- A space at the end is dropped.
unfoldable pub trim_end : String → String
trim_end String.[] = ""
trim_end (String.◌∷◌ c s) =
    let rest = trim_end s in if rest == "" && is_space (code c) then "" else c cons rest

-- `.slice(0, n)`. A pair of surrogates that the end cuts is written out as U+FFFD.
unfoldable pub utf16_take : ℕ → String → String
utf16_take n String.[] = ""
utf16_take n (String.◌∷◌ c s) =
    let wide = leb 0x10000 (code c) in
    let rest = utf16_take (n - (if wide then 2 else 1)) s in
    if eqb n 0 then "" else if wide && eqb n 1 then "�" else c cons rest
