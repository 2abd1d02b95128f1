-- ===== src/Auth/Bearer.antt =====
-- backend/src/services/auth.ts: the bearer token of an Authorization header, and the whole hook.
use Prim.Native.Char.{code}
use Prim.Native.String.{◌∷◌ as ◌cons◌, ◌++◌ as ◌append◌}
use text.Mathlib.TextLemmas.{cons-append, nil-append}
use crew_link.Base.{
  ℕ, ◌+◌, ℤ, String, true, false, ◌&&◌, not, Option, none, some, List, [], ◌∷◌, leb, eqb,
  if◌then◌else◌, ◌≡◌, ◌≢◌, map, refl, arith,
}
use mathlib.Core.Option
use crew_link.Db.Query.{Query}
use crew_link.Text.{is_space, is_line_end, has_line_end, trim_start, trim_end}
use crew_link.Auth.{TokenVerifier, AuthUser, auth_hook}

abbrev pub codes : String → List ℕ
codes String.[] = []
codes (String.◌∷◌ c s) = code c ∷ codes s

-- A letter of either case, for the flag `i`.
unfoldable pub lower : ℕ → ℕ
lower c = if leb b'A' c && leb c b'Z' then c + 32 else c

-- The text after a word, in any case.
unfoldable pub after_word : List ℕ → String → Option String
after_word [] s = some s
after_word (w ∷ ws) String.[] = none
after_word (w ∷ ws) (String.◌∷◌ c s) =
    let rest = after_word ws s in if eqb (lower (code c)) w then rest else none

-- The group of the pattern, trimmed: `\s+` takes all the white space, and what follows it to the end
-- is on one line.
unfoldable pub group_of : String → String
group_of String.[] = ""
group_of (String.◌∷◌ c s) =
    if is_space (code c) && not (has_line_end (trim_start s)) then trim_end (trim_start s) else ""

abbrev pub bearer : List ℕ
bearer = b'b' ∷ b'e' ∷ b'a' ∷ b'r' ∷ b'e' ∷ b'r' ∷ []

unfoldable pub bearer_token : String → String
bearer_token header = elim (after_word bearer header) [ none ↦ "" | some rest ↦ group_of rest ]

-- `createAuthHook`, from the header on; none is the answer 401.
unfoldable pub authenticate : TokenVerifier → String → ℤ → Option String → Query (Option AuthUser)
authenticate verify_token uuid now authorization =
    auth_hook verify_token uuid now (bearer_token (Option.get_or authorization ""))

abbrev pub EverySpace : String → Type 0
EverySpace String.[] = Unit {0}
EverySpace (String.◌∷◌ c s) = (is_space (code c) ≡ true) × EverySpace s

-- No white space.
abbrev pub IsPlain : String → Type 0
IsPlain String.[] = Unit {0}
IsPlain (String.◌∷◌ c s) = (is_space (code c) ≡ false) × IsPlain s

after_word-append :
    (word rest : String) → after_word (map lower (codes word)) (word append rest) ≡ some rest
unfolding after_word
after_word-append String.[] rest = rw (nil-append rest) refl
after_word-append (String.◌∷◌ c s) rest =
    rw (cons-append c s rest) (ground (arith, after_word-append s rest))

trim_start_plain : (s : String) → IsPlain s → trim_start s ≡ s
unfolding trim_start
trim_start_plain String.[] p = refl
trim_start_plain (String.◌∷◌ c s) (h, p) = rw h refl

trim_start-append :
    (spaces token : String)
    → EverySpace spaces
    → IsPlain token
    → trim_start (spaces append token) ≡ token
unfolding trim_start
trim_start-append String.[] token e p = rw (nil-append token) (trim_start_plain token p)
trim_start-append (String.◌∷◌ c s) token (h, e) p =
    rw (cons-append c s token) (rw h (trim_start-append s token e p))

trim_end_plain : (s : String) → IsPlain s → trim_end s ≡ s
unfolding trim_end
trim_end_plain String.[] p = refl
trim_end_plain (String.◌∷◌ c s) (h, p) = ground (arith, trim_end_plain s p)

one_line : (s : String) → IsPlain s → has_line_end s ≡ false
unfolding has_line_end is_line_end is_space
one_line String.[] p = refl
one_line (String.◌∷◌ c s) (h, p) = ground (arith, one_line s p)

pub bearer_token-append :
    (word spaces token : String)
    → map lower (codes word) ≡ bearer
    → EverySpace spaces
    → spaces ≢ ""
    → IsPlain token
    → bearer_token (word append (spaces append token)) ≡ token
unfolding bearer_token group_of
bearer_token-append word String.[] token w e n p = elim (n refl) [ ]
bearer_token-append word (String.◌∷◌ c s) token w (h, e) n p =
    let found : after_word bearer (word append ((c cons s) append token))
        ≡ some ((c cons s) append token) =
      rw w at (after_word-append word ((c cons s) append token)) in
    rw (found, bearer_token)
      (rw (cons-append c s token, group_of)
        (rw (h, trim_start-append s token e p, one_line token p) (trim_end_plain token p)))
