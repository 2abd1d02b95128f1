-- ===== src/InviteCode.antt =====
-- backend/src/util/invite_code.ts: a drawn invite code, and the schema of a request to join with it.
-- `draws` is the platform's `randomInt(0, 32)`, call by call.
use Prim.Native.Char.{Char, code}
use Prim.Native.String.{◌∷◌ as ◌cons◌}
use crew_link.Base.{
  ℕ, zero, suc, ◌+◌, ◌<◌, String, true, List, [], ◌∷◌, All, length, leb, ◌≡◌, refl, arith,
}
use crew_link.Wire.Schema.{utf16_length, min_length, max_length}
use crew_link.Routes.{join_body_schema}

abbrev pub chars : String → List Char
chars String.[] = []
chars (String.◌∷◌ c s) = c ∷ chars s

abbrev pub alphabet : List Char
alphabet = chars "ABCDEFGHJKLMNPQRSTUVWXYZ23456789"

-- `charAt(i)` in front of a text; nothing where there is no such place.
unfoldable pub push_char : List Char → ℕ → String → String
push_char [] i s = s
push_char (c ∷ cs) zero s = c cons s
push_char (c ∷ cs) (suc i) s = push_char cs i s

-- The loop from `i` on, `n` times.
unfoldable pub generate : (ℕ → ℕ) → ℕ → ℕ → String
generate draws i zero = ""
generate draws i (suc n) = push_char alphabet (draws i) (generate draws (suc i) n)

unfoldable pub generate_invite_code : (ℕ → ℕ) → String
generate_invite_code draws = generate draws 0 6

push_char-utf16_length :
    (cs : List Char) (i : ℕ) (s : String)
    → i < length cs
    → All (λ c. leb (code c) 0xffff ≡ true) cs
    → utf16_length (push_char cs i s) ≡ 1 + utf16_length s
unfolding push_char utf16_length
push_char-utf16_length [] i s b a = ground arith
push_char-utf16_length (c ∷ cs) zero s b (h, a) = rw h refl
push_char-utf16_length (c ∷ cs) (suc i) s b (h, a) = push_char-utf16_length cs i s (omega arith) a

alphabet_narrow : All (λ c. leb (code c) 0xffff ≡ true) alphabet
alphabet_narrow = ground arith

generate-utf16_length :
    (draws : ℕ → ℕ) (i n : ℕ) → ((k : ℕ) → draws k < 32) → utf16_length (generate draws i n) ≡ n
unfolding generate utf16_length
generate-utf16_length draws i zero h = refl
generate-utf16_length draws i (suc n) h =
    rw
      (
        push_char-utf16_length alphabet (draws i) (generate draws (suc i) n) (h i) alphabet_narrow,
        generate-utf16_length draws (suc i) n h,
      )
      (omega arith)

-- Whatever is drawn, the code has six characters, and a request to join with it passes the schema.
pub generate_invite_code-join_body_schema :
    (draws : ℕ → ℕ)
    → ((k : ℕ) → draws k < 32)
    → (utf16_length (generate_invite_code draws) ≡ 6)
      × (join_body_schema (record { invite_code = generate_invite_code draws }) ≡ true)
unfolding generate_invite_code join_body_schema min_length max_length
generate_invite_code-join_body_schema draws h =
    let six = generate-utf16_length draws 0 6 h in (six, rw six refl)
