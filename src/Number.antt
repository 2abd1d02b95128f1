-- ===== src/Number.antt =====
-- JavaScript numbers without NaN, which no schema lets through: the infinities, and the finite
-- doubles as integer multiples of 2^-1074, of which every finite double is one.
use Prim.Native.Nat.{◌/◌, ◌%◌}
use crew_link.Base.{
  Option, some, none, if◌then◌else◌, leb, ◌+◌, ℕ, zero, suc, ◌-◌, ◌*◌, ◌^◌, ℤ, pos, negsuc, leℤ,
  Bool, true, false, ◌&&◌, eqb,
}

pub data Number : Type 0 where
  finite : ℤ → Number
  infinity neg_infinity : Number

-- The integer `n` and the integer `-n` as numbers.
unfoldable pub integer : ℕ → Number
integer n = finite (pos (n * 2 ^ 1074))

unfoldable pub neg_integer : ℕ → Number
neg_integer zero = finite (pos 0)
neg_integer (suc n) = finite (negsuc (suc n * 2 ^ 1074 - 1))

-- `Math.round(x)`, the floor of x + 1/2; none is an infinity.
unfoldable pub round : Number → Option ℤ
round (finite (pos n)) = some (pos ((n + 2 ^ 1073) / 2 ^ 1074))
round (finite (negsuc n)) =
    if leb (2 ^ 1073) n then some (negsuc ((n - 2 ^ 1073) / 2 ^ 1074)) else some (pos 0)
round infinity = none
round neg_infinity = none

-- `a <= b`
unfoldable pub le_number : Number → Number → Bool
le_number (finite a) (finite b) = leℤ a b
le_number (finite a) infinity = true
le_number (finite a) neg_infinity = false
le_number infinity infinity = true
le_number infinity _ = false
le_number neg_infinity _ = true

-- The integer that a number is; none where it is not an integer.
unfoldable pub integer_of : Number → Option ℤ
integer_of (finite (pos n)) = if eqb (n % 2 ^ 1074) 0 then some (pos (n / 2 ^ 1074)) else none
integer_of (finite (negsuc n)) =
    if eqb ((n + 1) % 2 ^ 1074) 0 then some (negsuc ((n + 1) / 2 ^ 1074 - 1)) else none
integer_of infinity = none
integer_of neg_infinity = none

-- The schema library's `.int().min(low).max(high)`, with the integer that passes.
unfoldable pub int_within : ℤ → ℤ → Number → Option ℤ
int_within low high x = elim (integer_of x) [
  | none ↦ none
  | some i ↦ if leℤ low i && leℤ i high then some i else none
]
