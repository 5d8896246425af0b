-- ===== src/Fraction.antt =====
-- Fraction.cpp: a fraction of two ints that `simplify` reduces. Its quotients and remainders are those of C,
-- and fit an int except for INT_MIN and -1, where C leaves open what happens.
pub mod Signs
pub mod Gcd
pub mod Simplify
pub mod Arithmetic
pub mod Values
mod Witnesses
use personal_project.Common.{
  ℕ, zero, suc, ◌*◌, ◌/◌, ◌%◌, Bool, true, false, ◌&&◌, ◌||◌, Option, none, some, List, [], ◌∷◌,
  ◌++◌, ◌==◌, if◌then◌else◌,
}
use personal_project.Decimal.{Bytes, ℤ, pos, negsuc, is_negative, is_zero, decimal_int}

abbrev pub magnitude : ℤ → ℕ
magnitude (pos n) = n
magnitude (negsuc n) = suc n

abbrev pub with_sign : Bool → ℕ → ℤ
with_sign false n = pos n
with_sign true zero = pos 0
with_sign true (suc n) = negsuc n

abbrev pub unlike : Bool → Bool → Bool
unlike false s = s
unlike true false = true
unlike true true = false

-- `%` of C: the sign is that of the dividend.
unfoldable pub remainder : ℤ → ℤ → ℤ
remainder a b = with_sign (is_negative a) (magnitude a % magnitude b)

-- `/` of C: rounded towards zero.
unfoldable pub quotient : ℤ → ℤ → ℤ
quotient a b = with_sign (unlike (is_negative a) (is_negative b)) (magnitude a / magnitude b)

-- The rounds of `gcd`; the fuel is the magnitude of `b`. It is called only where `b` is not 0.
unfoldable pub gcd_rounds : ℕ → ℤ → ℤ → Option ℤ
gcd_rounds zero a b = none
gcd_rounds (suc fuel) a b = elim (is_zero (remainder a b)) [
  | true ↦ some b
  | false ↦ elim (is_zero (remainder b (remainder a b))) [
    | true ↦ some (remainder a b)
    | false ↦ gcd_rounds fuel (remainder a b) (remainder b (remainder a b))
  ]
]

abbrev pub gcd : ℤ → ℤ → Option ℤ
gcd a b = gcd_rounds (magnitude b) a b

abbrev pub is_one : ℤ → Bool
is_one (pos n) = n == 1
is_one (negsuc n) = false

pub record Fraction : Type 0 where
  pub nominator : ℤ
  pub denominator : ℤ

abbrev pub divided : ℤ → Fraction → Fraction
divided d f = record { nominator = quotient f.nominator d; denominator = quotient f.denominator d }

-- The loop of `simplify`; `none` if it does not end within so many tests.
unfoldable pub reduce : ℕ → Fraction → Option Fraction
reduce zero f = none
reduce (suc fuel) f = elim (gcd f.nominator f.denominator) [
  | none ↦ none
  | some d ↦ elim (is_one d) [ true ↦ some f | false ↦ reduce fuel (divided d f) ]
]

abbrev pub is_simple : Fraction → Bool
is_simple f =
    is_zero f.nominator || is_zero f.denominator || is_one f.nominator || is_one f.denominator

-- Two tests of the loop are enough.
unfoldable pub simplify : Fraction → Option Fraction
simplify f = if is_simple f then some f else reduce 2 f

-- `set` and the constructor
unfoldable pub set : ℤ → ℤ → Option Fraction
unfolding simplify
set nominator denominator = simplify (record { nominator = nominator; denominator = denominator })

abbrev printed : Fraction → Bytes
printed f =
    if is_one f.denominator
    then decimal_int f.nominator
    else decimal_int f.nominator ++ b'/' ∷ decimal_int f.denominator

-- `none` where the string is made of a null pointer.
unfoldable pub to_string : Fraction → Option Bytes
to_string f =
    if is_zero f.nominator && is_zero f.denominator
    then some (b'N' ∷ b'a' ∷ b'N' ∷ [])
    else if is_zero f.nominator
    then none
    else if is_zero f.denominator
    then some ((if is_negative f.nominator then b'-' else b'+') ∷ b'i' ∷ b'n' ∷ b'f' ∷ [])
    else if is_one f.nominator && is_one f.denominator
    then some (b'1' ∷ [])
    else some (printed f)
