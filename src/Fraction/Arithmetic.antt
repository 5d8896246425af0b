-- ===== src/Fraction/Arithmetic.antt =====
-- The four operations of Fraction.cpp, which change the fraction that they are called on. The other one may be
-- the same object (`none`), and is then read as it has become. A result that does not fit an int, which C++
-- leaves open, is `none` too.
use personal_project.Common.{Bool, Option, none, some, ltb, if◌then◌else◌}
use personal_project.Decimal.{ℤ, pos, negsuc}
use personal_project.Integers.{◌+ℤ◌, ◌-ℤ◌}
use personal_project.Fraction.{Fraction, simplify}
use personal_project.Fraction.Signs.{◌*ℤ◌}

infixl 5 ◌>>=◌
abbrev ◌>>=◌ : {A B : Type 0} → Option A → (A → Option B) → Option B
none >>= f = none
some a >>= f = f a

abbrev pub fits : ℤ → Bool
fits (pos n) = ltb n 2147483648
fits (negsuc n) = ltb n 2147483648

abbrev pub checked : ℤ → Option ℤ
checked n = if fits n then some n else none

abbrev pub read : Option Fraction → Fraction → Fraction
read none this = this
read (some other) this = other

abbrev pub with_nominator : ℤ → Fraction → Fraction
with_nominator n f = record f { nominator = n }

abbrev pub with_denominator : ℤ → Fraction → Fraction
with_denominator d f = record f { denominator = d }

unfoldable pub add : Fraction → Option Fraction → Option Fraction
add f o = do
  a ← checked (f.nominator *ℤ (read o f).denominator)
  b ← checked (f.denominator *ℤ (read o f).nominator)
  n ← checked (a +ℤ b)
  let g = with_nominator n f
  d ← checked (g.denominator *ℤ (read o g).denominator)
  simplify (with_denominator d g)

unfoldable pub substract : Fraction → Option Fraction → Option Fraction
substract f o = do
  a ← checked (f.nominator *ℤ (read o f).denominator)
  b ← checked (f.denominator *ℤ (read o f).nominator)
  n ← checked (a -ℤ b)
  let g = with_nominator n f
  d ← checked (g.denominator *ℤ (read o g).denominator)
  simplify (with_denominator d g)

unfoldable pub multiply : Fraction → Option Fraction → Option Fraction
multiply f o = do
  n ← checked (f.nominator *ℤ (read o f).nominator)
  let g = with_nominator n f
  d ← checked (g.denominator *ℤ (read o g).denominator)
  simplify (with_denominator d g)

unfoldable pub divide : Fraction → Option Fraction → Option Fraction
divide f o = do
  n ← checked (f.nominator *ℤ (read o f).denominator)
  let g = with_nominator n f
  d ← checked (g.denominator *ℤ (read o g).nominator)
  simplify (with_denominator d g)
