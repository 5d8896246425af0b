-- ===== src/Fraction/Witnesses.antt =====
-- Fractions that are set and printed, and the theorem at one of them.
use personal_project.Common.{◌≡◌, refl, none, some, [], arith, ◌∷◌}
use personal_project.Decimal.{pos, negsuc, decimal_int}
use personal_project.Fraction.{
  Fraction, set, simplify, reduce, gcd_rounds, remainder, quotient, to_string,
}
use personal_project.Integers.{◌-ℤ◌}
use personal_project.Fraction.Signs.{◌*ℤ◌}
use personal_project.Fraction.Arithmetic.{divide, substract}
use personal_project.Fraction.Values.{minus, apply, fraction, apply-Reduces}
use personal_project.Fraction.Simplify.{Leaves}

-- -6 / 4
abbrev minus_six_fourths : Fraction
minus_six_fourths = record { nominator = negsuc 5; denominator = pos 4 }

-- The sign moves to the denominator.
set-signs : set (negsuc 5) (pos 4) ≡ some (record { nominator = pos 3; denominator = negsuc 1 })
unfolding set simplify reduce gcd_rounds remainder quotient
set-signs = refl

-- One half prints as 1/2.
to_string-half :
    to_string (record { nominator = pos 1; denominator = pos 2 }) ≡ some (b'1' ∷ b'/' ∷ b'2' ∷ [])
unfolding to_string decimal_int
to_string-half = refl

to_string-zero : to_string (record { nominator = pos 0; denominator = pos 2 }) ≡ none
unfolding to_string
to_string-zero = refl

abbrev two_thirds : Fraction
two_thirds = record { nominator = pos 2; denominator = pos 3 }

abbrev five_sixths : Fraction
five_sixths = record { nominator = pos 5; denominator = pos 6 }

-- 5/6 - 2/3 is 3/18 before it is reduced.
apply-Reduces_example :
    Leaves (fraction (pos 3) (pos 18)) (apply minus five_sixths (some two_thirds))
unfolding ◌*ℤ◌ ◌-ℤ◌
apply-Reduces_example =
    apply-Reduces minus five_sixths two_thirds (omega arith, omega arith) (omega arith, omega arith)
      refl

-- 2/3 divided by itself is 1/3.
two_thirds_self : divide two_thirds none ≡ some (fraction (pos 1) (pos 3))
unfolding divide ◌*ℤ◌ simplify reduce gcd_rounds remainder quotient
two_thirds_self = refl

-- The difference keeps the product of the divisors where it is 0.
difference_zero : substract five_sixths (some five_sixths) ≡ some (fraction (pos 0) (pos 36))
unfolding substract ◌*ℤ◌ ◌-ℤ◌ simplify
difference_zero = refl
