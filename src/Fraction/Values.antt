-- ===== src/Fraction/Values.antt =====
-- What the four operations give: the sum, the difference, the product and the quotient in lowest terms.
use personal_project.Common.{
  ℕ, zero, suc, ◌+◌, ◌*◌, ◌≤◌, ◌<◌, ◌≡◌, refl, sym, ◌∙◌, Bool, true, false, Option, none, some,
  arith,
}
use mathlib.Core.Path.{subst}
use native.Mathlib.Nat
use personal_project.Decimal.{ℤ, pos, negsuc, is_zero}
use personal_project.Integers.{◌+ℤ◌, ◌-ℤ◌, neg}
use personal_project.Fraction.{magnitude, Fraction, simplify}
use personal_project.Fraction.Signs.{◌*ℤ◌, magnitude-*ℤ, not_zero→magnitude, is_zero-*ℤ}
use personal_project.Fraction.Simplify.{Leaves, simplify-IsLowest}
use personal_project.Fraction.Arithmetic.{checked, add, substract, multiply, divide}

magnitude-+ℤ : (a b : ℤ) → magnitude (a +ℤ b) ≤ magnitude a + magnitude b
magnitude-+ℤ (pos a) (pos b) = omega arith
magnitude-+ℤ (pos a) (negsuc b) = ground arith
magnitude-+ℤ (negsuc a) (pos b) = ground arith
magnitude-+ℤ (negsuc a) (negsuc b) = omega arith

magnitude-neg : (a : ℤ) → magnitude (neg a) ≡ magnitude a
magnitude-neg (pos zero) = refl
magnitude-neg (pos (suc n)) = refl
magnitude-neg (negsuc n) = refl

magnitude--ℤ : (a b : ℤ) → magnitude (a -ℤ b) ≤ magnitude a + magnitude b
unfolding ◌-ℤ◌
magnitude--ℤ a b = omega (arith, magnitude-+ℤ a (neg b), magnitude-neg b)

checked-small : (a : ℤ) → magnitude a < 2147483648 → checked a ≡ some a
checked-small (pos n) h = ground arith
checked-small (negsuc n) h = ground arith

product-le : (a b : ℤ) (m n : ℕ) → magnitude a ≤ m → magnitude b ≤ n → magnitude (a *ℤ b) ≤ m * n
product-le a b m n ha hb = rw (magnitude-*ℤ a b) (Nat.mul-le-mul ha hb)

product_bound :
    (a b : ℤ) → magnitude a < 32768 → magnitude b < 32768 → magnitude (a *ℤ b) ≤ 1073676289
product_bound a b ha hb = product-le a b 32767 32767 (omega arith) (omega arith)

-- The product of two numbers of 15 bits.
checked-*ℤ :
    (a b : ℤ) → magnitude a < 32768 → magnitude b < 32768 → checked (a *ℤ b) ≡ some (a *ℤ b)
checked-*ℤ a b ha hb = checked-small (a *ℤ b) (omega (arith, product_bound a b ha hb))

module _ (a b c d : ℤ) (ha : magnitude a < 32768) (hb : magnitude b < 32768)
    (hc : magnitude c < 32768) (hd : magnitude d < 32768) where
  checked-+ℤ : checked ((a *ℤ b) +ℤ (c *ℤ d)) ≡ some ((a *ℤ b) +ℤ (c *ℤ d))
  checked-+ℤ = checked-small ((a *ℤ b) +ℤ (c *ℤ d)) (
      omega
        (arith, magnitude-+ℤ (a *ℤ b) (c *ℤ d), product_bound a b ha hb, product_bound c d hc hd))

  checked--ℤ : checked ((a *ℤ b) -ℤ (c *ℤ d)) ≡ some ((a *ℤ b) -ℤ (c *ℤ d))
  checked--ℤ = checked-small ((a *ℤ b) -ℤ (c *ℤ d)) (
      omega
        (arith, magnitude--ℤ (a *ℤ b) (c *ℤ d), product_bound a b ha hb, product_bound c d hc hd))

pub data Op : Type 0 where
  plus minus times over : Op

unfoldable pub apply : Op → Fraction → Option Fraction → Option Fraction
apply plus = add
apply minus = substract
apply times = multiply
apply over = divide

abbrev pub fraction : ℤ → ℤ → Fraction
fraction n d = record { nominator = n; denominator = d }

-- The result of an operation before it is reduced.
abbrev pub exact : Op → Fraction → Fraction → Fraction
exact plus f g =
    fraction ((f.nominator *ℤ g.denominator) +ℤ (f.denominator *ℤ g.nominator))
      (f.denominator *ℤ g.denominator)
exact minus f g =
    fraction ((f.nominator *ℤ g.denominator) -ℤ (f.denominator *ℤ g.nominator))
      (f.denominator *ℤ g.denominator)
exact times f g = fraction (f.nominator *ℤ g.nominator) (f.denominator *ℤ g.denominator)
exact over f g = fraction (f.nominator *ℤ g.denominator) (f.denominator *ℤ g.nominator)

-- Both numbers have 15 bits.
abbrev pub IsShort : Fraction → Type 0
IsShort f = (magnitude f.nominator < 32768) × (magnitude f.denominator < 32768)

apply-simplify :
    (op : Op) (f g : Fraction)
    → IsShort f
    → IsShort g
    → apply op f (some g) ≡ simplify (exact op f g)
unfolding apply add substract multiply divide
apply-simplify plus f g hf hg = rw (
  checked-*ℤ f.nominator g.denominator hf.0 hg.1,
  checked-*ℤ f.denominator g.nominator hf.1 hg.0,
  checked-+ℤ f.nominator g.denominator f.denominator g.nominator hf.0 hg.1 hf.1 hg.0,
  checked-*ℤ f.denominator g.denominator hf.1 hg.1,
)
apply-simplify minus f g hf hg = rw (
  checked-*ℤ f.nominator g.denominator hf.0 hg.1,
  checked-*ℤ f.denominator g.nominator hf.1 hg.0,
  checked--ℤ f.nominator g.denominator f.denominator g.nominator hf.0 hg.1 hf.1 hg.0,
  checked-*ℤ f.denominator g.denominator hf.1 hg.1,
)
apply-simplify times f g hf hg =
    rw (
      checked-*ℤ f.nominator g.nominator hf.0 hg.0,
      checked-*ℤ f.denominator g.denominator hf.1 hg.1,
    )
apply-simplify over f g hf hg =
    rw (
      checked-*ℤ f.nominator g.denominator hf.0 hg.1,
      checked-*ℤ f.denominator g.nominator hf.1 hg.0,
    )

-- The fraction itself where it is 0, and otherwise the same value in lowest terms.
abbrev pub Reduces : Bool → Fraction → Option Fraction → Type 0
Reduces true f o = o ≡ some f
Reduces false f o = Leaves f o

simplify-Reduces :
    (f : Fraction) → is_zero f.denominator ≡ false → Reduces (is_zero f.nominator) f (simplify f)
simplify-Reduces f h = go (is_zero f.nominator) refl
  where
    go : (b : Bool) → is_zero f.nominator ≡ b → Reduces b f (simplify f)
    go true e = unfold simplify in rw e
    go false e = simplify-IsLowest f e h

-- If the numbers of both fractions have 15 bits and the denominator of the result is not 0, nothing overflows
-- and the loops end: each of the four operations gives the sum, the difference, the product or the quotient, in
-- lowest terms if it is not 0, and with the product of the two divisors below it if it is 0.
pub apply-Reduces :
    (op : Op) (f g : Fraction)
    → IsShort f
    → IsShort g
    → is_zero (exact op f g).denominator ≡ false
    → Reduces (is_zero (exact op f g).nominator) (exact op f g) (apply op f (some g))
apply-Reduces op f g hf hg h =
    subst (Reduces (is_zero (exact op f g).nominator) (exact op f g))
      (sym (apply-simplify op f g hf hg)) (simplify-Reduces (exact op f g) h)

-- A fraction of numbers below 1291 divided by itself, as one object: the divisor is read when the nominator has
-- become the product, so that the result is that product over itself times the denominator, in lowest terms,
-- and not 1.
divide_self :
    (f : Fraction)
    → magnitude f.nominator < 1291
    → magnitude f.denominator < 1291
    → is_zero f.nominator ≡ false
    → is_zero f.denominator ≡ false
    → Leaves
        (fraction (f.nominator *ℤ f.denominator) (f.denominator *ℤ (f.nominator *ℤ f.denominator)))
        (divide f none)
unfolding divide
divide_self f hn hd n d =
    subst (Leaves (fraction product (f.denominator *ℤ product))) (sym divided) (
      simplify-IsLowest (fraction product (f.denominator *ℤ product)) not_zero
        (is_zero-*ℤ f.denominator product (not_zero→magnitude f.denominator d) ∙ not_zero))
  where
    product : ℤ
    product = f.nominator *ℤ f.denominator

    small : magnitude product ≤ 1664100
    small = product-le f.nominator f.denominator 1290 1290 (omega arith) (omega arith)

    below : magnitude (f.denominator *ℤ product) ≤ 2146689000
    below = product-le f.denominator product 1290 1664100 (omega arith) small

    not_zero : is_zero product ≡ false
    not_zero = is_zero-*ℤ f.nominator f.denominator (not_zero→magnitude f.nominator n) ∙ d

    divided : divide f none ≡ simplify (fraction product (f.denominator *ℤ product))
    divided = rw (
      checked-small product (omega (arith, small)),
      checked-small (f.denominator *ℤ product) (omega (arith, below)),
    )
