-- ===== src/Integers.antt =====
-- Integers: the sums and differences of numbers that may be negative.
use personal_project.Common.{
  not, ℕ, zero, suc, ◌+◌, ◌-◌, ◌%◌, ◌^◌, ◌≤◌, ◌≡◌, refl, arith, Bool, true, false, ltb, ◌==◌, ◌<◌,
  if◌then◌else◌,
}
use personal_project.Decimal.{ℤ, pos, negsuc, is_negative}

infixl 60 ◌+ℤ◌ ◌-ℤ◌
abbrev pub difference : ℕ → ℕ → ℤ
difference a b = if ltb a b then negsuc (b - a - 1) else pos (a - b)

abbrev pub ◌+ℤ◌ : ℤ → ℤ → ℤ
pos a +ℤ pos b = pos (a + b)
pos a +ℤ negsuc b = difference a (b + 1)
negsuc a +ℤ pos b = difference b (a + 1)
negsuc a +ℤ negsuc b = negsuc (a + b + 1)

abbrev pub neg : ℤ → ℤ
neg (pos zero) = pos zero
neg (pos (suc n)) = negsuc n
neg (negsuc n) = pos (suc n)

unfoldable pub ◌-ℤ◌ : ℤ → ℤ → ℤ
a -ℤ b = a +ℤ neg b

abbrev pub ltb_ℤ : ℤ → ℤ → Bool
ltb_ℤ (pos a) (pos b) = ltb a b
ltb_ℤ (pos a) (negsuc b) = false
ltb_ℤ (negsuc a) (pos b) = true
ltb_ℤ (negsuc a) (negsuc b) = ltb b a

abbrev pub leb_ℤ : ℤ → ℤ → Bool
leb_ℤ a b = not (ltb_ℤ b a)

abbrev pub equal_ℤ : ℤ → ℤ → Bool
equal_ℤ (pos a) (pos b) = a == b
equal_ℤ (negsuc a) (negsuc b) = a == b
equal_ℤ _ _ = false

-- A conversion of 32 bits to an `int`.
abbrev pub to_int : ℕ → ℤ
to_int n = if ltb n (2 ^ 31) then pos n else negsuc (2 ^ 32 - 1 - n)

-- A conversion to 32 bits without a sign.
abbrev pub to_unsigned : ℤ → ℕ
to_unsigned (pos n) = n % 2 ^ 32
to_unsigned (negsuc n) = 2 ^ 32 - 1 - n % 2 ^ 32

pub sub-ge : (a b : ℕ) → b ≤ a → pos a -ℤ pos b ≡ pos (a - b)
unfolding ◌-ℤ◌
sub-ge a zero h = ground arith
sub-ge a (suc b) h = ground arith

pub sub-lt : (a b : ℕ) → a < b → is_negative (pos a -ℤ pos b) ≡ true
unfolding ◌-ℤ◌
sub-lt a zero h = absurd (omega arith)
sub-lt a (suc b) h = ground arith

pub sub-negative : (a b : ℕ) → is_negative (negsuc a -ℤ pos b) ≡ true
unfolding ◌-ℤ◌
sub-negative a zero = ground arith
sub-negative a (suc b) = refl

-- The low 32 bits of one more than a negative number.
pub to_unsigned-suc : (n : ℕ) → to_unsigned (negsuc n +ℤ pos 1) ≡ (2 ^ 32 - n % 2 ^ 32) % 2 ^ 32
to_unsigned-suc n = ground arith
