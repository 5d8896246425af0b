-- ===== src/Fraction/Simplify.antt =====
-- `simplify` of Fraction.cpp ends with the fraction in lowest terms.
use personal_project.Common.{
  ℕ, suc, ◌<◌, ◌≡◌, ◌⊎◌, inl, inr, sym, ap, ◌∙◌, true, false, Bool-cases, Option, some, arith,
}
use Prim.Native.Nat.{◌∣◌}
use native.Mathlib.Nat
use personal_project.Decimal.{ℤ, pos, is_zero}
use personal_project.Fraction.{
  magnitude, quotient, gcd, is_one, Fraction, divided, reduce, is_simple, simplify,
}
use personal_project.Fraction.Signs.{
  ◌*ℤ◌, is_one→one, one-*ℤ, magnitude-*ℤ, *ℤ-quotient, *ℤ_one, not_zero→magnitude,
}
use personal_project.Fraction.Gcd.{some_inj, IsGcd, gcd_rounds-IsGcd, gcd_rounds-*ℤ}

-- After one division the greatest common divisor is 1, also where it was negative.
gcd-divided :
    (a b d : ℤ)
    → 0 < magnitude b
    → gcd a b ≡ some d
    → magnitude d ∣ magnitude a
    → magnitude d ∣ magnitude b
    → (gcd (quotient a d) (quotient b d) ≡ some (pos 1))
      × IsGcd 1 (magnitude (quotient a d)) (magnitude (quotient b d))
gcd-divided a b d hb ended left right =
    let (x, ends, common) =
      gcd_rounds-IsGcd (magnitude q) p q (Nat.pos_of_dvd_of_pos q-dvd hb) (omega arith) in
    let lifted =
      gcd_rounds-*ℤ d hd (magnitude q) (magnitude b) p q x (Nat.le_of_dvd hb q-dvd) ends in
    let back = rw (*ℤ-quotient a d left, *ℤ-quotient b d right) at lifted in
    let one = *ℤ_one d x hd (some_inj (d *ℤ x) d (sym back ∙ ended)) in
    (ends ∙ ap some one, rw one at common)
  where
    p : ℤ
    p = quotient a d

    q : ℤ
    q = quotient b d

    hd : 0 < magnitude d
    hd = Nat.pos_of_dvd_of_pos right hb

    q-dvd : magnitude q ∣ magnitude b
    q-dvd =
        rw (sym (magnitude-*ℤ d q) ∙ ap magnitude (*ℤ-quotient b d right)) at
          (Nat.dvd-mul_left (magnitude q) (magnitude d))

-- No number but 1 divides both.
abbrev pub IsLowest : Fraction → Type 0
IsLowest f = (k : ℕ) → k ∣ magnitude f.nominator → k ∣ magnitude f.denominator → k ≡ 1

-- A fraction times a number above and below.
abbrev pub scaled : ℤ → Fraction → Fraction
scaled d f = record { nominator = d *ℤ f.nominator; denominator = d *ℤ f.denominator }

scaled-one : (f : Fraction) → f ≡ scaled (pos 1) f
scaled-one f = rw (one-*ℤ f.nominator, one-*ℤ f.denominator)

IsGcd-IsLowest :
    (f : Fraction) → IsGcd 1 (magnitude f.nominator) (magnitude f.denominator) → IsLowest f
IsGcd-IsLowest f h k left right = Nat.eq-one_of_dvd-one (h.2 k left right)

one-IsLowest : (f : Fraction) → (f.nominator ≡ pos 1) ⊎ (f.denominator ≡ pos 1) → IsLowest f
one-IsLowest f (inl e) k left right = Nat.eq-one_of_dvd-one (rw e at left)
one-IsLowest f (inr e) k left right = Nat.eq-one_of_dvd-one (rw e at right)

module _ (fuel : ℕ) (f : Fraction) where
  reduce-one : gcd f.nominator f.denominator ≡ some (pos 1) → reduce (suc fuel) f ≡ some f
  unfolding reduce
  reduce-one h = rw (reduce, h)

  reduce-divided :
      (d : ℤ)
      → gcd f.nominator f.denominator ≡ some d
      → is_one d ≡ false
      → reduce (suc fuel) f ≡ reduce fuel (divided d f)
  unfolding reduce
  reduce-divided d h e = rw (reduce, h, e)

-- The fraction that is left.
abbrev pub Leaves : Fraction → Option Fraction → Type 0
Leaves f o = (d : ℤ) × (g : Fraction) × (o ≡ some g) × (f ≡ scaled d g) × IsLowest g

reduce-Leaves : (f : Fraction) → 0 < magnitude f.denominator → Leaves f (reduce 2 f)
reduce-Leaves f h =
    let (d, ended, common) =
      gcd_rounds-IsGcd (magnitude f.denominator) f.nominator f.denominator h (omega arith) in
    elim (Bool-cases (is_one d)) [
      | inl e ↦ (
        pos 1,
        f,
        reduce-one 1 f (ended ∙ ap some (is_one→one d e)),
        scaled-one f,
        IsGcd-IsLowest f (rw (is_one→one d e) at common),
      )
      | inr e ↦
          let (ends, lowest) = gcd-divided f.nominator f.denominator d h ended common.0 common.1 in
          (
            d,
            divided d f,
            reduce-divided 1 f d ended e ∙ reduce-one 0 (divided d f) ends,
            rw (*ℤ-quotient f.nominator d common.0, *ℤ-quotient f.denominator d common.1),
            IsGcd-IsLowest (divided d f) lowest,
          )
    ]

is_simple-one :
    (f : Fraction)
    → is_zero f.nominator ≡ false
    → is_zero f.denominator ≡ false
    → is_simple f ≡ true
    → (f.nominator ≡ pos 1) ⊎ (f.denominator ≡ pos 1)
is_simple-one f hn hd h = elim (Bool-cases (is_one f.nominator)) [
  | inl e ↦ inl (is_one→one f.nominator e)
  | inr e ↦ inr (is_one→one f.denominator (rw (hn, hd, e) at h))
]

-- If neither number of a fraction is 0, the loop of simplify ends, after at most one division, and the
-- fraction that it leaves has the same value and is in lowest terms.
pub simplify-IsLowest :
    (f : Fraction)
    → is_zero f.nominator ≡ false
    → is_zero f.denominator ≡ false
    → Leaves f (simplify f)
unfolding simplify
simplify-IsLowest f hn hd = elim (Bool-cases (is_simple f)) [
  | inl e ↦ (pos 1, f, rw e, scaled-one f, one-IsLowest f (is_simple-one f hn hd e))
  | inr e ↦
      let (d, g, left, value, lowest) = reduce-Leaves f (not_zero→magnitude f.denominator hd) in
      (d, g, rw e left, value, lowest)
]
