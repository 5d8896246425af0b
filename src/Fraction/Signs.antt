-- ===== src/Fraction/Signs.antt =====
-- Magnitudes and signs: remainders of multiples.
use personal_project.Common.{
  ==→eq, ℕ, zero, suc, ◌*◌, ◌/◌, ◌%◌, ◌<◌, ◌≡◌, ◌≢◌, refl, sym, ap, ◌∙◌, Bool, true, false, arith,
}
use Prim.Native.Nat.{◌∣◌}
use native.Mathlib.Nat
use personal_project.Decimal.{ℤ, pos, negsuc, is_negative, is_zero}
use personal_project.Fraction.{magnitude, with_sign, unlike, remainder, quotient, is_one}

infix 60 ◌*ℤ◌
unfoldable pub ◌*ℤ◌ : ℤ → ℤ → ℤ
a *ℤ b = with_sign (unlike (is_negative a) (is_negative b)) (magnitude a * magnitude b)

magnitude-with_sign : (s : Bool) (n : ℕ) → magnitude (with_sign s n) ≡ n
magnitude-with_sign false n = refl
magnitude-with_sign true zero = refl
magnitude-with_sign true (suc n) = refl

negative-with_sign : (s : Bool) (n : ℕ) → 0 < n → is_negative (with_sign s n) ≡ s
negative-with_sign false n h = refl
negative-with_sign true zero h = ground arith
negative-with_sign true (suc n) h = refl

with_sign-zero : (s t : Bool) → with_sign s 0 ≡ with_sign t 0
with_sign-zero false false = refl
with_sign-zero false true = refl
with_sign-zero true false = refl
with_sign-zero true true = refl

with_sign_self : (a : ℤ) → with_sign (is_negative a) (magnitude a) ≡ a
with_sign_self (pos n) = refl
with_sign_self (negsuc n) = refl

unlike-unlike : (s t : Bool) → unlike s (unlike t s) ≡ t
unlike-unlike false false = refl
unlike-unlike false true = refl
unlike-unlike true false = refl
unlike-unlike true true = refl

*ℤ-with_sign :
    (k : ℤ) (s : Bool) (n : ℕ)
    → k *ℤ with_sign s n ≡ with_sign (unlike (is_negative k) s) (magnitude k * n)
unfolding ◌*ℤ◌
*ℤ-with_sign k false n = refl
*ℤ-with_sign k true zero =
    rw (Nat.mul-zero (magnitude k))
      (with_sign-zero (unlike (is_negative k) false) (unlike (is_negative k) true))
*ℤ-with_sign k true (suc n) = refl

pub magnitude-remainder : (a b : ℤ) → magnitude (remainder a b) ≡ magnitude a % magnitude b
unfolding remainder
magnitude-remainder a b = magnitude-with_sign (is_negative a) (magnitude a % magnitude b)

pub magnitude-*ℤ : (a b : ℤ) → magnitude (a *ℤ b) ≡ magnitude a * magnitude b
unfolding ◌*ℤ◌
magnitude-*ℤ a b =
    magnitude-with_sign (unlike (is_negative a) (is_negative b)) (magnitude a * magnitude b)

pub one-*ℤ : (a : ℤ) → pos 1 *ℤ a ≡ a
unfolding ◌*ℤ◌
one-*ℤ a = rw (Nat.one-mul (magnitude a)) (with_sign_self a)

pub is_zero→magnitude : (a : ℤ) → is_zero a ≡ true → magnitude a ≡ 0
is_zero→magnitude (pos n) h = ground arith
is_zero→magnitude (negsuc n) h = ground arith

pub not_zero→magnitude : (a : ℤ) → is_zero a ≡ false → 0 < magnitude a
not_zero→magnitude (pos n) h = ground arith
not_zero→magnitude (negsuc n) h = ground arith

pub magnitude→not_zero : (a : ℤ) → 0 < magnitude a → is_zero a ≡ false
magnitude→not_zero (pos n) h = ground arith
magnitude→not_zero (negsuc n) h = refl

mul-mod-mul : (k a b : ℕ) → 0 < k → k * a % (k * b) ≡ k * (a % b)
mul-mod-mul k a b h = rw (
  Nat.mod_def (k * a) (k * b),
  Nat.mul-div-mul_left a b h,
  Nat.mod_def a b,
  Nat.mul-sub,
  Nat.mul_assoc,
)

*ℤ-zero : (k : ℤ) → k *ℤ pos 0 ≡ pos 0
*ℤ-zero k =
    *ℤ-with_sign k false 0
    ∙ rw (Nat.mul-zero (magnitude k)) (with_sign-zero (unlike (is_negative k) false) false)

negative-*ℤ :
    (k a : ℤ)
    → 0 < magnitude k
    → 0 < magnitude a
    → is_negative (k *ℤ a) ≡ unlike (is_negative k) (is_negative a)
unfolding ◌*ℤ◌
negative-*ℤ k a hk ha =
    negative-with_sign (unlike (is_negative k) (is_negative a)) (magnitude k * magnitude a)
      (Nat.mul-pos hk ha)

-- A divisor times the quotient is the dividend.
pub *ℤ-quotient : (a d : ℤ) → magnitude d ∣ magnitude a → d *ℤ quotient a d ≡ a
unfolding quotient
*ℤ-quotient a d h =
    rw
      (
        *ℤ-with_sign d (unlike (is_negative a) (is_negative d)) (magnitude a / magnitude d),
        unlike-unlike (is_negative d) (is_negative a),
        Nat.mul-div_cancel' (magnitude d) h,
      )
      (with_sign_self a)

remainder-sign :
    (k a b : ℤ) (s : Bool)
    → 0 < magnitude k
    → is_negative (k *ℤ a) ≡ s
    → remainder (k *ℤ a) (k *ℤ b) ≡ with_sign s (magnitude k * (magnitude a % magnitude b))
unfolding remainder
remainder-sign k a b s h e =
    rw (
      e,
      magnitude-*ℤ k a,
      magnitude-*ℤ k b,
      mul-mod-mul (magnitude k) (magnitude a) (magnitude b) h,
    )

-- A factor other than 0 goes out of a remainder.
pub remainder-*ℤ : (k a b : ℤ) → 0 < magnitude k → remainder (k *ℤ a) (k *ℤ b) ≡ k *ℤ remainder a b
unfolding remainder
remainder-*ℤ k (pos zero) b h =
    remainder-sign k (pos zero) b false h (ap is_negative (*ℤ-zero k))
    ∙ rw (Nat.zero-mod (magnitude b), Nat.mul-zero (magnitude k)) (sym (*ℤ-zero k))
remainder-*ℤ k (pos (suc n)) b h =
    remainder-sign k (pos (suc n)) b _ h (negative-*ℤ k (pos (suc n)) h (omega arith))
    ∙ sym (*ℤ-with_sign k false (suc n % magnitude b))
remainder-*ℤ k (negsuc n) b h =
    remainder-sign k (negsuc n) b _ h (negative-*ℤ k (negsuc n) h (omega arith))
    ∙ sym (*ℤ-with_sign k true (suc n % magnitude b))

unlike_self : (s : Bool) → unlike s true ≢ s
unlike_self false e = ground arith
unlike_self true e = ground arith

pub *ℤ_one : (d x : ℤ) → 0 < magnitude d → d *ℤ x ≡ d → x ≡ pos 1
*ℤ_one d (pos n) h e = ap pos (
    Nat.eq_of_mul-eq-mul_left (magnitude d) h n 1
      (sym (magnitude-*ℤ d (pos n)) ∙ ap magnitude e ∙ sym (Nat.mul-one (magnitude d))))
*ℤ_one d (negsuc n) h e = absurd (
    unlike_self (is_negative d) (sym (negative-*ℤ d (negsuc n) h (omega arith)) ∙ ap is_negative e))

nonzero-*ℤ : (k a : ℤ) → 0 < magnitude k → 0 < magnitude a → is_zero (k *ℤ a) ≡ is_zero a
nonzero-*ℤ k a hk ha =
    magnitude→not_zero (k *ℤ a) (rw (magnitude-*ℤ k a) (Nat.mul-pos hk ha))
    ∙ sym (magnitude→not_zero a ha)

pub is_zero-*ℤ : (k a : ℤ) → 0 < magnitude k → is_zero (k *ℤ a) ≡ is_zero a
is_zero-*ℤ k (pos zero) h = ap is_zero (*ℤ-zero k)
is_zero-*ℤ k (pos (suc n)) h = nonzero-*ℤ k (pos (suc n)) h (omega arith)
is_zero-*ℤ k (negsuc n) h = nonzero-*ℤ k (negsuc n) h (omega arith)

pub is_one→one : (a : ℤ) → is_one a ≡ true → a ≡ pos 1
is_one→one (pos n) h = ap pos (==→eq n 1 h)
is_one→one (negsuc n) h = ground arith
