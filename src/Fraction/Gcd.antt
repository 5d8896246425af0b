-- ===== src/Fraction/Gcd.antt =====
-- `gcd` of Fraction.cpp ends, and gives a greatest common divisor with the sign that a factor keeps.
use personal_project.Common.{
  ℕ, zero, suc, ◌%◌, ◌<◌, ◌≤◌, ◌≡◌, inl, inr, sym, ap, ◌∙◌, Bool, true, false, Bool-cases, Option,
  none, some, arith,
}
use Prim.Native.Nat.{◌∣◌}
use native.Mathlib.Nat
use personal_project.Decimal.{ℤ, is_zero}
use personal_project.Fraction.{magnitude, remainder, gcd_rounds}
use personal_project.Fraction.Signs.{
  ◌*ℤ◌, magnitude-remainder, is_zero→magnitude, not_zero→magnitude, remainder-*ℤ, is_zero-*ℤ,
}

-- A common divisor that every other one divides.
abbrev pub IsGcd : ℕ → ℕ → ℕ → Type 0
IsGcd g x y = (g ∣ x) × (g ∣ y) × ((k : ℕ) → k ∣ x → k ∣ y → k ∣ g)

IsGcd-zero : (g : ℕ) → IsGcd g g 0
IsGcd-zero g = (Nat.dvd_refl g, Nat.dvd-zero g, λ k left right. left)

IsGcd-mod : (g x y : ℕ) → IsGcd g y (x % y) → IsGcd g x y
IsGcd-mod g x y (left, right, greatest) =
    ((Nat.dvd-mod_iff g left).0 right, left, λ k kx ky. greatest k ky ((Nat.dvd-mod_iff k ky).1 kx))

IsGcd-remainder :
    (g : ℕ) (a b : ℤ)
    → IsGcd g (magnitude b) (magnitude (remainder a b))
    → IsGcd g (magnitude a) (magnitude b)
IsGcd-remainder g a b h =
    IsGcd-mod g (magnitude a) (magnitude b) (rw (magnitude-remainder a b) at h)

IsGcd-last :
    (a b : ℤ) → is_zero (remainder a b) ≡ true → IsGcd (magnitude b) (magnitude a) (magnitude b)
IsGcd-last a b h =
    IsGcd-remainder (magnitude b) a b
      (rw (is_zero→magnitude (remainder a b) h) (IsGcd-zero (magnitude b)))

module _ (fuel : ℕ) (a b : ℤ) where
  gcd_rounds-first : is_zero (remainder a b) ≡ true → gcd_rounds (suc fuel) a b ≡ some b
  unfolding gcd_rounds
  gcd_rounds-first h = rw (gcd_rounds, h)

  gcd_rounds-second :
      is_zero (remainder a b) ≡ false
      → is_zero (remainder b (remainder a b)) ≡ true
      → gcd_rounds (suc fuel) a b ≡ some (remainder a b)
  unfolding gcd_rounds
  gcd_rounds-second h h' = rw (gcd_rounds, h, h')

  gcd_rounds-next :
      is_zero (remainder a b) ≡ false
      → is_zero (remainder b (remainder a b)) ≡ false
      → gcd_rounds (suc fuel) a b ≡ gcd_rounds fuel (remainder a b) (remainder b (remainder a b))
  unfolding gcd_rounds
  gcd_rounds-next h h' = rw (gcd_rounds, h, h')

remainder-lt : (a b : ℤ) → 0 < magnitude b → magnitude (remainder a b) < magnitude b
remainder-lt a b h = rw (magnitude-remainder a b) (Nat.mod-lt (magnitude a) h)

-- With the magnitude of the second number as fuel the loop ends.
pub gcd_rounds-IsGcd :
    (fuel : ℕ) (a b : ℤ)
    → 0 < magnitude b
    → magnitude b ≤ fuel
    → (d : ℤ) × (gcd_rounds fuel a b ≡ some d) × IsGcd (magnitude d) (magnitude a) (magnitude b)
gcd_rounds-IsGcd zero a b h enough = absurd (omega arith)
gcd_rounds-IsGcd (suc fuel) a b h enough = elim (Bool-cases (is_zero (remainder a b))) [
  | inl e ↦ (b, gcd_rounds-first fuel a b e, IsGcd-last a b e)
  | inr e ↦ elim (Bool-cases (is_zero (remainder b (remainder a b)))) [
    | inl e' ↦ (
      remainder a b,
      gcd_rounds-second fuel a b e e',
      IsGcd-remainder (magnitude (remainder a b)) a b (IsGcd-last b (remainder a b) e'),
    )
    | inr e' ↦
        let smaller = remainder-lt a b h in
        let next = remainder-lt b (remainder a b) (not_zero→magnitude (remainder a b) e) in
        let (d, ended, common) =
          gcd_rounds-IsGcd fuel (remainder a b) (remainder b (remainder a b))
            (not_zero→magnitude (remainder b (remainder a b)) e') (omega arith) in
        (
          d,
          gcd_rounds-next fuel a b e e' ∙ ended,
          IsGcd-remainder (magnitude d) a b
              (IsGcd-remainder (magnitude d) b (remainder a b) common),
        )
  ]
]

pub some_inj : (d x : ℤ) → some d ≡ some x → d ≡ x
some_inj d x e = ap (λ (o : Option ℤ). elim o [ none ↦ d | some y ↦ y ]) e

-- A factor other than 0 of both numbers goes out of the result, its sign included; more fuel does no
-- harm.
pub gcd_rounds-*ℤ :
    (k : ℤ)
    → 0 < magnitude k
    → (fuel more : ℕ) (a b d : ℤ) → fuel ≤ more
    → gcd_rounds fuel a b ≡ some d
    → gcd_rounds more (k *ℤ a) (k *ℤ b) ≡ some (k *ℤ d)
unfolding gcd_rounds
gcd_rounds-*ℤ k hk zero more a b d le ended = absurd (ground arith)
gcd_rounds-*ℤ k hk (suc fuel) zero a b d le ended = absurd (omega arith)
gcd_rounds-*ℤ k hk (suc fuel) (suc more) a b d le ended =
    elim (Bool-cases (is_zero (remainder a b))) [
      | inl e ↦
          gcd_rounds-first more (k *ℤ a) (k *ℤ b) (scaled e)
          ∙ ap (λ x. some (k *ℤ x)) (some_inj b d (sym (gcd_rounds-first fuel a b e) ∙ ended))
      | inr e ↦ elim (Bool-cases (is_zero (remainder b (remainder a b)))) [
        | inl e' ↦
            gcd_rounds-second more (k *ℤ a) (k *ℤ b) (scaled e) (scaled' e')
            ∙ ap some (remainder-*ℤ k a b hk)
            ∙ ap (λ x. some (k *ℤ x))
                (some_inj (remainder a b) d (sym (gcd_rounds-second fuel a b e e') ∙ ended))
        | inr e' ↦
            gcd_rounds-next more (k *ℤ a) (k *ℤ b) (scaled e) (scaled' e')
            ∙ rw (second, remainder-*ℤ k a b hk)
                (gcd_rounds-*ℤ k hk fuel more (remainder a b) (remainder b (remainder a b)) d
                  (omega arith) (sym (gcd_rounds-next fuel a b e e') ∙ ended))
      ]
    ]
  where
    second : remainder (k *ℤ b) (remainder (k *ℤ a) (k *ℤ b)) ≡ k *ℤ remainder b (remainder a b)
    second = rw (remainder-*ℤ k a b hk) (remainder-*ℤ k b (remainder a b) hk)

    scaled : {z : Bool} → is_zero (remainder a b) ≡ z → is_zero (remainder (k *ℤ a) (k *ℤ b)) ≡ z
    scaled e = rw (remainder-*ℤ k a b hk) (is_zero-*ℤ k (remainder a b) hk ∙ e)

    scaled' :
        {z : Bool}
        → is_zero (remainder b (remainder a b)) ≡ z
        → is_zero (remainder (k *ℤ b) (remainder (k *ℤ a) (k *ℤ b))) ≡ z
    scaled' e = rw second (is_zero-*ℤ k (remainder b (remainder a b)) hk ∙ e)
