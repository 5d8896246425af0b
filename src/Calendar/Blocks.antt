-- ===== src/Calendar/Blocks.antt =====
-- Years and months are blocks of days, which the loops add up and take away.
use personal_project.Common.{
  ap₂, ◌%◌, ◌^◌, ℕ, zero, suc, ◌+◌, ◌-◌, ◌≤◌, ◌<◌, ◌≡◌, ap, ◌∙◌, true, false, some, ltb, arith,
  Bool-cases, inl, inr, ltb→lt, ltb→ge,
}
use personal_project.Decimal.{ℤ, pos, is_negative}
use personal_project.Integers.{◌-ℤ◌, sub-ge, sub-lt}
use personal_project.Calendar.{sum_blocks, subtract_blocks}

module _ (size : ℕ → ℕ) where
  -- The days of `k` blocks from `n` on.
  abbrev pub span : ℕ → ℕ → ℕ
  span n zero = 0
  span n (suc k) = size n + span (suc n) k

  here : (n : ℕ) → size (n + 0) ≡ size n
  here n = ap size (omega arith)

  there : (n k : ℕ) → size (suc n + k) ≡ size (n + suc k)
  there n k = ap size (omega arith)

  pub span-suc : (n k : ℕ) → span n (suc k) ≡ span n k + size (n + k)
  span-suc n zero = omega (arith, here n)
  span-suc n (suc k) = omega (arith, span-suc (suc n) k, there n k)

  pub span_room : (n j k : ℕ) → j < k → span n j + size (n + j) ≤ span n k
  span_room n j zero h = absurd (omega arith)
  span_room n zero (suc k) h = omega (arith, here n)
  span_room n (suc j) (suc k) h = omega (arith, span_room (suc n) j k (omega arith), there n j)

  pub sum_blocks-span :
      (k n total : ℕ) → total + span n k < 2 ^ 32 → sum_blocks size k n total ≡ total + span n k
  unfolding sum_blocks
  sum_blocks-span zero n total h = omega arith
  sum_blocks-span (suc k) n total h =
      let next : span (n + 1) k ≡ span (suc n) k = ap (λ i. span i k) (omega arith) in
      let low : (total + size n) % 2 ^ 32 ≡ total + size n = omega (arith, h) in
      ap (sum_blocks size k (n + 1)) low
      ∙ sum_blocks-span k (n + 1) (total + size n) (omega (arith, next, h))
      ∙ omega (arith, next)

  pub subtract_blocks-stop :
      (fuel n : ℕ) (tmp : ℤ)
      → is_negative (tmp -ℤ pos (size n)) ≡ true
      → subtract_blocks size (suc fuel) n tmp ≡ some (n, tmp)
  unfolding subtract_blocks
  subtract_blocks-stop fuel n tmp h = rw (subtract_blocks, h)

  subtract_blocks-next :
      (fuel n : ℕ) (tmp : ℤ)
      → is_negative (tmp -ℤ pos (size n)) ≡ false
      → subtract_blocks size (suc fuel) n tmp
        ≡ subtract_blocks size fuel (suc n % 2 ^ 32) (tmp -ℤ pos (size n))
  unfolding subtract_blocks
  subtract_blocks-next fuel n tmp h = rw (subtract_blocks, h)

  pub subtract_blocks-span :
      (fuel k n r : ℕ)
      → k < fuel
      → n + k < 2 ^ 32
      → r < size (n + k)
      → subtract_blocks size fuel n (pos (span n k + r)) ≡ some (n + k, pos r)
  subtract_blocks-span zero k n r h low less = absurd (omega arith)
  subtract_blocks-span (suc fuel) zero n r h low less =
      let left : 0 + r ≡ r = omega arith in
      let end : n ≡ n + 0 = omega arith in
      ap (λ t. subtract_blocks size (suc fuel) n (pos t)) left
      ∙ subtract_blocks-stop fuel n (pos r) (sub-lt r (size n) (omega (arith, less, here n)))
      ∙ ap (λ i. some (i, pos r)) end
  subtract_blocks-span (suc fuel) (suc k) n r h low less =
      let step : pos (span n (suc k) + r) -ℤ pos (size n) ≡ pos (span (suc n) k + r) =
        sub-ge (span n (suc k) + r) (size n) (omega arith) ∙ ap pos (omega arith) in
      let end : suc n + k ≡ n + suc k = omega arith in
      let next : suc n % 2 ^ 32 ≡ suc n = omega (arith, low) in
      subtract_blocks-next fuel n (pos (span n (suc k) + r)) (ap is_negative step)
      ∙ ap₂ (subtract_blocks size fuel) next step
      ∙ subtract_blocks-span fuel k (suc n) r (omega arith) (omega (arith, low))
          (omega (arith, less, there n k))
      ∙ ap (λ i. some (i, pos r)) end

  -- Every day within `K` blocks is in one of them.
  pub split :
      (K n days : ℕ)
      → days < span n K
      → (k : ℕ) × (r : ℕ) × (k < K) × (days ≡ span n k + r) × (r < size (n + k))
  split zero n days h = absurd (omega arith)
  split (suc K) n days h = elim (Bool-cases (ltb days (size n))) [
    | inl less ↦
        (0, days, omega arith, omega arith, omega (arith, ltb→lt days (size n) less, here n))
    | inr more ↦
        let (k, r, low, same, room) =
          split K (suc n) (days - size n) (omega (arith, ltb→ge days (size n) more)) in
        (suc k, r, omega arith, omega (arith, ltb→ge days (size n) more), omega (arith, there n k))
  ]
