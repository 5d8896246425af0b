-- ===== src/Decimal/RoundTrip.antt =====
-- What `atol` reads back from a printed number.
use personal_project.Common.{
  ℕ, zero, suc, ◌+◌, ◌-◌, ◌*◌, ◌/◌, ◌%◌, ◌^◌, ◌<◌, ◌≤◌, ◌≡◌, refl, ap, sym, ◌∙◌, true, false, ◌⊎◌,
  inl, inr, [], ◌∷◌, ◌++◌, append_assoc, arith, length, replicate, All, All-append, length-append,
  length-replicate,
}
use native.Mathlib.Nat.{pow-suc}
use personal_project.Decimal.{
  Bytes, pos, is_digit, digits, decimal, decimal_int, padded, scan, atol,
}

abbrev pub IsDigit : ℕ → Type 0
IsDigit c = is_digit c ≡ true

-- A text that does not go on with a digit.
abbrev pub EndsDigits : Bytes → Type 0
EndsDigits [] = Unit
EndsDigits (c ∷ s) = is_digit c ≡ false

scan-EndsDigits : (acc : ℕ) (s : Bytes) → EndsDigits s → scan acc s ≡ acc
unfolding scan
scan-EndsDigits acc [] h = refl
scan-EndsDigits acc (c ∷ s) h = ground arith

scan_cons : (acc c : ℕ) (s : Bytes) → IsDigit c → scan acc (c ∷ s) ≡ scan (acc * 10 + (c - b'0')) s
unfolding scan
scan_cons acc c s h = ground arith

digits_small : (fuel n : ℕ) → n < 10 → digits (suc fuel) n ≡ (b'0' + n) ∷ []
unfolding digits
digits_small fuel n h = ground arith

digits_big :
    (fuel n : ℕ) → 10 ≤ n → digits (suc fuel) n ≡ digits fuel (n / 10) ++ (b'0' + n % 10) ∷ []
unfolding digits
digits_big fuel n h = ground arith

IsDigit-add : (d : ℕ) → d < 10 → IsDigit (b'0' + d)
IsDigit-add d h = ground arith

size_cases : (n : ℕ) → (n < 10) ⊎ (10 ≤ n)
size_cases n = grind arith

digits-IsDigit : (fuel n : ℕ) → All IsDigit (digits fuel n)
digits-IsDigit zero n = unfold digits in tt
digits-IsDigit (suc fuel) n = elim (size_cases n) [
  | inl small ↦ rw (digits_small fuel n small) (IsDigit-add n small, tt)
  | inr big ↦ rw (digits_big fuel n big) (
      All-append IsDigit (digits fuel (n / 10)) ((b'0' + n % 10) ∷ [])
        (digits-IsDigit fuel (n / 10)) (IsDigit-add (n % 10) (omega arith), tt))
]

pub decimal-IsDigit : (n : ℕ) → All IsDigit (decimal n)
unfolding decimal
decimal-IsDigit n = digits-IsDigit (suc n) n

scan_digit :
    (acc d : ℕ) (rest : Bytes) → d < 10 → scan acc ((b'0' + d) ∷ rest) ≡ scan (acc * 10 + d) rest
scan_digit acc d rest h =
    scan_cons acc (b'0' + d) rest (IsDigit-add d h) ∙ ap (λ k. scan k rest) (omega arith)

scan-digits : (fuel n : ℕ) (rest : Bytes) → n < fuel → scan 0 (digits fuel n ++ rest) ≡ scan n rest
scan-digits zero n rest h = elim h [ ]
scan-digits (suc fuel) n rest h = elim (size_cases n) [
  | inl small ↦
      rw (digits_small fuel n small)
        (scan_digit 0 n rest small ∙ ap (λ k. scan k rest) (omega arith))
  | inr big ↦
      rw (digits_big fuel n big, append_assoc)
        (scan-digits fuel (n / 10) ((b'0' + n % 10) ∷ rest) (omega arith)
          ∙ scan_digit (n / 10) (n % 10) rest (omega arith)
          ∙ ap (λ k. scan k rest) (omega arith))
]

-- The first byte of a number is a digit.
digits_cons : (fuel n : ℕ) → (c : ℕ) × (s : Bytes) × (digits (suc fuel) n ≡ c ∷ s) × IsDigit c
digits_cons zero n = elim (size_cases n) [
  | inl small ↦ (b'0' + n, [], digits_small zero n small, IsDigit-add n small)
  | inr big ↦ (
    b'0' + n % 10,
    [],
    digits_big zero n big ∙ (unfold digits in refl),
    IsDigit-add (n % 10) (omega arith),
  )
]
digits_cons (suc fuel) n = elim (size_cases n) [
  | inl small ↦ (b'0' + n, [], digits_small (suc fuel) n small, IsDigit-add n small)
  | inr big ↦
      let (c, s, e, d) = digits_cons fuel (n / 10) in
      (
        c,
        s ++ (b'0' + n % 10) ∷ [],
        digits_big (suc fuel) n big ∙ ap (λ (t : Bytes). t ++ (b'0' + n % 10) ∷ []) e,
        d,
      )
]

-- A number below 10^(k + 1) has at most k + 1 digits.
length-digits : (k fuel n : ℕ) → n < 10 * 10 ^ k → length (digits fuel n) ≤ suc k
length-digits k zero n h = unfold digits in omega arith
length-digits zero (suc fuel) n h = rw (digits_small fuel n (omega arith)) (omega arith)
length-digits (suc k) (suc fuel) n h = elim (size_cases n) [
  | inl small ↦ rw (digits_small fuel n small) (omega arith)
  | inr big ↦
      let e : n < 10 * (10 ^ k * 10) = rw pow-suc at h in
      rw (digits_big fuel n big) (
        omega (
          arith,
          length-append (digits fuel (n / 10)) ((b'0' + n % 10) ∷ []),
          length-digits k fuel (n / 10) (omega arith),
        ))
]

pub length-decimal : (k n : ℕ) → n < 10 * 10 ^ k → length (decimal n) ≤ suc k
unfolding decimal
length-decimal k n h = length-digits k (suc n) n h

-- A number that fits the width is printed in exactly that many bytes.
pub length-padded : (k n : ℕ) → n < 10 * 10 ^ k → length (padded (suc k) n) ≡ suc k
unfolding padded
length-padded k n h = omega (
  arith,
  length-append (replicate (suc k - length (decimal n)) b' ') (decimal n),
  length-replicate {A = ℕ} (suc k - length (decimal n)) b' ',
  length-decimal k n h,
)

atol_cons : (c : ℕ) (s : Bytes) → IsDigit c → atol (c ∷ s) ≡ pos (scan 0 (c ∷ s))
unfolding atol
atol_cons c s h = ground arith

pub atol-decimal : (n : ℕ) (rest : Bytes) → EndsDigits rest → atol (decimal n ++ rest) ≡ pos n
unfolding decimal
atol-decimal n rest h =
    let (c, s, e, d) = digits_cons n n in
    rw e (atol_cons c (s ++ rest) d)
    ∙ ap pos (
        ap (λ (t : Bytes). scan 0 (t ++ rest)) (sym e)
        ∙ scan-digits (suc n) n rest (omega arith)
        ∙ scan-EndsDigits n rest h)

atol-blanks : (k : ℕ) (s : Bytes) → atol (replicate k b' ' ++ s) ≡ atol s
unfolding atol
atol-blanks zero s = refl
atol-blanks (suc k) s = atol-blanks k s

-- A padded number is read back, whatever follows that is no digit.
pub atol-padded : (w n : ℕ) (rest : Bytes) → EndsDigits rest → atol (padded w n ++ rest) ≡ pos n
unfolding padded
atol-padded w n rest h =
    rw append_assoc
      (atol-blanks (w - length (decimal n)) (decimal n ++ rest) ∙ atol-decimal n rest h)

pub decimal_int-pos : (n : ℕ) → decimal_int (pos n) ≡ decimal n
unfolding decimal_int
decimal_int-pos n = refl

pub decimal_cons : (n : ℕ) → (c : ℕ) × (s : Bytes) × (decimal n ≡ c ∷ s)
unfolding decimal
decimal_cons n = let (c, s, e, d) = digits_cons n n in (c, s, e)
