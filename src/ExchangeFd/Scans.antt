-- ===== src/ExchangeFd/Scans.antt =====
-- The loop of `recv_fd` over its buffer, against the text and the status that the buffer holds.
use personal_project.Common.{
  ℕ, zero, suc, ◌+◌, ◌-◌, ◌%◌, ◌≡◌, refl, sym, ap, ◌∙◌, true, false, Option, none, some, [], ◌∷◌,
  ltb, ◌==◌, length, take, arith, if◌then◌else◌, Bool-cases, ==→eq, inl, inr,
}
use mathlib.Core.Path.{subst}
use personal_project.Decimal.{Bytes, ℤ, negsuc}
use personal_project.OpenServer.Fd.{
  Scan, only_text, malformed, status, scan_more, at_zero, scan_buffer, no_fd, new_fd,
}
use personal_project.ExchangeFd.{Scanned, error, found, fd_of, status_at, scan}

-- What the loop comes to from the place `at` on, for what stands there.
abbrev pub expected : Option ℕ → ℕ → Bytes → Scan → Scanned
expected control at s only_text = found (negsuc 0) none (at + length s)
expected control at s malformed = error (negsuc 3)
expected control at s (status text x) =
    if no_fd x control
    then error (negsuc 4)
    else found (new_fd x control) (some x) (at + length text)

expected-more :
    (control : Option ℕ) (at c : ℕ) (s : Bytes) (x : Scan)
    → expected control (at + 1) s x ≡ expected control at (c ∷ s) (scan_more c x)
expected-more control at c s only_text = ap (found (negsuc 0) none) (omega arith)
expected-more control at c s malformed = refl
expected-more control at c s (status text x) =
    ap (λ n. if no_fd x control then error (negsuc 4) else found (new_fd x control) (some x) n)
      (omega arith)

scan_status :
    (control : Option ℕ) (x at : ℕ)
    → (elim (fd_of x control) [ none ↦ error (negsuc 4) | some fd ↦ found fd (some x) at ])
      ≡ (if no_fd x control then error (negsuc 4) else found (new_fd x control) (some x) at)
unfolding fd_of no_fd new_fd
scan_status none zero at = refl
scan_status (some fd) zero at = refl
scan_status none (suc x) at = ground arith
scan_status (some fd) (suc x) at = ground arith

scan-past :
    (control : Option ℕ) (s : Bytes) (at nr : ℕ) (newfd : ℤ) (x : Option ℕ)
    → ltb at nr ≡ false
    → scan control s at nr newfd x ≡ found newfd x nr
unfolding scan
scan-past control [] at nr newfd x h = refl
scan-past control (c ∷ s) at nr newfd x h = rw (scan, h)

scan-last :
    (control : Option ℕ) (s : Bytes) (at nr : ℕ)
    → ltb at nr ≡ true
    → (at + 1 == nr - 1) ≡ true
    → scan control (0 ∷ s) at nr (negsuc 0) none ≡ elim (fd_of (status_at s) control) [
      | none ↦ error (negsuc 4)
      | some fd ↦ scan control s (at + 1) (nr - 2) fd (some (status_at s))
    ]
unfolding scan
scan-last control s at nr h k = rw (scan, h, k)

found_or :
    (control : Option ℕ) (s : Bytes) (at nr n : ℕ) (o : Option ℤ) (x : Option ℕ)
    → ltb at nr ≡ false
    → nr ≡ n
    → (elim o [ none ↦ error (negsuc 4) | some fd ↦ scan control s at nr fd x ])
      ≡ elim o [ none ↦ error (negsuc 4) | some fd ↦ found fd x n ]
found_or control s at nr n none x h k = refl
found_or control s at nr n (some fd) x h k = scan-past control s at nr fd x h ∙ ap (found fd x) k

scan-zero :
    (control : Option ℕ) (at : ℕ) (s : Bytes)
    → scan control (0 ∷ s) at (at + length (0 ∷ s)) (negsuc 0) none
      ≡ expected control at (0 ∷ s) (at_zero s)
unfolding at_zero status_at no_fd
scan-zero control at [] = unfold scan in ground arith
scan-zero control at (x ∷ []) =
    scan-last control (x ∷ []) at (at + length (0 ∷ x ∷ [])) (ground arith) (ground arith)
    ∙ found_or control (x ∷ []) (at + 1) (at + length (0 ∷ x ∷ []) - 2) (at + 0)
        (fd_of (x % 256) control) (some (x % 256)) (ground arith) (omega arith)
    ∙ scan_status control (x % 256) (at + 0)
scan-zero control at (x ∷ y ∷ s) = unfold scan in ground arith

scan-next :
    (control : Option ℕ) (c : ℕ) (s : Bytes) (at nr : ℕ)
    → ltb at nr ≡ true
    → (c == 0) ≡ false
    → scan control (c ∷ s) at nr (negsuc 0) none ≡ scan control s (at + 1) nr (negsuc 0) none
unfolding scan
scan-next control c s at nr h k = rw (scan, h, k)

scan_buffer-zero : (c : ℕ) (s : Bytes) → (c == 0) ≡ true → scan_buffer (c ∷ s) ≡ at_zero s
unfolding scan_buffer
scan_buffer-zero c s e = rw (scan_buffer, e)

scan_buffer-more :
    (c : ℕ) (s : Bytes) → (c == 0) ≡ false → scan_buffer (c ∷ s) ≡ scan_more c (scan_buffer s)
unfolding scan_buffer
scan_buffer-more c s e = rw (scan_buffer, e)

-- The loop finds the text and the status that the buffer holds.
pub scan-scan_buffer :
    (control : Option ℕ) (s : Bytes) (at : ℕ)
    → scan control s at (at + length s) (negsuc 0) none ≡ expected control at s (scan_buffer s)
scan-scan_buffer control [] at = unfold scan scan_buffer in refl
scan-scan_buffer control (c ∷ s) at = elim (Bool-cases (c == 0)) [
  | inl e ↦
      ap (λ c. scan control (c ∷ s) at (at + length (0 ∷ s)) (negsuc 0) none) (==→eq c 0 e)
      ∙ scan-zero control at s
      ∙ ap (λ c. expected control at (c ∷ s) (at_zero s)) (sym (==→eq c 0 e))
      ∙ ap (expected control at (c ∷ s)) (sym (scan_buffer-zero c s e))
  | inr e ↦
      scan-next control c s at (at + length (c ∷ s)) (ground arith) e
      ∙ ap (λ n. scan control s (at + 1) n (negsuc 0) none) (omega arith)
      ∙ scan-scan_buffer control s (at + 1)
      ∙ expected-more control at c s (scan_buffer s)
      ∙ ap (expected control at (c ∷ s)) (sym (scan_buffer-more c s e))
]

-- The text in front of the status is the beginning of the buffer.
abbrev pub IsBeginning : Bytes → Scan → Type 0
IsBeginning s only_text = Unit
IsBeginning s malformed = Unit
IsBeginning s (status text x) = take (length text) s ≡ text

IsBeginning-more :
    (c : ℕ) (s : Bytes) (x : Scan) → IsBeginning s x → IsBeginning (c ∷ s) (scan_more c x)
IsBeginning-more c s only_text h = tt
IsBeginning-more c s malformed h = tt
IsBeginning-more c s (status text x) h = ap (λ t. c ∷ t) h

IsBeginning-zero : (c : ℕ) (s : Bytes) → IsBeginning (c ∷ s) (at_zero s)
unfolding at_zero
IsBeginning-zero c [] = tt
IsBeginning-zero c (x ∷ []) = refl
IsBeginning-zero c (x ∷ y ∷ s) = tt

pub scan_buffer-IsBeginning : (s : Bytes) → IsBeginning s (scan_buffer s)
scan_buffer-IsBeginning [] = unfold scan_buffer in tt
scan_buffer-IsBeginning (c ∷ s) = elim (Bool-cases (c == 0)) [
  | inl e ↦ subst (IsBeginning (c ∷ s)) (sym (scan_buffer-zero c s e)) (IsBeginning-zero c s)
  | inr e ↦
      subst (IsBeginning (c ∷ s)) (sym (scan_buffer-more c s e))
        (IsBeginning-more c s (scan_buffer s) (scan_buffer-IsBeginning s))
]
