-- ===== src/Common/Lists.antt =====
-- Lists measured and indexed by native numbers, under the library's names.
use Prim.Native.Nat.{ℕ, zero, suc, ◌+◌, ◌-◌, ◌<◌, min}
use mathlib.Core.Path.{◌≡◌, refl, ap, ap₂, sym, ◌∙◌}
use mathlib.Core.Logic.{inl, inr}
use mathlib.Core.Bool.{Bool, true, false}
use mathlib.Core.Option.{Option, none, some}
use mathlib.Core.List.{List, [], ◌∷◌, ◌++◌}
use native.Mathlib.Omega.{arith}
use personal_project.Common.Tests.{if◌then◌else◌, ◌==◌, ==→eq, Bool-cases}

module _ {ℓ} {A : Type ℓ} where
  abbrev pub length : List A → ℕ
  length [] = 0
  length (x ∷ xs) = suc (length xs)

  abbrev pub get_or : List A → ℕ → A → A
  get_or [] i d = d
  get_or (x ∷ xs) zero d = x
  get_or (x ∷ xs) (suc i) d = get_or xs i d

  abbrev pub get_elem? : List A → ℕ → Option A
  get_elem? [] i = none
  get_elem? (x ∷ xs) zero = some x
  get_elem? (x ∷ xs) (suc i) = get_elem? xs i

  -- A write out of bounds changes nothing.
  abbrev pub set : List A → ℕ → A → List A
  set [] i v = []
  set (x ∷ xs) zero v = v ∷ xs
  set (x ∷ xs) (suc i) v = x ∷ set xs i v

  abbrev pub take : ℕ → List A → List A
  take zero xs = []
  take (suc n) [] = []
  take (suc n) (x ∷ xs) = x ∷ take n xs

  abbrev pub drop : ℕ → List A → List A
  drop zero xs = xs
  drop (suc n) [] = []
  drop (suc n) (x ∷ xs) = drop n xs

  abbrev pub replicate : ℕ → A → List A
  replicate zero a = []
  replicate (suc n) a = a ∷ replicate n a

  abbrev pub All {κ} : (A → Type κ) → List A → Type κ
  All P [] = Unit
  All P (x ∷ xs) = P x × All P xs

  pub length-append : (xs ys : List A) → length (xs ++ ys) ≡ length xs + length ys
  length-append [] ys = omega arith
  length-append (x ∷ xs) ys = omega (arith, length-append xs ys)

  pub length-replicate : (n : ℕ) (a : A) → length (replicate n a) ≡ n
  length-replicate zero a = refl
  length-replicate (suc n) a = ap suc (length-replicate n a)

  pub length-take : (n : ℕ) (xs : List A) → length (take n xs) ≡ min n (length xs)
  length-take zero xs = omega arith
  length-take (suc n) [] = omega arith
  length-take (suc n) (x ∷ xs) = omega (arith, length-take n xs)

  pub length-drop : (n : ℕ) (xs : List A) → length (drop n xs) ≡ length xs - n
  length-drop zero xs = omega arith
  length-drop (suc n) [] = omega arith
  length-drop (suc n) (x ∷ xs) = omega (arith, length-drop n xs)

  -- The part of an append that starts behind the first list.
  pub drop-append_length : (xs ys : List A) (n : ℕ) → n ≡ length xs → drop n (xs ++ ys) ≡ ys
  drop-append_length [] ys zero h = refl
  drop-append_length [] ys (suc n) h = absurd (omega arith)
  drop-append_length (x ∷ xs) ys zero h = absurd (omega arith)
  drop-append_length (x ∷ xs) ys (suc n) h = drop-append_length xs ys n (omega arith)

  pub drop_nil : (n : ℕ) → drop n [] ≡ []
  drop_nil zero = refl
  drop_nil (suc n) = refl

  pub take_nil : (n : ℕ) → take n [] ≡ []
  take_nil zero = refl
  take_nil (suc n) = refl

  pub take-append_length : (xs ys : List A) (n : ℕ) → n ≡ length xs → take n (xs ++ ys) ≡ xs
  take-append_length [] ys zero h = refl
  take-append_length [] ys (suc n) h = absurd (omega arith)
  take-append_length (x ∷ xs) ys zero h = absurd (omega arith)
  take-append_length (x ∷ xs) ys (suc n) h =
      ap (λ r. x ∷ r) (take-append_length xs ys n (omega arith))

  pub set-append_length :
      (xs ys : List A) (y v : A) (n : ℕ) → n ≡ length xs → set (xs ++ y ∷ ys) n v ≡ xs ++ v ∷ ys
  set-append_length [] ys y v zero h = refl
  set-append_length [] ys y v (suc n) h = absurd (omega arith)
  set-append_length (x ∷ xs) ys y v zero h = absurd (omega arith)
  set-append_length (x ∷ xs) ys y v (suc n) h =
      ap (λ r. x ∷ r) (set-append_length xs ys y v n (omega arith))

  pub get_or-append_length :
      (xs ys : List A) (y d : A) (n : ℕ) → n ≡ length xs → get_or (xs ++ y ∷ ys) n d ≡ y
  get_or-append_length [] ys y d zero h = refl
  get_or-append_length [] ys y d (suc n) h = absurd (omega arith)
  get_or-append_length (x ∷ xs) ys y d zero h = absurd (omega arith)
  get_or-append_length (x ∷ xs) ys y d (suc n) h = get_or-append_length xs ys y d n (omega arith)

  pub get_elem?-below : (xs : List A) (k : ℕ) → k < length xs → (x : A) × (get_elem? xs k ≡ some x)
  get_elem?-below [] k lt = absurd (omega arith)
  get_elem?-below (x ∷ xs) zero lt = (x, refl)
  get_elem?-below (x ∷ xs) (suc k) lt = get_elem?-below xs k (omega arith)

  pub length-set : (xs : List A) (i : ℕ) (v : A) → length (set xs i v) ≡ length xs
  length-set [] i v = refl
  length-set (x ∷ xs) zero v = refl
  length-set (x ∷ xs) (suc i) v = ap suc (length-set xs i v)

  -- What is read after a write in range.
  pub get_elem?-set :
      (xs : List A) (p q : ℕ) (s t : A)
      → get_elem? xs p ≡ some s
      → get_elem? (set xs p t) q ≡ (if q == p then some t else get_elem? xs q)
  get_elem?-set [] p q s t e = absurd (cc e)
  get_elem?-set (x ∷ xs) zero zero s t e = ground arith
  get_elem?-set (x ∷ xs) zero (suc q) s t e = ground arith
  get_elem?-set (x ∷ xs) (suc p) zero s t e = ground arith
  get_elem?-set (x ∷ xs) (suc p) (suc q) s t e = ground (arith, get_elem?-set xs p q s t e)

  pub get_elem?-append_one :
      (xs : List A) (x : A) (k : ℕ)
      → get_elem? (xs ++ x ∷ []) k ≡ (if k == length xs then some x else get_elem? xs k)
  get_elem?-append_one [] x zero = ground arith
  get_elem?-append_one [] x (suc k) = ground arith
  get_elem?-append_one (y ∷ xs) x zero = ground arith
  get_elem?-append_one (y ∷ xs) x (suc k) = ground (arith, get_elem?-append_one xs x k)

  pub get_elem?-length : (xs : List A) → get_elem? xs (length xs) ≡ none
  get_elem?-length [] = refl
  get_elem?-length (x ∷ xs) = get_elem?-length xs

module _ {ℓ κ} {A : Type ℓ} (P : A → Type κ) where
  pub All-append : (xs ys : List A) → All P xs → All P ys → All P (xs ++ ys)
  All-append [] ys h k = k
  All-append (x ∷ xs) ys h k = (h.0, All-append xs ys h.1 k)

  pub All-replicate : (n : ℕ) (a : A) → P a → All P (replicate n a)
  All-replicate zero a h = tt
  All-replicate (suc n) a h = (h, All-replicate n a h)

-- `0 == strcmp(s, t)`
abbrev pub equal_bytes : List ℕ → List ℕ → Bool
equal_bytes [] [] = true
equal_bytes (a ∷ s) (b ∷ t) = elim (a == b) [ true ↦ equal_bytes s t | false ↦ false ]
equal_bytes _ _ = false

pub equal_bytes_refl : (s : List ℕ) → equal_bytes s s ≡ true
equal_bytes_refl [] = refl
equal_bytes_refl (c ∷ s) = ground (arith, equal_bytes_refl s)

pub equal_bytes_eq : (s t : List ℕ) → equal_bytes s t ≡ true → s ≡ t
equal_bytes_eq [] [] h = refl
equal_bytes_eq (a ∷ s) (b ∷ t) h = elim (Bool-cases (a == b)) [
  | inl e ↦
      ap₂ (λ x xs. x ∷ xs) (==→eq a b e)
        (equal_bytes_eq s t
          (sym (ap (λ r. elim r [ true ↦ equal_bytes s t | false ↦ false ]) e) ∙ h))
  | inr e ↦
      let apart : false ≡ true =
        sym (ap (λ r. elim r [ true ↦ equal_bytes s t | false ↦ false ]) e) ∙ h in
      absurd (cc apart)
]
equal_bytes_eq [] (b ∷ t) h = absurd cc
equal_bytes_eq (a ∷ s) [] h = absurd cc
