-- ===== src/Posix/Content.antt =====
-- Reading and writing a file's content at a position.
use personal_project.Common.{
  ℕ, zero, suc, ◌+◌, ◌-◌, ◌≤◌, ◌≡◌, refl, ap, sym, ◌∙◌, [], ◌∷◌, ◌++◌, append_assoc, arith, length,
  take, drop, drop-append_length, take-append_length, length-append, length-drop, ◌<◌, length-take,
}
use Prim.Native.Nat.{max}
use personal_project.Decimal.{Bytes}

unfoldable pub read_at : ℕ → ℕ → Bytes → Bytes
read_at p n f = take n (drop p f)

-- A write behind the end fills the gap with zeros.
unfoldable pub write_at : ℕ → Bytes → Bytes → Bytes
write_at zero bytes f = bytes ++ drop (length bytes) f
write_at (suc p) bytes [] = 0 ∷ write_at p bytes []
write_at (suc p) bytes (x ∷ f) = x ∷ write_at p bytes f

pub drop-nil : (n : ℕ) → drop {A = ℕ} n [] ≡ []
drop-nil zero = refl
drop-nil (suc n) = refl

drop-drop : (n m k : ℕ) (f : Bytes) → k ≡ m + n → drop n (drop m f) ≡ drop k f
drop-drop n zero k f h = ap (λ i. drop i f) (omega arith)
drop-drop n (suc m) zero f h = absurd (omega arith)
drop-drop n (suc m) (suc k) [] h = drop-nil n
drop-drop n (suc m) (suc k) (x ∷ f) h = drop-drop n m k f (omega arith)

-- What stands at and behind the place of a write.
drop-write_at :
    (p : ℕ) (bytes f : Bytes) → drop p (write_at p bytes f) ≡ bytes ++ drop (p + length bytes) f
unfolding write_at
drop-write_at zero bytes f = ap (λ i. bytes ++ drop i f) (omega arith)
drop-write_at (suc p) bytes [] =
    drop-write_at p bytes []
    ∙ ap (λ (t : Bytes). bytes ++ t)
        (drop-nil (p + length bytes) ∙ sym (drop-nil (suc p + length bytes)))
drop-write_at (suc p) bytes (x ∷ f) =
    drop-write_at p bytes f
    ∙ ap (λ (t : Bytes). bytes ++ t)
        (drop-drop (p + length bytes) 1 (suc p + length bytes) (x ∷ f) (omega arith))

-- A part of what was written is read back.
pub read_at-write_at_part :
    (p q n : ℕ) (a b c f : Bytes)
    → q ≡ p + length a
    → n ≡ length b
    → read_at q n (write_at p (a ++ b ++ c) f) ≡ b
unfolding read_at
read_at-write_at_part p q n a b c f at size =
    rw
      (
        ← drop-drop (length a) p q (write_at p (a ++ b ++ c) f) at,
        drop-write_at,
        append_assoc,
        append_assoc,
      )
      (ap (take n) (drop-append_length a _ (length a) refl) ∙ take-append_length b _ n size)

-- A read before the place of a write, inside the file, is not affected.
pub read_at-write_at_before :
    (p q n : ℕ) (bytes f : Bytes)
    → q + n ≤ p
    → q + n ≤ length f
    → read_at q n (write_at p bytes f) ≡ read_at q n f
unfolding read_at write_at
read_at-write_at_before p zero zero bytes f h k = refl
read_at-write_at_before zero (suc q) n bytes f h k = absurd (omega arith)
read_at-write_at_before (suc p) (suc q) n bytes [] h k = absurd (omega arith)
read_at-write_at_before (suc p) (suc q) n bytes (x ∷ f) h k =
    read_at-write_at_before p q n bytes f (omega arith) (omega arith)
read_at-write_at_before zero zero (suc n) bytes f h k = absurd (omega arith)
read_at-write_at_before (suc p) zero (suc n) bytes [] h k = absurd (omega arith)
read_at-write_at_before (suc p) zero (suc n) bytes (x ∷ f) h k =
    ap (λ (t : Bytes). x ∷ t) (read_at-write_at_before p zero n bytes f (omega arith) (omega arith))

-- A read behind a write is not affected.
pub read_at-write_at_behind :
    (p q n : ℕ) (bytes f : Bytes)
    → p + length bytes ≤ q
    → read_at q n (write_at p bytes f) ≡ read_at q n f
unfolding read_at
read_at-write_at_behind p q n bytes f h =
    let end : ℕ = p + length bytes in
    let w : Bytes = write_at p bytes f in
    ap (take n) (
      sym (drop-drop (q - end) end q w (omega arith))
      ∙ ap (drop (q - end)) (
          sym (drop-drop (length bytes) p end w refl)
          ∙ ap (drop (length bytes)) (drop-write_at p bytes f)
          ∙ drop-append_length bytes (drop end f) (length bytes) refl)
      ∙ drop-drop (q - end) end q f (omega arith))

pub length-write_at :
    (p : ℕ) (bytes f : Bytes) → length (write_at p bytes f) ≡ max (p + length bytes) (length f)
unfolding write_at
length-write_at zero bytes f =
    omega (arith, length-append bytes (drop (length bytes) f), length-drop (length bytes) f)
length-write_at (suc p) bytes [] = omega (arith, length-write_at p bytes [])
length-write_at (suc p) bytes (x ∷ f) = omega (arith, length-write_at p bytes f)

-- What was written is read back.
pub read_at-write_at :
    (p n : ℕ) (bytes f : Bytes) → n ≡ length bytes → read_at p n (write_at p bytes f) ≡ bytes
unfolding read_at
read_at-write_at p n bytes f size =
    rw drop-write_at (take-append_length bytes (drop (p + length bytes) f) n size)

-- What was read in full lies inside the file.
pub read_at-inside : (p n : ℕ) (f : Bytes) → length (read_at p n f) ≡ n → 0 < n → p + n ≤ length f
unfolding read_at
read_at-inside p n f size some_bytes = omega (arith, length-take n (drop p f), length-drop p f)
