-- ===== src/ApueDb/Entry/Fields.antt =====
-- The texts in an index record: keys, numbers and separators, and how `_db_readidx` splits them.
use native.Mathlib.Nat.{mod-eq_of_lt}
use personal_project.Common.{
  ℕ, ◌+◌, ◌-◌, ◌^◌, ◌≤◌, ◌<◌, ◌≡◌, refl, ap, false, none, some, [], ◌∷◌, ◌++◌, append_assoc, arith,
  ◌==◌, length, get_or, set, All, set-append_length, get_or-append_length,
}
use personal_project.Decimal.{Bytes, pos, decimal, atol}
use personal_project.Decimal.RoundTrip.{IsDigit, atol-decimal, decimal-IsDigit}
use personal_project.ApueDb.State.{Db, ◌>>=◌, cstr, to_size, sep, newline}
use personal_project.ApueDb.Entry.{
  cut, set_idxbuf, numbers, third_separator, second_separator, first_separator, split_record,
}

-- A byte that may stand in a key.
abbrev pub IsKeyByte : ℕ → Type 0
IsKeyByte c = ((c == 0) ≡ false) × ((c == sep) ≡ false)

-- A key that the format can hold: no separator, and no terminator.
abbrev pub IsKey : Bytes → Type 0
IsKey = All IsKeyByte

IsDigit-IsKeyByte : (c : ℕ) → IsDigit c → IsKeyByte c
IsDigit-IsKeyByte c h = (ground arith, ground arith)

pub IsKey-digits : (s : Bytes) → All IsDigit s → IsKey s
IsKey-digits [] h = tt
IsKey-digits (c ∷ s) h = (IsDigit-IsKeyByte c h.0, IsKey-digits s h.1)

cut_cons_none : (c : ℕ) (s : Bytes) → IsKeyByte c → cut sep s ≡ none → cut sep (c ∷ s) ≡ none
unfolding cut
cut_cons_none c s h e = rw (h.0, h.1, e)

cut_cons_some :
    (c : ℕ) (s a b : Bytes)
    → IsKeyByte c
    → cut sep s ≡ some (a, b)
    → cut sep (c ∷ s) ≡ some (c ∷ a, b)
unfolding cut
cut_cons_some c s a b h e = rw (h.0, h.1, e)

-- The text before a separator has none and no terminator.
cut-sep : (key rest : Bytes) → IsKey key → cut sep (key ++ sep ∷ rest) ≡ some (key, rest)
cut-sep [] rest h = unfold cut in refl
cut-sep (c ∷ key) rest h = cut_cons_some c (key ++ sep ∷ rest) key rest h.0 (cut-sep key rest h.1)

cut-end : (key rest : Bytes) → IsKey key → cut sep (key ++ 0 ∷ rest) ≡ none
cut-end [] rest h = unfold cut in refl
cut-end (c ∷ key) rest h = cut_cons_none c (key ++ 0 ∷ rest) h.0 (cut-end key rest h.1)

-- A text without a terminator in it.
abbrev pub IsText : Bytes → Type 0
IsText = All (λ c. (c == 0) ≡ false)

pub cstr-end : (text rest : Bytes) → IsText text → cstr (text ++ 0 ∷ rest) ≡ text
unfolding cstr
cstr-end [] rest h = refl
cstr-end (c ∷ text) rest h = rw h.0 (ap (λ (t : Bytes). c ∷ t) (cstr-end text rest h.1))

pub IsText-key : (key : Bytes) → IsKey key → IsText key
IsText-key [] h = tt
IsText-key (c ∷ key) h = (h.0.0, IsText-key key h.1)

pub to_size-pos : (n : ℕ) → n < 2 ^ 64 → to_size (pos n) ≡ n
unfolding to_size
to_size-pos n h = mod-eq_of_lt h

numbers-ok :
    (ptr1 ptr2 : Bytes) (d n : ℕ) (s : Db)
    → atol ptr1 ≡ pos d
    → atol ptr2 ≡ pos n
    → 0 < n
    → n ≤ 1024
    → numbers ptr1 ptr2 s ≡ some (s.ptrval, record s { datoff = pos d; datlen = n })
unfolding numbers ◌>>=◌
numbers-ok ptr1 ptr2 d n s a b low high =
    let size : to_size (pos n) ≡ n = to_size-pos n (omega arith) in rw (a, b, size) (ground arith)

-- The text of a record without its newline.
abbrev pub body : Bytes → ℕ → ℕ → Bytes
body key d n = key ++ sep ∷ (decimal d ++ sep ∷ decimal n)

-- The buffer after the separators are overwritten.
abbrev pub split_text : Bytes → ℕ → ℕ → Bytes → Bytes
split_text key d n rest = key ++ 0 ∷ (decimal d ++ 0 ∷ (decimal n ++ 0 ∷ rest))

first_separator-ok :
    (key rest : Bytes) (d n : ℕ) (s : Db)
    → 0 < n
    → n ≤ 1024
    → first_separator (some (key, decimal d ++ sep ∷ (decimal n ++ 0 ∷ rest))) s
      ≡ some (s.ptrval, record s { idxbuf = split_text key d n rest; datoff = pos d; datlen = n })
unfolding first_separator second_separator third_separator set_idxbuf ◌>>=◌
first_separator-ok key rest d n s low high =
    rw
      (
        cut-sep (decimal d) (decimal n ++ 0 ∷ rest) (IsKey-digits (decimal d) (decimal-IsDigit d)),
        cut-end (decimal n) rest (IsKey-digits (decimal n) (decimal-IsDigit n)),
      )
      (numbers-ok (decimal d ++ 0 ∷ (decimal n ++ 0 ∷ rest)) (decimal n ++ 0 ∷ rest) d n
        (record s { idxbuf = split_text key d n rest })
        (atol-decimal d (0 ∷ (decimal n ++ 0 ∷ rest)) refl) (atol-decimal n (0 ∷ rest) refl) low
        high)

cut-body :
    (key rest : Bytes) (d n : ℕ)
    → IsKey key
    → cut sep (body key d n ++ 0 ∷ rest) ≡ some (key, decimal d ++ sep ∷ (decimal n ++ 0 ∷ rest))
cut-body key rest d n clean =
    rw
      (
        append_assoc key (sep ∷ (decimal d ++ sep ∷ decimal n)) (0 ∷ rest),
        append_assoc (decimal d) (sep ∷ decimal n) (0 ∷ rest),
      )
      (cut-sep key (decimal d ++ sep ∷ (decimal n ++ 0 ∷ rest)) clean)

-- A buffer that begins with a record is split at its separators.
pub split_record-ok :
    (key rest : Bytes) (d n len : ℕ) (s : Db)
    → IsKey key
    → 0 < n
    → n ≤ 1024
    → s.idxbuf ≡ body key d n ++ newline ∷ rest
    → len ≡ length (body key d n) + 1
    → split_record len s
      ≡ some (s.ptrval, record s { idxbuf = split_text key d n rest; datoff = pos d; datlen = n })
unfolding split_record set_idxbuf ◌>>=◌
split_record-ok key rest d n len s clean low high buffer size =
    rw (ends, terminated, cut-body key rest d n clean)
      (first_separator-ok key rest d n (record s { idxbuf = body key d n ++ 0 ∷ rest }) low high)
  where
    ends : get_or s.idxbuf (len - 1) 0 ≡ newline
    ends = rw buffer (get_or-append_length (body key d n) rest newline 0 (len - 1) (omega arith))

    terminated : set s.idxbuf (len - 1) 0 ≡ body key d n ++ 0 ∷ rest
    terminated = rw buffer (set-append_length (body key d n) rest newline 0 (len - 1) (omega arith))
