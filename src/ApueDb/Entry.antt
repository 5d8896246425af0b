-- ===== src/ApueDb/Entry.antt =====
-- Pointers, index records and data records in the files: `_db_readptr`, `_db_writeptr`, `_db_readidx`,
-- `_db_writeidx`, `_db_readdat`, `_db_writedat`.
pub mod Fields
pub mod Read
pub mod Write
pub mod Written
use personal_project.Common.{
  ℕ, ◌+◌, ◌-◌, ◌*◌, Bool, true, false, ◌||◌, Option, none, some, [], ◌∷◌, ◌++◌, ltb, ◌==◌,
  if◌then◌else◌, length, get_or, set, drop,
}
use personal_project.Decimal.{
  Bytes, ℤ, pos, negsuc, is_negative, is_zero, decimal, decimal_int, padded, atol,
}
use personal_project.Posix.{
  Os, idxfd, datfd, write_lock, Whence, seek_set, seek_cur, seek_end, minus_one, lseek, read, write,
  set_lock,
}
use personal_project.Posix.Content.{write_at}
use personal_project.ApueDb.State.{
  Db, M, pure, ◌>>=◌, ◌>>◌, get, modify, sys, cstr, to_size, sep, newline, ptr_sz, ptr_max,
  idxlen_sz, idxlen_min, idxlen_max, datlen_max,
}

-- The value of `_db_readptr` for what `read` gave.
pub pointer_of : Option Bytes → ℤ
pointer_of none = minus_one
pointer_of (some []) = pos 0
pointer_of (some (c ∷ s)) = if length (c ∷ s) == ptr_sz then atol (c ∷ s) else minus_one

unfoldable pub readptr : ℤ → M ℤ
unfolding pointer_of
readptr offset = do
  at ← sys (lseek idxfd offset seek_set)
  if is_negative at then pure minus_one else do got ← sys (read idxfd ptr_sz); pure (pointer_of got)

write_pointer : ℤ → ℤ → M (Unit {0})
write_pointer offset (negsuc n) = pure tt
write_pointer offset (pos p) = if ltb ptr_max p then pure tt else do
  at ← sys (lseek idxfd offset seek_set)
  if is_negative at then pure tt else do sys (write idxfd (padded ptr_sz p)); pure tt

unfoldable pub writeptr : ℤ → ℤ → M (Unit {0})
unfolding write_pointer
writeptr offset ptrval = write_pointer offset ptrval

-- `strchr` for a separator, which is then overwritten with 0: the text before it and the buffer
-- behind it.
unfoldable pub cut : ℕ → Bytes → Option (Bytes × Bytes)
cut c [] = none
cut c (x ∷ s) =
    if x == 0
    then none
    else if x == c
    then some ([], s)
    else elim (cut c s) [ none ↦ none | some (before, behind) ↦ some (x ∷ before, behind) ]

unfoldable pub set_idxbuf : Bytes → M (Unit {0})
set_idxbuf b = modify (λ s. record s { idxbuf = b })

-- The numbers behind the two separators.
unfoldable pub numbers : Bytes → Bytes → M ℤ
numbers ptr1 ptr2 = do
  modify (λ s. record s { datoff = atol ptr1 })
  if is_negative (atol ptr1) then pure minus_one else do
    let len = to_size (atol ptr2)
    modify (λ s. record s { datlen = len })
    if len == 0 || ltb datlen_max len then pure minus_one else do s ← get; pure s.ptrval

unfoldable pub third_separator : Bytes → Bytes → Option (Bytes × Bytes) → M ℤ
third_separator ptr1 ptr2 none = numbers ptr1 ptr2
third_separator ptr1 ptr2 (some _) = pure minus_one

unfoldable pub second_separator : Bytes → Option (Bytes × Bytes) → M ℤ
second_separator key none = pure minus_one
second_separator key (some (offset, ptr2)) = do
  set_idxbuf (key ++ 0 ∷ (offset ++ 0 ∷ ptr2))
  third_separator (offset ++ 0 ∷ ptr2) ptr2 (cut sep ptr2)

unfoldable pub first_separator : Option (Bytes × Bytes) → M ℤ
first_separator none = pure minus_one
first_separator (some (key, ptr1)) = do
  set_idxbuf (key ++ 0 ∷ ptr1)
  second_separator key (cut sep ptr1)

-- The newline is overwritten with 0, and the text is cut at its separators.
unfoldable pub split_record : ℕ → M ℤ
split_record len = do
  s ← get
  if get_or s.idxbuf (len - 1) 0 == newline
      then (do
        set_idxbuf (set s.idxbuf (len - 1) 0)
        first_separator (cut sep (set s.idxbuf (len - 1) 0)))
      else pure minus_one

unfoldable pub read_record : ℕ → Option Bytes → M ℤ
read_record len none = pure minus_one
read_record len (some bytes) = do
  modify (λ s. record s { idxbuf = write_at 0 bytes s.idxbuf })
  if length bytes == len then split_record len else pure minus_one

-- The pointer in front of the length is read and not used.
unfoldable pub read_header : Option Bytes → M ℤ
read_header none = pure minus_one
read_header (some bytes) =
    if length bytes == ptr_sz + idxlen_sz
    then (do
      s ← get
      let len = to_size (atol (drop ptr_sz bytes ++ s.stack))
      modify (λ s. record s { idxlen = len })
      if ltb len idxlen_min || ltb idxlen_max len
          then pure minus_one
          else do got ← sys (read idxfd len); read_record len got)
    else pure minus_one

unfoldable pub readidx : ℤ → M ℤ
readidx offset = do
  at ← sys (lseek idxfd offset (if is_zero offset then seek_cur else seek_set))
  modify (λ s. record s { idxoff = at })
  if is_negative at
      then pure minus_one
      else do got ← sys (read idxfd (ptr_sz + idxlen_sz)); read_header got

-- The terminated text in `datbuf`, to which `_db_readdat` points.
unfoldable pub read_data : ℕ → Option Bytes → M (Option Bytes)
read_data len none = pure none
read_data len (some bytes) = do
  modify (λ s. record s { datbuf = write_at 0 bytes s.datbuf })
  s ← get
  if length bytes == len
      then (if get_or s.datbuf (len - 1) 0 == newline
          then (do
            modify (λ s. record s { datbuf = set s.datbuf (len - 1) 0 })
            s ← get
            pure (some (cstr s.datbuf)))
          else pure none)
      else pure none

unfoldable pub readdat : M (Option Bytes)
readdat = do
  s ← get
  at ← sys (lseek datfd s.datoff seek_set)
  if is_negative at then pure none else do got ← sys (read datfd s.datlen); read_data s.datlen got

abbrev pub is_seek_set : Whence → Bool
is_seek_set seek_set = true
is_seek_set _ = false

abbrev pub is_seek_end : Whence → Bool
is_seek_end seek_end = true
is_seek_end _ = false

-- A lock or an unlock that is made for one kind of write: whether the write goes on.
lock_if : Bool → (Os → Bool × Os) → M Bool
lock_if false call = pure true
lock_if true call = sys call

append_data : Bytes → ℤ → Whence → M (Unit {0})
append_data text offset whence = do
  at ← sys (lseek datfd offset whence)
  modify (λ s. record s { datoff = at })
  if is_negative at then pure tt else do
    modify (λ s. record s { datlen = length text + 1 })
    written ← sys (write datfd (text ++ newline ∷ []))
    if written
        then (do lock_if (is_seek_end whence) (set_lock datfd none 0 0); pure tt)
        else pure tt

unfoldable pub writedat : Bytes → ℤ → Whence → M (Unit {0})
unfolding lock_if append_data
writedat text offset whence = do
  locked ← lock_if (is_seek_set whence) (set_lock datfd (some write_lock) 0 0)
  if locked then append_data text offset whence else pure tt

-- Where the locked end of the index file begins.
abbrev pub records_start : Db → ℕ
records_start s = (s.nhash + 1) * ptr_sz + 1

append_entry : ℕ → ℤ → Whence → M (Unit {0})
append_entry p offset whence = do
  at ← sys (lseek idxfd offset whence)
  modify (λ s. record s { idxoff = at })
  if is_negative at then pure tt else do
    s ← get
    let text = cstr s.idxbuf
    written ← sys (write idxfd (padded ptr_sz p ++ (padded idxlen_sz (length text) ++ text)))
    if written
        then (do lock_if (is_seek_end whence) (set_lock idxfd none (records_start s) 0); pure tt)
        else pure tt

-- The text of an index record, as `sprintf` leaves it in `idxbuf`.
abbrev pub entry_text : Bytes → ℤ → ℕ → Bytes
entry_text key datoff datlen =
    key ++ sep ∷ (decimal_int datoff ++ sep ∷ (decimal datlen ++ newline ∷ []))

write_entry : Bytes → ℤ → Whence → ℤ → M (Unit {0})
write_entry key offset whence (negsuc n) = pure tt
write_entry key offset whence (pos p) = if ltb ptr_max p then pure tt else do
  modify
      (λ s. record s { idxbuf = write_at 0 (entry_text key s.datoff s.datlen ++ 0 ∷ []) s.idxbuf })
  s ← get
  let len = length (cstr s.idxbuf)
  if ltb len idxlen_min || ltb idxlen_max len then pure tt else do
    locked ← lock_if (is_seek_end whence) (set_lock idxfd (some write_lock) (records_start s) 0)
    if locked then append_entry p offset whence else pure tt

unfoldable pub writeidx : Bytes → ℤ → Whence → ℤ → M (Unit {0})
unfolding lock_if append_entry write_entry
writeidx key offset whence ptrval = do
  modify (λ s. record s { ptrval = ptrval })
  write_entry key offset whence ptrval
