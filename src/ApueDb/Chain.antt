-- ===== src/ApueDb/Chain.antt =====
-- The hash chains and the free list: `_db_hash`, `_db_find_and_lock`, `_db_findfree`, `_db_dodelete`.
use personal_project.Common.{
  ℕ, zero, suc, ◌+◌, ◌-◌, ◌*◌, ◌%◌, ◌^◌, Bool, true, false, ◌&&◌, none, some, [], ◌∷◌, ◌++◌, ltb,
  ◌==◌, if◌then◌else◌, length, replicate,
}
use personal_project.Decimal.{Bytes, ℤ, pos, negsuc, is_zero}
use personal_project.Posix.{idxfd, read_lock, write_lock, seek_set, minus_one, set_lock}
use personal_project.Posix.Content.{write_at}
use personal_project.ApueDb.State.{
  M, pure, ◌>>=◌, ◌>>◌, get, modify, sys, cstr, space, ptr_sz, free_off,
}
use personal_project.ApueDb.Entry.{readptr, readidx, writedat, writeidx, writeptr}

-- `c * i` for a `char`, which is signed, converted to an unsigned long.
char_product : ℕ → ℕ → ℕ
char_product c i = if ltb c 128 then c * i % 2 ^ 64 else (2 ^ 64 - (256 - c) * i % 2 ^ 64) % 2 ^ 64

hash_loop : ℕ → ℕ → Bytes → ℕ
hash_loop i hval [] = hval
hash_loop i hval (c ∷ key) = hash_loop (i + 1) ((hval + char_product c i) % 2 ^ 64) key

unfoldable pub hash : ℕ → Bytes → ℕ
unfolding hash_loop char_product
hash nhash key = hash_loop 1 0 key % nhash

-- Where the pointer to the chain of a key stands.
unfoldable pub chain_offset : ℕ → ℕ → Bytes → ℕ
chain_offset nhash hashoff key = hash nhash key * ptr_sz + hashoff

-- `0 == strcmp(a, b)` for terminated texts.
unfoldable pub same_text : Bytes → Bytes → Bool
same_text [] [] = true
same_text (a ∷ s) (b ∷ t) = a == b && same_text s t
same_text _ _ = false

-- The walk along a chain, on fuel: the offset of the record with the key, or 0.
unfoldable pub search_chain : ℕ → Bytes → ℤ → M ℤ
search_chain zero key offset = λ s. none
search_chain (suc fuel) key offset = if is_zero offset then pure offset else do
  nextoffset ← readidx offset
  s ← get
  if same_text (cstr s.idxbuf) key
      then pure offset
      else do modify (λ s. record s { ptroff = offset }); search_chain fuel key nextoffset

unfoldable pub find_and_lock : ℕ → Bytes → Bool → M ℤ
find_and_lock fuel key writelock = do
  modify (λ s. record s {
    chainoff = chain_offset s.nhash s.hashoff key;
    ptroff = pos (chain_offset s.nhash s.hashoff key);
  })
  s ← get
  locked ← sys (
      set_lock idxfd (elim writelock [ true ↦ some write_lock | false ↦ some read_lock ]) s.chainoff
        1)
  if locked
      then (do
        first ← readptr s.ptroff
        offset ← search_chain fuel key first
        pure (if is_zero offset then negsuc 2 else pos 0))
      else pure (if writelock then minus_one else negsuc 1)

-- The walk along the free list: the offset of a record whose blanked key and data have the lengths
-- that are wanted, or 0, and the place of the pointer to it.
unfoldable pub search_free : ℕ → ℕ → ℕ → ℤ → ℤ → M (ℤ × ℤ)
search_free zero keylen datlen saveoffset offset = λ s. none
search_free (suc fuel) keylen datlen saveoffset offset =
    if is_zero offset then pure (saveoffset, offset) else do
      nextoffset ← readidx offset
      s ← get
      if keylen == length (cstr s.idxbuf) && datlen == s.datlen
          then pure (saveoffset, offset)
          else search_free fuel keylen datlen offset nextoffset

-- Whether a record was taken off the free list.
unlink_free : ℤ × ℤ → M Bool
unlink_free (saveoffset, offset) =
    if is_zero offset then pure false else do s ← get; writeptr saveoffset s.ptrval; pure true

unfoldable pub findfree : ℕ → ℕ → ℕ → M Bool
unfolding unlink_free
findfree fuel keylen datlen = do
  locked ← sys (set_lock idxfd (some write_lock) free_off 1)
  if locked
      then (do
        offset ← readptr (pos free_off)
        place ← search_free fuel keylen datlen (pos free_off) offset
        found ← unlink_free place
        unlocked ← sys (set_lock idxfd none free_off 1)
        pure (found && unlocked))
      else pure false

-- Every byte before the terminator becomes a blank.
unfoldable pub blank_key : Bytes → Bytes
blank_key [] = []
blank_key (c ∷ s) = if c == 0 then 0 ∷ s else space ∷ blank_key s

-- `datlen - 1`, of type `size_t`.
abbrev pub size_pred : ℕ → ℕ
size_pred zero = 2 ^ 64 - 1
size_pred (suc n) = n

unfoldable pub dodelete : M (Unit {0})
dodelete = do
  modify (λ s. record s {
    datbuf = write_at 0 (replicate (size_pred s.datlen) space ++ 0 ∷ []) s.datbuf;
    idxbuf = blank_key s.idxbuf;
  })
  locked ← sys (set_lock idxfd (some write_lock) free_off 1)
  if locked
      then (do
        s ← get
        writedat (cstr s.datbuf) s.datoff seek_set
        freeptr ← readptr (pos free_off)
        s ← get
        writeidx (cstr s.idxbuf) s.idxoff seek_set freeptr
        after ← get
        writeptr (pos free_off) after.idxoff
        writeptr s.ptroff s.ptrval
        sys (set_lock idxfd none free_off 1)
        pure tt)
      else pure tt
