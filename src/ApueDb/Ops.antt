-- ===== src/ApueDb/Ops.antt =====
-- The operations of apue_db.c: `db_fetch`, `db_store`, `db_delete`, `db_rewind`, `db_nextrec`.
-- `fuel` bounds each walk along a chain, along the free list and along the records.
pub mod Fetch
pub mod Store
pub mod StoreFetch
pub mod Stale
pub mod Safety
pub mod Delete
pub mod DeleteFetch
pub mod Reuse
pub mod Scan
pub mod Nextrec
pub mod Records
pub mod RecordsStore
pub mod Replace
pub mod ReplaceFetch
pub mod DeleteStore
use personal_project.Common.{
  ℕ, zero, suc, ◌+◌, ◌*◌, Bool, true, false, ◌&&◌, ◌||◌, not, Option, none, some, [], ◌∷◌, ltb,
  ◌==◌, if◌then◌else◌, length,
}
use personal_project.Decimal.{Bytes, ℤ, pos, negsuc, is_negative, is_zero}
use personal_project.Posix.{idxfd, read_lock, seek_set, seek_end, minus_one, lseek, set_lock}
use personal_project.ApueDb.State.{
  Db, M, pure, ◌>>=◌, ◌>>◌, get, modify, sys, count, cstr, space, ptr_sz, free_off, datlen_min,
  datlen_max,
}
use personal_project.ApueDb.Entry.{readptr, readidx, readdat, writedat, writeidx, writeptr}
use personal_project.ApueDb.Chain.{find_and_lock, findfree, dodelete}

-- The lock on the chain is given back, and the result is dropped if that fails.
pub unlock_chain : {A : Type 0} → A → A → M A
unlock_chain result failure = do
  s ← get
  unlocked ← sys (set_lock idxfd none s.chainoff 1)
  pure (if unlocked then result else failure)

pub fetch_found : ℤ → M (Option Bytes)
fetch_found found =
    if is_negative found
    then (do count (λ c. record c { fetcherr = c.fetcherr + 1 }); pure none)
    else do text ← readdat; count (λ c. record c { fetchlok = c.fetchlok + 1 }); pure text

unfoldable pub fetch : ℕ → Bytes → M (Option Bytes)
unfolding unlock_chain fetch_found
fetch fuel key = do
  found ← find_and_lock fuel key false
  result ← fetch_found found
  unlock_chain result none

pub delete_found : ℤ → M ℤ
delete_found found =
    if is_zero found
    then (do dodelete; count (λ c. record c { delok = c.delok + 1 }); pure (pos 0))
    else do count (λ c. record c { delerr = c.delerr + 1 }); pure minus_one

unfoldable pub delete : ℕ → Bytes → M ℤ
unfolding unlock_chain delete_found
delete fuel key = do
  found ← find_and_lock fuel key true
  rc ← delete_found found
  unlock_chain rc minus_one

pub data Flag : Type 0 where
  db_insert db_replace db_store : Flag

-- `DB_INSERT`, `DB_REPLACE`, `DB_STORE`; any other number is no flag.
unfoldable pub flag_of : ℕ → Option Flag
flag_of n =
    if n == 1
    then some db_insert
    else if n == 2
    then some db_replace
    else if n == 3
    then some db_store
    else none

-- The record goes to the end of both files and becomes the first of its chain.
pub append_record : Bytes → Bytes → ℤ → M (Unit {0})
append_record key text ptrval = do
  writedat text (pos 0) seek_end
  writeidx key (pos 0) seek_end ptrval
  s ← get
  writeptr (pos s.chainoff) s.idxoff

-- The record takes a place of the free list.
pub reuse_record : Bytes → Bytes → ℤ → M (Unit {0})
reuse_record key text ptrval = do
  s ← get
  writedat text s.datoff seek_set
  s ← get
  writeidx key s.idxoff seek_set ptrval
  s ← get
  writeptr (pos s.chainoff) s.idxoff

pub store_new : ℕ → Bytes → Bytes → M (Unit {0})
store_new fuel key text = do
  s ← get
  ptrval ← readptr (pos s.chainoff)
  free ← findfree fuel (length key) (length text + 1)
  if free
      then (do reuse_record key text ptrval; count (λ c. record c { stor2 = c.stor2 + 1 }))
      else do append_record key text ptrval; count (λ c. record c { stor1 = c.stor1 + 1 })

pub store_over : Bytes → Bytes → M (Unit {0})
store_over key text = do
  s ← get
  if length text + 1 == s.datlen
      then (do writedat text s.datoff seek_set; count (λ c. record c { stor4 = c.stor4 + 1 }))
      else do
        dodelete
        s ← get
        ptrval ← readptr (pos s.chainoff)
        append_record key text ptrval
        count (λ c. record c { stor3 = c.stor3 + 1 })

pub store_error : ℤ → M ℤ
store_error rc = do count (λ c. record c { storerr = c.storerr + 1 }); pure rc

pub store_missing : ℕ → Bytes → Bytes → Flag → M ℤ
store_missing fuel key text db_replace = store_error minus_one
store_missing fuel key text _ = do store_new fuel key text; pure (pos 0)

pub store_existing : Bytes → Bytes → Flag → M ℤ
store_existing key text db_insert = store_error (pos 1)
store_existing key text _ = do store_over key text; pure (pos 0)

pub store_flag : ℕ → Bytes → Bytes → Option Flag → M ℤ
store_flag fuel key text none = pure minus_one
store_flag fuel key text (some flag) =
    if ltb (length text + 1) datlen_min || ltb datlen_max (length text + 1)
    then pure minus_one
    else do
      found ← find_and_lock fuel key true
      rc ←
          if is_negative found
          then store_missing fuel key text flag
          else store_existing key text flag
      unlock_chain rc rc

unfoldable pub store : ℕ → Bytes → Bytes → ℕ → M ℤ
unfolding store_flag store_existing store_missing store_error store_over store_new reuse_record
    append_record unlock_chain
store fuel key text flag = store_flag fuel key text (flag_of flag)

unfoldable pub rewind : M (Unit {0})
rewind = do
  s ← get
  at ← sys (lseek idxfd (pos ((s.nhash + 1) * ptr_sz + 1)) seek_set)
  modify (λ s. record s { idxoff = at })

unfoldable pub all_spaces : Bytes → Bool
all_spaces [] = true
all_spaces (c ∷ s) = c == space && all_spaces s

-- Records are read until one has a key that is not blank: whether there was one.
unfoldable pub next_entry : ℕ → M Bool
next_entry zero = λ s. none
next_entry (suc fuel) = do
  next ← readidx (pos 0)
  s ← get
  if is_negative next
      then pure false
      else if all_spaces (cstr s.idxbuf)
      then next_entry fuel
      else pure true

-- What `_db_nextrec` copies to the caller's key, and the data.
pub next_found : Bool → M (Option Bytes × Option Bytes)
next_found false = pure (none, none)
next_found true = do
  s ← get
  text ← readdat
  count (λ c. record c { nextrec = c.nextrec + 1 })
  pure (some (cstr s.idxbuf), text)

abbrev pub without_data : Option Bytes × Option Bytes → Option Bytes × Option Bytes
without_data (key, text) = (key, none)

unfoldable pub nextrec : ℕ → M (Option Bytes × Option Bytes)
unfolding next_found
nextrec fuel = do
  locked ← sys (set_lock idxfd (some read_lock) free_off 1)
  if locked
      then (do
        found ← next_entry fuel
        result ← next_found found
        unlocked ← sys (set_lock idxfd none free_off 1)
        pure (if unlocked then result else without_data result))
      else pure (none, none)
