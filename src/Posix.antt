-- ===== src/Posix.antt =====
-- The files, the record locks and the allocations that the programs ask the system for.
--
-- A call takes its outcome from `faults`: while the list lasts, each call removes one entry and
-- fails where that is true; afterwards every call succeeds. A write is whole or fails.
pub mod Calm
pub mod Content
use personal_project.Common.{
  ℕ, zero, suc, ◌+◌, ◌-◌, ◌≡◌, Bool, true, false, ◌&&◌, ◌||◌, Option, none, some, List, [], ◌∷◌,
  ltb, leb, ◌==◌, if◌then◌else◌, length,
}
use personal_project.Decimal.{Bytes, ℤ, pos, negsuc}
use personal_project.Posix.Content.{read_at, write_at}

pub record File : Type 0 where
  pub content : Bytes
  pub position : ℕ

-- The descriptors of the index file and of the data file.
pub data Fd : Type 0 where
  idxfd datfd : Fd

pub data LockType : Type 0 where
  read_lock write_lock : LockType

pub record Os : Type 0 where
  pub idx : File
  pub dat : File
  -- The lock that this process holds on each byte.
  pub locks : Fd → ℕ → Option LockType
  pub faults : List Bool

abbrev pub file : Fd → Os → File
file idxfd o = o.idx
file datfd o = o.dat

abbrev pub set_file : Fd → File → Os → Os
set_file idxfd f o = record o { idx = f }
set_file datfd f o = record o { dat = f }

abbrev pub same_fd : Fd → Fd → Bool
same_fd idxfd idxfd = true
same_fd datfd datfd = true
same_fd _ _ = false

-- The outcome of the next call.
abbrev pub next_fault : List Bool → Bool
next_fault [] = false
next_fault (b ∷ r) = b

abbrev pub later_faults : List Bool → List Bool
later_faults [] = []
later_faults (b ∷ r) = r

-- Calls in a row, each of which ends the function where it fails: whether all of them succeeded.
unfoldable pub all_succeed : ℕ → List Bool → Bool
all_succeed zero faults = true
all_succeed (suc n) faults =
    if next_fault faults then false else all_succeed n (later_faults faults)

abbrev pub failed : Os → Bool
failed o = next_fault o.faults

abbrev pub called : Os → Os
called o = record o { faults = later_faults o.faults }

pub data Whence : Type 0 where
  seek_set seek_cur seek_end : Whence

abbrev pub seek_from : ℕ → ℤ → Option ℕ
seek_from base (pos n) = some (base + n)
seek_from base (negsuc n) = if ltb n base then some (base - suc n) else none

abbrev pub seek_target : Whence → File → ℤ → Option ℕ
seek_target seek_set f (pos n) = some n
seek_target seek_set f (negsuc n) = none
seek_target seek_cur f offset = seek_from f.position offset
seek_target seek_end f offset = seek_from (length f.content) offset

abbrev pub minus_one : ℤ
minus_one = negsuc 0

-- `lseek` returns the new position, or -1.
seek_to : Fd → Option ℕ → Os → ℤ × Os
seek_to fd none o = (minus_one, o)
seek_to fd (some n) o =
    if failed o
    then (minus_one, called o)
    else (pos n, set_file fd (record (file fd o) { position = n }) (called o))

unfoldable pub lseek : Fd → ℤ → Whence → Os → ℤ × Os
unfolding seek_to
lseek fd offset whence o = seek_to fd (seek_target whence (file fd o) offset) o

-- `read` returns the bytes, none at the end of the file; it returns nothing where it fails. `readv`
-- is one `read` of the sum of its parts.
unfoldable pub read : Fd → ℕ → Os → Option Bytes × Os
read fd n o =
    if failed o
    then (none, called o)
    else let f = file fd o in
      let got = read_at f.position n f.content in
      (some got, set_file fd (record f { position = f.position + length got }) (called o))

-- `write` and `writev`: whether all bytes were written.
unfoldable pub write : Fd → Bytes → Os → Bool × Os
write fd bytes o =
    if failed o
    then (false, called o)
    else let f = file fd o in
      (
        true,
        set_file fd
            (record {
              content = write_at f.position bytes f.content;
              position = f.position + length bytes;
            })
            (called o),
      )

-- Whether byte `i` lies in the region; a length of 0 reaches to the end of the file and beyond.
abbrev pub in_region : ℕ → ℕ → ℕ → Bool
in_region start len i = leb start i && (len == 0 || ltb i (start + len))

abbrev pub set_locks :
    Fd → ℕ → ℕ → Option LockType → (Fd → ℕ → Option LockType) → Fd → ℕ → Option LockType
set_locks fd start len l held g i = if same_fd fd g && in_region start len i then l else held g i

-- `fcntl` with a record lock, from the start of the file: whether it succeeded. A region that is
-- locked anew changes its type, one that is unlocked is split.
unfoldable pub set_lock : Fd → Option LockType → ℕ → ℕ → Os → Bool × Os
set_lock fd l start len o =
    if failed o
    then (false, called o)
    else (true, record (called o) { locks = set_locks fd start len l o.locks })
