-- ===== src/ApueDb/Open.antt =====
-- `db_open`, `_db_alloc`, `_db_free`, `db_close` of apue_db.c.
pub mod Fresh
use personal_project.Common.{
  ℕ, zero, suc, ◌+◌, Bool, true, false, ◌&&◌, Option, none, some, List, [], ◌∷◌, ◌++◌, ◌==◌,
  if◌then◌else◌, length,
}
use personal_project.Decimal.{Bytes, pos, padded}
use personal_project.Posix.{
  Os, LockType, File, Fd, idxfd, write_lock, failed, called, next_fault, later_faults, set_lock,
  write,
}
use personal_project.ApueDb.State.{
  Db, M, pure, ◌>>=◌, ◌>>◌, get, sys, no_counts, nhash_def, hash_off, ptr_sz, newline,
}
use personal_project.ApueDb.Ops.{rewind}

-- The two files of a database, where they exist.
pub record Disk : Type 0 where
  pub idx_file : Option Bytes
  pub dat_file : Option Bytes

-- `O_CREAT` and `O_TRUNC`; the access mode is `O_RDWR`.
pub record OpenFlags : Type 0 where
  pub creat : Bool
  pub trunc : Bool

-- What `malloc` returns holds any bytes, and so does the stack.
pub record Memory : Type 0 where
  pub stack : Bytes
  pub idxbuf : Bytes
  pub datbuf : Bytes

pub data Opened : Type 0 where
  opened : Db → Opened
  refused : Disk → Opened

-- The content of a file after `open`, if that succeeds.
unfoldable pub open_file : OpenFlags → Bool → Option Bytes → Option Bytes
open_file flags true f = none
open_file flags false none = if flags.creat then some [] else none
open_file flags false (some b) = some (if flags.trunc then [] else b)

-- `calloc` and the three `malloc`: whether all succeeded, and what is left of the outcomes.
unfoldable pub alloc : ℕ → List Bool → Bool × List Bool
alloc zero faults = (true, faults)
alloc (suc n) [] = (true, [])
alloc (suc n) (true ∷ faults) = (false, faults)
alloc (suc n) (false ∷ faults) = alloc n faults

-- Pointers to empty chains, the free list first.
unfoldable pub pointers : ℕ → Bytes
pointers zero = []
pointers (suc n) = padded ptr_sz 0 ++ pointers n

unfoldable pub header : Bytes
unfolding pointers
header = pointers (nhash_def + 1) ++ newline ∷ []

-- `fstat`
file_size : Os → Option ℕ × Os
file_size o = if failed o then (none, called o) else (some (length o.idx.content), called o)

write_header : Option ℕ → M Bool
write_header none = pure false
write_header (some size) = if size == 0 then sys (write idxfd header) else pure true

-- The index file of a new database is filled under a lock: whether that succeeded.
unfoldable pub initialize : M Bool
unfolding file_size write_header
initialize = do
  locked ← sys (set_lock idxfd (some write_lock) 0 0)
  if locked
      then (do
        size ← sys file_size
        written ← write_header size
        if written then sys (set_lock idxfd none 0 0) else pure false)
      else pure false

abbrev no_lock : Fd → ℕ → Option LockType
no_lock fd i = none

abbrev pub new_handle : Memory → Bytes → Bytes → Bytes → List Bool → Db
new_handle m path idx dat faults = record {
  os = record {
    idx = record { content = idx; position = 0 };
    dat = record { content = dat; position = 0 };
    locks = no_lock;
    faults = faults;
  };
  stack = m.stack;
  name = path ++ b'.' ∷ b'd' ∷ b'a' ∷ b't' ∷ [];
  idxbuf = m.idxbuf;
  datbuf = m.datbuf;
  idxoff = pos 0;
  idxlen = 0;
  datoff = pos 0;
  datlen = 0;
  ptrval = pos 0;
  ptroff = pos 0;
  chainoff = 0;
  hashoff = hash_off;
  nhash = nhash_def;
  counts = no_counts;
}

-- The files that a handle leaves behind.
unfoldable pub close : Db → Disk
close s = record { idx_file = some s.os.idx.content; dat_file = some s.os.dat.content }

-- A handle is given up, with its descriptors open, where the file cannot be filled.
rewound : Option (Bool × Db) → Disk → Opened
rewound none d = refused d
rewound (some (false, s)) d = refused (close s)
rewound (some (true, s)) d = elim (rewind s) [ none ↦ refused d | some (_, t) ↦ opened t ]

or_old : Option Bytes → Option Bytes → Option Bytes
or_old none old = old
or_old (some new) old = some new

prepare : OpenFlags → Disk → Db → Opened
prepare flags d s =
    if flags.creat && flags.trunc then rewound (initialize s) d else rewound (some (true, s)) d

open_both : Memory → Bytes → OpenFlags → Disk → Option Bytes → Option Bytes → List Bool → Opened
open_both m path flags d (some idx) (some dat) faults =
    prepare flags d (new_handle m path idx dat faults)
open_both m path flags d idx dat faults =
    refused (record { idx_file = or_old idx d.idx_file; dat_file = or_old dat d.dat_file })

open_path : Memory → Bytes → OpenFlags → Disk → Bool × List Bool → Opened
open_path m path flags d (false, faults) = refused d
open_path m path flags d (true, faults) =
    open_both m path flags d (open_file flags (next_fault faults) d.idx_file)
      (open_file flags (next_fault (later_faults faults)) d.dat_file)
      (later_faults (later_faults faults))

-- `none` stands for the null path.
unfoldable pub db_open : Memory → Option Bytes → OpenFlags → Disk → List Bool → Opened
unfolding open_path open_both or_old prepare rewound
db_open m none flags d faults = refused d
db_open m (some path) flags d faults = open_path m path flags d (alloc 4 faults)
