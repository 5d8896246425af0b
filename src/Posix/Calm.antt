-- ===== src/Posix/Calm.antt =====
-- What the calls do where none of them fails.
use personal_project.Common.{ℕ, ◌+◌, ◌≡◌, true, Option, some, [], arith, length}
use personal_project.Decimal.{Bytes, pos}
use personal_project.Posix.{
  Os, LockType, Fd, idxfd, datfd, file, set_file, seek_set, seek_cur, seek_end, lseek, read, write,
  set_lock, set_locks,
}
use personal_project.Posix.Content.{read_at, write_at}

module _ (o : Os) (calm : o.faults ≡ []) where
  -- The place of one file is set.
  abbrev pub sought : Fd → ℕ → Os
  sought fd n = set_file fd (record (file fd o) { position = n }) o

  pub lseek-set : (fd : Fd) (n : ℕ) → lseek fd (pos n) seek_set o ≡ (pos n, sought fd n)
  unfolding lseek
  lseek-set idxfd n = ground arith
  lseek-set datfd n = ground arith

  pub lseek-cur :
      (fd : Fd)
      → lseek fd (pos 0) seek_cur o ≡ (pos (file fd o).position, sought fd (file fd o).position)
  unfolding lseek
  lseek-cur idxfd = ground arith
  lseek-cur datfd = ground arith

  pub lseek-end :
      (fd : Fd)
      → lseek fd (pos 0) seek_end o
        ≡ (pos (length (file fd o).content), sought fd (length (file fd o).content))
  unfolding lseek
  lseek-end idxfd = ground arith
  lseek-end datfd = ground arith

  pub read-all :
      (fd : Fd) (n : ℕ) (got : Bytes)
      → read_at (file fd o).position n (file fd o).content ≡ got
      → length got ≡ n
      → read fd n o ≡ (some got, sought fd ((file fd o).position + n))
  unfolding read
  read-all idxfd n got h k = ground arith
  read-all datfd n got h k = ground arith

  -- Nothing is read at the end of a file.
  pub read-end :
      (fd : Fd) (n : ℕ)
      → read_at (file fd o).position n (file fd o).content ≡ []
      → read fd n o ≡ (some [], sought fd ((file fd o).position + 0))
  unfolding read
  read-end idxfd n h = ground arith
  read-end datfd n h = ground arith

  -- The file after a write at its place.
  abbrev pub written : Fd → Bytes → Os
  written fd bytes =
      set_file fd
        (record {
          content = write_at (file fd o).position bytes (file fd o).content;
          position = (file fd o).position + length bytes;
        })
        o

  pub write-all : (fd : Fd) (bytes : Bytes) → write fd bytes o ≡ (true, written fd bytes)
  unfolding write
  write-all idxfd bytes = ground arith
  write-all datfd bytes = ground arith

  pub set_lock-all :
      (fd : Fd) (l : Option LockType) (start len : ℕ)
      → set_lock fd l start len o ≡ (true, record o { locks = set_locks fd start len l o.locks })
  unfolding set_lock
  set_lock-all fd l start len = ground arith
