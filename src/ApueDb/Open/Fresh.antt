-- ===== src/ApueDb/Open/Fresh.antt =====
-- A database that `db_open` has just created.
use native.Mathlib.Nat.{mod-lt}
use personal_project.Common.{
  ℕ, zero, suc, ◌+◌, ◌*◌, ◌≤◌, ◌<◌, ◌≡◌, refl, ap, ◌∙◌, true, false, none, some, [], ◌∷◌, ◌++◌,
  append-nil, Option, arith, length, drop, take, length-append,
}
use personal_project.Decimal.{Bytes, pos, padded}
use personal_project.Decimal.RoundTrip.{length-padded}
use personal_project.Posix.{lseek, write, set_lock}
use personal_project.Posix.Content.{read_at, write_at, drop-nil}
use personal_project.ApueDb.State.{Db, ◌>>=◌, ptr_sz}
use personal_project.ApueDb.Entry.Write.{HasPointer}
use personal_project.ApueDb.Chain.{hash, chain_offset}
use personal_project.ApueDb.Ops.{rewind}
use personal_project.ApueDb.Open.{
  Disk, OpenFlags, Memory, opened, open_file, alloc, pointers, header, initialize, db_open,
}

hash-lt : (nhash : ℕ) (key : Bytes) → 0 < nhash → hash nhash key < nhash
unfolding hash
hash-lt nhash key h = mod-lt _ h

-- In a table of `nhash` chains the pointer to the chain of any key stands behind the pointer to the
-- free list and ends before the first record.
pub chain_offset_bounds :
    (nhash : ℕ) (key : Bytes)
    → 0 < nhash
    → (6 ≤ chain_offset nhash 6 key) × (chain_offset nhash 6 key + 6 ≤ (nhash + 1) * 6)
unfolding chain_offset
chain_offset_bounds nhash key h =
    let l : hash nhash key < nhash = hash-lt nhash key h in (omega arith, omega arith)

length-pointers : (n : ℕ) → length (pointers n) ≡ n * 6
unfolding pointers
length-pointers zero = omega arith
length-pointers (suc n) = omega (
  arith,
  length-append (padded ptr_sz 0) (pointers n),
  length-pointers n,
  length-padded 5 0 (omega arith),
)

pub length-header : length header ≡ 829
unfolding header padded
length-header = refl

six_more : (i : ℕ) → suc i * 6 ≡ suc (suc (suc (suc (suc (suc (i * 6))))))
six_more i = omega arith

read_at-pointers :
    (n i : ℕ) (rest : Bytes) → i < n → read_at (i * 6) 6 (pointers n ++ rest) ≡ padded 6 0
unfolding read_at pointers padded
read_at-pointers zero i rest h = absurd (omega arith)
read_at-pointers (suc n) zero rest h = refl
read_at-pointers (suc n) (suc i) rest h =
    ap (λ k. take 6 (drop k (padded 6 0 ++ pointers n ++ rest))) (six_more i)
    ∙ read_at-pointers n i rest (omega arith)

-- Every pointer of a fresh index file is 0.
header-HasPointer : (i : ℕ) → i < 138 → HasPointer header (i * 6) 0
unfolding header
header-HasPointer i h = record { fits = omega arith; text = read_at-pointers 138 i (10 ∷ []) h }

-- The chain of a key in a fresh index file is empty.
pub header-chain : (key : Bytes) → HasPointer header (chain_offset 137 6 key) 0
unfolding chain_offset
header-chain key =
    let l : hash 137 key < 137 = hash-lt 137 key (omega arith) in
    let e : hash 137 key * 6 + 6 ≡ (hash 137 key + 1) * 6 = omega arith in
    rw e (header-HasPointer (hash 137 key + 1) (omega arith))

pub header-free : HasPointer header 0 0
header-free = header-HasPointer 0 (omega arith)

abbrev pub fresh_flags : OpenFlags
fresh_flags = record { creat = true; trunc = true }

-- The handle of a database that was just created.
pub record IsFresh (m : Memory) (s : Db) : Type 0 where
  pub idx : s.os.idx.content ≡ header
  pub dat : s.os.dat.content ≡ []
  pub calm : s.os.faults ≡ []
  pub stack : s.stack ≡ m.stack
  pub nhash : s.nhash ≡ 137
  pub hashoff : s.hashoff ≡ 6
  pub ptrval : s.ptrval ≡ pos 0

open_file-fresh : (f : Option Bytes) → open_file fresh_flags false f ≡ some []
unfolding open_file
open_file-fresh none = refl
open_file-fresh (some b) = refl

write_at-nil : (b : Bytes) → write_at 0 b [] ≡ b
unfolding write_at
write_at-nil b = ap (λ (t : Bytes). b ++ t) (drop-nil (length b)) ∙ append-nil b

-- `db_open` with creation and truncation makes an empty table, whatever the files held.
pub db_open-IsFresh :
    (m : Memory) (path : Bytes) (d : Disk)
    → (s : Db) × (db_open m (some path) fresh_flags d [] ≡ opened s) × IsFresh m s
unfolding db_open alloc initialize set_lock write rewind lseek ◌>>=◌
db_open-IsFresh m path d =
    rw (open_file-fresh d.idx_file, open_file-fresh d.dat_file)
      (
        _,
        refl,
        record {
          idx = write_at-nil header;
          dat = refl;
          calm = refl;
          stack = refl;
          nhash = refl;
          hashoff = refl;
          ptrval = refl;
        },
      )
