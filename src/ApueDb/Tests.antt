-- ===== src/ApueDb/Tests.antt =====
-- Runs of apue_db.c on concrete databases, and the theorems at concrete inputs.
use Prim.Native.Char.{code}
use Prim.Native.String.{String}
use personal_project.Common.{◌≡◌, refl, true, false, Option, none, some, [], ◌∷◌}
use personal_project.Decimal.{Bytes, ℤ, pos, decimal_int, padded, atol}
use personal_project.Posix.{lseek, read, write, set_lock}
use personal_project.Posix.Content.{read_at, write_at}
use personal_project.ApueDb.State.{M, pure, ◌>>=◌, ◌>>◌, cstr, to_size}
use personal_project.ApueDb.Entry.{
  readptr, writeptr, cut, readidx, readdat, writedat, writeidx, set_idxbuf, numbers,
  third_separator, second_separator, first_separator, split_record, read_record, read_header,
  read_data,
}
use personal_project.ApueDb.Chain.{
  hash, chain_offset, same_text, search_chain, find_and_lock, search_free, findfree, blank_key,
  dodelete,
}
use personal_project.ApueDb.Ops.{
  fetch, store, delete, flag_of, all_spaces, next_entry, nextrec, rewind,
}
use personal_project.ApueDb.Open.Fresh.{fresh_flags}
use personal_project.ApueDb.Open.{
  Disk, Memory, Opened, opened, refused, open_file, alloc, header, pointers, initialize, db_open,
}

abbrev codes : String → Bytes
codes String.[] = []
codes (String.◌∷◌ c s) = code c ∷ codes s

abbrev memory : Memory
memory = record { stack = []; idxbuf = []; datbuf = [] }

abbrev no_files : Disk
no_files = record { idx_file = none; dat_file = none }

run : {A : Type 0} → M A → Opened → Option A
run m (refused d) = none
run m (opened s) = elim (m s) [ none ↦ none | some (a, t) ↦ some a ]

-- Opens `fetch`, `store` and all that they run.
run_parts : Unit {0}
unfolding ◌>>=◌ decimal_int padded atol lseek read write set_lock read_at write_at cstr to_size
    readptr writeptr cut readidx set_idxbuf numbers third_separator second_separator first_separator
    split_record read_record read_header readdat read_data writedat writeidx hash chain_offset
    same_text search_chain find_and_lock search_free findfree blank_key dodelete fetch store delete
    flag_of all_spaces next_entry nextrec rewind alloc header pointers initialize db_open open_file
run_parts = tt

fresh : Opened
unfolding run_parts
fresh = db_open memory (some (codes "t")) fresh_flags no_files []

two_keys : Option (ℤ × ℤ × Option Bytes × Option Bytes)
unfolding run fresh run_parts
two_keys =
    run
      (do
        a ← store 9 (codes "one") (codes "first") 1
        b ← store 9 (codes "two") (codes "second") 1
        x ← fetch 9 (codes "one")
        y ← fetch 9 (codes "two")
        pure (a, b, x, y))
      fresh

two_keys_stored : two_keys ≡ some (pos 0, pos 0, some (codes "first"), some (codes "second"))
unfolding two_keys
two_keys_stored = refl

-- The keys "a", "(a" and "$c" have one chain: after two stores the search for the third key does
-- not end.
one_chain : Option (Option Bytes)
unfolding run fresh run_parts
one_chain =
    run
      (do
        store 9 (codes "a") (codes "first") 1
        store 9 (codes "(a") (codes "second") 1
        fetch 9 (codes "$c"))
      fresh

one_chain_loops : one_chain ≡ none
unfolding one_chain
one_chain_loops = refl

-- Without `O_TRUNC` a new index file stays empty, and a record that is stored is lost.
untruncated : Option (ℤ × Option Bytes)
unfolding run run_parts
untruncated =
    run (do a ← store 9 (codes "one") (codes "first") 1; x ← fetch 9 (codes "one"); pure (a, x))
      (db_open memory (some (codes "t")) (record { creat = true; trunc = false }) no_files [])

untruncated_lost : untruncated ≡ some (pos 0, none)
unfolding untruncated
untruncated_lost = refl

deleted : Option (ℤ × ℤ × Option Bytes × (Option Bytes × Option Bytes))
unfolding run fresh run_parts
deleted =
    run
      (do
        a ← store 9 (codes "one") (codes "first") 1
        store 9 (codes "two") (codes "second") 1
        b ← delete 9 (codes "two")
        x ← fetch 9 (codes "two")
        rewind
        y ← nextrec 9
        pure (a, b, x, y))
      fresh

deleted_gone : deleted ≡ some (pos 0, pos 0, none, (some (codes "one"), some (codes "first")))
unfolding deleted
deleted_gone = refl
