-- ===== src/ApueDb/Witnesses.antt =====
-- The theorems about apue_db.c at concrete inputs.
mod Changes
use personal_project.Common.{◌≡◌, ◌≢◌, ◌≤◌, ◌+◌, ◌++◌, refl, none, some, [], ◌∷◌, arith}
use personal_project.Decimal.{Bytes, pos, decimal}
use personal_project.Posix.{minus_one, datfd, write_lock}
use personal_project.Posix.Content.{read_at, write_at}
use personal_project.Decimal.{padded}
use personal_project.ApueDb.State.{Db, ◌>>=◌}
use personal_project.ApueDb.Entry.Read.{HasEntry}
use personal_project.ApueDb.Entry.Write.{HasPointer, entry_bytes}
use personal_project.ApueDb.Entry.Written.{HasPointer-written, HasEntry-written, HasEntry-before}
use personal_project.ApueDb.Frame.{SameFiles}
use personal_project.ApueDb.Chain.{hash, chain_offset}
use personal_project.ApueDb.Ops.{
  db_insert, db_replace, flag_of, fetch, store, delete, nextrec, all_spaces,
}
use personal_project.ApueDb.Ops.Fetch.{IsHead, past_empty, find_and_lock-empty}
use personal_project.ApueDb.Ops.Delete.{IsFreed, blanks}
use personal_project.ApueDb.Ops.DeleteStore.{IsSuccessor, delete-store}
use personal_project.ApueDb.Ops.Scan.{Ahead, at_record, past_deleted, IsPast}
use personal_project.ApueDb.Ops.Nextrec.{nextrec-ahead}
use personal_project.ApueDb.Ops.DeleteFetch.{CanDelete}
use personal_project.ApueDb.Ops.Store.{Fits}
use personal_project.ApueDb.Ops.StoreFetch.{CanAppend, Finds, fetch-store}
use personal_project.ApueDb.Ops.Stale.{OtherEntry, fetch-loops, fetch-lost}
use personal_project.ApueDb.Ops.Safety.{store-SameFiles}
use personal_project.ApueDb.Open.{Disk, Memory, header, new_handle}
use personal_project.ApueDb.Open.Fresh.{length-header, chain_offset_bounds, db_open-IsFresh}
use personal_project.ApueDb.EndToEnd.{IsFresh-CanAppend}

abbrev memory : Memory
memory = record { stack = 0 ∷ []; idxbuf = []; datbuf = [] }

abbrev no_files : Disk
no_files = record { idx_file = none; dat_file = none }

abbrev path : Bytes
path = b't' ∷ []

abbrev key : Bytes
key = b'k' ∷ b'1' ∷ []

abbrev text : Bytes
text = b'o' ∷ b'n' ∷ b'e' ∷ []

-- The handle of a new database.
abbrev fresh : Db
fresh = (db_open-IsFresh memory path no_files).0

fits : Fits header [] key text
unfolding decimal
fits = record {
  key_clean = ((refl, refl), ((refl, refl), tt));
  text_clean = (refl, (refl, (refl, tt)));
  text_max = omega arith;
  entry_min = omega arith;
  entry_max = omega arith;
  offset_max = omega (arith, length-header);
}

can_append : CanAppend fresh key text 0
can_append = IsFresh-CanAppend (db_open-IsFresh memory path no_files).2 refl fits (omega arith)

flag_1 : flag_of 1 ≡ some db_insert
unfolding flag_of
flag_1 = refl

insert_is_not_replace : db_insert ≢ db_replace
insert_is_not_replace = λ e. grind arith

fetch-store_example : (u : Db) × (store 4 key text 1 fresh ≡ some (pos 0, u)) × Finds key text u
fetch-store_example =
    fetch-store fresh (past_empty fresh can_append.calm key) key text 0 3 1 db_insert can_append
      flag_1 insert_is_not_replace
      (find_and_lock-empty 3 key fresh can_append.calm can_append.chain)

-- The chain of `key` holds the record of another key, and that alone.
abbrev chained : Bytes
chained =
    write_at (chain_offset 137 6 key) (padded 6 829) (write_at 829 (entry_bytes 0 text 0 3) header)

abbrev handle : Db
handle = new_handle memory path chained (b'a' ∷ b'b' ∷ 10 ∷ []) []

abbrev stale_handle : Db
stale_handle = record handle { ptrval = pos 829 }

entry : HasEntry chained 829 0 text 0 3
unfolding decimal
entry =
    HasEntry-before (chain_offset 137 6 key) 829 (omega arith)
      (omega (arith, (chain_offset_bounds 137 key (omega arith)).1))
      (HasEntry-written header 829 0 text 0 3 (omega arith) (omega arith) (omega arith)
        ((refl, refl), ((refl, refl), ((refl, refl), tt))) (omega arith) (omega arith))

text_is_not_key : text ≢ key
text_is_not_key e = grind arith

other_entry : (s : Db) → s.os.idx.content ≡ chained → OtherEntry s 829 key
other_entry s e = record {
  behind = omega arith;
  p = 0;
  other = text;
  d = 0;
  n = 3;
  entry = rw e entry;
  differs = text_is_not_key;
}

abbrev head_pointer : HasPointer chained (chain_offset 137 6 key) 829
head_pointer =
    HasPointer-written (write_at 829 (entry_bytes 0 text 0 3) header) (chain_offset 137 6 key) 829
      (omega arith)

fetch-loops_example : fetch 5 key stale_handle ≡ none
fetch-loops_example =
    fetch-loops stale_handle key 829 829
      (record {
        calm = refl;
        ends = refl;
        pointer = head_pointer;
        entry = other_entry stale_handle refl;
      })
      refl (other_entry stale_handle refl) 5

lost : (t : Db) × (fetch 2 key handle ≡ some (none, t))
lost =
    fetch-lost handle key 829 0
      (record { calm = refl; ends = refl; pointer = head_pointer; entry = other_entry handle refl })
      refl

unknown_flag : store 4 key text 7 handle ≡ some (minus_one, handle)
unfolding store flag_of ◌>>=◌
unknown_flag = refl

store-SameFiles_example : SameFiles handle handle
store-SameFiles_example =
    store-SameFiles 4 key text 7 handle handle minus_one unknown_flag (λ e. grind arith)
