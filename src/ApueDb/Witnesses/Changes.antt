-- ===== src/ApueDb/Witnesses/Changes.antt =====
-- The theorems about changes of the records at concrete inputs.
use personal_project.ApueDb.Witnesses.{flag_1, memory, path, key, text, insert_is_not_replace}
use personal_project.ApueDb.Database.{IsDatabase, store-IsDatabase}
use personal_project.ApueDb.Ops.Records.{Lists, Records, live, no_more}
use personal_project.ApueDb.Ops.ReplaceFetch.{fetch-replace}
use personal_project.Common.{sym, false, length, ◌≡◌, ◌≤◌, ◌+◌, ◌++◌, refl, some, [], ◌∷◌, arith}
use personal_project.Decimal.{Bytes, pos, decimal}
use personal_project.Posix.Content.{read_at, write_at}
use personal_project.Decimal.{padded}
use personal_project.ApueDb.State.{Db}
use personal_project.ApueDb.Entry.Read.{HasEntry}
use personal_project.ApueDb.Entry.Write.{HasPointer, entry_bytes}
use personal_project.ApueDb.Entry.Written.{HasPointer-written, HasEntry-written, HasEntry-before}
use personal_project.ApueDb.Chain.{hash, chain_offset}
use personal_project.ApueDb.Ops.{db_insert, db_replace, flag_of, store, delete, all_spaces}
use personal_project.ApueDb.Ops.Fetch.{IsHead, past_empty, find_and_lock-empty}
use personal_project.ApueDb.Ops.DeleteStore.{IsSuccessor, delete-store}
use personal_project.ApueDb.Ops.DeleteFetch.{CanDelete}
use personal_project.ApueDb.Ops.Store.{Fits}
use personal_project.ApueDb.Ops.StoreFetch.{CanAppend, Finds}
use personal_project.ApueDb.Open.{header, new_handle}
use personal_project.ApueDb.Open.Fresh.{chain_offset_bounds}

-- Another key of the same chain.
abbrev neighbour : Bytes
neighbour = b'i' ∷ b'2' ∷ []

same_chain : chain_offset 137 6 neighbour ≡ chain_offset 137 6 key
unfolding chain_offset hash
same_chain = refl

-- The chain of both keys: the record of `key`, and that of its neighbour behind it.
abbrev records : Bytes
records = write_at 829 (entry_bytes 846 key 0 4) (write_at 846 (entry_bytes 0 neighbour 4 4) header)

abbrev two_records : Bytes
two_records = write_at (chain_offset 137 6 key) (padded 6 829) records

abbrev full_handle : Db
full_handle = new_handle memory path two_records (text ++ 10 ∷ (b't' ∷ b'w' ∷ b'o' ∷ 10 ∷ [])) []

bounds : (6 ≤ chain_offset 137 6 key) × (chain_offset 137 6 key + 6 ≤ 829)
bounds = let b = chain_offset_bounds 137 key (omega arith) in (b.0, omega (arith, b.1))

first : IsHead full_handle key text 829 846 0
unfolding decimal read_at
first = record {
  behind = omega arith;
  pointer = HasPointer-written records (chain_offset 137 6 key) 829 (omega arith);
  entry = HasEntry-before (chain_offset 137 6 key) 829 (omega arith) bounds.1 (
      HasEntry-written (write_at 846 (entry_bytes 0 neighbour 4 4) header) 829 846 key 0 4
        (omega arith) (omega arith) (omega arith) ((refl, refl), ((refl, refl), tt)) (omega arith)
        (omega arith));
  held = record { stored = refl; clean = (refl, (refl, (refl, tt))) };
}

free_start : read_at 0 6 two_records ≡ padded 6 0
unfolding read_at write_at padded decimal header chain_offset hash
free_start = refl

deletable : CanDelete full_handle key 829 0 0
deletable = record {
  calm = refl;
  ends = refl;
  free = record { fits = omega arith; text = free_start };
  stale = refl;
  old_fits = omega arith;
  off_fits = omega arith;
  behind_free = bounds.0;
  behind_chain = bounds.1;
}

abbrev two : Bytes
two = b't' ∷ b'w' ∷ b'o' ∷ []

successor : IsSuccessor full_handle key text neighbour two
successor = record {
  chain = same_chain;
  key_length = refl;
  text_length = refl;
  key_clean = ((refl, refl), ((refl, refl), tt));
  text_clean = (refl, (refl, (refl, tt)));
  some_text = omega arith;
}

delete-store_example :
    (t u : Db) × (delete 1 key full_handle ≡ some (pos 0, t))
    × (store 1 neighbour two 1 t ≡ some (pos 0, u))
    × HasPointer u.os.idx.content 0 0
    × HasEntry u.os.idx.content 829 0 neighbour 0 4
    × Finds neighbour two u
delete-store_example =
    delete-store full_handle key text neighbour two 829 846 0 0 0 1 db_insert first deletable
      successor flag_1 insert_is_not_replace

records_fit : length two_records ≤ 1000
unfolding write_at padded decimal header chain_offset hash
records_fit = omega arith

header_fits : 829 ≤ length two_records
unfolding write_at padded decimal header chain_offset hash
header_fits = omega arith

same_place : Fits two_records full_handle.os.dat.content key two
unfolding decimal
same_place = record {
  key_clean = ((refl, refl), ((refl, refl), tt));
  text_clean = (refl, (refl, (refl, tt)));
  text_max = omega arith;
  entry_min = omega arith;
  entry_max = omega arith;
  offset_max = omega (arith, records_fit);
}

flag_2 : flag_of 2 ≡ some db_replace
unfolding flag_of
flag_2 = refl

fetch-replace_example :
    (u : Db) × (store 1 key two 2 full_handle ≡ some (pos 0, u)) × Finds key two u
fetch-replace_example =
    fetch-replace full_handle key text two 829 846 0 0 0 0 2 db_replace first deletable same_place
      (omega arith) flag_2 (λ e. insert_is_not_replace (sym e))

-- A key of an empty chain.
abbrev third : Bytes
third = b'z' ∷ b'z' ∷ b'z' ∷ []

third_chain : HasPointer two_records (chain_offset 137 6 third) 0
unfolding read_at write_at padded decimal header chain_offset hash
third_chain = record { fits = omega arith; text = refl }

both : Records two_records full_handle.os.dat.content 829 ((key, text) ∷ (neighbour, two) ∷ [])
unfolding decimal read_at write_at padded header chain_offset hash all_spaces
both = live 829 846 0 key text ((neighbour, two) ∷ []) (first).entry refl (first).held (
    live 846 0 4 neighbour two []
      (record {
        header = refl;
        text = refl;
        pointer_fits = omega arith;
        length_min = omega arith;
        length_fits = omega arith;
        clean = ((refl, refl), ((refl, refl), tt));
        some_data = omega arith;
        data_fits = omega arith;
      })
      refl (record { stored = refl; clean = (refl, (refl, (refl, tt))) }) (no_more 863 refl))

holds_both : IsDatabase full_handle ((key, text) ∷ (neighbour, two) ∷ [])
holds_both = record {
  calm = refl;
  ends = refl;
  hashoff = refl;
  some_chains = omega arith;
  old = 0;
  ptrval = refl;
  records = both;
}

third_fits : CanAppend full_handle third text 0
unfolding decimal
third_fits = record {
  calm = refl;
  ends = refl;
  fits = record {
    key_clean = ((refl, refl), ((refl, refl), ((refl, refl), tt)));
    text_clean = (refl, (refl, (refl, tt)));
    text_max = omega arith;
    entry_min = omega arith;
    entry_max = omega arith;
    offset_max = omega (arith, records_fit);
  };
  some_text = omega arith;
  room = omega (arith, (chain_offset_bounds 137 third (omega arith)).1, header_fits);
  chain = third_chain;
  free = record { fits = omega arith; text = free_start };
}

third_is_text : all_spaces third ≡ false
unfolding all_spaces
third_is_text = refl

store-IsDatabase_example :
    (u : Db) × (store 4 third text 1 full_handle ≡ some (pos 0, u))
    × IsDatabase u ((key, text) ∷ (neighbour, two) ∷ (third, text) ∷ [])
    × Lists u ((key, text) ∷ (neighbour, two) ∷ (third, text) ∷ [])
    × Finds third text u
store-IsDatabase_example =
    store-IsDatabase full_handle (past_empty full_handle refl third) third text 0 3 1 db_insert
      ((key, text) ∷ (neighbour, two) ∷ []) holds_both third_fits flag_1 insert_is_not_replace
      (find_and_lock-empty 3 third full_handle refl third_chain) third_is_text
