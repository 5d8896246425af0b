-- ===== src/ApueDb/Ops/DeleteStore.antt =====
-- `db_delete`, `db_store` and `db_fetch` one after the other.
use personal_project.Common.{
  ℕ, suc, ◌+◌, ◌≤◌, ◌<◌, ◌≡◌, ◌≢◌, sym, none, some, [], ◌∷◌, ◌++◌, arith, length, length-append,
  le→ltb,
}
use personal_project.Decimal.{Bytes, pos, padded}
use personal_project.Decimal.RoundTrip.{length-padded}
use personal_project.Posix.{idxfd, set_locks}
use personal_project.Posix.Content.{write_at, length-write_at, read_at-write_at}
use personal_project.Posix.Calm.{set_lock-all}
use personal_project.ApueDb.State.{Db, ◌>>=◌, newline, datlen_min, datlen_max}
use personal_project.ApueDb.Entry.Fields.{IsKey, IsText}
use personal_project.ApueDb.Entry.Read.{HasEntry}
use personal_project.ApueDb.Entry.Write.{HasPointer, entry_bytes}
use personal_project.ApueDb.Entry.Written.{
  HasPointer-written, HasPointer-kept, HasEntry-written, HasEntry-before,
}
use personal_project.ApueDb.Chain.{chain_offset}
use personal_project.ApueDb.Ops.{Flag, db_replace, flag_of, delete, store, store_flag, unlock_chain}
use personal_project.ApueDb.Ops.Fetch.{IsHead, fetch-head, past_empty, find_and_lock-empty}
use personal_project.ApueDb.Ops.StoreFetch.{Finds, store_missing-ok}
use personal_project.ApueDb.Ops.Delete.{IsFreed, length-body-blanks}
use personal_project.ApueDb.Ops.DeleteFetch.{CanDelete, removed, delete-removed, removed-IsFreed}
use personal_project.ApueDb.Ops.Reuse.{HasRoom, restored, store_new-first}

-- A key and a text that take the place of another record: they are as long, and on its chain.
pub record IsSuccessor (s : Db) (key text new value : Bytes) : Type 0 where
  pub chain : chain_offset s.nhash s.hashoff new ≡ chain_offset s.nhash s.hashoff key
  pub key_length : length new ≡ length key
  pub text_length : length value ≡ length text
  pub key_clean : IsKey new
  pub text_clean : IsText value
  pub some_text : 0 < length value

module _ (s : Db) (key text new value : Bytes) (off p d fp fuel : ℕ) (h : IsHead s key text off p d)
    (c : CanDelete s key off fp 0) (n : IsSuccessor s key text new value) where
  -- The handle after the delete.
  abbrev gone : Db
  gone = removed s key text off p d fp 0 fuel h c

  freed : IsFreed gone key text off d fp (chain_offset s.nhash s.hashoff key) 0
  freed = removed-IsFreed s key text off p d fp 0 fuel h c

  no_chain : HasPointer gone.os.idx.content (chain_offset s.nhash s.hashoff new) 0
  no_chain = rw n.chain (freed).pointer

  -- The handle after the search for the new key.
  abbrev searched : Db
  searched = past_empty gone c.calm new

  room : HasRoom gone.os.idx.content new value off fp d fp
  room = record {
    listed = (freed).listed;
    entry = rw (n.key_length, n.text_length) (freed).entry;
    behind = h.behind;
    fits = (c.free).fits;
  }

  abbrev taken : Db
  taken =
      restored searched c.calm c.ends new value off fp d fp 0 fuel room n.key_clean c.off_fits
        no_chain

  abbrev back : Db
  back = record taken {
    os = record taken.os { locks = set_locks idxfd taken.chainoff 1 none taken.os.locks };
  }

  store-back :
      (flag : ℕ) (f : Flag)
      → flag_of flag ≡ some f
      → f ≢ db_replace
      → store (suc fuel) new value flag gone ≡ some (pos 0, back)
  unfolding store store_flag unlock_chain ◌>>=◌
  store-back flag f known insert = rw (
    known,
    le→ltb (length value + 1) datlen_min (omega (arith, n.some_text)),
    le→ltb datlen_max (length value + 1) (omega (arith, n.text_length, (h.entry).data_fits)),
    find_and_lock-empty fuel new gone c.calm no_chain,
    store_missing-ok (suc fuel) new value f searched taken insert (
        store_new-first searched c.calm c.ends new value off fp d fp 0 fuel room n.key_clean
          c.off_fits no_chain),
    set_lock-all taken.os c.calm idxfd none taken.chainoff 1,
  )

  -- The index file with the free list as it was before the delete.
  abbrev unlisted : Bytes
  unlisted = write_at 0 (padded 6 fp) gone.os.idx.content

  behind_chain : chain_offset s.nhash s.hashoff new + 6 ≤ off
  behind_chain = rw n.chain c.behind_chain

  -- The new record is the first of its chain, in the old one's place.
  back-IsHead : IsHead back new value off 0 d
  back-IsHead =
      let size : ℕ = length value + 1 in
      let same = length-body-blanks new d size in
      let e = room.entry in
      let bytes : Bytes = entry_bytes 0 new d size in
      let end = length-append value (newline ∷ []) in
      record {
        behind = h.behind;
        pointer =
            HasPointer-written (write_at off bytes unlisted) (chain_offset s.nhash s.hashoff new)
              off c.off_fits;
        entry = HasEntry-before (chain_offset s.nhash s.hashoff new) off c.off_fits behind_chain (
            HasEntry-written unlisted off 0 new d size (omega arith) (rw (← same) e.length_min)
              (rw (← same) e.length_fits) n.key_clean e.some_data e.data_fits);
        held = record {
          stored = read_at-write_at d size (value ++ newline ∷ []) gone.os.dat.content (sym end);
          clean = n.text_clean;
        };
      }

  back-free : HasPointer back.os.idx.content 0 fp
  back-free =
      let six : length (padded 6 fp) ≡ 6 = length-padded 5 fp (omega (arith, (c.free).fits)) in
      let bytes : Bytes = entry_bytes 0 new d (length value + 1) in
      let long : 6 ≤ length unlisted =
        omega (arith, six, length-write_at 0 (padded 6 fp) gone.os.idx.content) in
      let still : 6 ≤ length (write_at off bytes unlisted) =
        omega (arith, long, length-write_at off bytes unlisted) in
      HasPointer-kept (chain_offset s.nhash s.hashoff new) (padded 6 off) (rw n.chain c.behind_free)
        still
        (HasPointer-kept off bytes (omega (arith, behind_chain)) long
          (HasPointer-written gone.os.idx.content 0 fp (c.free).fits))

-- Where no call fails and both pointers stand in front of the record, and `ptrval` holds 0: after the
-- `db_delete` of the first record of a chain, the `db_store` of a key on that chain, by insertion or
-- by the general store, with a key and a text of the lengths of the deleted ones, puts the record in
-- the place of the deleted one. The free list is again what it was before, and `db_fetch` returns the
-- text that was stored.
pub delete-store :
    (s : Db) (key text new value : Bytes) (off p d fp fuel flag : ℕ) (f : Flag)
    → IsHead s key text off p d
    → CanDelete s key off fp 0
    → IsSuccessor s key text new value
    → flag_of flag ≡ some f
    → f ≢ db_replace
    → (t u : Db) × (delete (suc fuel) key s ≡ some (pos 0, t))
      × (store (suc fuel) new value flag t ≡ some (pos 0, u))
      × HasPointer u.os.idx.content 0 fp
      × HasEntry u.os.idx.content off 0 new d (length value + 1)
      × Finds new value u
delete-store s key text new value off p d fp fuel flag f h c n known insert =
    let u : Db = back s key text new value off p d fp fuel h c n in
    let head : IsHead u new value off 0 d =
      back-IsHead s key text new value off p d fp fuel h c n in
    (
      gone s key text new value off p d fp fuel h c n,
      u,
      delete-removed s key text off p d fp 0 fuel h c,
      store-back s key text new value off p d fp fuel h c n flag f known insert,
      back-free s key text new value off p d fp fuel h c n,
      head.entry,
      λ k. fetch-head u new value off 0 d k c.calm c.ends head,
    )
