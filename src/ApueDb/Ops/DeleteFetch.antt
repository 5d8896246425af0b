-- ===== src/ApueDb/Ops/DeleteFetch.antt =====
-- `db_delete` of the first record of a chain, and the `db_fetch` that follows it.
use personal_project.Common.{
  ℕ, arith, suc, ◌+◌, ◌≤◌, ◌≡◌, ap, ◌∙◌, true, none, some, [], ◌∷◌, ◌++◌, length, length-replicate,
  drop,
}
use personal_project.Decimal.{Bytes, ℤ, pos, decimal, padded}
use personal_project.Decimal.RoundTrip.{EndsDigits, length-padded}
use personal_project.Posix.{idxfd, write_lock, set_locks}
use personal_project.Posix.Content.{write_at, length-write_at}
use personal_project.Posix.Calm.{set_lock-all}
use personal_project.ApueDb.State.{Db, ◌>>=◌, space, ptr_max}
use personal_project.ApueDb.Entry.Fields.{body}
use personal_project.ApueDb.Entry.Write.{HasPointer, entry_bytes}
use personal_project.ApueDb.Entry.Written.{HasPointer-written, HasPointer-kept}
use personal_project.ApueDb.Chain.{chain_offset, dodelete}
use personal_project.ApueDb.Ops.{unlock_chain, delete, delete_found}
use personal_project.ApueDb.Ops.Fetch.{IsHead, at_head, find_and_lock-head}
use personal_project.ApueDb.Ops.Delete.{
  Deletable, deleted, dodelete-ok, IsFreed, HasData-blanks, HasEntry-freed, blanks,
}

-- A handle in which a record can be deleted from the head of its chain: no call fails, the free list
-- begins at `fp`, the pointers stand in front of the record, and `ptrval` holds `old`.
pub record CanDelete (s : Db) (key : Bytes) (off fp old : ℕ) : Type 0 where
  pub calm : s.os.faults ≡ []
  pub ends : EndsDigits s.stack
  pub free : HasPointer s.os.idx.content 0 fp
  pub stale : s.ptrval ≡ pos old
  pub old_fits : old ≤ ptr_max
  pub off_fits : off ≤ ptr_max
  pub behind_free : 6 ≤ chain_offset s.nhash s.hashoff key
  pub behind_chain : chain_offset s.nhash s.hashoff key + 6 ≤ off

module _ (s : Db) (key text : Bytes) (off p d fp old fuel : ℕ) (h : IsHead s key text off p d)
    (c : CanDelete s key off fp old) where
  abbrev pub at_first : Db
  at_first = at_head s key text off p d fuel c.calm c.ends h write_lock

  abbrev rest : Bytes
  rest =
      let n : ℕ = length text + 1 in
      decimal d ++ 0 ∷ (decimal n ++ 0 ∷ drop (length (body key d n) + 1) s.idxbuf)

  pub deletable : Deletable s.os.idx.content key text off d fp old
  deletable = record {
    free = c.free;
    clean = (h.entry).clean;
    low = (h.entry).length_min;
    high = (h.entry).length_fits;
    off_fits = c.off_fits;
    old_fits = c.old_fits;
  }

  abbrev pub taken : Db
  taken =
      deleted at_first c.calm key text rest off d fp (chain_offset s.nhash s.hashoff key) old
        deletable

  pub dodelete-first : dodelete at_first ≡ some (tt, taken)
  dodelete-first =
      ap (λ (z : ℤ). dodelete (record at_first { ptrval = z })) c.stale
      ∙ dodelete-ok at_first c.calm key text rest off d fp (chain_offset s.nhash s.hashoff key) old
          deletable

  -- The handle after `db_delete`.
  abbrev pub removed : Db
  removed = record taken {
    os = record taken.os { locks = set_locks idxfd taken.chainoff 1 none taken.os.locks };
    counts = record taken.counts { delok = taken.counts.delok + 1 };
  }

  pub delete-removed : delete (suc fuel) key s ≡ some (pos 0, removed)
  unfolding delete delete_found unlock_chain ◌>>=◌
  delete-removed = rw (
    find_and_lock-head s key text off p d fuel c.calm c.ends h true,
    dodelete-first,
    set_lock-all taken.os c.calm idxfd none taken.chainoff 1,
  )

  pub removed-IsFreed : IsFreed removed key text off d fp (chain_offset s.nhash s.hashoff key) old
  removed-IsFreed =
      let co : ℕ = chain_offset s.nhash s.hashoff key in
      let n : ℕ = length text + 1 in
      let e = h.entry in
      let first : Bytes =
        write_at off (entry_bytes fp (blanks (length key)) d n) s.os.idx.content in
      let six : length (padded 6 off) ≡ 6 = length-padded 5 off (omega (arith, c.off_fits)) in
      let long : 6 ≤ length (write_at 0 (padded 6 off) first) =
        omega (arith, six, length-write_at 0 (padded 6 off) first) in
      record {
        listed = rw (length-replicate (length text) space) (
            HasPointer-kept co (padded 6 old) c.behind_free long
              (HasPointer-written first 0 off c.off_fits));
        entry = rw (length-replicate (length text) space) (
            HasEntry-freed s.os.idx.content key off d n fp co old c.off_fits c.old_fits
              (c.free).fits c.behind_chain e.length_min e.length_fits e.some_data e.data_fits);
        held = HasData-blanks s.os.dat.content d (length text);
        pointer = HasPointer-written _ co old c.old_fits;
      }
