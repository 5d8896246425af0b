-- ===== src/ApueDb/Ops/Reuse.antt =====
-- `db_store` of a new key in the place of a deleted record.
use personal_project.Common.{
  ℕ, suc, ◌+◌, ◌≤◌, ◌<◌, ◌≡◌, refl, true, none, some, [], ◌∷◌, ◌++◌, arith, length,
  length-replicate, drop, eq→==, ne→==,
}
use personal_project.Decimal.{Bytes, pos, decimal}
use personal_project.Decimal.RoundTrip.{EndsDigits}
use personal_project.Posix.{idxfd, datfd, write_lock, set_locks}
use personal_project.Posix.Calm.{sought, set_lock-all}
use personal_project.ApueDb.State.{Db, ◌>>=◌, space, ptr_max, free_off}
use personal_project.ApueDb.Entry.Fields.{IsText-key, IsKey, body, cstr-end}
use personal_project.ApueDb.Entry.Read.{HasEntry, after_entry, readidx-ok}
use personal_project.ApueDb.Entry.Write.{
  HasPointer, readptr-ok, writeptr-ok, with_pointer, writedat-set, with_data, relocked,
  writeidx-set, with_entry,
}
use personal_project.ApueDb.Chain.{search_free, findfree}
use personal_project.ApueDb.Ops.{reuse_record, store_new}
use personal_project.ApueDb.Ops.Delete.{blanks, IsKey-blanks, length-body-blanks}

-- The first record of the free list has room for a key and a text: its lengths are theirs. `fp` is the
-- next offset on that list.
pub record HasRoom (idx key text : Bytes) (off p d fp : ℕ) : Type 0 where
  pub listed : HasPointer idx 0 off
  pub entry : HasEntry idx off p (blanks (length key)) d (length text + 1)
  pub behind : 0 < off
  pub fits : fp ≤ ptr_max

module _ (u : Db) (calm : u.os.faults ≡ []) (ends : EndsDigits u.stack) (key text : Bytes)
    (off p d fp fuel : ℕ) (h : HasRoom u.os.idx.content key text off p d fp) where
  -- A handle that holds the next offset of the free list in `ptrval`.
  abbrev pub holding : Db
  holding = record u { ptrval = pos fp }

  abbrev reading : Db
  reading = record holding {
    os =
        sought (record u.os { locks = set_locks idxfd free_off 1 (some write_lock) u.os.locks })
          calm idxfd 6;
  }

  abbrev seen : Db
  seen = after_entry reading off (blanks (length key)) d (length text + 1)

  -- The walk along the free list ends at its first record.
  search_free-first :
      search_free (suc fuel) (length key) (length text + 1) (pos 0) (pos off) reading
      ≡ some ((pos 0, pos off), seen)
  unfolding search_free ◌>>=◌
  search_free-first =
      let b : Bytes = blanks (length key) in
      let n : ℕ = length text + 1 in
      rw (
        ne→== off 0 (omega (arith, h.behind)),
        readidx-ok reading off p b d n calm ends h.entry h.behind,
        cstr-end b (decimal d ++ 0 ∷ (decimal n ++ 0 ∷ drop (length (body b d n) + 1) u.idxbuf))
            (IsText-key b (IsKey-blanks (length key))),
        length-replicate (length key) space,
        eq→== (length key) (length key) refl,
        eq→== n n refl,
      )

  abbrev pub unlinked : Db
  unlinked =
      let t : Db = with_pointer seen calm 0 fp in
      record t { os = record t.os { locks = set_locks idxfd free_off 1 none t.os.locks } }

  pub findfree-first :
      findfree (suc fuel) (length key) (length text + 1) holding ≡ some (true, unlinked)
  unfolding findfree ◌>>=◌
  findfree-first = rw (
    set_lock-all u.os calm idxfd (some write_lock) free_off 1,
    readptr-ok
        (record holding {
          os = record u.os { locks = set_locks idxfd free_off 1 (some write_lock) u.os.locks };
        })
        calm 0 off h.listed,
    search_free-first,
    ne→== off 0 (omega (arith, h.behind)),
    writeptr-ok seen calm 0 fp h.fits,
    set_lock-all (with_pointer seen calm 0 fp).os calm idxfd none free_off 1,
  )

  module _ (q : ℕ) (clean : IsKey key) (q_fits : q ≤ ptr_max) (off_fits : off ≤ ptr_max) where
    abbrev data_reused : Db
    data_reused = relocked datfd 0 (some write_lock) (with_data unlinked calm d text)

    abbrev pub reused : Db
    reused = with_pointer (with_entry data_reused off q key d (length text + 1)) calm u.chainoff off

    -- The record goes where the record of the free list stands.
    pub reuse_record-first : reuse_record key text (pos q) unlinked ≡ some (tt, reused)
    unfolding reuse_record ◌>>=◌
    reuse_record-first =
        let same : length (body (blanks (length key)) d (length text + 1))
            ≡ length (body key d (length text + 1)) =
          length-body-blanks key d (length text + 1) in
        rw (
          writedat-set unlinked calm d text,
          writeidx-set data_reused calm q key d (length text + 1) refl refl q_fits clean
              (rw (← same) (h.entry).length_min) (rw (← same) (h.entry).length_fits) off,
          writeptr-ok (with_entry data_reused off q key d (length text + 1)) calm u.chainoff off
              off_fits,
        )

-- `_db_store` of a new key takes the first place of the free list.
module _ (u : Db) (calm : u.os.faults ≡ []) (ends : EndsDigits u.stack) (key text : Bytes)
    (off p d fp q fuel : ℕ) (h : HasRoom u.os.idx.content key text off p d fp) (clean : IsKey key)
    (off_fits : off ≤ ptr_max) (chain : HasPointer u.os.idx.content u.chainoff q) where
  abbrev past_chain : Db
  past_chain = record u { os = sought u.os calm idxfd (u.chainoff + 6) }

  abbrev pub restored : Db
  restored =
      let t : Db =
        reused past_chain calm ends key text off p d fp fuel h q clean chain.fits off_fits in
      record t { counts = record t.counts { stor2 = t.counts.stor2 + 1 } }

  pub store_new-first :
      store_new (suc fuel) key text (holding u calm ends key text off p d fp fuel h)
      ≡ some (tt, restored)
  unfolding store_new ◌>>=◌
  store_new-first = rw (
    readptr-ok (holding u calm ends key text off p d fp fuel h) calm u.chainoff q chain,
    findfree-first past_chain calm ends key text off p d fp fuel h,
    reuse_record-first past_chain calm ends key text off p d fp fuel h q clean chain.fits off_fits,
  )
