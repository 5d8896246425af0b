-- ===== src/ApueDb/Ops/Store.antt =====
-- `db_store` of a new key, and the `db_fetch` that follows it.
use personal_project.Common.{
  ℕ, suc, ◌+◌, ◌≤◌, ◌≡◌, refl, sym, false, none, some, [], ◌∷◌, ◌++◌, arith, length, length-append,
}
use personal_project.Decimal.{Bytes, ℤ, pos}
use personal_project.Posix.{Os, idxfd, datfd, write_lock, set_locks}
use personal_project.Posix.Content.{write_at, read_at-write_at}
use personal_project.Posix.Calm.{sought, set_lock-all}
use personal_project.ApueDb.State.{
  Db, ◌>>=◌, newline, ptr_max, idxlen_min, idxlen_max, datlen_max, free_off,
}
use personal_project.ApueDb.Entry.{records_start}
use personal_project.ApueDb.Entry.Fields.{IsKey, IsText, body}
use personal_project.ApueDb.Entry.Write.{
  HasPointer, readptr-ok, writeptr-ok, with_pointer, writedat-end, with_data, relocked,
  writeidx-end, with_entry, entry_bytes,
}
use personal_project.ApueDb.Entry.Written.{HasPointer-written, HasEntry-written, HasEntry-before}
use personal_project.ApueDb.Chain.{chain_offset, search_free, findfree}
use personal_project.ApueDb.Ops.{append_record, store_new}
use personal_project.ApueDb.Ops.Fetch.{HasData, IsHead}

search_free-end :
    (fuel keylen datlen : ℕ) (save : ℤ) (s : Db)
    → search_free (suc fuel) keylen datlen save (pos 0) s ≡ some ((save, pos 0), s)
unfolding search_free ◌>>=◌
search_free-end fuel keylen datlen save s = refl

module _ (s : Db) (calm : s.os.faults ≡ []) where
  abbrev pub after_findfree : Db
  after_findfree =
      let o : Os = record s.os {
        locks = set_locks idxfd free_off 1 (some write_lock) s.os.locks;
      } in
      let q : Os = sought o calm idxfd 6 in
      record s { os = record q { locks = set_locks idxfd free_off 1 none q.locks } }

  -- An empty free list has no place for a record.
  findfree-empty :
      (fuel keylen datlen : ℕ)
      → HasPointer s.os.idx.content 0 0
      → findfree (suc fuel) keylen datlen s ≡ some (false, after_findfree)
  unfolding findfree ◌>>=◌
  findfree-empty fuel keylen datlen h =
      let o : Os = record s.os {
        locks = set_locks idxfd free_off 1 (some write_lock) s.os.locks;
      } in
      let t : Db = record s { os = o } in
      rw (
        set_lock-all s.os calm idxfd (some write_lock) free_off 1,
        readptr-ok t calm 0 0 h,
        search_free-end fuel keylen datlen (pos 0) (record t { os = sought o calm idxfd (0 + 6) }),
        set_lock-all (sought o calm idxfd (0 + 6)) calm idxfd none free_off 1,
      )

-- The text of the index record that a store of this text would append.
abbrev pub new_body : Bytes → Bytes → Bytes → Bytes
new_body dat key text = body key (length dat) (length text + 1)

-- There is room for a record with this key and this text, and it fits the format.
pub record Fits (idx dat key text : Bytes) : Type 0 where
  pub key_clean : IsKey key
  pub text_clean : IsText text
  pub text_max : length text + 1 ≤ datlen_max
  pub entry_min : idxlen_min ≤ length (new_body dat key text) + 1
  pub entry_max : length (new_body dat key text) + 1 ≤ idxlen_max
  pub offset_max : length idx ≤ ptr_max

module _ (s : Db) (key text : Bytes) (p : ℕ) (calm : s.os.faults ≡ [])
    (fits : Fits s.os.idx.content s.os.dat.content key text) (head : p ≤ ptr_max) where
  abbrev pub appended_data : Db
  appended_data = relocked datfd 0 none (with_data s calm (length s.os.dat.content) text)

  abbrev pub appended_entry : Db
  appended_entry =
      let t : Db = appended_data in
      relocked idxfd (records_start t) none (
        relocked idxfd (records_start t) (some write_lock) (
          with_entry t (length s.os.idx.content) p key (length s.os.dat.content) (length text + 1)))

  abbrev pub appended : Db
  appended = with_pointer appended_entry calm s.chainoff (length s.os.idx.content)

  pub append_record-ok : append_record key text (pos p) s ≡ some (tt, appended)
  unfolding append_record ◌>>=◌
  append_record-ok = rw (
    writedat-end s calm text,
    writeidx-end appended_data calm p key (length s.os.dat.content) (length text + 1) refl refl head
        fits.key_clean fits.entry_min fits.entry_max,
    writeptr-ok appended_entry calm s.chainoff (length s.os.idx.content) fits.offset_max,
  )

  pub HasData-appended :
      HasData
        (write_at (length s.os.dat.content) (text ++ newline ∷ []) s.os.dat.content)
        (length s.os.dat.content)
        text
  HasData-appended = record {
    stored =
        read_at-write_at (length s.os.dat.content) (length text + 1) (text ++ newline ∷ [])
          s.os.dat.content (sym (length-append text (newline ∷ [])));
    clean = fits.text_clean;
  }

  -- The appended record is the first of its chain.
  pub IsHead-appended :
      s.chainoff ≡ chain_offset s.nhash s.hashoff key
      → s.chainoff + 6 ≤ length s.os.idx.content
      → IsHead appended key text (length s.os.idx.content) p (length s.os.dat.content)
  IsHead-appended chain room =
      let at : ℕ = length s.os.idx.content in
      let d : ℕ = length s.os.dat.content in
      let bytes : Bytes = entry_bytes p key d (length text + 1) in
      record {
        behind = omega arith;
        pointer =
            rw (← chain) (
              HasPointer-written (write_at at bytes s.os.idx.content) s.chainoff at
                fits.offset_max);
        entry = HasEntry-before s.chainoff at fits.offset_max room (
            HasEntry-written s.os.idx.content at p key d (length text + 1) head fits.entry_min
              fits.entry_max fits.key_clean (omega arith) fits.text_max);
        held = HasData-appended;
      }

module _ (s : Db) (key text : Bytes) (p fuel : ℕ) (calm : s.os.faults ≡ [])
    (fits : Fits s.os.idx.content s.os.dat.content key text)
    (chain : HasPointer s.os.idx.content s.chainoff p)
    (free : HasPointer s.os.idx.content 0 0) where
  abbrev pub before_append : Db
  before_append = after_findfree (record s { os = sought s.os calm idxfd (s.chainoff + 6) }) calm

  abbrev pub stored : Db
  stored =
      let t : Db = appended before_append key text p calm fits chain.fits in
      record t { counts = record t.counts { stor1 = t.counts.stor1 + 1 } }

  pub store_new-ok : store_new (suc fuel) key text s ≡ some (tt, stored)
  unfolding store_new ◌>>=◌
  store_new-ok = rw (
    readptr-ok s calm s.chainoff p chain,
    findfree-empty (record s { os = sought s.os calm idxfd (s.chainoff + 6) }) calm fuel
        (length key) (length text + 1) free,
    append_record-ok before_append key text p calm fits chain.fits,
  )
