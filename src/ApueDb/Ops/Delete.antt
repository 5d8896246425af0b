-- ===== src/ApueDb/Ops/Delete.antt =====
-- What `_db_dodelete` writes for the record at which the handle stands.
use personal_project.Common.{
  ℕ, suc, ◌+◌, ◌≤◌, ◌<◌, ◌≡◌, refl, sym, ap, none, some, [], ◌∷◌, ◌++◌, arith, length,
  length-append, length-replicate, All-replicate, replicate,
}
use personal_project.Decimal.{Bytes, pos, padded, decimal}
use personal_project.Posix.{idxfd, datfd, write_lock, set_locks}
use personal_project.Posix.Content.{write_at, read_at-write_at}
use personal_project.Posix.Calm.{sought, set_lock-all}
use personal_project.ApueDb.State.{
  Db, ◌>>=◌, cstr, space, newline, ptr_max, idxlen_min, idxlen_max, datlen_max, free_off,
}
use personal_project.ApueDb.Entry.Fields.{IsKeyByte, IsKey, IsText, IsText-key, body, cstr-end}
use personal_project.ApueDb.Entry.Read.{HasEntry}
use personal_project.ApueDb.Entry.Write.{
  HasPointer, readptr-ok, writeptr-ok, with_pointer, writedat-set, with_data, relocked,
  writeidx-set, with_entry, entry_bytes, cstr-buffer,
}
use personal_project.ApueDb.Entry.Written.{HasEntry-written, HasEntry-before}
use personal_project.ApueDb.Chain.{blank_key, size_pred, dodelete}
use personal_project.ApueDb.Ops.Fetch.{HasData}

-- A text of blanks.
abbrev pub blanks : ℕ → Bytes
blanks n = replicate n space

blank_key-end :
    (key rest : Bytes) → IsText key → blank_key (key ++ 0 ∷ rest) ≡ blanks (length key) ++ 0 ∷ rest
unfolding blank_key
blank_key-end [] rest h = refl
blank_key-end (c ∷ key) rest h = rw h.0 (ap (λ (t : Bytes). space ∷ t) (blank_key-end key rest h.1))

pub IsKey-blanks : (n : ℕ) → IsKey (blanks n)
IsKey-blanks n = All-replicate IsKeyByte n space (refl, refl)

cstr-blank_key :
    (key rest : Bytes) → IsText key → cstr (blank_key (key ++ 0 ∷ rest)) ≡ blanks (length key)
cstr-blank_key key rest h = rw (blank_key-end key rest h) (
    cstr-end (blanks (length key)) rest
      (IsText-key (blanks (length key)) (IsKey-blanks (length key))))

size_pred_lem : (n : ℕ) → size_pred (n + 1) ≡ n
size_pred_lem n = let e : n + 1 ≡ suc n = omega arith in ap size_pred e

pub length-body-blanks :
    (key : Bytes) (d n : ℕ) → length (body (blanks (length key)) d n) ≡ length (body key d n)
length-body-blanks key d n = omega (
  arith,
  length-append key (b':' ∷ (decimal d ++ b':' ∷ decimal n)),
  length-append (blanks (length key)) (b':' ∷ (decimal d ++ b':' ∷ decimal n)),
  length-replicate (length key) space,
)

-- What a record needs so that it can be deleted: it fits the format, and so do the start of the free
-- list and the pointer that is written over the one to the record.
pub record Deletable (idx key text : Bytes) (off d fp old : ℕ) : Type 0 where
  pub free : HasPointer idx 0 fp
  pub clean : IsKey key
  pub low : idxlen_min ≤ length (body key d (length text + 1)) + 1
  pub high : length (body key d (length text + 1)) + 1 ≤ idxlen_max
  pub off_fits : off ≤ ptr_max
  pub old_fits : old ≤ ptr_max

module _ (u : Db) (calm : u.os.faults ≡ []) (key text rest : Bytes) (off d fp co old : ℕ)
    (h : Deletable u.os.idx.content key text off d fp old) where
  -- The handle at the record: its key and what follows it in the buffer, its data and its places.
  abbrev pub at_record : Db
  at_record = record u {
    idxbuf = key ++ 0 ∷ rest;
    datlen = length text + 1;
    datoff = pos d;
    idxoff = pos off;
    ptroff = pos co;
    ptrval = pos old;
  }

  abbrev emptied : Db
  emptied = record at_record {
    os = record u.os { locks = set_locks idxfd free_off 1 (some write_lock) u.os.locks };
    datbuf = write_at 0 (blanks (length text) ++ 0 ∷ []) u.datbuf;
    idxbuf = blank_key (key ++ 0 ∷ rest);
  }

  abbrev data_written : Db
  data_written =
      relocked datfd 0 (some write_lock) (with_data emptied calm d (blanks (length text)))

  abbrev entry_written : Db
  entry_written =
      let t : Db = data_written in
      with_entry (record t { os = sought t.os calm idxfd 6 }) off fp (blanks (length key)) d
        (length (blanks (length text)) + 1)

  abbrev chain_written : Db
  chain_written = with_pointer (with_pointer entry_written calm 0 off) calm co old

  abbrev pub deleted : Db
  deleted =
      let t : Db = chain_written in
      record t { os = record t.os { locks = set_locks idxfd free_off 1 none t.os.locks } }

  low_blanks :
      idxlen_min ≤ length (body (blanks (length key)) d (length (blanks (length text)) + 1)) + 1
  low_blanks =
      rw (length-replicate (length text) space, length-body-blanks key d (length text + 1)) h.low

  high_blanks :
      length (body (blanks (length key)) d (length (blanks (length text)) + 1)) + 1 ≤ idxlen_max
  high_blanks =
      rw (length-replicate (length text) space, length-body-blanks key d (length text + 1)) h.high

  pub dodelete-ok : dodelete at_record ≡ some (tt, deleted)
  unfolding dodelete ◌>>=◌
  dodelete-ok =
      let q : Db = record data_written { os = sought data_written.os calm idxfd 6 } in
      rw (
        set_lock-all u.os calm idxfd (some write_lock) free_off 1,
        size_pred_lem (length text),
        cstr-buffer (blanks (length text)) u.datbuf
            (IsText-key (blanks (length text)) (IsKey-blanks (length text))),
        writedat-set emptied calm d (blanks (length text)),
        readptr-ok data_written calm 0 fp h.free,
        cstr-blank_key key rest (IsText-key key h.clean),
        writeidx-set q calm fp (blanks (length key)) d (length (blanks (length text)) + 1) refl refl
            (h.free).fits (IsKey-blanks (length key)) low_blanks high_blanks off,
        writeptr-ok entry_written calm 0 off h.off_fits,
        writeptr-ok (with_pointer entry_written calm 0 off) calm co old h.old_fits,
        set_lock-all chain_written.os calm idxfd none free_off 1,
      )

-- What is left of a deleted record: it is the first of the free list, with blanks for its key and its
-- data, and the pointer to it holds `old`.
pub record IsFreed (s : Db) (key text : Bytes) (off d fp co old : ℕ) : Type 0 where
  pub listed : HasPointer s.os.idx.content 0 off
  pub entry : HasEntry s.os.idx.content off fp (blanks (length key)) d (length text + 1)
  pub held : HasData s.os.dat.content d (blanks (length text))
  pub pointer : HasPointer s.os.idx.content co old

pub HasData-blanks :
    (dat : Bytes) (d n : ℕ) → HasData (write_at d (blanks n ++ newline ∷ []) dat) d (blanks n)
HasData-blanks dat d n = record {
  stored =
      read_at-write_at d (length (blanks n) + 1) (blanks n ++ newline ∷ []) dat
        (sym (length-append (blanks n) (newline ∷ [])));
  clean = IsText-key (blanks n) (IsKey-blanks n);
}

module _ (idx : Bytes) (key : Bytes) (off d n fp co old : ℕ) (fits : off ≤ ptr_max)
    (old_fits : old ≤ ptr_max) (start : fp ≤ ptr_max) (room : co + 6 ≤ off)
    (low : idxlen_min ≤ length (body key d n) + 1) (high : length (body key d n) + 1 ≤ idxlen_max)
    (some_data : 0 < n) (data_fits : n ≤ datlen_max) where
  -- The blanked record stays where it is under both pointers.
  pub HasEntry-freed :
      HasEntry
        (write_at co
          (padded 6 old)
          (write_at 0 (padded 6 off) (write_at off (entry_bytes fp (blanks (length key)) d n) idx)))
        off
        fp
        (blanks (length key))
        d
        n
  HasEntry-freed = HasEntry-before co old old_fits room (
      HasEntry-before 0 off fits (omega arith) (
        HasEntry-written idx off fp (blanks (length key)) d n start
          (rw (length-body-blanks key d n) low) (rw (length-body-blanks key d n) high)
          (IsKey-blanks (length key)) some_data data_fits))
