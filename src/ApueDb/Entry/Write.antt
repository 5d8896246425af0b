-- ===== src/ApueDb/Entry/Write.antt =====
-- What the writing functions of the files do where no call fails.
use personal_project.Common.{
  ℕ, ◌+◌, ◌≤◌, ◌≡◌, refl, ap, sym, ◌∙◌, false, Option, none, some, [], ◌∷◌, ◌++◌, append-nil,
  append_assoc, All-append, arith, le→ltb, ◌==◌, length, length-append, drop,
}
use personal_project.Decimal.{Bytes, pos, decimal, padded, atol}
use personal_project.Decimal.RoundTrip.{
  atol-padded, length-padded, decimal_int-pos, decimal-IsDigit,
}
use personal_project.Posix.{
  Os, Fd, idxfd, datfd, LockType, write_lock, seek_set, seek_end, set_locks,
}
use personal_project.Posix.Content.{read_at, write_at}
use personal_project.Posix.Calm.{
  sought, written, lseek-set, lseek-end, read-all, write-all, set_lock-all,
}
use personal_project.ApueDb.State.{Db, ◌>>=◌, cstr, sep, newline, ptr_max, idxlen_min, idxlen_max}
use personal_project.ApueDb.Entry.{
  pointer_of, readptr, writeptr, writedat, writeidx, records_start, entry_text,
}
use personal_project.ApueDb.Entry.Fields.{IsKey, IsText, IsText-key, IsKey-digits, body, cstr-end}

pointer_of_bytes : (b : Bytes) → length b ≡ 6 → pointer_of (some b) ≡ atol b
unfolding pointer_of
pointer_of_bytes [] h = absurd (omega arith)
pointer_of_bytes (c ∷ s) h = ground arith

-- A pointer in the index file.
pub record HasPointer (idx : Bytes) (at p : ℕ) : Type 0 where
  pub fits : p ≤ ptr_max
  pub text : read_at at 6 idx ≡ padded 6 p

pointer_of-padded : (p : ℕ) → p ≤ ptr_max → pointer_of (some (padded 6 p)) ≡ pos p
pointer_of-padded p fits =
    pointer_of_bytes (padded 6 p) (length-padded 5 p (omega arith))
    ∙ ap atol (sym (append-nil (padded 6 p)))
    ∙ atol-padded 6 p [] tt

-- A lock is changed from a byte to the end of the file.
abbrev pub relocked : Fd → ℕ → Option LockType → Db → Db
relocked fd start l t = record t { os = record t.os { locks = set_locks fd start 0 l t.os.locks } }

module _ (s : Db) (calm : s.os.faults ≡ []) where
  pub readptr-ok :
      (at p : ℕ)
      → HasPointer s.os.idx.content at p
      → readptr (pos at) s ≡ some (pos p, record s { os = sought s.os calm idxfd (at + 6) })
  unfolding readptr ◌>>=◌
  readptr-ok at p h = rw (
    lseek-set s.os calm idxfd at,
    read-all (sought s.os calm idxfd at) calm idxfd 6 (padded 6 p) h.text
        (length-padded 5 p (omega (arith, h.fits))),
    pointer_of-padded p h.fits,
  )

  abbrev pub with_pointer : ℕ → ℕ → Db
  with_pointer at p = record s { os = written (sought s.os calm idxfd at) calm idxfd (padded 6 p) }

  pub writeptr-ok :
      (at p : ℕ) → p ≤ ptr_max → writeptr (pos at) (pos p) s ≡ some (tt, with_pointer at p)
  unfolding writeptr ◌>>=◌
  writeptr-ok at p fits = rw (
    le→ltb ptr_max p fits,
    lseek-set s.os calm idxfd at,
    write-all (sought s.os calm idxfd at) calm idxfd (padded 6 p),
  )

  -- The data that are written at a place of the data file.
  abbrev pub with_data : ℕ → Bytes → Db
  with_data at text = record s {
    os = written (sought s.os calm datfd at) calm datfd (text ++ newline ∷ []);
    datoff = pos at;
    datlen = length text + 1;
  }

  pub writedat-end :
      (text : Bytes)
      → writedat text (pos 0) seek_end s
        ≡ some (tt, relocked datfd 0 none (with_data (length s.os.dat.content) text))
  unfolding writedat ◌>>=◌
  writedat-end text =
      let at : ℕ = length s.os.dat.content in
      rw (
        lseek-end s.os calm datfd,
        write-all (sought s.os calm datfd at) calm datfd (text ++ newline ∷ []),
        set_lock-all (written (sought s.os calm datfd at) calm datfd (text ++ newline ∷ [])) calm
            datfd none 0 0,
      )

  -- In place, the lock on the data file is taken and stays.
  pub writedat-set :
      (at : ℕ) (text : Bytes)
      → writedat text (pos at) seek_set s
        ≡ some (tt, relocked datfd 0 (some write_lock) (with_data at text))
  unfolding writedat ◌>>=◌
  writedat-set at text =
      let o : Os = record s.os { locks = set_locks datfd 0 0 (some write_lock) s.os.locks } in
      rw (
        set_lock-all s.os calm datfd (some write_lock) 0 0,
        lseek-set o calm datfd at,
        write-all (sought o calm datfd at) calm datfd (text ++ newline ∷ []),
      )

-- The bytes of an index record.
abbrev pub entry_bytes : ℕ → Bytes → ℕ → ℕ → Bytes
entry_bytes p key d n =
    padded 6 p ++ (padded 4 (length (body key d n) + 1) ++ (body key d n ++ newline ∷ []))

entry_text-body : (key : Bytes) (d n : ℕ) → entry_text key (pos d) n ≡ body key d n ++ newline ∷ []
entry_text-body key d n = simp (append_assoc, decimal_int-pos)

IsText-IsKey_sep : (a b : Bytes) → IsText a → IsText b → IsText (a ++ sep ∷ b)
IsText-IsKey_sep a b h k = All-append (λ c. (c == 0) ≡ false) a (sep ∷ b) h (refl, k)

IsText-decimal : (n : ℕ) → IsText (decimal n)
IsText-decimal n = IsText-key (decimal n) (IsKey-digits (decimal n) (decimal-IsDigit n))

IsText-body : (key : Bytes) (d n : ℕ) → IsKey key → IsText (body key d n ++ newline ∷ [])
IsText-body key d n clean =
    All-append (λ c. (c == 0) ≡ false) (body key d n) (newline ∷ [])
      (IsText-IsKey_sep key (decimal d ++ sep ∷ decimal n) (IsText-key key clean)
        (IsText-IsKey_sep (decimal d) (decimal n) (IsText-decimal d) (IsText-decimal n)))
      (refl, tt)

pub cstr-buffer : (t b : Bytes) → IsText t → cstr (write_at 0 (t ++ 0 ∷ []) b) ≡ t
unfolding write_at
cstr-buffer t b h = rw (append_assoc t (0 ∷ []) (drop (length (t ++ 0 ∷ [])) b)) (cstr-end t _ h)

-- The state after a record is written at a place of the index file.
abbrev pub with_entry : Db → ℕ → ℕ → Bytes → ℕ → ℕ → Db
with_entry s at p key d n = record s {
  os = record s.os {
    idx = record {
      content = write_at at (entry_bytes p key d n) s.os.idx.content;
      position = at + length (entry_bytes p key d n);
    };
  };
  idxbuf = write_at 0 ((body key d n ++ newline ∷ []) ++ 0 ∷ []) s.idxbuf;
  idxoff = pos at;
  ptrval = pos p;
}

module _ (s : Db) (calm : s.os.faults ≡ []) (p : ℕ) (key : Bytes) (d n : ℕ) (off : s.datoff ≡ pos d)
    (len : s.datlen ≡ n) (fits : p ≤ ptr_max) (clean : IsKey key)
    (low : idxlen_min ≤ length (body key d n) + 1)
    (high : length (body key d n) + 1 ≤ idxlen_max) where
  -- At the end of the file the record is appended under a lock.
  pub writeidx-end :
      writeidx key (pos 0) seek_end (pos p) s
      ≡ some (
        tt,
        relocked idxfd (records_start s) none (
            relocked idxfd
              (records_start s)
              (some write_lock)
              (with_entry s (length s.os.idx.content) p key d n)),
      )
  unfolding writeidx ◌>>=◌
  writeidx-end =
      let text : Bytes = body key d n ++ newline ∷ [] in
      let size : length text ≡ length (body key d n) + 1 =
        length-append (body key d n) (newline ∷ []) in
      let at : ℕ = length s.os.idx.content in
      let o : Os = record s.os {
        locks = set_locks idxfd (records_start s) 0 (some write_lock) s.os.locks;
      } in
      let bytes : Bytes = entry_bytes p key d n in
      rw (
        off,
        len,
        le→ltb ptr_max p fits,
        entry_text-body key d n,
        cstr-buffer text s.idxbuf (IsText-body key d n clean),
        size,
        le→ltb (length (body key d n) + 1) idxlen_min low,
        le→ltb idxlen_max (length (body key d n) + 1) high,
        set_lock-all s.os calm idxfd (some write_lock) (records_start s) 0,
        lseek-end o calm idxfd,
        cstr-buffer text s.idxbuf (IsText-body key d n clean),
        size,
        write-all (sought o calm idxfd at) calm idxfd bytes,
        set_lock-all (written (sought o calm idxfd at) calm idxfd bytes) calm idxfd none
            (records_start s) 0,
      )

  -- In place, no lock is taken.
  pub writeidx-set :
      (at : ℕ) → writeidx key (pos at) seek_set (pos p) s ≡ some (tt, with_entry s at p key d n)
  unfolding writeidx ◌>>=◌
  writeidx-set at =
      let text : Bytes = body key d n ++ newline ∷ [] in
      let size : length text ≡ length (body key d n) + 1 =
        length-append (body key d n) (newline ∷ []) in
      rw (
        off,
        len,
        le→ltb ptr_max p fits,
        entry_text-body key d n,
        cstr-buffer text s.idxbuf (IsText-body key d n clean),
        size,
        le→ltb (length (body key d n) + 1) idxlen_min low,
        le→ltb idxlen_max (length (body key d n) + 1) high,
        lseek-set s.os calm idxfd at,
        cstr-buffer text s.idxbuf (IsText-body key d n clean),
        size,
        write-all (sought s.os calm idxfd at) calm idxfd (entry_bytes p key d n),
      )
