-- ===== src/ApueDb/Entry/Read.antt =====
-- What `_db_readidx` makes of a record that `_db_writeidx` wrote.
use personal_project.ApueDb.Entry.Fields.{IsKey, to_size-pos, body, split_text, split_record-ok}
use personal_project.Common.{
  ℕ, ◌+◌, ◌≤◌, ◌<◌, ◌≡◌, refl, sym, some, [], ◌∷◌, ◌++◌, append_assoc, arith, eq→==, ne→==, le→ltb,
  length, drop, length-append, drop-append_length,
}
use personal_project.Decimal.{Bytes, pos, padded, atol}
use personal_project.Decimal.RoundTrip.{EndsDigits, atol-padded, length-padded}
use personal_project.Posix.{Os, idxfd, read}
use personal_project.Posix.Content.{read_at, write_at}
use personal_project.Posix.Calm.{sought, lseek-set, lseek-cur, read-all}
use personal_project.ApueDb.State.{
  ptr_sz, idxlen_sz, sys, Db, ◌>>=◌, to_size, newline, ptr_max, idxlen_min, idxlen_max, datlen_max,
}
use personal_project.ApueDb.Entry.{read_record, read_header, readidx}

-- A fixed state of the index file holds the record at an offset.
pub record HasEntry (idx : Bytes) (off p : ℕ) (key : Bytes) (d n : ℕ) : Type 0 where
  pub header : read_at off 10 idx ≡ padded 6 p ++ padded 4 (length (body key d n) + 1)
  pub text : read_at (off + 10) (length (body key d n) + 1) idx ≡ body key d n ++ newline ∷ []
  pub pointer_fits : p ≤ ptr_max
  pub length_min : idxlen_min ≤ length (body key d n) + 1
  pub length_fits : length (body key d n) + 1 ≤ idxlen_max
  pub clean : IsKey key
  pub some_data : 0 < n
  pub data_fits : n ≤ datlen_max

-- The four bytes that hold the length are read as a number although nothing terminates them, if
-- what follows in memory is no digit.
entry_length :
    (p len : ℕ) (stack : Bytes)
    → p ≤ ptr_max
    → len < 10000
    → EndsDigits stack
    → to_size (atol (drop 6 (padded 6 p ++ padded 4 len) ++ stack)) ≡ len
entry_length p len stack fits small ends =
    rw
      (
        drop-append_length (padded 6 p) (padded 4 len) 6 (sym (length-padded 5 p (omega arith))),
        atol-padded 4 len stack ends,
      )
      (to_size-pos len (omega arith))

pub header_length :
    (p len : ℕ) → p ≤ ptr_max → len < 10000 → length (padded 6 p ++ padded 4 len) ≡ 10
header_length p len fits small = omega (
  arith,
  length-append (padded 6 p) (padded 4 len),
  length-padded 5 p (omega arith),
  length-padded 3 len (omega arith),
)

abbrev pub after_entry : Db → ℕ → Bytes → ℕ → ℕ → Db
after_entry s off key d n = record s {
  os = record s.os { idx = record s.os.idx { position = off + 10 + (length (body key d n) + 1) } };
  idxoff = pos off;
  idxlen = length (body key d n) + 1;
  idxbuf = split_text key d n (drop (length (body key d n) + 1) s.idxbuf);
  datoff = pos d;
  datlen = n;
}

read_record-ok :
    (key : Bytes) (d n : ℕ) (s : Db)
    → IsKey key
    → 0 < n
    → n ≤ 1024
    → read_record (length (body key d n) + 1) (some (body key d n ++ newline ∷ [])) s
      ≡ some (
        s.ptrval,
        record s {
          idxbuf = split_text key d n (drop (length (body key d n) + 1) s.idxbuf);
          datoff = pos d;
          datlen = n;
        },
      )
unfolding read_record write_at ◌>>=◌
read_record-ok key d n s clean low high =
    let len : ℕ = length (body key d n) + 1 in
    let size : length (body key d n ++ newline ∷ []) ≡ len =
      length-append (body key d n) (newline ∷ []) in
    rw (size, eq→== len len refl, append_assoc (body key d n) (newline ∷ []) (drop len s.idxbuf))
      (split_record-ok key (drop len s.idxbuf) d n len
        (record s { idxbuf = body key d n ++ newline ∷ drop len s.idxbuf }) clean low high refl
        refl)

module _ (s : Db) (off p : ℕ) (key : Bytes) (d n : ℕ) (calm : s.os.faults ≡ [])
    (ends : EndsDigits s.stack) (e : HasEntry s.os.idx.content off p key d n) where
  -- What `_db_readidx` does when it has found its place.
  read_entry-ok :
      (sys (read idxfd (ptr_sz + idxlen_sz)) >>= read_header)
        (record s { os = sought s.os calm idxfd off; idxoff = pos off })
      ≡ some (s.ptrval, after_entry s off key d n)
  unfolding read_header ◌>>=◌
  read_entry-ok =
      let len : ℕ = length (body key d n) + 1 in
      let o : Os = sought s.os calm idxfd off in
      let q : Os = sought s.os calm idxfd (off + 10) in
      let head : Bytes = padded 6 p ++ padded 4 len in
      let ten : length head ≡ 10 =
        header_length p len e.pointer_fits (omega (arith, e.length_fits)) in
      rw
        (
          read-all o calm idxfd 10 head e.header ten,
          ten,
          entry_length p len s.stack e.pointer_fits (omega (arith, e.length_fits)) ends,
          le→ltb len idxlen_min e.length_min,
          le→ltb idxlen_max len e.length_fits,
          read-all q calm idxfd len (body key d n ++ newline ∷ []) e.text
              (length-append (body key d n) (newline ∷ [])),
        )
        (read_record-ok key d n
          (record s {
            os = sought s.os calm idxfd (off + 10 + len);
            idxoff = pos off;
            idxlen = len;
          })
          e.clean e.some_data e.data_fits)

  -- At a record `_db_readidx` loads it, and returns not its pointer but what `ptrval` held before.
  pub readidx-ok : 0 < off → readidx (pos off) s ≡ some (s.ptrval, after_entry s off key d n)
  unfolding readidx ◌>>=◌
  readidx-ok positive = rw (ne→== off 0 (omega arith), lseek-set s.os calm idxfd off) read_entry-ok

  -- With the offset 0 it loads the record at which the file stands.
  pub readidx-here :
      s.os.idx.position ≡ off → readidx (pos 0) s ≡ some (s.ptrval, after_entry s off key d n)
  unfolding readidx ◌>>=◌
  readidx-here at = rw (lseek-cur s.os calm idxfd, at) read_entry-ok
