-- ===== src/ApueDb/Ops/Replace.antt =====
-- What `db_store` writes over the first record of a chain.
use personal_project.Common.{
  ℕ, ◌+◌, ◌≤◌, ◌≡◌, ◌≢◌, refl, sym, ap, ◌∙◌, some, [], ◌∷◌, ◌++◌, arith, length, length-append,
  length-replicate, eq→==, ne→==,
}
use personal_project.Decimal.{Bytes, padded}
use personal_project.Decimal.RoundTrip.{length-padded}
use personal_project.Posix.{idxfd, datfd, write_lock}
use personal_project.Posix.Content.{write_at, read_at-write_at, length-write_at, read_at-inside}
use personal_project.Posix.Calm.{sought}
use personal_project.ApueDb.State.{Db, ◌>>=◌, space, newline}
use personal_project.ApueDb.Entry.Fields.{body}
use personal_project.ApueDb.Entry.Write.{
  HasPointer, entry_bytes, readptr-ok, with_data, relocked, writedat-set,
}
use personal_project.ApueDb.Entry.Written.{HasEntry-inside, length-entry_bytes}
use personal_project.ApueDb.Chain.{chain_offset}
use personal_project.ApueDb.Ops.{store_over}
use personal_project.ApueDb.Ops.Fetch.{IsHead}
use personal_project.ApueDb.Ops.Store.{Fits, appended, append_record-ok, IsHead-appended}
use personal_project.ApueDb.Ops.Delete.{blanks, length-body-blanks}
use personal_project.ApueDb.Ops.DeleteFetch.{
  CanDelete, at_first, taken, dodelete-first, removed-IsFreed,
}

module _ (s : Db) (key text new : Bytes) (off p d fp old fuel : ℕ) (h : IsHead s key text off p d)
    (c : CanDelete s key off fp old) where
  -- The handle at the record that is found.
  abbrev pub here : Db
  here = at_first s key text off p d fp old fuel h c

  -- A text of the same length goes where the old one stands.
  abbrev pub in_place : Db
  in_place =
      let t : Db = relocked datfd 0 (some write_lock) (with_data here c.calm d new) in
      record t { counts = record t.counts { stor4 = t.counts.stor4 + 1 } }

  pub store_over-same : length new ≡ length text → store_over key new here ≡ some (tt, in_place)
  unfolding store_over ◌>>=◌
  store_over-same same =
      rw (eq→== (length new + 1) (length text + 1) (omega arith), writedat-set here c.calm d new)

  pub in_place-IsHead :
      length new ≡ length text
      → Fits s.os.idx.content s.os.dat.content key new
      → IsHead in_place key new off p d
  in_place-IsHead same fits = record {
    behind = h.behind;
    pointer = h.pointer;
    entry = rw same h.entry;
    held = record {
      stored =
          read_at-write_at d (length new + 1) (new ++ newline ∷ []) s.os.dat.content
            (sym (length-append new (newline ∷ [])));
      clean = fits.text_clean;
    };
  }

  -- For another length the record is deleted, and a new one goes to the end of the files.
  abbrev pub gone : Db
  gone = taken s key text off p d fp old fuel h c

  pub freed : HasPointer gone.os.idx.content gone.chainoff old
  freed = (removed-IsFreed s key text off p d fp old fuel h c).pointer

  pub same_length :
      (length gone.os.idx.content ≡ length s.os.idx.content)
      × (length gone.os.dat.content ≡ length s.os.dat.content)
  same_length =
      let idx = s.os.idx.content in
      let co : ℕ = chain_offset s.nhash s.hashoff key in
      let n : ℕ = length (blanks (length text)) + 1 in
      let same : length (blanks (length text)) ≡ length text =
        length-replicate (length text) space in
      let e = h.entry in
      let bytes : Bytes = entry_bytes fp (blanks (length key)) d n in
      let first : Bytes = write_at off bytes idx in
      let second : Bytes = write_at 0 (padded 6 off) first in
      let body_same = length-body-blanks key d n in
      let size : length bytes ≡ 10 + (length (body key d (length text + 1)) + 1) = rw same (
        length-entry_bytes fp (blanks (length key)) d (length text + 1) (c.free).fits
          (rw (length-body-blanks key d (length text + 1)) (omega (arith, e.length_fits)))
        ∙ ap (λ k. 10 + (k + 1)) (length-body-blanks key d (length text + 1))) in
      let inside = HasEntry-inside e in
      let six = length-padded 5 off (omega (arith, c.off_fits)) in
      let six_old = length-padded 5 old (omega (arith, c.old_fits)) in
      let behind = c.behind_chain in
      let data_inside : d + (length text + 1) ≤ length s.os.dat.content =
        read_at-inside d (length text + 1) s.os.dat.content
          (ap length (h.held).stored ∙ length-append text (newline ∷ [])) (omega arith) in
      (
        omega (
          arith,
          length-write_at co (padded 6 old) second,
          length-write_at 0 (padded 6 off) first,
          length-write_at off bytes idx,
        ),
        omega (
          arith,
          same,
          length-append (blanks (length text)) (newline ∷ []),
          length-write_at d (blanks (length text) ++ newline ∷ []) s.os.dat.content,
        ),
      )

  abbrev pub past_chain : Db
  past_chain = record gone { os = sought gone.os c.calm idxfd (gone.chainoff + 6) }

  pub new_fits :
      Fits s.os.idx.content s.os.dat.content key new
      → Fits past_chain.os.idx.content past_chain.os.dat.content key new
  new_fits fits = record {
    key_clean = fits.key_clean;
    text_clean = fits.text_clean;
    text_max = fits.text_max;
    entry_min = rw (same_length).1 fits.entry_min;
    entry_max = rw (same_length).1 fits.entry_max;
    offset_max = rw (same_length).0 fits.offset_max;
  }

  module _ (fits : Fits s.os.idx.content s.os.dat.content key new) where
    abbrev pub moved : Db
    moved =
        let t : Db = appended past_chain key new old c.calm (new_fits fits) c.old_fits in
        record t { counts = record t.counts { stor3 = t.counts.stor3 + 1 } }

    pub store_over-other : length new ≢ length text → store_over key new here ≡ some (tt, moved)
    unfolding store_over ◌>>=◌
    store_over-other other = rw (
      ne→== (length new + 1) (length text + 1) (omega (arith, other)),
      dodelete-first s key text off p d fp old fuel h c,
      readptr-ok gone c.calm gone.chainoff old freed,
      append_record-ok past_chain key new old c.calm (new_fits fits) c.old_fits,
    )

    pub moved-IsHead :
        IsHead moved key new (length gone.os.idx.content) old (length gone.os.dat.content)
    moved-IsHead =
        let room : gone.chainoff + 6 ≤ length gone.os.idx.content =
          rw (same_length).0 (omega (arith, c.behind_chain, HasEntry-inside h.entry)) in
        let i =
          IsHead-appended past_chain key new old c.calm (new_fits fits) c.old_fits refl room in
        record { behind = i.behind; pointer = i.pointer; entry = i.entry; held = i.held }
