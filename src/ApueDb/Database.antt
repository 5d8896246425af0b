-- ===== src/ApueDb/Database.antt =====
-- A handle as the list of the records in its files: what `db_open`, `db_store`, `db_rewind` and
-- `db_nextrec` make of that list.
use personal_project.Common.{
  ℕ, suc, ◌+◌, ◌≤◌, ◌<◌, ◌≡◌, ◌≢◌, refl, sym, ◌∙◌, true, false, some, List, [], ◌∷◌, ◌++◌, arith,
  length,
}
use personal_project.Decimal.{Bytes, pos, negsuc}
use personal_project.Decimal.RoundTrip.{EndsDigits}
use personal_project.Posix.{write_lock}
use personal_project.Posix.Content.{write_at}
use personal_project.ApueDb.State.{Db, newline, ptr_max}
use personal_project.ApueDb.Frame.{Kept}
use personal_project.ApueDb.Entry.{records_start}
use personal_project.ApueDb.Entry.Write.{entry_bytes}
use personal_project.ApueDb.Entry.Written.{HasEntry-written, length-entry_bytes}
use personal_project.ApueDb.Chain.{find_and_lock}
use personal_project.ApueDb.Ops.{Flag, db_replace, flag_of, store, all_spaces}
use personal_project.ApueDb.Ops.Fetch.{placed}
use personal_project.ApueDb.Ops.Store.{HasData-appended}
use personal_project.ApueDb.Ops.StoreFetch.{
  CanAppend, after_store, store-finished, searched-CanAppend, searched-Kept, searched-place, Finds,
  finished-Finds,
}
use personal_project.ApueDb.Ops.Records.{Records, no_more, Records-le, Lists, Lists-Records}
use personal_project.ApueDb.Ops.RecordsStore.{Records-before, Records-appended}
use personal_project.ApueDb.Open.{Memory}
use personal_project.ApueDb.Open.Fresh.{IsFresh, chain_offset_bounds, length-header}

-- A handle whose files hold these records, in the order of the index file; no call fails on it.
pub record IsDatabase (s : Db) (recs : List (Bytes × Bytes)) : Type 0 where
  pub calm : s.os.faults ≡ []
  pub ends : EndsDigits s.stack
  pub hashoff : s.hashoff ≡ 6
  pub some_chains : 0 < s.nhash
  pub old : ℕ
  pub ptrval : s.ptrval ≡ pos old
  pub records : Records s.os.idx.content s.os.dat.content (records_start s) recs

-- The client reads exactly these records.
pub IsDatabase-Lists : {s : Db} {recs : List (Bytes × Bytes)} → IsDatabase s recs → Lists s recs
IsDatabase-Lists {s} {recs} h = Lists-Records s h.old recs h.calm h.ends h.ptrval h.records

pub IsFresh-IsDatabase : {m : Memory} {s : Db} → IsFresh m s → EndsDigits m.stack → IsDatabase s []
IsFresh-IsDatabase {m} {s} h ends = record {
  calm = h.calm;
  ends = rw h.stack ends;
  hashoff = h.hashoff;
  some_chains = rw h.nhash (omega arith);
  old = 0;
  ptrval = h.ptrval;
  records = no_more _ (rw (h.nhash, h.idx) (sym length-header));
}

module _ (s t : Db) (key text : Bytes) (p fuel flag : ℕ) (f : Flag) (recs : List (Bytes × Bytes))
    (b : IsDatabase s recs) (h : CanAppend s key text p) (known : flag_of flag ≡ some f)
    (insert : f ≢ db_replace) (absent : find_and_lock (suc fuel) key true s ≡ some (negsuc 2, t))
    (other : all_spaces key ≡ false) where
  k : Kept (placed s key write_lock) t
  k = searched-Kept s t key text p fuel flag f h known insert absent

  g : CanAppend t key text p
  g = searched-CanAppend s t key text p fuel flag f h known insert absent

  base : Records t.os.idx.content t.os.dat.content (records_start t) recs
  base = rw ((k).idx, (k).dat, (k).nhash) b.records

  -- The two files with the record behind their ends.
  appended :
      let idx = t.os.idx.content in
      let dat = t.os.dat.content in
      Records
        (write_at (length idx) (entry_bytes p key (length dat) (length text + 1)) idx)
        (write_at (length dat) (text ++ newline ∷ []) dat)
        (records_start t)
        (recs ++ (key, text) ∷ [])
  appended =
      let idx = t.os.idx.content in
      let d : ℕ = length t.os.dat.content in
      let n : ℕ = length text + 1 in
      let fits = (g).fits in
      let head : p ≤ ptr_max = ((g).chain).fits in
      Records-appended idx t.os.dat.content (entry_bytes p key d n) (text ++ newline ∷ []) p d key
        text
        (HasEntry-written idx (length idx) p key d n head fits.entry_min fits.entry_max
          fits.key_clean (omega arith) fits.text_max)
        (length-entry_bytes p key d n head (omega (arith, fits.entry_max))) other
        (HasData-appended t key text p (g).calm fits head) base

  behind_chain : t.chainoff + 6 ≤ records_start t
  behind_chain =
      let here = searched-place s t key text p fuel flag f h known insert absent in
      let low = chain_offset_bounds t.nhash key (rw (k).nhash b.some_chains) in
      let same : t.hashoff ≡ 6 = (k).hashoff ∙ b.hashoff in rw (here, same) (omega (arith, low.1))

  after_store-IsDatabase :
      IsDatabase
        (after_store s t key text p fuel flag f h known insert absent)
        (recs ++ (key, text) ∷ [])
  after_store-IsDatabase = record {
    calm = (g).calm;
    ends = (g).ends;
    hashoff = (k).hashoff ∙ b.hashoff;
    some_chains = rw (k).nhash b.some_chains;
    old = p;
    ptrval = refl;
    records =
        Records-before t.chainoff (length t.os.idx.content) ((g).fits).offset_max behind_chain
          (Records-le appended) appended;
  }

-- If the files hold some records, no call fails, the memory behind `asciilen` does not begin with a digit,
-- the start of the key's chain is intact, and the free list is empty: the `db_store` of an absent key that is
-- not blank, with a record that fits, by insertion or by the general store, makes the record the last of
-- them: a client that calls `db_rewind` and then `db_nextrec` until it gives nothing reads the records from before and
-- this one behind them, and `db_fetch` returns the text.
pub store-IsDatabase :
    (s t : Db) (key text : Bytes) (p fuel flag : ℕ) (f : Flag) (recs : List (Bytes × Bytes))
    → IsDatabase s recs
    → CanAppend s key text p
    → flag_of flag ≡ some f
    → f ≢ db_replace
    → find_and_lock (suc fuel) key true s ≡ some (negsuc 2, t)
    → all_spaces key ≡ false
    → (u : Db) × (store (suc fuel) key text flag s ≡ some (pos 0, u))
      × IsDatabase u (recs ++ (key, text) ∷ [])
      × Lists u (recs ++ (key, text) ∷ [])
      × Finds key text u
store-IsDatabase s t key text p fuel flag f recs b h known insert absent other =
    let d = after_store-IsDatabase s t key text p fuel flag f recs b h known insert absent other in
    (
      after_store s t key text p fuel flag f h known insert absent,
      store-finished s t key text p fuel flag f h known insert absent,
      d,
      IsDatabase-Lists d,
      finished-Finds t key text p fuel
          (searched-CanAppend s t key text p fuel flag f h known insert absent)
          (searched-place s t key text p fuel flag f h known insert absent),
    )
