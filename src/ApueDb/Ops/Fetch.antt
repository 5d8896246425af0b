-- ===== src/ApueDb/Ops/Fetch.antt =====
-- `db_fetch` at the first record of a chain.
use personal_project.Common.{
  ℕ, suc, Bool, if◌then◌else◌, ◌+◌, ◌-◌, ◌<◌, ◌≡◌, refl, true, false, none, some, [], ◌∷◌, ◌++◌,
  append_assoc, arith, eq→==, ne→==, length, drop, set-append_length, get_or-append_length,
  length-append,
}
use personal_project.Decimal.{Bytes, ℤ, pos, negsuc, is_zero, decimal}
use personal_project.Posix.{LockType, idxfd, datfd, read_lock, write_lock, set_locks}
use personal_project.Posix.Content.{read_at, write_at}
use personal_project.Posix.Calm.{sought, lseek-set, read-all, set_lock-all}
use personal_project.Decimal.RoundTrip.{EndsDigits}
use personal_project.ApueDb.State.{Db, M, pure, ◌>>=◌, newline}
use personal_project.ApueDb.Entry.{readptr, readdat, read_data}
use personal_project.ApueDb.Entry.Fields.{IsText, IsText-key, body, cstr-end}
use personal_project.ApueDb.Entry.Read.{HasEntry, after_entry, readidx-ok}
use personal_project.ApueDb.Entry.Write.{HasPointer, readptr-ok}
use personal_project.ApueDb.Chain.{chain_offset, same_text, search_chain, find_and_lock}
use personal_project.ApueDb.Ops.{fetch}

same_text_refl : (s : Bytes) → same_text s s ≡ true
unfolding same_text
same_text_refl [] = refl
same_text_refl (c ∷ s) = rw (eq→== c c refl, same_text_refl s)

-- The data file holds a text at a place.
pub record HasData (dat : Bytes) (at : ℕ) (text : Bytes) : Type 0 where
  pub stored : read_at at (length text + 1) dat ≡ text ++ newline ∷ []
  pub clean : IsText text

read_data-ok :
    (text : Bytes) (s : Db)
    → IsText text
    → read_data (length text + 1) (some (text ++ newline ∷ [])) s
      ≡ some (some text, record s { datbuf = text ++ 0 ∷ drop (length text + 1) s.datbuf })
unfolding read_data write_at ◌>>=◌
read_data-ok text s clean =
    let size : length (text ++ newline ∷ []) ≡ length text + 1 =
      length-append text (newline ∷ []) in
    let rest : Bytes = drop (length text + 1) s.datbuf in
    rw (
      size,
      eq→== (length text + 1) (length text + 1) refl,
      append_assoc text (newline ∷ []) rest,
      get_or-append_length text rest newline 0 (length text + 1 - 1) (omega arith),
      set-append_length text rest newline 0 (length text + 1 - 1) (omega arith),
      cstr-end text rest clean,
    )

abbrev pub after_data : Db → ℕ → Bytes → Db
after_data s at text = record s {
  os = record s.os { dat = record s.os.dat { position = at + (length text + 1) } };
  datbuf = text ++ 0 ∷ drop (length text + 1) s.datbuf;
}

pub readdat-ok :
    (s : Db) (at : ℕ) (text : Bytes)
    → s.os.faults ≡ []
    → s.datoff ≡ pos at
    → s.datlen ≡ length text + 1
    → HasData s.os.dat.content at text
    → readdat s ≡ some (some text, after_data s at text)
unfolding readdat ◌>>=◌
readdat-ok s at text calm off len h =
    rw
      (
        off,
        len,
        lseek-set s.os calm datfd at,
        read-all (sought s.os calm datfd at) calm datfd (length text + 1) (text ++ newline ∷ [])
            h.stored (length-append text (newline ∷ [])),
      )
      (read_data-ok text
        (record s {
          os = sought s.os calm datfd (at + (length text + 1));
          datoff = pos at;
          datlen = length text + 1;
        })
        h.clean)

-- The walk ends at the first record if it has the key.
search_chain-head :
    (fuel : ℕ) (s : Db) (off p : ℕ) (key : Bytes) (d n : ℕ) (calm : s.os.faults ≡ [])
    → EndsDigits s.stack
    → HasEntry s.os.idx.content off p key d n
    → 0 < off
    → search_chain (suc fuel) key (pos off) s ≡ some (pos off, after_entry s off key d n)
unfolding search_chain ◌>>=◌
search_chain-head fuel s off p key d n calm ends e positive = rw (
  ne→== off 0 (omega arith),
  readidx-ok s off p key d n calm ends e positive,
  cstr-end key (decimal d ++ 0 ∷ (decimal n ++ 0 ∷ drop (length (body key d n) + 1) s.idxbuf))
      (IsText-key key e.clean),
  same_text_refl key,
)

-- The handle with its place on the chain of a key, and a lock on that chain.
abbrev pub placed : Db → Bytes → LockType → Db
placed s key l =
    let at : ℕ = chain_offset s.nhash s.hashoff key in
    record s {
      os = record s.os { locks = set_locks idxfd at 1 (some l) s.os.locks };
      chainoff = at;
      ptroff = pos at;
    }

pub search_chain-end :
    (fuel : ℕ) (key : Bytes) (s : Db) → search_chain (suc fuel) key (pos 0) s ≡ some (pos 0, s)
unfolding search_chain ◌>>=◌
search_chain-end fuel key s = refl

-- The handle after the search for a key on an empty chain.
abbrev pub past_empty : (s : Db) → s.os.faults ≡ [] → Bytes → Db
past_empty s calm key =
    let t : Db = placed s key write_lock in
    record t { os = sought t.os calm idxfd (chain_offset s.nhash s.hashoff key + 6) }

-- On an empty chain no key is found.
pub find_and_lock-empty :
    (fuel : ℕ) (key : Bytes) (s : Db) (calm : s.os.faults ≡ [])
    → HasPointer s.os.idx.content (chain_offset s.nhash s.hashoff key) 0
    → find_and_lock (suc fuel) key true s ≡ some (negsuc 2, past_empty s calm key)
unfolding find_and_lock ◌>>=◌
find_and_lock-empty fuel key s calm h =
    let at : ℕ = chain_offset s.nhash s.hashoff key in
    rw (
      set_lock-all s.os calm idxfd (some write_lock) at 1,
      readptr-ok (placed s key write_lock) calm at 0 h,
      search_chain-end fuel key (past_empty s calm key),
    )

-- The walk of `_db_find_and_lock` behind the lock.
abbrev pub walk : ℕ → Bytes → ℕ → M ℤ
walk fuel key at = do
  first ← readptr (pos at)
  offset ← search_chain fuel key first
  pure (if is_zero offset then negsuc 2 else pos 0)

-- The first record of the chain of a key, with the data that it points to.
pub record IsHead (s : Db) (key text : Bytes) (off p d : ℕ) : Type 0 where
  pub behind : 0 < off
  pub pointer : HasPointer s.os.idx.content (chain_offset s.nhash s.hashoff key) off
  pub entry : HasEntry s.os.idx.content off p key d (length text + 1)
  pub held : HasData s.os.dat.content d text

module _ (s : Db) (key text : Bytes) (off p d fuel : ℕ) (calm : s.os.faults ≡ [])
    (ends : EndsDigits s.stack) (h : IsHead s key text off p d) where
  -- The handle after `_db_find_and_lock`.
  abbrev pub at_head : LockType → Db
  at_head l =
      let at : ℕ = chain_offset s.nhash s.hashoff key in
      let t : Db = placed s key l in
      after_entry (record t { os = sought t.os calm idxfd (at + 6) }) off key d (length text + 1)

  walk-head :
      (l : LockType)
      → walk (suc fuel) key (chain_offset s.nhash s.hashoff key) (placed s key l)
        ≡ some (pos 0, at_head l)
  unfolding ◌>>=◌
  walk-head l =
      let at : ℕ = chain_offset s.nhash s.hashoff key in
      let t : Db = placed s key l in
      rw (
        readptr-ok t calm at off h.pointer,
        search_chain-head fuel (record t { os = sought t.os calm idxfd (at + 6) }) off p key d
            (length text + 1) calm ends h.entry h.behind,
        ne→== off 0 (omega (arith, h.behind)),
      )

  pub find_and_lock-head :
      (writelock : Bool)
      → find_and_lock (suc fuel) key writelock s
        ≡ some (pos 0, at_head (elim writelock [ true ↦ write_lock | false ↦ read_lock ]))
  unfolding find_and_lock ◌>>=◌
  find_and_lock-head true =
      rw (set_lock-all s.os calm idxfd (some write_lock) (chain_offset s.nhash s.hashoff key) 1)
        (walk-head write_lock)
  find_and_lock-head false =
      rw (set_lock-all s.os calm idxfd (some read_lock) (chain_offset s.nhash s.hashoff key) 1)
        (walk-head read_lock)

  abbrev fetched : Db
  fetched =
      let t : Db = after_data (at_head read_lock) d text in
      record t {
        os = record t.os { locks = set_locks idxfd t.chainoff 1 none t.os.locks };
        counts = record t.counts { fetchlok = t.counts.fetchlok + 1 };
      }

  fetch-fetched : fetch (suc fuel) key s ≡ some (some text, fetched)
  unfolding fetch ◌>>=◌
  fetch-fetched =
      let t : Db = after_data (at_head read_lock) d text in
      rw (
        find_and_lock-head false,
        readdat-ok (at_head read_lock) d text calm refl refl h.held,
        set_lock-all t.os calm idxfd none t.chainoff 1,
      )

  -- `db_fetch` returns the data of the first record of the chain if that has the key.
  pub fetch-head : (t : Db) × (fetch (suc fuel) key s ≡ some (some text, t))
  fetch-head = (fetched, fetch-fetched)
