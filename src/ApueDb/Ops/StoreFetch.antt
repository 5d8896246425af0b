-- ===== src/ApueDb/Ops/StoreFetch.antt =====
-- A `db_fetch` after the `db_store` of a new key.
use mathlib.Core.Path.{subst}
use personal_project.Common.{
  ℕ, suc, ◌+◌, ◌≤◌, ◌<◌, ◌≡◌, ◌≢◌, refl, true, Option, none, some, [], arith, le→ltb, length,
}
use personal_project.Decimal.{Bytes, pos, negsuc}
use personal_project.Decimal.RoundTrip.{EndsDigits}
use personal_project.Posix.{idxfd, write_lock, set_locks}
use personal_project.Posix.Calm.{set_lock-all}
use personal_project.ApueDb.State.{Db, ◌>>=◌, datlen_min, datlen_max}
use personal_project.ApueDb.Entry.Write.{HasPointer}
use personal_project.ApueDb.Frame.{Kept, kept, Keeps, Holds, keeps_rules}
use personal_project.ApueDb.Frame.Walks.{Keeps-readptr, Keeps-search_chain}
use personal_project.ApueDb.Chain.{chain_offset, find_and_lock}
use personal_project.ApueDb.Ops.{
  Flag, db_insert, db_replace, db_store, flag_of, fetch, store, store_new, store_missing,
  store_flag, unlock_chain,
}
use personal_project.ApueDb.Ops.Fetch.{placed, walk, fetch-head}
use personal_project.ApueDb.Ops.Store.{Fits, stored, store_new-ok, before_append, IsHead-appended}

Keeps-walk : (fuel : ℕ) (key : Bytes) (at : ℕ) → Keeps kept (walk fuel key at)
Keeps-walk fuel key at = search (keeps_rules, Keeps-readptr, Keeps-search_chain)

-- After the lock `_db_find_and_lock` changes only places and buffers.
find_and_lock-Kept :
    (fuel : ℕ) (key : Bytes) (s : Db)
    → s.os.faults ≡ []
    → Holds (λ _ t. Kept (placed s key write_lock) t) (find_and_lock fuel key true s)
unfolding find_and_lock ◌>>=◌
find_and_lock-Kept fuel key s calm =
    let at : ℕ = chain_offset s.nhash s.hashoff key in
    rw (set_lock-all s.os calm idxfd (some write_lock) at 1)
      ((Keeps-walk fuel key at).at (placed s key write_lock))

Holds-some :
    {A : Type 0} (P : A → Db → Type 0) {o : Option (A × Db)} {a : A} {t : Db}
    → o ≡ some (a, t)
    → Holds P o
    → P a t
Holds-some P e h = subst (Holds P) e h

-- A handle to which a new key can be stored: no call fails, nothing behind `asciilen` continues the
-- number there, the record fits, the chain of the key lies in the file and is intact, and the free
-- list is empty.
pub record CanAppend (s : Db) (key text : Bytes) (p : ℕ) : Type 0 where
  pub calm : s.os.faults ≡ []
  pub ends : EndsDigits s.stack
  pub fits : Fits s.os.idx.content s.os.dat.content key text
  pub some_text : 0 < length text
  pub room : chain_offset s.nhash s.hashoff key + 6 ≤ length s.os.idx.content
  pub chain : HasPointer s.os.idx.content (chain_offset s.nhash s.hashoff key) p
  pub free : HasPointer s.os.idx.content 0 0

pub store_missing-ok :
    (fuel : ℕ) (key text : Bytes) (f : Flag) (s t : Db)
    → f ≢ db_replace
    → store_new fuel key text s ≡ some (tt, t)
    → store_missing fuel key text f s ≡ some (pos 0, t)
unfolding store_missing ◌>>=◌
store_missing-ok fuel key text db_insert s t h e = rw e
store_missing-ok fuel key text db_store s t h e = rw e
store_missing-ok fuel key text db_replace s t h e = absurd (h refl)

-- The handle that the walk of an absent key leaves is one to which the key can be stored.
CanAppend-Kept :
    {s t : Db} {key text : Bytes} {p : ℕ}
    → CanAppend s key text p
    → Kept (placed s key write_lock) t
    → CanAppend t key text p
CanAppend-Kept h k = record {
  calm = k.calm h.calm;
  ends = rw k.stack h.ends;
  fits = rw (k.idx, k.dat) h.fits;
  some_text = h.some_text;
  room = rw (k.nhash, k.hashoff, k.idx) h.room;
  chain = rw (k.nhash, k.hashoff, k.idx) h.chain;
  free = rw k.idx h.free;
}

-- What a finished store leaves: the record is found by its key.
abbrev pub Finds : Bytes → Bytes → Db → Type 0
Finds key text t = (n : ℕ) → (u : Db) × (fetch (suc n) key t ≡ some (some text, u))

module _ (s : Db) (key text : Bytes) (p fuel : ℕ) (h : CanAppend s key text p)
    (at : s.chainoff ≡ chain_offset s.nhash s.hashoff key) where
  pub chain_at : HasPointer s.os.idx.content s.chainoff p
  chain_at = rw at h.chain

  abbrev pub finished : Db
  finished =
      let t : Db = stored s key text p fuel h.calm h.fits chain_at h.free in
      record t { os = record t.os { locks = set_locks idxfd t.chainoff 1 none t.os.locks } }

  pub finished-Finds : Finds key text finished
  finished-Finds n =
      let q : Db = before_append s key text p fuel h.calm h.fits chain_at h.free in
      let i = IsHead-appended q key text p h.calm h.fits (chain_at).fits at (rw at h.room) in
      fetch-head finished key text (length s.os.idx.content) p (length s.os.dat.content) n h.calm
        h.ends (record { behind = i.behind; pointer = i.pointer; entry = i.entry; held = i.held })

-- `db_store` of an absent key, by insertion or by the general store.
module _ (s t : Db) (key text : Bytes) (p fuel flag : ℕ) (f : Flag) (h : CanAppend s key text p)
    (known : flag_of flag ≡ some f) (insert : f ≢ db_replace)
    (absent : find_and_lock (suc fuel) key true s ≡ some (negsuc 2, t)) where
  pub searched-Kept : Kept (placed s key write_lock) t
  searched-Kept =
      Holds-some (λ _ t. Kept (placed s key write_lock) t) absent
        (find_and_lock-Kept (suc fuel) key s h.calm)

  pub searched-CanAppend : CanAppend t key text p
  searched-CanAppend = CanAppend-Kept h searched-Kept

  pub searched-place : t.chainoff ≡ chain_offset t.nhash t.hashoff key
  searched-place = rw ((searched-Kept).chainoff, (searched-Kept).nhash, (searched-Kept).hashoff)

  -- The handle after the store.
  abbrev pub after_store : Db
  after_store = finished t key text p fuel searched-CanAppend searched-place

  pub store-finished : store (suc fuel) key text flag s ≡ some (pos 0, after_store)
  unfolding store store_flag unlock_chain ◌>>=◌
  store-finished =
      let g : CanAppend t key text p = searched-CanAppend in
      let q : Db =
        stored t key text p fuel g.calm g.fits (chain_at t key text p fuel g searched-place)
          g.free in
      rw (
        known,
        le→ltb (length text + 1) datlen_min (omega (arith, h.some_text)),
        le→ltb datlen_max (length text + 1) h.fits.text_max,
        absent,
        store_missing-ok (suc fuel) key text f t q insert (
            store_new-ok t key text p fuel g.calm g.fits
              (chain_at t key text p fuel g searched-place) g.free),
        set_lock-all q.os g.calm idxfd none q.chainoff 1,
      )

-- If no call fails, the memory behind `asciilen` does not begin with a digit, the start of the key's chain
-- is intact, and the free list is empty: the `db_store` of an absent key with a record that fits, by
-- insertion or by the general store, returns 0, and `db_fetch` then returns the text that was stored.
pub fetch-store :
    (s t : Db) (key text : Bytes) (p fuel flag : ℕ) (f : Flag)
    → CanAppend s key text p
    → flag_of flag ≡ some f
    → f ≢ db_replace
    → find_and_lock (suc fuel) key true s ≡ some (negsuc 2, t)
    → (u : Db) × (store (suc fuel) key text flag s ≡ some (pos 0, u)) × Finds key text u
fetch-store s t key text p fuel flag f h known insert absent = (
  after_store s t key text p fuel flag f h known insert absent,
  store-finished s t key text p fuel flag f h known insert absent,
  finished-Finds t key text p fuel
      (searched-CanAppend s t key text p fuel flag f h known insert absent)
      (searched-place s t key text p fuel flag f h known insert absent),
)
