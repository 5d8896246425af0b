-- ===== src/ApueDb/Ops/ReplaceFetch.antt =====
-- `db_store` over the first record of a chain, and the `db_fetch` that follows it.
use personal_project.ApueDb.Ops.Replace.{
  here, in_place, store_over-same, in_place-IsHead, moved, store_over-other, moved-IsHead,
}
use native.Mathlib.Decide.{ℕ_discrete}
use personal_project.Common.{
  ℕ, suc, ◌+◌, ◌<◌, ◌≡◌, ◌≢◌, refl, true, some, none, [], arith, length, le→ltb,
}
use personal_project.Decimal.{Bytes, pos}
use personal_project.Posix.{idxfd, set_locks}
use personal_project.Posix.Calm.{set_lock-all}
use personal_project.ApueDb.State.{Db, ◌>>=◌, datlen_min, datlen_max}
use personal_project.ApueDb.Ops.{
  Flag, db_insert, db_replace, db_store, flag_of, store, store_flag, store_existing, store_over,
  unlock_chain,
}
use personal_project.ApueDb.Ops.Fetch.{IsHead, fetch-head, find_and_lock-head}
use personal_project.ApueDb.Ops.Store.{Fits}
use personal_project.ApueDb.Ops.StoreFetch.{Finds}
use personal_project.ApueDb.Ops.DeleteFetch.{CanDelete}

store_existing-over :
    (key new : Bytes) (f : Flag) (s t : Db)
    → f ≢ db_insert
    → store_over key new s ≡ some (tt, t)
    → store_existing key new f s ≡ some (pos 0, t)
unfolding store_existing ◌>>=◌
store_existing-over key new db_insert s t h e = absurd (h refl)
store_existing-over key new db_replace s t h e = rw e
store_existing-over key new db_store s t h e = rw e

module _ (s : Db) (key text new : Bytes) (off p d fp old fuel flag : ℕ) (f : Flag)
    (h : IsHead s key text off p d) (c : CanDelete s key off fp old)
    (fits : Fits s.os.idx.content s.os.dat.content key new) (some_text : 0 < length new)
    (known : flag_of flag ≡ some f) (over : f ≢ db_insert) where
  abbrev unlocked : Db → Db
  unlocked t = record t {
    os = record t.os { locks = set_locks idxfd t.chainoff 1 none t.os.locks };
  }

  store-over :
      (t : Db)
      → t.os.faults ≡ []
      → store_over key new (here s key text new off p d fp old fuel h c) ≡ some (tt, t)
      → store (suc fuel) key new flag s ≡ some (pos 0, unlocked t)
  unfolding store store_flag unlock_chain ◌>>=◌
  store-over t calm e = rw (
    known,
    le→ltb (length new + 1) datlen_min (omega (arith, some_text)),
    le→ltb datlen_max (length new + 1) fits.text_max,
    find_and_lock-head s key text off p d fuel c.calm c.ends h true,
    store_existing-over key new f (here s key text new off p d fp old fuel h c) t over e,
    set_lock-all t.os calm idxfd none t.chainoff 1,
  )

-- Where no call fails and both pointers stand in front of the record: `db_store` of a text that fits
-- over the first record of a chain, by replacement or by the general store, returns 0, and `db_fetch`
-- then returns the new text, whether it is as long as the old one and goes to its place, or the record
-- is deleted and a new one goes to the end of the files.
pub fetch-replace :
    (s : Db) (key text new : Bytes) (off p d fp old fuel flag : ℕ) (f : Flag)
    → IsHead s key text off p d
    → CanDelete s key off fp old
    → Fits s.os.idx.content s.os.dat.content key new
    → 0 < length new
    → flag_of flag ≡ some f
    → f ≢ db_insert
    → (u : Db) × (store (suc fuel) key new flag s ≡ some (pos 0, u)) × Finds key new u
fetch-replace s key text new off p d fp old fuel flag f h c fits some_text known over =
    elim (ℕ_discrete (length new) (length text)) [
      | yes same ↦
          let t : Db = in_place s key text new off p d fp old fuel h c in
          let i = in_place-IsHead s key text new off p d fp old fuel h c same fits in
          (
            _,
            store-over s key text new off p d fp old fuel flag f h c fits some_text known over t
                c.calm (store_over-same s key text new off p d fp old fuel h c same),
            λ k.
                fetch-head _ key new off p d k c.calm c.ends (record {
                  behind = i.behind;
                  pointer = i.pointer;
                  entry = i.entry;
                  held = i.held;
                }),
          )
      | no other ↦
          let t : Db = moved s key text new off p d fp old fuel h c fits in
          let i = moved-IsHead s key text new off p d fp old fuel h c fits in
          (
            _,
            store-over s key text new off p d fp old fuel flag f h c fits some_text known over t
                c.calm (store_over-other s key text new off p d fp old fuel h c fits other),
            λ k.
                fetch-head _ key new _ old _ k c.calm c.ends (record {
                  behind = i.behind;
                  pointer = i.pointer;
                  entry = i.entry;
                  held = i.held;
                }),
          )
    ]
