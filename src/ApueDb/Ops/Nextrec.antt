-- ===== src/ApueDb/Ops/Nextrec.antt =====
-- `db_nextrec` at any place between the records of the index file.
use personal_project.ApueDb.Ops.Scan.{Ahead, IsPast, Loaded, is_record, next_entry-ahead}
use personal_project.Common.{ℕ, ◌+◌, ◌≡◌, refl, Option, none, some, [], ◌<◌}
use personal_project.Decimal.{Bytes, pos}
use personal_project.Decimal.RoundTrip.{EndsDigits}
use personal_project.Posix.{idxfd, read_lock, set_locks}
use personal_project.Posix.Calm.{set_lock-all}
use personal_project.ApueDb.State.{Db, ◌>>=◌, free_off}
use personal_project.ApueDb.Ops.{next_found, nextrec}
use personal_project.ApueDb.Ops.Fetch.{after_data, readdat-ok}

-- What `db_nextrec` gives: the key and the data.
abbrev pub answer : Option (Bytes × Bytes) → Option Bytes × Option Bytes
answer none = (none, none)
answer (some (key, text)) = (some key, some text)

next_found-Loaded :
    (next : Option (Bytes × Bytes)) (s u : Db) (to : ℕ)
    → IsPast s u to
    → Loaded u next
    → (v : Db) × (next_found (is_record next) u ≡ some (answer next, v)) × IsPast s v to
unfolding next_found ◌>>=◌
next_found-Loaded none s u to past l = (u, refl, past)
next_found-Loaded (some (key, text)) s u to past l =
    let w : Db = after_data u l.at text in
    (
      record w { counts = record w.counts { nextrec = w.counts.nextrec + 1 } },
      rw (readdat-ok u l.at text past.calm l.place l.size l.held, l.key_loaded),
      record {
        calm = past.calm;
        stack = past.stack;
        ptrval = past.ptrval;
        idx = past.idx;
        dat = past.dat;
        position = past.position;
      },
    )

-- Where no call fails and `ptrval` is not negative, `db_nextrec` passes over the deleted records at
-- which the index file stands and gives the key and the data of the record behind them, or nothing at
-- the end of the file. The index file then stands behind that record, and neither file has changed.
pub nextrec-ahead :
    (s : Db) (fuel old k to : ℕ) (next : Option (Bytes × Bytes))
    → s.os.faults ≡ []
    → EndsDigits s.stack
    → s.ptrval ≡ pos old
    → Ahead s.os.idx.content s.os.dat.content s.os.idx.position k to next
    → k < fuel
    → (t : Db) × (nextrec fuel s ≡ some (answer next, t)) × IsPast s t to
unfolding nextrec ◌>>=◌
nextrec-ahead s fuel old k to next calm ends stale a enough =
    let locked : Db = record s {
      os = record s.os { locks = set_locks idxfd free_off 1 (some read_lock) s.os.locks };
    } in
    let (u, walk, past, loaded) =
      next_entry-ahead fuel old s.os.idx.position k to next locked enough calm ends stale refl a in
    let (v, found, behind) = next_found-Loaded next locked u to past loaded in
    (
      record v { os = record v.os { locks = set_locks idxfd free_off 1 none v.os.locks } },
      rw (
        set_lock-all s.os calm idxfd (some read_lock) free_off 1,
        walk,
        found,
        set_lock-all v.os behind.calm idxfd none free_off 1,
      ),
      record {
        calm = behind.calm;
        stack = behind.stack;
        ptrval = behind.ptrval;
        idx = behind.idx;
        dat = behind.dat;
        position = behind.position;
      },
    )
