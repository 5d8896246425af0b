-- ===== src/ApueDb/Ops/Records.antt =====
-- The records of a database in the order of the index file, and a client that reads them all with
-- `db_rewind` and `db_nextrec`.
use personal_project.Common.{
  ℕ, zero, suc, ◌+◌, ◌≤◌, ◌<◌, ◌≡◌, refl, ◌∙◌, true, false, Option, none, some, List, [], ◌∷◌,
  arith, length,
}
use personal_project.Decimal.{Bytes, pos}
use personal_project.Decimal.RoundTrip.{EndsDigits}
use personal_project.Posix.{idxfd}
use personal_project.Posix.Calm.{sought, lseek-set}
use personal_project.ApueDb.State.{Db, M, pure, ◌>>=◌, ◌>>◌}
use personal_project.ApueDb.Entry.{records_start}
use personal_project.ApueDb.Entry.Fields.{body}
use personal_project.ApueDb.Entry.Read.{HasEntry}
use personal_project.ApueDb.Ops.{nextrec, rewind, all_spaces}
use personal_project.ApueDb.Ops.Fetch.{HasData}
use personal_project.ApueDb.Ops.Scan.{Ahead, at_end, at_record, past_deleted}
use personal_project.ApueDb.Ops.Nextrec.{nextrec-ahead}

-- From `at` to its end the index file holds these records, with deleted ones between them.
pub data Records (idx dat : Bytes) : (at : ℕ) (recs : List (Bytes × Bytes)) → Type 0 where
  no_more : (at : ℕ) → at ≡ length idx → Records idx dat at []
  live :
      (at p d : ℕ) (key text : Bytes) (recs : List (Bytes × Bytes))
      → HasEntry idx at p key d (length text + 1)
      → all_spaces key ≡ false
      → HasData dat d text
      → Records idx dat (at + 10 + (length (body key d (length text + 1)) + 1)) recs
      → Records idx dat at ((key, text) ∷ recs)
  deleted :
      (at p d n : ℕ) (key : Bytes) (recs : List (Bytes × Bytes))
      → HasEntry idx at p key d n
      → all_spaces key ≡ true
      → Records idx dat (at + 10 + (length (body key d n) + 1)) recs
      → Records idx dat at recs

-- `while (NULL != (data = db_nextrec(db, key)))`
next_of : M (List (Bytes × Bytes)) → Option Bytes × Option Bytes → M (List (Bytes × Bytes))
next_of rest (some key, some text) = do recs ← rest; pure ((key, text) ∷ recs)
next_of rest _ = pure []

scan : ℕ → ℕ → M (List (Bytes × Bytes))
scan zero fuel = λ s. none
scan (suc rounds) fuel = do found ← nextrec fuel; next_of (scan rounds fuel) found

-- All records, with one round for each and one for the end.
unfoldable pub list_all : ℕ → ℕ → M (List (Bytes × Bytes))
unfolding scan next_of
list_all rounds fuel = rewind >> scan rounds fuel

-- What the next call finds, and what is left.
abbrev first : List (Bytes × Bytes) → Option (Bytes × Bytes)
first [] = none
first (r ∷ recs) = some r

abbrev others : List (Bytes × Bytes) → List (Bytes × Bytes)
others [] = []
others (r ∷ recs) = recs

module _ {idx dat : Bytes} where
  pub Records-le :
      {at : ℕ} {recs : List (Bytes × Bytes)} → Records idx dat at recs → at ≤ length idx
  Records-le (no_more _ e) = omega arith
  Records-le (live _ p d key text recs e other held rest) = omega (arith, Records-le rest)
  Records-le (deleted _ p d n key _ e blank rest) = omega (arith, Records-le rest)

  -- The deleted records in front of the next one are fewer than the bytes of the file.
  Ahead-first :
      {at : ℕ} {recs : List (Bytes × Bytes)}
      → Records idx dat at recs
      → (k to : ℕ) × Ahead idx dat at k to (first recs)
        × (at + k ≤ length idx)
        × Records idx dat to (others recs)
  Ahead-first (no_more at e) = (0, at, at_end at (omega arith), omega arith, no_more at e)
  Ahead-first (live at p d key text recs e other held rest) =
      (0, _, at_record at p d key text e other held, omega (arith, Records-le rest), rest)
  Ahead-first (deleted at p d n key recs e blank rest) =
      let (k, to, ahead, low, tail) = Ahead-first rest in
      (suc k, to, past_deleted at p d n k to key (first recs) e blank ahead, omega arith, tail)

-- What the client reads, and that the files are as they were.
record Reads (rounds fuel : ℕ) (s : Db) (recs : List (Bytes × Bytes)) : Type 0 where
  after : Db
  run : scan rounds fuel s ≡ some (recs, after)
  idx : after.os.idx.content ≡ s.os.idx.content
  dat : after.os.dat.content ≡ s.os.dat.content

-- The shape of a list by its first record.
scan-Reads :
    (rounds fuel old at : ℕ) (s : Db) (recs : List (Bytes × Bytes))
    → length recs < rounds
    → length s.os.idx.content < fuel
    → s.os.faults ≡ []
    → EndsDigits s.stack
    → s.ptrval ≡ pos old
    → s.os.idx.position ≡ at
    → Records s.os.idx.content s.os.dat.content at recs
    → Reads rounds fuel s recs
unfolding scan next_of ◌>>=◌
scan-Reads zero fuel old at s recs turns enough calm ends stale here r = absurd (omega arith)
scan-Reads (suc rounds) fuel old at s [] turns enough calm ends stale here r =
    let (k, to, ahead, low, rest) = Ahead-first r in
    let (t, found, past) =
      nextrec-ahead s fuel old k to none calm ends stale (rw here ahead) (omega arith) in
    record { after = t; run = rw found; idx = past.idx; dat = past.dat }
scan-Reads (suc rounds) fuel old at s ((key, text) ∷ recs) turns enough calm ends stale here r =
    let (k, to, ahead, low, rest) = Ahead-first r in
    let (t, found, past) =
      nextrec-ahead s fuel old k to (some (key, text)) calm ends stale (rw here ahead)
        (omega arith) in
    let more : Reads rounds fuel t recs =
      scan-Reads rounds fuel old to t recs (omega arith) (rw past.idx enough) past.calm
        (rw past.stack ends) (past.ptrval ∙ stale) past.position (rw (past.idx, past.dat) rest) in
    record {
      after = more.after;
      run = rw (found, more.run);
      idx = more.idx ∙ past.idx;
      dat = more.dat ∙ past.dat;
    }

-- The client finds these records, in this order, and changes neither file. A round for each record
-- and one for the end are enough, and steps for the bytes of the index file.
abbrev pub Lists : Db → List (Bytes × Bytes) → Type 0
Lists s recs =
    (t : Db) × (list_all (suc (length recs)) (suc (length s.os.idx.content)) s ≡ some (recs, t))
    × (t.os.idx.content ≡ s.os.idx.content)
    × (t.os.dat.content ≡ s.os.dat.content)

pub Lists-Records :
    (s : Db) (old : ℕ) (recs : List (Bytes × Bytes))
    → s.os.faults ≡ []
    → EndsDigits s.stack
    → s.ptrval ≡ pos old
    → Records s.os.idx.content s.os.dat.content (records_start s) recs
    → Lists s recs
unfolding list_all rewind ◌>>=◌
Lists-Records s old recs calm ends stale r =
    let at : ℕ = records_start s in
    let u : Db = record s { os = sought s.os calm idxfd at; idxoff = pos at } in
    let all : Reads (suc (length recs)) (suc (length s.os.idx.content)) u recs =
      scan-Reads (suc (length recs)) (suc (length s.os.idx.content)) old at u recs (omega arith)
        (omega arith) calm ends stale refl r in
    (all.after, rw (lseek-set s.os calm idxfd at, all.run), all.idx, all.dat)
