-- ===== src/ApueDb/Ops/Scan.antt =====
-- The walk of `db_nextrec` along the records of the index file.
use personal_project.Common.{
  ℕ, zero, suc, ◌+◌, ◌≤◌, ◌≡◌, refl, ◌∙◌, true, false, Option, none, some, [], ◌∷◌, ◌++◌, arith,
  length, if◌then◌else◌, drop, take_nil, Bool, ◌<◌,
}
use personal_project.Decimal.{Bytes, pos, decimal}
use personal_project.Decimal.RoundTrip.{EndsDigits}
use personal_project.Posix.{idxfd, minus_one}
use personal_project.Posix.Content.{read_at}
use personal_project.Posix.Calm.{sought, lseek-cur, read-end}
use personal_project.ApueDb.State.{Db, M, pure, ◌>>=◌, cstr}
use personal_project.ApueDb.Entry.{readidx, read_header}
use personal_project.ApueDb.Entry.Fields.{body, split_text, IsText-key, cstr-end}
use personal_project.ApueDb.Entry.Read.{HasEntry, after_entry, readidx-here}
use personal_project.ApueDb.Ops.{next_entry, all_spaces}
use personal_project.ApueDb.Ops.Fetch.{HasData}

-- Where the records of the index file end, the next one is a deleted record, with a key of blanks, or
-- one with its data: `k` deleted records stand in front of what comes at `to`.
pub data Ahead (idx dat : Bytes) : (at k to : ℕ) (next : Option (Bytes × Bytes)) → Type 0 where
  at_end : (at : ℕ) → length idx ≤ at → Ahead idx dat at 0 at none
  at_record :
      (at p d : ℕ) (key text : Bytes)
      → HasEntry idx at p key d (length text + 1)
      → all_spaces key ≡ false
      → HasData dat d text
      → Ahead idx dat at 0
          (at + 10 + (length (body key d (length text + 1)) + 1))
          (some (key, text))
  past_deleted :
      (at p d n k to : ℕ) (key : Bytes) (next : Option (Bytes × Bytes))
      → HasEntry idx at p key d n
      → all_spaces key ≡ true
      → Ahead idx dat (at + 10 + (length (body key d n) + 1)) k to next
      → Ahead idx dat at (suc k) to next

read_at-end : (p n : ℕ) (f : Bytes) → length f ≤ p → read_at p n f ≡ []
unfolding read_at
read_at-end zero n [] h = take_nil n
read_at-end zero n (x ∷ f) h = absurd (omega arith)
read_at-end (suc p) n [] h = take_nil n
read_at-end (suc p) n (x ∷ f) h = read_at-end p n f (omega arith)

-- At the end of the index file no record is read.
readidx-end :
    (s : Db)
    → (calm : s.os.faults ≡ []) → length s.os.idx.content ≤ s.os.idx.position
    → readidx (pos 0) s
      ≡ some (
        minus_one,
        record s {
          os = sought s.os calm idxfd (s.os.idx.position + 0);
          idxoff = pos s.os.idx.position;
        },
      )
unfolding readidx read_header ◌>>=◌
readidx-end s calm h = rw (
  lseek-cur s.os calm idxfd,
  read-end (sought s.os calm idxfd s.os.idx.position) calm idxfd 10
      (read_at-end s.os.idx.position 10 s.os.idx.content h),
)

-- The handle has loaded the record that came next.
pub record IsLoaded (s : Db) (key text : Bytes) : Type 0 where
  pub at : ℕ
  pub key_loaded : cstr s.idxbuf ≡ key
  pub place : s.datoff ≡ pos at
  pub size : s.datlen ≡ length text + 1
  pub held : HasData s.os.dat.content at text

abbrev pub Loaded : Db → Option (Bytes × Bytes) → Type 0
Loaded s none = Unit
Loaded s (some (key, text)) = IsLoaded s key text

abbrev pub is_record : Option (Bytes × Bytes) → Bool
is_record none = false
is_record (some r) = true

-- The files are as they were, and the index file stands at `to`.
pub record IsPast (s u : Db) (to : ℕ) : Type 0 where
  pub calm : u.os.faults ≡ []
  pub stack : u.stack ≡ s.stack
  pub ptrval : u.ptrval ≡ s.ptrval
  pub idx : u.os.idx.content ≡ s.os.idx.content
  pub dat : u.os.dat.content ≡ s.os.dat.content
  pub position : u.os.idx.position ≡ to

if-apply : (b : Bool) (f g : M Bool) (s : Db) → (if b then f else g) s ≡ (if b then f s else g s)
if-apply true f g s = refl
if-apply false f g s = refl

module _ (s : Db) (at p d n : ℕ) (key : Bytes) (calm : s.os.faults ≡ []) (ends : EndsDigits s.stack)
    (here : s.os.idx.position ≡ at) (e : HasEntry s.os.idx.content at p key d n) where
  next_entry-load :
      (old fuel : ℕ) (b : Bool)
      → s.ptrval ≡ pos old
      → all_spaces key ≡ b
      → next_entry (suc fuel) s ≡ (
          if b
          then next_entry fuel (after_entry s at key d n)
          else some (true, after_entry s at key d n))
  unfolding next_entry ◌>>=◌
  next_entry-load old fuel b stale blank =
      let same : cstr (split_text key d n (drop (length (body key d n) + 1) s.idxbuf)) ≡ key =
        cstr-end key (decimal d ++ 0 ∷ (decimal n ++ 0 ∷ drop (length (body key d n) + 1) s.idxbuf))
          (IsText-key key e.clean) in
      rw (readidx-here s at p key d n calm ends e here, stale, same, blank)
        (if-apply b (next_entry fuel) (pure true) _)

next_entry-end :
    (fuel : ℕ) (s : Db) (calm : s.os.faults ≡ [])
    → length s.os.idx.content ≤ s.os.idx.position
    → (u : Db) × (next_entry (suc fuel) s ≡ some (false, u)) × IsPast s u s.os.idx.position
unfolding next_entry ◌>>=◌
next_entry-end fuel s calm h = (
  record s { os = sought s.os calm idxfd (s.os.idx.position + 0); idxoff = pos s.os.idx.position },
  rw (readidx-end s calm h),
  record {
    calm = calm;
    stack = refl;
    ptrval = refl;
    idx = refl;
    dat = refl;
    position = omega arith;
  },
)

-- Deleted records are passed over.
pub next_entry-ahead :
    (fuel old at k to : ℕ) (next : Option (Bytes × Bytes)) (s : Db)
    → k < fuel
    → s.os.faults ≡ []
    → EndsDigits s.stack
    → s.ptrval ≡ pos old
    → s.os.idx.position ≡ at
    → Ahead s.os.idx.content s.os.dat.content at k to next
    → (u : Db) × (next_entry fuel s ≡ some (is_record next, u)) × IsPast s u to × Loaded u next
next_entry-ahead zero old at k to next s enough calm ends stale here a = absurd (omega arith)
next_entry-ahead (suc fuel) old at k to next s enough calm ends stale here (at_end _ last) =
    let (u, e, past) = next_entry-end fuel s calm (omega arith) in (u, e, rw (← here) past, tt)
next_entry-ahead (suc fuel) old at k to next s enough calm ends stale here
      (at_record _ p d key text e other held) =
    let n : ℕ = length text + 1 in
    let u : Db = after_entry s at key d n in
    (
      u,
      next_entry-load s at p d n key calm ends here e old fuel false stale other,
      record { calm = calm; stack = refl; ptrval = refl; idx = refl; dat = refl; position = refl },
      record {
        at = d;
        key_loaded =
            cstr-end key
              (decimal d ++ 0 ∷ (decimal n ++ 0 ∷ drop (length (body key d n) + 1) s.idxbuf))
              (IsText-key key e.clean);
        place = refl;
        size = refl;
        held = held;
      },
    )
next_entry-ahead (suc fuel) old at k to next s enough calm ends stale here
      (past_deleted _ p d n j _ key _ e blank rest) =
    let v : Db = after_entry s at key d n in
    let (u, step, past, loaded) =
      next_entry-ahead fuel old _ j to next v (omega arith) calm ends stale refl rest in
    (
      u,
      next_entry-load s at p d n key calm ends here e old fuel true stale blank ∙ step,
      record {
        calm = past.calm;
        stack = past.stack;
        ptrval = past.ptrval;
        idx = past.idx;
        dat = past.dat;
        position = past.position;
      },
      loaded,
    )
