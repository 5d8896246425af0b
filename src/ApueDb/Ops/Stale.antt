-- ===== src/ApueDb/Ops/Stale.antt =====
-- `_db_readidx` reads the pointer to the next record and drops it: it returns what `ptrval` holds.
use personal_project.Common.{
  ℕ, zero, suc, ◌+◌, ◌<◌, ◌≡◌, ◌≢◌, refl, ap, ap₂, ◌∙◌, true, false, inl, inr, none, some, [], ◌∷◌,
  ◌++◌, arith, ne→==, Bool-cases, length, drop,
}
use personal_project.Decimal.{Bytes, pos, decimal}
use personal_project.Decimal.RoundTrip.{EndsDigits}
use personal_project.Posix.{idxfd, read_lock, set_locks}
use personal_project.Posix.Calm.{sought, set_lock-all}
use personal_project.ApueDb.State.{Db, ◌>>=◌}
use personal_project.ApueDb.Entry.Fields.{IsText-key, body, cstr-end}
use personal_project.ApueDb.Entry.Read.{HasEntry, after_entry, readidx-ok}
use personal_project.ApueDb.Entry.Write.{HasPointer, readptr-ok}
use personal_project.ApueDb.Chain.{chain_offset, same_text, search_chain, find_and_lock}
use personal_project.ApueDb.Ops.{fetch, unlock_chain, fetch_found}
use personal_project.ApueDb.Ops.Fetch.{placed, search_chain-end}

same_text-eq : (a b : Bytes) → same_text a b ≡ true → a ≡ b
unfolding same_text
same_text-eq [] [] h = refl
same_text-eq [] (y ∷ b) h = ground arith
same_text-eq (x ∷ a) [] h = ground arith
same_text-eq (x ∷ a) (y ∷ b) h = ap₂ (λ c t. c ∷ t) (ground arith) (same_text-eq a b (ground arith))

same_text-ne : (a b : Bytes) → a ≢ b → same_text a b ≡ false
same_text-ne a b h = elim (Bool-cases (same_text a b)) [
  | inl same ↦ absurd (h (same_text-eq a b same))
  | inr other ↦ other
]

-- A record of another key.
pub record OtherEntry (s : Db) (off : ℕ) (key : Bytes) : Type 0 where
  pub behind : 0 < off
  pub p : ℕ
  pub other : Bytes
  pub d : ℕ
  pub n : ℕ
  pub entry : HasEntry s.os.idx.content off p other d n
  pub differs : other ≢ key

module _ (s : Db) (off : ℕ) (key : Bytes) (calm : s.os.faults ≡ []) (ends : EndsDigits s.stack)
    (e : OtherEntry s off key) where
  abbrev passed : Db
  passed = record (after_entry s off e.other e.d e.n) { ptroff = pos off }

  -- The walk goes on from a record of another key to the offset in `ptrval`.
  search_chain-other :
      (fuel : ℕ) → search_chain (suc fuel) key (pos off) s ≡ search_chain fuel key s.ptrval passed
  unfolding search_chain ◌>>=◌
  search_chain-other fuel = rw (
    ne→== off 0 (omega (arith, e.behind)),
    readidx-ok s off e.p e.other e.d e.n calm ends e.entry e.behind,
    cstr-end e.other
        (decimal e.d ++ 0 ∷ (decimal e.n ++ 0 ∷ drop (length (body e.other e.d e.n) + 1) s.idxbuf))
        (IsText-key e.other (e.entry).clean),
    same_text-ne e.other key e.differs,
  )

OtherEntry-passed :
    (s : Db) (a b : ℕ) (key : Bytes) (calm : s.os.faults ≡ []) (ends : EndsDigits s.stack)
    (e : OtherEntry s a key)
    → OtherEntry s b key
    → OtherEntry (passed s a key calm ends e) b key
OtherEntry-passed s a b key calm ends e f = record {
  behind = f.behind;
  p = f.p;
  other = f.other;
  d = f.d;
  n = f.n;
  entry = f.entry;
  differs = f.differs;
}

-- A record of another key whose offset stands in `ptrval` leads to itself.
search_chain-loops :
    (fuel : ℕ) (s : Db) (off : ℕ) (key : Bytes)
    → s.os.faults ≡ []
    → EndsDigits s.stack
    → s.ptrval ≡ pos off
    → OtherEntry s off key
    → search_chain fuel key (pos off) s ≡ none
search_chain-loops zero s off key calm ends stale e = unfold search_chain in refl
search_chain-loops (suc fuel) s off key calm ends stale e =
    search_chain-other s off key calm ends e fuel
    ∙ ap (λ z. search_chain fuel key z (passed s off key calm ends e)) stale
    ∙ search_chain-loops fuel (passed s off key calm ends e) off key calm ends stale
        (OtherEntry-passed s off off key calm ends e e)

-- The handle after `_db_find_and_lock` has read the pointer to the chain.
abbrev at_chain : (s : Db) → s.os.faults ≡ [] → Bytes → Db
at_chain s calm key =
    let at : ℕ = chain_offset s.nhash s.hashoff key in
    let t : Db = placed s key read_lock in record t { os = sought t.os calm idxfd (at + 6) }

-- A chain whose first record has another key.
pub record OtherHead (s : Db) (key : Bytes) (off : ℕ) : Type 0 where
  pub calm : s.os.faults ≡ []
  pub ends : EndsDigits s.stack
  pub pointer : HasPointer s.os.idx.content (chain_offset s.nhash s.hashoff key) off
  pub entry : OtherEntry s off key

at_chain-OtherEntry :
    (s : Db) (calm : s.os.faults ≡ []) (key : Bytes) (off : ℕ)
    → OtherEntry s off key
    → OtherEntry (at_chain s calm key) off key
at_chain-OtherEntry s calm key off e = record {
  behind = e.behind;
  p = e.p;
  other = e.other;
  d = e.d;
  n = e.n;
  entry = e.entry;
  differs = e.differs;
}

module _ (s : Db) (key : Bytes) (off : ℕ) (h : OtherHead s key off) where
  abbrev start : Db
  start = at_chain s h.calm key

  -- The walk behind the first record.
  walk-head :
      (fuel : ℕ)
      → search_chain (suc fuel) key (pos off) start
        ≡ search_chain fuel key s.ptrval
            (passed start off key h.calm h.ends (at_chain-OtherEntry s h.calm key off h.entry))
  walk-head fuel =
      search_chain-other start off key h.calm h.ends (at_chain-OtherEntry s h.calm key off h.entry)
        fuel

  find_and_lock-none :
      (fuel : ℕ)
      → search_chain fuel key (pos off) start ≡ none
      → find_and_lock fuel key false s ≡ none
  unfolding find_and_lock ◌>>=◌
  find_and_lock-none fuel e =
      let at : ℕ = chain_offset s.nhash s.hashoff key in
      rw (
        set_lock-all s.os h.calm idxfd (some read_lock) at 1,
        readptr-ok (placed s key read_lock) h.calm at off h.pointer,
        e,
      )

  fetch-none : (fuel : ℕ) → find_and_lock fuel key false s ≡ none → fetch fuel key s ≡ none
  unfolding fetch ◌>>=◌
  fetch-none fuel e = rw e

-- If the first record of its chain has another key and so has the record whose offset `ptrval`
-- holds, `db_fetch` of an absent or a present key never returns: no fuel is enough.
pub fetch-loops :
    (s : Db) (key : Bytes) (off old : ℕ)
    → OtherHead s key off
    → s.ptrval ≡ pos old
    → OtherEntry s old key
    → (fuel : ℕ) → fetch fuel key s ≡ none
fetch-loops s key off old h stale e zero =
    fetch-none s key off h zero (find_and_lock-none s key off h zero (unfold search_chain in refl))
fetch-loops s key off old h stale e (suc fuel) =
    let first = at_chain-OtherEntry s h.calm key off h.entry in
    let t : Db = at_chain s h.calm key in
    let u : Db = passed t off key h.calm h.ends first in
    fetch-none s key off h (suc fuel) (
      find_and_lock-none s key off h (suc fuel) (
        walk-head s key off h fuel
        ∙ ap (λ z. search_chain fuel key z u) stale
        ∙ search_chain-loops fuel u old key h.calm h.ends stale (
            OtherEntry-passed t off old key h.calm h.ends first
              (at_chain-OtherEntry s h.calm key old e))))

-- If the first record of its chain has another key and `ptrval` holds 0, as it does in a handle that
-- was just opened, `db_fetch` returns no data, whatever records follow on the chain.
pub fetch-lost :
    (s : Db) (key : Bytes) (off fuel : ℕ)
    → OtherHead s key off
    → s.ptrval ≡ pos 0
    → (t : Db) × (fetch (suc (suc fuel)) key s ≡ some (none, t))
unfolding fetch fetch_found unlock_chain find_and_lock ◌>>=◌
fetch-lost s key off fuel h stale =
    let at : ℕ = chain_offset s.nhash s.hashoff key in
    let first = at_chain-OtherEntry s h.calm key off h.entry in
    let u : Db = passed (at_chain s h.calm key) off key h.calm h.ends first in
    let walk : search_chain (suc (suc fuel)) key (pos off) (at_chain s h.calm key)
        ≡ some (pos 0, u) =
      walk-head s key off h (suc fuel)
      ∙ ap (λ z. search_chain (suc fuel) key z u) stale
      ∙ search_chain-end fuel key u in
    (
      record u {
        os = record u.os { locks = set_locks idxfd at 1 none u.os.locks };
        counts = record u.counts { fetcherr = u.counts.fetcherr + 1 };
      },
      rw (
        set_lock-all s.os h.calm idxfd (some read_lock) at 1,
        readptr-ok (placed s key read_lock) h.calm at off h.pointer,
        walk,
        set_lock-all u.os h.calm idxfd none at 1,
      ),
    )
