-- ===== src/Player/Hang.antt =====
-- A worker that waits for ever.
use personal_project.Common.{
  ◌≡◌, ◌≢◌, refl, sym, ◌∙◌, Bool, true, false, Option, none, some, List, if◌then◌else◌,
}
use mathlib.Core.Path.{subst}
use personal_project.Decimal.{Bytes}
use personal_project.Player.{
  Pointer, null, end_marker, node, Reader, reading, marking, leaving, finished, Worker, testing,
  locking, checking, waiting, taking, stopped, Program, read_at, reader_step, test_start,
  check_start, work_at, worker_step, Step, reads, works, Reach, here, further,
}

abbrev Looks : Worker → Type 0
Looks testing = Unit
Looks locking = Unit
Looks checking = Unit
Looks waiting = Unit
Looks _ = ⊥

-- The reader has ended, and the queue is empty without an end marker: the marker went to a node that
-- had been taken.
pub record IsLost (printed : List Bytes) (s : Program) : Type 0 where
  pub empty : s.queue_start ≡ null
  pub over : s.reader ≡ finished
  pub looks : Looks s.worker
  pub same : s.printed ≡ printed

pub AllLost : List Bytes → Option Program → Type 0
AllLost printed none = Unit
AllLost printed (some t) = IsLost printed t

module _ (printed : List Bytes) where
  test_start-IsLost :
      (p : Pointer) (s : Program) → p ≡ null → IsLost printed s → IsLost printed (test_start p s)
  unfolding test_start
  test_start-IsLost null s e h = record {
    empty = h.empty;
    over = h.over;
    looks = tt;
    same = h.same;
  }
  test_start-IsLost end_marker s e h = absurd (cc e)
  test_start-IsLost (node i) s e h = absurd (cc e)

  check_start-IsLost :
      (p : Pointer) (s : Program) → p ≡ null → IsLost printed s → IsLost printed (check_start p s)
  unfolding check_start
  check_start-IsLost null s e h = record {
    empty = h.empty;
    over = h.over;
    looks = tt;
    same = h.same;
  }
  check_start-IsLost end_marker s e h = absurd (cc e)
  check_start-IsLost (node i) s e h = absurd (cc e)

  work_at-IsLost :
      (w : Worker) (s : Program) → Looks w → IsLost printed s → AllLost printed (work_at w s)
  unfolding work_at AllLost
  work_at-IsLost testing s l h = test_start-IsLost s.queue_start s h.empty h
  work_at-IsLost locking s l h = record {
    empty = h.empty;
    over = h.over;
    looks = tt;
    same = h.same;
  }
  work_at-IsLost checking s l h = check_start-IsLost s.queue_start s h.empty h
  work_at-IsLost waiting s l h = record {
    empty = h.empty;
    over = h.over;
    looks = tt;
    same = h.same;
  }
  work_at-IsLost taking s l h = absurd l
  work_at-IsLost stopped s l h = absurd l
  work_at-IsLost _ s l h = absurd l

  if-AllLost :
      (b : Bool) (o : Option Program) → AllLost printed o → AllLost printed (if b then none else o)
  unfolding AllLost
  if-AllLost true o h = tt
  if-AllLost false o h = h

  if_same : (b : Bool) (o : Option Program) → (if b then o else o) ≡ o
  if_same true o = refl
  if_same false o = refl

  finished_step :
      (r : Reader) (s t : Program)
      → r ≡ finished
      → (if s.crashed then none else read_at r s) ≡ some t
      → ⊥
  unfolding read_at
  finished_step finished s t e h = absurd (cc (sym (if_same s.crashed none) ∙ h))
  finished_step reading s t e h = absurd (cc e)
  finished_step marking s t e h = absurd (cc e)
  finished_step leaving s t e h = absurd (cc e)

  Step-IsLost : (s t : Program) → Step s t → IsLost printed s → IsLost printed t
  unfolding AllLost
  Step-IsLost s t (reads e) h = unfold reader_step in absurd (finished_step s.reader s t h.over e)
  Step-IsLost s t (works e) h =
      unfold worker_step in
      subst (AllLost printed) e
        (if-AllLost s.crashed (work_at s.worker s) (work_at-IsLost s.worker s h.looks h))

  kept : (s t : Program) → IsLost printed s → Reach s t → IsLost printed t
  kept s t h here = h
  kept s t h (further r step) = Step-IsLost _ _ step (kept s _ h r)

  not_stopped : (w : Worker) → Looks w → w ≢ stopped
  not_stopped stopped l e = l
  not_stopped testing l e = cc e
  not_stopped locking l e = cc e
  not_stopped checking l e = cc e
  not_stopped waiting l e = cc e
  not_stopped _ l e = l

  -- From a state on in which the reader has ended, the queue is empty without an end marker, and the worker
  -- looks at the queue with no node in hand, whatever steps follow, the worker never ends and prints nothing more: `main` waits for it for ever.
  pub Reach-hangs :
      (s t : Program) → IsLost printed s → Reach s t → (t.worker ≢ stopped) × (t.printed ≡ printed)
  Reach-hangs s t h r =
      let lost : IsLost printed t = kept s t h r in (not_stopped t.worker lost.looks, lost.same)
