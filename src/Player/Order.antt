-- ===== src/Player/Order.antt =====
-- What is printed is what was read, in its order, in every interleaving.
mod Invariant
mod Works
mod Reads
use personal_project.Common.{
  ℕ, zero, suc, ◌+◌, ◌<◌, ◌≡◌, ◌⊎◌, inl, inr, refl, sym, ap, ◌∙◌, Bool, true, false, Option, none,
  some, List, [], ◌∷◌, ◌++◌, append-nil, append_assoc, ◌==◌, if◌then◌else◌, length, get_or,
  length-append, get_or-append_length, Bool-cases, arith, ==→eq, eq→==,
}
use mathlib.Core.Path.{subst}
use personal_project.Decimal.{Bytes}
use personal_project.Player.{
  Pointer, null, end_marker, node, Reader, reading, marking, leaving, finished, Worker, testing,
  locking, checking, waiting, taking, stopped, comparing, clearing, unlocking, printing, Program,
  start, holds_mutex, set_next, append_line, read_line, mark, leave, read_at, reader_step,
  test_start, check_start, take_start, compare_current, work_at, worker_step, Step, reads, works,
  Reach, here, further,
}
use personal_project.Player.Order.Invariant.{
  number, node_inj, front, Held, Ok, OkAt, IsPrefix, Safe, AllSafe, Ok-IsPrefix, rework,
}
use personal_project.Player.Order.Works.{work_at-Safe}
use personal_project.Player.Order.Reads.{read_at-Safe}

module _ (input : List Bytes) where
  if-AllSafe :
      (b : Bool) (o : Option Program) → AllSafe input o → AllSafe input (if b then none else o)
  if-AllSafe true o h = tt
  if-AllSafe false o h = h

  stopped_step :
      (b : Bool) (o : Option Program) (t : Program)
      → b ≡ true
      → (if b then none else o) ≡ some t
      → ⊥
  stopped_step true o t e h = absurd (cc h)
  stopped_step false o t e h = absurd (cc e)

  Step-Safe : (s t : Program) → Step s t → Safe input s → Safe input t
  Step-Safe s t (reads e) (inl (crashed, shown)) =
      unfold reader_step in absurd (stopped_step s.crashed (read_at s.reader s) t crashed e)
  Step-Safe s t (works e) (inl (crashed, shown)) =
      unfold worker_step in absurd (stopped_step s.crashed (work_at s.worker s) t crashed e)
  Step-Safe s t (reads e) (inr h) =
      unfold reader_step in
      subst (AllSafe input) e
        (if-AllSafe s.crashed (read_at s.reader s) (read_at-Safe input s.reader s refl h))
  Step-Safe s t (works e) (inr h) =
      unfold worker_step in
      subst (AllSafe input) e
        (if-AllSafe s.crashed (work_at s.worker s) (work_at-Safe input s.worker s h))

  start-Safe : Safe input (start input)
  start-Safe = inr (record {
    texts = refl;
    rest = [];
    shown = refl;
    held = tt;
    at_front = λ j e. absurd (cc e);
    links = λ i j e. absurd (cc e);
    empty = λ e. refl;
    last = λ c e. absurd (cc e);
    marked = λ leaves c e. absurd (cc leaves);
  })

  Reach-Safe : {t : Program} → Reach (start input) t → Safe input t
  Reach-Safe here = start-Safe
  Reach-Safe (further r step) = Step-Safe _ _ step (Reach-Safe r)

  Safe-IsPrefix : (t : Program) → Safe input t → IsPrefix input t.printed
  Safe-IsPrefix t (inl (crashed, shown)) = shown
  Safe-IsPrefix t (inr h) = Ok-IsPrefix input h

  -- In every state that the two threads can reach, in any order of their steps, what has been printed is
  -- the beginning of what there was to read: no line is lost, doubled or out of its order.
  pub Reach-printed :
      (t : Program) → Reach (start input) t → (later : List Bytes) × (t.printed ++ later ≡ input)
  Reach-printed t r = Safe-IsPrefix t (Reach-Safe r)
