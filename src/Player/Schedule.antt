-- ===== src/Player/Schedule.antt =====
-- Runs under a given order of the threads' steps.
use personal_project.Common.{
  ◌≡◌, refl, sym, ap, ◌∙◌, Option, none, some, Option-cases, inl, inr, List, [], ◌∷◌,
}
use mathlib.Core.Path.{subst}
use personal_project.Player.{Program, reader_step, worker_step, Step, reads, works, Reach, further}

pub data Thread : Type 0 where
  reader_thread worker_thread : Thread

abbrev pub thread_step : Thread → Program → Option Program
thread_step reader_thread s = reader_step s
thread_step worker_thread s = worker_step s

abbrev pub run_from : List Thread → Option Program → Option Program
run_from [] o = o
run_from (t ∷ order) none = none
run_from (t ∷ order) (some s) = run_from order (thread_step t s)

run_from-none : (order : List Thread) → run_from order none ≡ none
run_from-none [] = refl
run_from-none (t ∷ order) = refl

of_thread : (x : Thread) (s t : Program) → thread_step x s ≡ some t → Step s t
of_thread reader_thread s t e = reads e
of_thread worker_thread s t e = works e

chosen : Program → Option Program → Program
chosen s none = s
chosen s (some t) = t

-- What a run ends in is reached.
pub run_from-Reach :
    (order : List Thread) (s t u : Program)
    → Reach s t
    → run_from order (some t) ≡ some u
    → Reach s u
unfolding chosen
run_from-Reach [] s t u r e = subst (Reach s) (ap (chosen s) e) r
run_from-Reach (x ∷ order) s t u r e = elim (Option-cases (thread_step x t)) [
  | inl stuck ↦ absurd (cc (sym (run_from-none order) ∙ sym (ap (run_from order) stuck) ∙ e))
  | inr (v, step) ↦
      run_from-Reach order s v u (further r (of_thread x t v step))
        (sym (ap (run_from order) step) ∙ e)
]
