-- ===== src/Player/Witnesses.antt =====
-- Runs of the two threads, and their theorems at concrete runs.
use personal_project.Common.{
  ◌≡◌, ◌≢◌, refl, Bool, true, false, Option, none, some, List, [], ◌∷◌, ◌++◌,
}
use personal_project.Decimal.{Bytes}
use personal_project.Player.{Program, start, stopped, reader_step, worker_step, Reach, here}
use personal_project.Player.Schedule.{
  Thread, reader_thread, worker_thread, run_from, run_from-Reach,
}
use personal_project.Player.Order.{Reach-printed}
use personal_project.Player.Hang.{IsLost, Reach-hangs}

abbrev two_lines : List Bytes
two_lines = (b'a' ∷ []) ∷ (b'b' ∷ []) ∷ []

abbrev works_for : List Thread → List Thread
works_for later =
    worker_thread ∷ worker_thread ∷ worker_thread ∷ worker_thread ∷ worker_thread ∷ worker_thread
    ∷ worker_thread ∷ later

-- The reader is done before the worker starts: both lines are printed, and the worker ends.
abbrev reader_first : List Thread
reader_first =
    reader_thread
    ∷ reader_thread
    ∷ reader_thread
    ∷ reader_thread
    ∷ reader_thread
    ∷ works_for (works_for (worker_thread ∷ []))

abbrev outcome : Option Program → Option (List Bytes)
outcome none = none
outcome (some s) = some s.printed

reader_first_prints : outcome (run_from reader_first (some (start two_lines))) ≡ some two_lines
unfolding reader_step worker_step
reader_first_prints = refl

abbrev has_crashed : Option Program → Bool
has_crashed none = false
has_crashed (some s) = s.crashed

-- The worker takes the last line before the reader sets the end marker: the reader follows a null
-- pointer.
crashes :
    has_crashed (
      run_from
        (reader_thread ∷ works_for (worker_thread ∷ reader_thread ∷ reader_thread ∷ []))
        (some (start ((b'a' ∷ []) ∷ []))))
    ≡ true
unfolding reader_step worker_step
crashes = refl

abbrev one_line : List Bytes
one_line = (b'a' ∷ []) ∷ []

-- The worker has taken the only node, and not yet compared it, when the reader marks and leaves it.
abbrev lost_order : List Thread
lost_order =
    reader_thread ∷ worker_thread ∷ worker_thread ∷ worker_thread ∷ worker_thread ∷ reader_thread
    ∷ reader_thread ∷ reader_thread ∷ worker_thread ∷ worker_thread ∷ worker_thread ∷ []

abbrev state_of : Option Program → Program
state_of none = start one_line
state_of (some s) = s

abbrev lost : Program
lost = state_of (run_from lost_order (some (start one_line)))

lost_run : run_from lost_order (some (start one_line)) ≡ some lost
unfolding reader_step worker_step
lost_run = refl

lost_reached : Reach (start one_line) lost
lost_reached = run_from-Reach lost_order (start one_line) (start one_line) lost here lost_run

Reach-printed_example : (later : List Bytes) × (lost.printed ++ later ≡ one_line)
Reach-printed_example = Reach-printed one_line lost lost_reached

lost_IsLost : IsLost one_line lost
unfolding reader_step worker_step
lost_IsLost = record { empty = refl; over = refl; looks = tt; same = refl }

Reach-hangs_example : (lost.worker ≢ stopped) × (lost.printed ≡ one_line)
Reach-hangs_example = Reach-hangs one_line lost lost lost_IsLost here
