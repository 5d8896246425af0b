-- ===== src/Observer/Witnesses.antt =====
-- The theorems on the timer and its clocks at concrete inputs.
use personal_project.Common.{◌≡◌, none, some, List, [], ◌∷◌, ◌++◌, if◌then◌else◌}
use personal_project.Observer.{
  World, Command, updated, analog, digital, create, delete, tick_at, Time, new_timer, run, tick,
}
use personal_project.Observer.Alive.{lines, IsWatched}
use personal_project.Observer.Runs.{run-tick}

abbrev noon : Time
noon = record { hour = 12; minute = 0; second = 0 }

-- The calls of `main` up to the end of the timer: two clocks, of which the first is destroyed.
abbrev calls : List Command
calls = create analog ∷ create digital ∷ tick_at noon ∷ delete 0 ∷ tick_at noon ∷ []

run-tick_example :
    (w : World) × (run calls new_timer ≡ some w)
    × IsWatched w
    × (tick noon w ≡ (
        if w.timer
        then some (record w {
          tm = some noon;
          output = w.output ++ lines (λ k. updated k (some noon)) w.clocks;
        })
        else none))
run-tick_example = run-tick calls noon
