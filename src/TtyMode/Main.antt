-- ===== src/TtyMode/Main.antt =====
-- `main` of noncanonical_mode.c with its two reading loops and the handler of its signals.
pub mod Leaving
use personal_project.Common.{
  ℕ, zero, suc, ◌%◌, Bool, true, false, not, List, [], ◌∷◌, ◌++◌, ◌==◌, if◌then◌else◌,
}
use personal_project.Decimal.{ℤ, pos, negsuc, is_negative}
use personal_project.Posix.{next_fault, later_faults}
use personal_project.TtyMode.{Termios, Tty, tty_raw, tty_cbreak, tty_reset}

-- What a `read` of one byte meets: the byte, the end of the input, an error, or a signal that is caught while it
-- waits.
pub data Event : Type 0 where
  byte : ℕ → Event
  at_end failed signal : Event

-- What is printed: a number in octal, the two titles, that a signal was caught, or the failure of a call.
pub data Line : Type 0 where
  octal : ℕ → Line
  raw_title cbreak_title signal_caught : Line
  sigaction_error tty_raw_error tty_reset_error tty_cbreak_error read_error : Line

-- A loop waits, or has stopped (with a byte, or with none), or was left for the handler.
pub data Looped : Type 0 where
  waiting : List Line → Looped
  stopped : Bool → List Event → List Line → Looped
  caught : List Line → Looped

unfoldable pub reading : (ℕ → Bool) → List Event → List Line → Looped
reading stops [] out = waiting out
reading stops (byte c ∷ events) out = elim (stops (c % 256)) [
  | true ↦ stopped true events out
  | false ↦ reading stops events (out ++ octal (c % 256) ∷ [])
]
reading stops (at_end ∷ events) out = stopped false events out
reading stops (failed ∷ events) out = stopped false events out
reading stops (signal ∷ events) out = caught out

-- `0177`
abbrev pub is_delete : ℕ → Bool
is_delete c = c == 127

abbrev pub never : ℕ → Bool
never c = false

pub data Outcome : Type 0 where
  waits : Tty → List Line → Outcome
  ends : ℤ → Tty → List Line → Outcome

-- `sigaction`, which succeeds or fails.
sigaction : Tty → Bool × Tty
sigaction s = (not (next_fault s.faults), record s { faults = later_faults s.faults })

-- The calls of `sigaction`, up to the first one that fails.
installed : ℕ → Bool × Tty → Bool × Tty
unfolding sigaction
installed zero r = r
installed (suc n) (false, s) = (false, s)
installed (suc n) (true, s) = installed n (sigaction s)

module _ (takes : Termios → Termios) where
  sig_catch : Tty → List Line → Outcome
  sig_catch s out = ends (pos 0) (tty_reset takes s).1 (out ++ signal_caught ∷ [])

  finished : Bool → List Line → ℤ × Tty → Outcome
  finished got out (r, s) =
      if is_negative r
      then ends (negsuc 0) s (out ++ tty_reset_error ∷ [])
      else ends (pos 0) s (if got then out else out ++ read_error ∷ [])

  after_cbreak : Tty → Looped → Outcome
  unfolding sig_catch finished
  after_cbreak s (waiting out) = waits s out
  after_cbreak s (stopped got events out) = finished got out (tty_reset takes s)
  after_cbreak s (caught out) = sig_catch s out

  in_cbreak : List Event → List Line → ℤ × Tty → Outcome
  unfolding after_cbreak
  in_cbreak events out (r, s) =
      if is_negative r
      then ends (negsuc 0) s (out ++ tty_cbreak_error ∷ [])
      else after_cbreak s (reading never events (out ++ cbreak_title ∷ []))

  between : Bool → List Event → List Line → ℤ × Tty → Outcome
  unfolding in_cbreak
  between got events out (r, s) =
      if is_negative r
      then ends (negsuc 0) s (out ++ tty_reset_error ∷ [])
      else if got
      then in_cbreak events out (tty_cbreak takes 0 s)
      else ends (negsuc 0) s (out ++ read_error ∷ [])

  after_raw : Tty → Looped → Outcome
  unfolding sig_catch between
  after_raw s (waiting out) = waits s out
  after_raw s (stopped got events out) = between got events out (tty_reset takes s)
  after_raw s (caught out) = sig_catch s out

  in_raw : List Event → ℤ × Tty → Outcome
  unfolding after_raw
  in_raw events (r, s) =
      if is_negative r
      then ends (negsuc 0) s (tty_raw_error ∷ [])
      else after_raw s (reading is_delete events (raw_title ∷ []))

  started : List Event → Bool × Tty → Outcome
  unfolding in_raw
  started events (false, s) = ends (negsuc 0) s (sigaction_error ∷ [])
  started events (true, s) = in_raw events (tty_raw takes 0 s)

  unfoldable pub main : List Event → Tty → Outcome
  unfolding installed started
  main events s = started events (installed 3 (true, s))
