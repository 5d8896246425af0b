-- ===== src/TtyMode/Main/Leaving.antt =====
-- `main` leaves the terminal as it was, wherever it ends.
use personal_project.Common.{
  ℕ, ◌≡◌, refl, Bool, true, false, inl, inr, Bool-cases, Option, some, List, [], ◌∷◌, ◌++◌,
}
use personal_project.Decimal.{pos}
use personal_project.TtyMode.{
  Termios, reset, raw, cbreak, is_reset, with_cbreak, with_raw, not_cbreak, tty_cbreak, tty_raw,
  tty_reset, tcgetattr, get_attr, tcsetattr, set_attr,
}
use personal_project.TtyMode.Restore.{calm}
use personal_project.TtyMode.Main.{
  Event, Line, Looped, waiting, stopped, caught, reading, is_delete, never, Outcome, waits, ends,
  raw_title, cbreak_title, after_cbreak, in_cbreak, between, after_raw, main,
}

-- Where the program has ended, the terminal has its old settings and the mode is the reset one; while it waits,
-- another mode is set.
abbrev pub Restores : Termios → Outcome → Type 0
Restores old (waits s out) = is_reset s.ttystate ≡ false
Restores old (ends r s out) = (s.settings ≡ old) × (is_reset s.ttystate ≡ true)

module _ (takes : Termios → Termios) (old : Termios) (takes_old : takes old ≡ old) where
  after_cbreak-Restores :
      (now : Termios) (fd : Option ℕ) (looped : Looped)
      → Restores old (after_cbreak takes (calm now old fd cbreak) looped)
  unfolding after_cbreak tty_reset tcsetattr set_attr
  after_cbreak-Restores now fd (waiting out) = refl
  after_cbreak-Restores now fd (stopped got events out) = (takes_old, refl)
  after_cbreak-Restores now fd (caught out) = (takes_old, refl)

  in_cbreak-Restores :
      (fd : Option ℕ) (events : List Event) (out : List Line)
      → Restores old (in_cbreak takes events out (tty_cbreak takes 0 (calm old old fd reset)))
  unfolding in_cbreak tty_cbreak tcgetattr get_attr tcsetattr set_attr
  in_cbreak-Restores fd events out = elim (Bool-cases (not_cbreak (takes (with_cbreak old)))) [
    | inl refused ↦ rw refused (takes_old, refl)
    | inr taken ↦ rw taken (
        after_cbreak-Restores (takes (with_cbreak old)) (some 0)
          (reading never events (out ++ cbreak_title ∷ [])))
  ]

  between-Restores :
      (got : Bool) (fd : Option ℕ) (events : List Event) (out : List Line) (n : ℕ)
      → Restores old (between takes got events out (pos n, calm old old fd reset))
  unfolding between
  between-Restores true fd events out n = in_cbreak-Restores fd events out
  between-Restores false fd events out n = (refl, refl)

  after_raw-Restores :
      (now : Termios) (fd : Option ℕ) (looped : Looped)
      → Restores old (after_raw takes (calm now old fd raw) looped)
  unfolding after_raw tty_reset tcsetattr set_attr
  after_raw-Restores now fd (waiting out) = refl
  after_raw-Restores now fd (stopped got events out) =
      rw takes_old (between-Restores got fd events out 0)
  after_raw-Restores now fd (caught out) = (takes_old, refl)

  -- If no call fails but the reads, the terminal takes the settings that it had when asked for them, and the mode
  -- is the reset one: whatever is read, and whenever a signal is caught while a read waits, main has given the
  -- terminal its old settings and reset the mode where it has ended, also where the terminal refuses the cbreak
  -- mode; while it waits, another mode is set.
  pub main-Restores :
      (save : Termios) (saved : Option ℕ) (events : List Event)
      → Restores old (main takes events (calm old save saved reset))
  unfolding main tty_raw tcgetattr get_attr tcsetattr set_attr
  main-Restores save saved events =
      after_raw-Restores (takes (with_raw old)) (some 0) (reading is_delete events (raw_title ∷ []))
