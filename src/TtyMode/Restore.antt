-- ===== src/TtyMode/Restore.antt =====
-- The settings that the terminal had come back.
use personal_project.Common.{
  ℕ, ◌≡◌, refl, ap, sym, ◌∙◌, false, ◌⊎◌, inl, inr, Bool-cases, Option, some, List, [], ◌∷◌,
}
use mathlib.Core.Path.{subst}
use personal_project.TtyMode.{
  Termios, TtyState, reset, raw, cbreak, Tty, is_reset, with_cbreak, with_raw, not_cbreak, get_attr,
  tcgetattr, set_attr, tcsetattr, give_up, cbreak_checked, cbreak_set, cbreak_read, tty_cbreak,
  raw_set, raw_read, tty_raw, reset_set, tty_reset,
}

-- A terminal none of whose calls fails.
abbrev pub calm : Termios → Termios → Option ℕ → TtyState → Tty
calm settings save fd state = record {
  settings = settings;
  save_termios = save;
  ttysavefd = fd;
  ttystate = state;
  faults = [];
}

-- The old settings are those of the terminal, or have been saved.
abbrev pub Keeps : Termios → Tty → Type 0
Keeps old s =
    ((save : Termios) × (fd : Option ℕ) × (s ≡ calm old save fd reset))
    ⊎ ((now : Termios) × (fd : Option ℕ) × (state : TtyState) × (is_reset state ≡ false)
        × (s ≡ calm now old fd state))

pub data Op : Type 0 where
  use_cbreak : ℕ → Op
  use_reset : Op

module _ (takes : Termios → Termios) where
  abbrev pub step : Op → Tty → Tty
  step (use_cbreak fd) s = (tty_cbreak takes fd s).1
  step use_reset s = (tty_reset takes s).1

  abbrev pub run : List Op → Tty → Tty
  run [] s = s
  run (op ∷ ops) s = run ops (step op s)

  -- Two calls of `tty_raw` and one of `tty_reset`, none of whose own calls fails: the saved settings are
  -- those of the raw mode, and the terminal is asked for them in place of its old ones.
  tty_reset-raw_twice :
      (old save : Termios) (saved : Option ℕ) (fd : ℕ)
      → (tty_reset takes (tty_raw takes fd (tty_raw takes fd (calm old save saved reset)).1).1).1
        ≡ calm (takes (takes (with_raw old))) (takes (with_raw old)) (some fd) reset
  unfolding tty_reset reset_set tty_raw raw_set raw_read tcgetattr get_attr tcsetattr set_attr
  tty_reset-raw_twice old save saved fd = refl

  module _ (old : Termios) (takes_old : takes old ≡ old) where
    cbreak_reset-Keeps :
        (save : Termios) (saved : Option ℕ) (fd : ℕ)
        → Keeps old (tty_cbreak takes fd (calm old save saved reset)).1
    unfolding tty_cbreak give_up cbreak_checked cbreak_set cbreak_read tcgetattr get_attr tcsetattr
        set_attr
    cbreak_reset-Keeps save saved fd = elim (Bool-cases (not_cbreak (takes (with_cbreak old)))) [
      | inl refused ↦ inl (old, saved, rw (refused, takes_old))
      | inr taken ↦ inr (takes (with_cbreak old), some fd, cbreak, refl, rw taken)
    ]

    cbreak-Keeps : (fd : ℕ) (s : Tty) → Keeps old s → Keeps old (tty_cbreak takes fd s).1
    cbreak-Keeps fd s (inl (save, saved, e)) =
        subst (λ (t : Tty). Keeps old (tty_cbreak takes fd t).1) (sym e)
          (cbreak_reset-Keeps save saved fd)
    cbreak-Keeps fd s (inr (now, saved, state, busy, e)) = inr (
      now,
      saved,
      state,
      busy,
      ap (λ (t : Tty). (tty_cbreak takes fd t).1) e ∙ (unfold tty_cbreak in rw busy),
    )

    reset-calm :
        (s : Tty)
        → Keeps old s
        → (save : Termios) × (fd : Option ℕ) × ((tty_reset takes s).1 ≡ calm old save fd reset)
    reset-calm s (inl (save, saved, e)) =
        (save, saved, ap (λ (t : Tty). (tty_reset takes t).1) e ∙ (unfold tty_reset in refl))
    reset-calm s (inr (now, saved, state, busy, e)) = (
      old,
      saved,
      ap (λ (t : Tty). (tty_reset takes t).1) e
          ∙ (unfold tty_reset reset_set tcsetattr set_attr in rw (busy, takes_old)),
    )

    run-Keeps : (ops : List Op) (s : Tty) → Keeps old s → Keeps old (run ops s)
    run-Keeps [] s h = h
    run-Keeps (use_cbreak fd ∷ ops) s h =
        run-Keeps ops (tty_cbreak takes fd s).1 (cbreak-Keeps fd s h)
    run-Keeps (use_reset ∷ ops) s h = run-Keeps ops (tty_reset takes s).1 (inl (reset-calm s h))

    restored :
        (ops : List Op) (s : Tty) → Keeps old s → (tty_reset takes (run ops s)).1.settings ≡ old
    restored ops s h =
        let (save, fd, e) = reset-calm (run ops s) (run-Keeps ops s h) in
        ap (λ (t : Tty). t.settings) e

    -- If no call fails, the terminal takes the settings that it had when asked for them, and the mode is
    -- the reset one: after any calls of `tty_cbreak` and `tty_reset`, whatever the terminal makes of the
    -- other settings, a last `tty_reset` gives the terminal the settings that it had.
    tty_reset-run :
        (save : Termios) (saved : Option ℕ) (ops : List Op)
        → (tty_reset takes (run ops (calm old save saved reset))).1.settings ≡ old
    tty_reset-run save saved ops =
        restored ops (calm old save saved reset) (inl (save, saved, refl))

    -- If no call fails, the terminal takes the settings that it had when asked for them, and the mode is
    -- the reset one: after `tty_raw` and then any calls of `tty_cbreak` and `tty_reset`, a last
    -- `tty_reset` gives the terminal the settings that it had.
    tty_reset-run_raw :
        (save : Termios) (saved : Option ℕ) (fd : ℕ) (ops : List Op)
        → (tty_reset takes (run ops (tty_raw takes fd (calm old save saved reset)).1)).1.settings
          ≡ old
    tty_reset-run_raw save saved fd ops =
        restored ops (tty_raw takes fd (calm old save saved reset)).1 (
          inr (
            takes (with_raw old),
            some fd,
            raw,
            refl,
            unfold tty_raw raw_set raw_read tcgetattr get_attr tcsetattr set_attr in refl,
          ))
