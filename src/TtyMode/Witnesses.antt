-- ===== src/TtyMode/Witnesses.antt =====
-- The theorems on the terminal's modes at concrete inputs.
use personal_project.Common.{◌≡◌, refl, true, false, none, some, [], ◌∷◌}
use personal_project.Decimal.{pos}
use personal_project.TtyMode.{
  Termios, reset, Tty, tty_reset, tty_raw, tty_cbreak, tcgetattr, get_attr, tcsetattr, set_attr,
}
use personal_project.TtyMode.Main.{
  byte, signal, octal, raw_title, cbreak_title, signal_caught, ends, reading, main,
}
use personal_project.TtyMode.Main.Leaving.{Restores, main-Restores}
use personal_project.TtyMode.Restore.{calm}

abbrev usual : Termios
usual = record {
  echo = true;
  icanon = true;
  iexten = true;
  isig = true;
  brkint = true;
  icrnl = true;
  inpck = false;
  istrip = false;
  ixon = true;
  csize = 48;
  parenb = false;
  opost = true;
  vmin = 1;
  vtime = 0;
  others = 0;
}

abbrev takes_all : Termios → Termios
takes_all t = t

abbrev terminal : Tty
terminal = calm usual usual none reset

-- A byte and the DELETE in the raw mode, a byte in the cbreak mode, and a signal.
main-Restores_example :
    Restores usual
      (main takes_all (byte 65 ∷ byte 127 ∷ byte 66 ∷ signal ∷ []) (calm usual usual none reset))
main-Restores_example =
    main-Restores takes_all usual refl usual none (byte 65 ∷ byte 127 ∷ byte 66 ∷ signal ∷ [])

main_prints :
    main takes_all (byte 65 ∷ byte 127 ∷ byte 66 ∷ signal ∷ []) terminal
    ≡ ends
        (pos 0)
        (calm usual usual (some 0) reset)
        (raw_title ∷ octal 65 ∷ cbreak_title ∷ octal 66 ∷ signal_caught ∷ [])
unfolding main reading tty_raw tty_cbreak tty_reset tcgetattr get_attr tcsetattr set_attr
main_prints = refl
