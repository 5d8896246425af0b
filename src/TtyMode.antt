-- ===== src/TtyMode.antt =====
-- noncanonical_mode.c: `tty_cbreak`, `tty_raw`, `tty_reset`, `tty_atexit` on one terminal.
pub mod Restore
pub mod Main
mod Witnesses
use personal_project.Common.{
  ℕ, Bool, true, false, not, ◌&&◌, ◌||◌, Option, none, some, List, [], ◌∷◌, ◌==◌, if◌then◌else◌,
}
use personal_project.Decimal.{ℤ, pos, negsuc}
use personal_project.Posix.{next_fault, later_faults}

-- `struct termios`: the settings that the code changes, and all others as a number.
pub record Termios : Type 0 where
  pub echo : Bool
  pub icanon : Bool
  pub iexten : Bool
  pub isig : Bool
  pub brkint : Bool
  pub icrnl : Bool
  pub inpck : Bool
  pub istrip : Bool
  pub ixon : Bool
  pub csize : ℕ
  pub parenb : Bool
  pub opost : Bool
  pub vmin : ℕ
  pub vtime : ℕ
  pub others : ℕ

pub data TtyState : Type 0 where
  reset raw cbreak : TtyState

-- The terminal's settings, the three static variables (`none` for the descriptor -1), and the outcomes
-- of the calls.
pub record Tty : Type 0 where
  pub settings : Termios
  pub save_termios : Termios
  pub ttysavefd : Option ℕ
  pub ttystate : TtyState
  pub faults : List Bool

abbrev pub is_reset : TtyState → Bool
is_reset reset = true
is_reset raw = false
is_reset cbreak = false

abbrev pub with_cbreak : Termios → Termios
with_cbreak t = record t { echo = false; icanon = false; vmin = 1; vtime = 0 }

-- `CS8`
abbrev pub cs8 : ℕ
cs8 = 48

abbrev pub with_raw : Termios → Termios
with_raw t = record t {
  echo = false;
  icanon = false;
  iexten = false;
  isig = false;
  brkint = false;
  icrnl = false;
  inpck = false;
  istrip = false;
  ixon = false;
  csize = cs8;
  parenb = false;
  opost = false;
  vmin = 1;
  vtime = 0;
}

-- Whether the terminal has not taken the settings of `tty_cbreak`.
abbrev pub not_cbreak : Termios → Bool
not_cbreak t = (t.echo || t.icanon) || (not (t.vmin == 1) || not (t.vtime == 0))

-- `tcgetattr`: the settings are read from the terminal.
get_attr : Bool → Tty → Option Termios × Tty
get_attr true s = (none, record s { faults = later_faults s.faults })
get_attr false s = (some s.settings, record s { faults = later_faults s.faults })

unfoldable pub tcgetattr : Tty → Option Termios × Tty
unfolding get_attr
tcgetattr s = get_attr (next_fault s.faults) s

-- `takes` gives the settings that the terminal has when it is asked for some: `tcsetattr` succeeds if
-- any of the changes could be made.
module _ (takes : Termios → Termios) where
  set_attr : Bool → Termios → Tty → Bool × Tty
  set_attr true t s = (false, record s { faults = later_faults s.faults })
  set_attr false t s = (true, record s { faults = later_faults s.faults; settings = takes t })

  unfoldable pub tcsetattr : Termios → Tty → Bool × Tty
  unfolding set_attr
  tcsetattr t s = set_attr (next_fault s.faults) t s

  -- The saved settings go back to the terminal, whether that succeeds or not.
  give_up : Tty → ℤ × Tty
  give_up s = (negsuc 0, (tcsetattr s.save_termios s).1)

  cbreak_checked : ℕ → Option Termios × Tty → ℤ × Tty
  cbreak_checked fd (none, s) = give_up s
  cbreak_checked fd (some t, s) =
      if not_cbreak t
      then give_up s
      else (pos 0, record s { ttystate = cbreak; ttysavefd = some fd })

  cbreak_set : ℕ → Bool × Tty → ℤ × Tty
  cbreak_set fd (false, s) = (negsuc 0, s)
  cbreak_set fd (true, s) = cbreak_checked fd (tcgetattr s)

  cbreak_read : ℕ → Option Termios × Tty → ℤ × Tty
  cbreak_read fd (none, s) = (negsuc 0, s)
  cbreak_read fd (some t, s) =
      cbreak_set fd (tcsetattr (with_cbreak t) (record s { save_termios = t }))

  unfoldable pub tty_cbreak : ℕ → Tty → ℤ × Tty
  unfolding give_up cbreak_checked cbreak_set cbreak_read
  tty_cbreak fd s = if is_reset s.ttystate then cbreak_read fd (tcgetattr s) else (negsuc 0, s)

  raw_set : ℕ → Bool × Tty → ℤ × Tty
  raw_set fd (false, s) = (negsuc 0, s)
  raw_set fd (true, s) = (pos 0, record s { ttystate = raw; ttysavefd = some fd })

  raw_read : ℕ → Option Termios × Tty → ℤ × Tty
  raw_read fd (none, s) = (negsuc 0, s)
  raw_read fd (some t, s) = raw_set fd (tcsetattr (with_raw t) (record s { save_termios = t }))

  -- The state is not looked at.
  unfoldable pub tty_raw : ℕ → Tty → ℤ × Tty
  unfolding raw_set raw_read
  tty_raw fd s = raw_read fd (tcgetattr s)

  reset_set : Bool × Tty → ℤ × Tty
  reset_set (false, s) = (negsuc 0, s)
  reset_set (true, s) = (pos 0, record s { ttystate = reset })

  unfoldable pub tty_reset : Tty → ℤ × Tty
  unfolding reset_set
  tty_reset s = if is_reset s.ttystate then (pos 0, s) else reset_set (tcsetattr s.save_termios s)

  unfoldable pub tty_atexit : Tty → Tty
  tty_atexit s = elim s.ttysavefd [ none ↦ s | some fd ↦ (tty_reset s).1 ]
