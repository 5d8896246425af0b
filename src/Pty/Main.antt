-- ===== src/Pty/Main.antt =====
-- `main` of my_pty.c with its options, and the loop that copies between the terminal and the program.
use personal_project.Common.{
  ℕ, Bool, true, false, ◌&&◌, Option, none, some, List, [], ◌∷◌, ◌++◌, ◌==◌, if◌then◌else◌,
}
use personal_project.Decimal.{Bytes}
use personal_project.Pty.{
  Process, called, succeeds, Forked, not_opened, not_forked, in_parent, in_child, pty_fork,
}

pub record Flags : Type 0 where
  pub interactive : Bool
  pub ignoreeof : Bool
  pub noecho : Bool
  pub verbose : Bool
  pub driver : Option Bytes

abbrev pub default_flags : Bool → Flags
default_flags is_tty = record {
  interactive = is_tty;
  ignoreeof = false;
  noecho = false;
  verbose = false;
  driver = none;
}

-- `none` for '?'.
abbrev pub set_flag : ℕ → Bytes → Flags → Option Flags
set_flag c optarg f =
    if c == b'd'
    then some (record f { driver = some optarg })
    else if c == b'e'
    then some (record f { noecho = true })
    else if c == b'i'
    then some (record f { ignoreeof = true })
    else if c == b'n'
    then some (record f { interactive = false })
    else if c == b'v'
    then some (record f { verbose = true })
    else if c == b'?'
    then none
    else some f

-- The loop over what `getopt` gives.
unfoldable pub parse_flags : List (ℕ × Bytes) → Flags → Option Flags
parse_flags [] f = some f
parse_flags ((c, optarg) ∷ rest) f = elim (set_flag c optarg f) [
  | none ↦ none
  | some g ↦ parse_flags rest g
]

-- What a call of `read` gives; no bytes are the end.
pub data Input : Type 0 where
  read_failed : Input
  bytes : Bytes → Input

-- One round of `select`: what is read from each side that is ready, and whether the write of it to the
-- other side writes all.
pub record Turn : Type 0 where
  pub selected : Bool
  pub from_stdin : Option Input
  pub wrote_ptym : Bool
  pub from_ptym : Option Input
  pub wrote_stdout : Bool

-- What was written to the master and to the standard output.
pub record Copied : Type 0 where
  pub to_ptym : Bytes
  pub to_stdout : Bytes

-- The loop waits, or the program has exited.
pub data Relay : Type 0 where
  waiting exited : Copied → Relay

-- One side: whether the loop goes on, and what was written. A write is whole or fails.
abbrev pub copy_side : Option Input → Bool → Bytes → Bool × Bytes
copy_side none wrote out = (true, out)
copy_side (some read_failed) wrote out = (false, out)
copy_side (some (bytes [])) wrote out = (false, out)
copy_side (some (bytes (c ∷ s))) true out = (true, out ++ c ∷ s)
copy_side (some (bytes (c ∷ s))) false out = (false, out)

-- The second side of a round, and whether the loop goes on.
abbrev pub copy_back : Turn → Copied → Bool × Bytes → Bool × Copied
copy_back t c (false, out) = (false, record c { to_ptym = out })
copy_back t c (true, out) =
    let back = copy_side t.from_ptym t.wrote_stdout c.to_stdout in
    (back.0, record { to_ptym = out; to_stdout = back.1 })

abbrev pub turn : Turn → Copied → Bool × Copied
turn t c =
    if t.selected then copy_back t c (copy_side t.from_stdin t.wrote_ptym c.to_ptym) else (false, c)

unfoldable pub loop_one_process : List Turn → Copied → Relay
loop_one_process [] c = waiting c
loop_one_process (t ∷ rest) c = elim ((turn t c).0) [
  | true ↦ loop_one_process rest (turn t c).1
  | false ↦ exited (turn t c).1
]

-- How `main` ends: with a status, or as another program; or it goes on copying.
pub data Ending : Type 0 where
  status : ℕ → Ending
  executed : Ending
  copying : Copied → Ending

-- `tcgetattr` and `tcsetattr` of `set_noecho`, whose failure ends only that function.
unfoldable pub noecho_calls : Bool → Process → Process
noecho_calls false p = p
noecho_calls true p = if succeeds p then called (called p) else called p

unfoldable pub relayed : Relay → Ending
relayed (waiting c) = copying c
relayed (exited c) = status 1

unfoldable pub after_fork : Flags → List Turn → Forked → Ending
unfolding relayed noecho_calls
after_fork f turns (not_opened p) = status 1
after_fork f turns (not_forked p) = status 1
after_fork f turns (in_child false p) = status 1
after_fork f turns (in_child true p) =
    if succeeds (noecho_calls f.noecho p) then executed else status 1
after_fork f turns (in_parent pid fdm p) =
    relayed (loop_one_process turns (record { to_ptym = []; to_stdout = [] }))

-- The settings and the size of the terminal are read if it is interactive.
unfoldable pub start_program : Flags → List Turn → Bytes → Process → Ending
unfolding after_fork
start_program f turns ptsname p =
    if f.interactive
    then (if succeeds p && succeeds (called p)
        then after_fork f turns (pty_fork true true ptsname (called (called p)))
        else status 1)
    else after_fork f turns (pty_fork false false ptsname p)

unfoldable pub with_flags : Bool → List Turn → Bytes → Process → Option Flags → Ending
unfolding start_program
with_flags has_program turns ptsname p none = status 1
with_flags has_program turns ptsname p (some f) =
    if has_program then start_program f turns ptsname p else status 1

-- `is_tty` says what `isatty` gives, and `has_program` whether a program follows the options.
unfoldable pub main : Bool → List (ℕ × Bytes) → Bool → List Turn → Bytes → Process → Ending
unfolding with_flags
main is_tty options has_program turns ptsname p =
    with_flags has_program turns ptsname p (parse_flags options (default_flags is_tty))
