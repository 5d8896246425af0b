-- ===== src/Pty/Copies.antt =====
-- What the loop copies in each direction, and how the program ends.
use personal_project.Common.{
  ℕ, ◌≡◌, refl, sym, ap, ◌∙◌, Bool, true, false, ◌&&◌, inl, inr, Bool-cases, Option, none, some,
  List, [], ◌∷◌, ◌++◌, append-nil, append_assoc,
}
use personal_project.Decimal.{Bytes}
use personal_project.Pty.{
  Process, succeeds, called, Forked, not_opened, not_forked, in_parent, in_child, pty_fork,
}
use personal_project.Pty.Main.{
  Flags, default_flags, parse_flags, Input, read_failed, bytes, Turn, Copied, Relay, waiting,
  exited, noecho_calls, copy_side, copy_back, turn, loop_one_process, Ending, status, relayed,
  after_fork, start_program, with_flags, main,
}

abbrev pub read_of : Option Input → Bytes
read_of (some (bytes s)) = s
read_of _ = []

-- All that there is to read from the terminal, and from the program.
abbrev pub typed : List Turn → Bytes
typed [] = []
typed (t ∷ rest) = read_of t.from_stdin ++ typed rest

abbrev pub shown : List Turn → Bytes
shown [] = []
shown (t ∷ rest) = read_of t.from_ptym ++ shown rest

-- One direction: all of what was read, or nothing.
abbrev Sided : Bytes → Bytes → Bool × Bytes → Type 0
Sided out read (true, o) = o ≡ out ++ read
Sided out read (false, o) = o ≡ out

copy_side-Sided :
    (i : Option Input) (wrote : Bool) (out : Bytes) → Sided out (read_of i) (copy_side i wrote out)
copy_side-Sided none wrote out = sym (append-nil out)
copy_side-Sided (some read_failed) wrote out = refl
copy_side-Sided (some (bytes [])) wrote out = refl
copy_side-Sided (some (bytes (c ∷ s))) true out = refl
copy_side-Sided (some (bytes (c ∷ s))) false out = refl

-- What was written begins what there is.
abbrev pub Begins : Bytes → Bytes → Type 0
Begins written all = (u : Bytes) × (all ≡ written ++ u)

abbrev Turned : Turn → Copied → Bool × Copied → Type 0
Turned t c (true, d) =
    (d.to_ptym ≡ c.to_ptym ++ read_of t.from_stdin)
    × (d.to_stdout ≡ c.to_stdout ++ read_of t.from_ptym)
Turned t c (false, d) =
    Begins d.to_ptym (c.to_ptym ++ read_of t.from_stdin)
    × Begins d.to_stdout (c.to_stdout ++ read_of t.from_ptym)

back-Turned :
    (t : Turn) (c : Copied) (out : Bytes) (r : Bool × Bytes)
    → out ≡ c.to_ptym ++ read_of t.from_stdin
    → Sided c.to_stdout (read_of t.from_ptym) r
    → Turned t c (r.0, record { to_ptym = out; to_stdout = r.1 })
back-Turned t c out (true, o) e f = (e, f)
back-Turned t c out (false, o) e f = (
  ([], sym e ∙ sym (append-nil out)),
  (read_of t.from_ptym, ap (λ b. b ++ read_of t.from_ptym) (sym f)),
)

copy_back-Turned :
    (t : Turn) (c : Copied) (r : Bool × Bytes)
    → Sided c.to_ptym (read_of t.from_stdin) r
    → Turned t c (copy_back t c r)
copy_back-Turned t c (true, out) e =
    back-Turned t c out (copy_side t.from_ptym t.wrote_stdout c.to_stdout) e
      (copy_side-Sided t.from_ptym t.wrote_stdout c.to_stdout)
copy_back-Turned t c (false, out) e = (
  (read_of t.from_stdin, ap (λ b. b ++ read_of t.from_stdin) (sym e)),
  (read_of t.from_ptym, refl),
)

turn-Turned : (t : Turn) (c : Copied) → Turned t c (turn t c)
turn-Turned t c = elim (Bool-cases t.selected) [
  | inl e ↦ rw e (
      copy_back-Turned t c (copy_side t.from_stdin t.wrote_ptym c.to_ptym)
        (copy_side-Sided t.from_stdin t.wrote_ptym c.to_ptym))
  | inr e ↦ rw e ((read_of t.from_stdin, refl), (read_of t.from_ptym, refl))
]

-- All is written while the loop waits, and a first part of it where the program has exited.
abbrev pub Relays : List Turn → Copied → Relay → Type 0
Relays turns c (waiting d) =
    (d.to_ptym ≡ c.to_ptym ++ typed turns) × (d.to_stdout ≡ c.to_stdout ++ shown turns)
Relays turns c (exited d) =
    Begins d.to_ptym (c.to_ptym ++ typed turns) × Begins d.to_stdout (c.to_stdout ++ shown turns)

later : (a b d rest all : Bytes) → Begins d (a ++ b) → all ≡ b ++ rest → Begins d (a ++ all)
later a b d rest all (u, e) f = (
  u ++ rest,
  ap (λ x. a ++ x) f ∙ sym (append_assoc a b rest) ∙ ap (λ x. x ++ rest) e ∙ append_assoc d u rest,
)

then_Relays :
    (t : Turn) (rest : List Turn) (c d : Copied) (r : Relay)
    → Turned t c (true, d)
    → Relays rest d r
    → Relays (t ∷ rest) c r
then_Relays t rest c d (waiting x) e h = (
  h.0 ∙ ap (λ b. b ++ typed rest) e.0 ∙ append_assoc c.to_ptym (read_of t.from_stdin) (typed rest),
  h.1 ∙ ap (λ b. b ++ shown rest) e.1 ∙ append_assoc c.to_stdout (read_of t.from_ptym) (shown rest),
)
then_Relays t rest c d (exited x) e h = (
  (
    h.0.0,
    sym (append_assoc c.to_ptym (read_of t.from_stdin) (typed rest))
        ∙ ap (λ b. b ++ typed rest) (sym e.0)
        ∙ h.0.1,
  ),
  (
    h.1.0,
    sym (append_assoc c.to_stdout (read_of t.from_ptym) (shown rest))
        ∙ ap (λ b. b ++ shown rest) (sym e.1)
        ∙ h.1.1,
  ),
)

Turned-Relays :
    (t : Turn) (rest : List Turn) (c : Copied)
    → ((d : Copied) → Relays rest d (loop_one_process rest d))
    → (r : Bool × Copied) → Turned t c r
    → Relays (t ∷ rest) c (elim r.0 [ true ↦ loop_one_process rest r.1 | false ↦ exited r.1 ])
Turned-Relays t rest c ih (true, d) e = then_Relays t rest c d (loop_one_process rest d) e (ih d)
Turned-Relays t rest c ih (false, d) e = (
  later c.to_ptym (read_of t.from_stdin) d.to_ptym (typed rest) (typed (t ∷ rest)) e.0 refl,
  later c.to_stdout (read_of t.from_ptym) d.to_stdout (shown rest) (shown (t ∷ rest)) e.1 refl,
)

-- In each direction loop_one_process writes what it reads, in its order: all of it while it waits, and a
-- first part of it where it has ended.
pub loop_one_process-Relays :
    (turns : List Turn) (c : Copied) → Relays turns c (loop_one_process turns c)
unfolding loop_one_process
loop_one_process-Relays [] c = (sym (append-nil c.to_ptym), sym (append-nil c.to_stdout))
loop_one_process-Relays (t ∷ rest) c =
    Turned-Relays t rest c (λ d. loop_one_process-Relays rest d) (turn t c) (turn-Turned t c)

-- Where the program exits itself, it exits with EXIT_FAILURE.
abbrev pub IsFailure : Ending → Type 0
IsFailure (status n) = n ≡ 1
IsFailure _ = Unit

relayed-IsFailure : (r : Relay) → IsFailure (relayed r)
unfolding relayed
relayed-IsFailure (waiting c) = tt
relayed-IsFailure (exited c) = refl

after_fork-IsFailure :
    (f : Flags) (turns : List Turn) (k : Forked) → IsFailure (after_fork f turns k)
unfolding after_fork
after_fork-IsFailure f turns (not_opened p) = refl
after_fork-IsFailure f turns (not_forked p) = refl
after_fork-IsFailure f turns (in_child false p) = refl
after_fork-IsFailure f turns (in_child true p) =
    elim (Bool-cases (succeeds (noecho_calls f.noecho p))) [ inl e ↦ rw e tt | inr e ↦ rw e refl ]
after_fork-IsFailure f turns (in_parent pid fdm p) =
    relayed-IsFailure (loop_one_process turns (record { to_ptym = []; to_stdout = [] }))

start_program-IsFailure :
    (f : Flags) (turns : List Turn) (ptsname : Bytes) (p : Process)
    → IsFailure (start_program f turns ptsname p)
unfolding start_program
start_program-IsFailure f turns ptsname p = elim (Bool-cases f.interactive) [
  | inl i ↦ elim (Bool-cases (succeeds p && succeeds (called p))) [
    | inl e ↦
        rw (i, e) (after_fork-IsFailure f turns (pty_fork true true ptsname (called (called p))))
    | inr e ↦ rw (i, e) refl
  ]
  | inr i ↦ rw i (after_fork-IsFailure f turns (pty_fork false false ptsname p))
]

with_flags-IsFailure :
    (has_program : Bool) (turns : List Turn) (ptsname : Bytes) (p : Process) (o : Option Flags)
    → IsFailure (with_flags has_program turns ptsname p o)
unfolding with_flags
with_flags-IsFailure has_program turns ptsname p none = refl
with_flags-IsFailure true turns ptsname p (some f) = start_program-IsFailure f turns ptsname p
with_flags-IsFailure false turns ptsname p (some f) = refl

-- Whatever the options and the calls give, my_pty ends with EXIT_FAILURE if it ends and is not replaced by
-- the program that it runs, also where the program has come to its end.
main-IsFailure :
    (is_tty : Bool) (options : List (ℕ × Bytes)) (has_program : Bool) (turns : List Turn)
    (ptsname : Bytes) (p : Process)
    → IsFailure (main is_tty options has_program turns ptsname p)
unfolding main
main-IsFailure is_tty options has_program turns ptsname p =
    with_flags-IsFailure has_program turns ptsname p (parse_flags options (default_flags is_tty))
