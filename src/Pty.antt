-- ===== src/Pty.antt =====
-- my_pty.c: `ptym_open`, `ptys_open` and `pty_fork`, which pseudo_terminal.c has too.
pub mod Main
pub mod Descriptors
pub mod Copies
mod Witnesses
use personal_project.Common.{
  ℕ, zero, suc, ◌-◌, Bool, true, false, Option, none, some, List, [], ◌∷◌, ◌==◌, ◌||◌,
  if◌then◌else◌, take,
}
use personal_project.Decimal.{Bytes, ℤ, pos, negsuc}
use personal_project.Sockets.{without_fd}

-- A process: its open descriptors, what each of its next calls returns (`none` for a failure, which is
-- also where the list has ended), and the names that it has opened.
pub record Process : Type 0 where
  pub fds : List ℕ
  pub answers : List (Option ℕ)
  pub names : List Bytes

abbrev pub next_answer : List (Option ℕ) → Option ℕ
next_answer [] = none
next_answer (a ∷ r) = a

abbrev pub later_answers : List (Option ℕ) → List (Option ℕ)
later_answers [] = []
later_answers (a ∷ r) = r

abbrev pub called : Process → Process
called p = record p { answers = later_answers p.answers }

abbrev pub is_some : Option ℕ → Bool
is_some none = false
is_some (some n) = true

-- Whether the next call succeeds.
abbrev pub succeeds : Process → Bool
succeeds p = is_some (next_answer p.answers)

abbrev pub opened : ℕ → Process → Process
opened fd p = record p { fds = fd ∷ p.fds }

abbrev pub close : ℕ → Process → Process
close fd p = record p { fds = without_fd fd p.fds }

-- `strncpy` into a buffer whose last byte is then set to 0, as a text.
abbrev pub copy_name : ℕ → Bytes → Bytes
copy_name size name = take (size - 1) name

-- The three calls on the open master: the descriptor, or the number of the error.
name_master : ℕ → Process → ℤ × Process
name_master fdm p = if succeeds p then (pos fdm, called p) else (negsuc 3, close fdm (called p))

unlock_master : ℕ → Process → ℤ × Process
unfolding name_master
unlock_master fdm p =
    if succeeds p then name_master fdm (called p) else (negsuc 2, close fdm (called p))

grant_master : ℕ → Process → ℤ × Process
unfolding unlock_master
grant_master fdm p =
    if succeeds p then unlock_master fdm (called p) else (negsuc 1, close fdm (called p))

master_opened : Option ℕ → Process → ℤ × Process
unfolding grant_master
master_opened none p = (negsuc 0, p)
master_opened (some fdm) p = grant_master fdm (opened fdm p)

unfoldable pub ptym_open : Process → ℤ × Process
unfolding master_opened
ptym_open p = master_opened (next_answer p.answers) (called p)

slave_opened : Option ℕ → Process → ℤ × Process
slave_opened none p = (negsuc 4, p)
slave_opened (some fds) p = (pos fds, opened fds p)

unfoldable pub ptys_open : Bytes → Process → ℤ × Process
unfolding slave_opened
ptys_open pts_name p =
    slave_opened (next_answer p.answers) (record (called p) { names = pts_name ∷ p.names })

-- `dup2` onto a descriptor, which is then open.
abbrev pub has_fd : ℕ → List ℕ → Bool
has_fd fd [] = false
has_fd fd (x ∷ xs) = fd == x || has_fd fd xs

abbrev pub with_fd : ℕ → List ℕ → List ℕ
with_fd fd fds = if has_fd fd fds then fds else fd ∷ fds

abbrev pub is_answer : ℕ → Option ℕ → Bool
is_answer n none = false
is_answer n (some m) = n == m

unfoldable pub dup_onto : List ℕ → Process → Bool × Process
dup_onto [] p = (true, p)
dup_onto (n ∷ ns) p = elim (is_answer n (next_answer p.answers)) [
  | true ↦ dup_onto ns (record (called p) { fds = with_fd n p.fds })
  | false ↦ (false, called p)
]

-- A call that is made only for an argument that is no null pointer.
abbrev pub optional_call : Bool → Process → Bool × Process
optional_call false p = (true, p)
optional_call true p = (succeeds p, called p)

-- Where `pty_fork` returns: before there is a child, in the parent with the child's number and the
-- master's descriptor, or in the child, with 0 or an error.
pub data Forked : Type 0 where
  not_opened : Process → Forked
  not_forked : Process → Forked
  in_parent : ℕ → ℕ → Process → Forked
  in_child : Bool → Process → Forked

abbrev pub standard : List ℕ
standard = 0 ∷ 1 ∷ 2 ∷ []

after_dup : Bool × Process → Forked
after_dup (ok, p) = in_child ok p

after_winsize : Bool × Process → Forked
unfolding after_dup
after_winsize (false, p) = in_child false p
after_winsize (true, p) = after_dup (dup_onto standard p)

-- `some_termios` and `some_winsize` say whether these arguments are given.
module _ (some_termios some_winsize : Bool) where
  after_termios : Bool × Process → Forked
  unfolding after_winsize
  after_termios (false, p) = in_child false p
  after_termios (true, p) = after_winsize (optional_call some_winsize p)

  child_opened : ℕ → ℤ × Process → Forked
  unfolding after_termios
  child_opened fdm (negsuc n, p) = in_child false p
  child_opened fdm (pos fds, p) = after_termios (optional_call some_termios (close fdm p))

  fork_child : ℕ → Bytes → Process → Forked
  unfolding child_opened
  fork_child fdm pts_name p =
      if succeeds p
      then child_opened fdm (ptys_open pts_name (called p))
      else in_child false (called p)

  fork_answered : ℕ → Bytes → Option ℕ → Process → Forked
  unfolding fork_child
  fork_answered fdm pts_name none p = not_forked p
  fork_answered fdm pts_name (some zero) p = fork_child fdm pts_name p
  fork_answered fdm pts_name (some (suc n)) p = in_parent (suc n) fdm p

  master_answered : Bytes → ℤ × Process → Forked
  unfolding fork_answered
  master_answered pts_name (negsuc n, p) = not_opened p
  master_answered pts_name (pos fdm, p) =
      fork_answered fdm pts_name (next_answer p.answers) (called p)

  -- `ptsname` is what the call of this name gives; the buffer for it has 20 bytes.
  unfoldable pub pty_fork : Bytes → Process → Forked
  unfolding master_answered
  pty_fork ptsname p = master_answered (copy_name 20 ptsname) (ptym_open p)
