-- ===== src/Pty/Descriptors.antt =====
-- The descriptors that `ptym_open` and `pty_fork` leave open.
use personal_project.Common.{
  ℕ, zero, suc, ◌≡◌, refl, ap, ◌∙◌, Bool, true, false, inl, inr, Bool-cases, Option, none, some,
  List, [], ◌∷◌, All, arith,
}
use personal_project.Decimal.{Bytes, ℤ, pos, negsuc}
use personal_project.Sockets.{without_fd}
use personal_project.Pty.{
  Process, next_answer, called, succeeds, opened, close, copy_name, name_master, unlock_master,
  grant_master, master_opened, ptym_open, ptys_open, has_fd, with_fd, is_answer, dup_onto,
  optional_call, Forked, not_opened, not_forked, in_parent, in_child, standard, after_dup,
  after_winsize, after_termios, child_opened, fork_child, fork_answered, master_answered, pty_fork,
}

-- One descriptor more if one is returned, and the same ones for an error.
abbrev pub Leaves : List ℕ → ℤ × Process → Type 0
Leaves old (pos fd, p) = p.fds ≡ fd ∷ old
Leaves old (negsuc n, p) = p.fds ≡ old

without_fd-first : (fd : ℕ) (old : List ℕ) → without_fd fd (fd ∷ old) ≡ old
unfolding without_fd
without_fd-first fd old = ground arith

module _ (old : List ℕ) (fdm : ℕ) where
  closed : (p : Process) → p.fds ≡ fdm ∷ old → (close fdm (called p)).fds ≡ old
  closed p h = ap (without_fd fdm) h ∙ without_fd-first fdm old

  name_master-Leaves : (p : Process) → p.fds ≡ fdm ∷ old → Leaves old (name_master fdm p)
  unfolding name_master
  name_master-Leaves p h = elim (Bool-cases (succeeds p)) [
    | inl e ↦ rw e h
    | inr e ↦ rw e (closed p h)
  ]

  unlock_master-Leaves : (p : Process) → p.fds ≡ fdm ∷ old → Leaves old (unlock_master fdm p)
  unfolding unlock_master
  unlock_master-Leaves p h = elim (Bool-cases (succeeds p)) [
    | inl e ↦ rw e (name_master-Leaves (called p) h)
    | inr e ↦ rw e (closed p h)
  ]

  grant_master-Leaves : (p : Process) → p.fds ≡ fdm ∷ old → Leaves old (grant_master fdm p)
  unfolding grant_master
  grant_master-Leaves p h = elim (Bool-cases (succeeds p)) [
    | inl e ↦ rw e (unlock_master-Leaves (called p) h)
    | inr e ↦ rw e (closed p h)
  ]

master_opened-Leaves : (o : Option ℕ) (p : Process) → Leaves p.fds (master_opened o p)
unfolding master_opened
master_opened-Leaves none p = refl
master_opened-Leaves (some fdm) p = grant_master-Leaves p.fds fdm (opened fdm p) refl

-- ptym_open leaves the master open if it returns it, and no new descriptor on any error.
pub ptym_open-Leaves : (p : Process) → Leaves p.fds (ptym_open p)
unfolding ptym_open
ptym_open-Leaves p = master_opened-Leaves (next_answer p.answers) (called p)

has_fd-with_fd : (n m : ℕ) (fds : List ℕ) → has_fd n fds ≡ true → has_fd n (with_fd m fds) ≡ true
has_fd-with_fd n m fds h = ground arith

has_fd-with_fd_self : (n : ℕ) (fds : List ℕ) → has_fd n (with_fd n fds) ≡ true
has_fd-with_fd_self n fds = ground arith

-- The descriptors that are open, if the calls succeed.
abbrev pub HasAll : List ℕ → Bool × Process → Type 0
HasAll ns (true, p) = All (λ n. has_fd n p.fds ≡ true) ns
HasAll ns (false, p) = Unit

dup_onto-keeps :
    (n : ℕ) (ns : List ℕ) (p : Process) → has_fd n p.fds ≡ true → HasAll (n ∷ []) (dup_onto ns p)
unfolding dup_onto
dup_onto-keeps n [] p h = (h, tt)
dup_onto-keeps n (m ∷ ns) p h = elim (Bool-cases (is_answer m (next_answer p.answers))) [
  | inl e ↦
      rw (dup_onto, e)
        (dup_onto-keeps n ns (record (called p) { fds = with_fd m p.fds })
          (has_fd-with_fd n m p.fds h))
  | inr e ↦ rw (dup_onto, e) tt
]

both :
    (n : ℕ) (ns : List ℕ) (r : Bool × Process) → HasAll (n ∷ []) r → HasAll ns r → HasAll (n ∷ ns) r
both n ns (true, p) h k = (h.0, k)
both n ns (false, p) h k = tt

dup_onto-HasAll : (ns : List ℕ) (p : Process) → HasAll ns (dup_onto ns p)
unfolding dup_onto
dup_onto-HasAll [] p = tt
dup_onto-HasAll (n ∷ ns) p = elim (Bool-cases (is_answer n (next_answer p.answers))) [
  | inl e ↦
      let q = record (called p) { fds = with_fd n p.fds } in
      rw (dup_onto, e)
        (both n ns (dup_onto ns q) (dup_onto-keeps n ns q (has_fd-with_fd_self n p.fds))
          (dup_onto-HasAll ns q))
  | inr e ↦ rw (dup_onto, e) tt
]

-- What is open where `pty_fork` returns, by what was open before.
abbrev pub Accounts : List ℕ → Forked → Type 0
Accounts old (not_opened q) = q.fds ≡ old
Accounts old (not_forked q) = (fdm : ℕ) × (q.fds ≡ fdm ∷ old)
Accounts old (in_parent pid fdm q) = q.fds ≡ fdm ∷ old
Accounts old (in_child ok q) = HasAll standard (ok, q)

module _ (old : List ℕ) where
  after_dup-Accounts : (r : Bool × Process) → HasAll standard r → Accounts old (after_dup r)
  unfolding after_dup
  after_dup-Accounts (ok, p) h = h

  after_winsize-Accounts : (r : Bool × Process) → Accounts old (after_winsize r)
  unfolding after_winsize
  after_winsize-Accounts (false, p) = tt
  after_winsize-Accounts (true, p) =
      after_dup-Accounts (dup_onto standard p) (dup_onto-HasAll standard p)

  module _ (some_termios some_winsize : Bool) where
    after_termios-Accounts :
        (r : Bool × Process) → Accounts old (after_termios some_termios some_winsize r)
    unfolding after_termios
    after_termios-Accounts (false, p) = tt
    after_termios-Accounts (true, p) = after_winsize-Accounts (optional_call some_winsize p)

    child_opened-Accounts :
        (fdm : ℕ) (r : ℤ × Process) → Accounts old (child_opened some_termios some_winsize fdm r)
    unfolding child_opened
    child_opened-Accounts fdm (negsuc n, p) = tt
    child_opened-Accounts fdm (pos fds, p) =
        after_termios-Accounts (optional_call some_termios (close fdm p))

    fork_child-Accounts :
        (fdm : ℕ) (name : Bytes) (p : Process)
        → Accounts old (fork_child some_termios some_winsize fdm name p)
    unfolding fork_child
    fork_child-Accounts fdm name p = elim (Bool-cases (succeeds p)) [
      | inl e ↦ rw e (child_opened-Accounts fdm (ptys_open name (called p)))
      | inr e ↦ rw e tt
    ]

    fork_answered-Accounts :
        (fdm : ℕ) (name : Bytes) (o : Option ℕ) (p : Process)
        → p.fds ≡ fdm ∷ old
        → Accounts old (fork_answered some_termios some_winsize fdm name o p)
    unfolding fork_answered
    fork_answered-Accounts fdm name none p h = (fdm, h)
    fork_answered-Accounts fdm name (some zero) p h = fork_child-Accounts fdm name p
    fork_answered-Accounts fdm name (some (suc n)) p h = h

    master_answered-Accounts :
        (name : Bytes) (r : ℤ × Process)
        → Leaves old r
        → Accounts old (master_answered some_termios some_winsize name r)
    unfolding master_answered
    master_answered-Accounts name (negsuc n, p) h = h
    master_answered-Accounts name (pos fdm, p) h =
        fork_answered-Accounts fdm name (next_answer p.answers) (called p) h

-- Whatever the calls return: if the master cannot be opened, pty_fork leaves no new descriptor open; in
-- the parent, and also if fork fails, the master is open; a child that returns 0 has 0, 1 and 2 open.
pub pty_fork-Accounts :
    (some_termios some_winsize : Bool) (ptsname : Bytes) (p : Process)
    → Accounts p.fds (pty_fork some_termios some_winsize ptsname p)
unfolding pty_fork
pty_fork-Accounts some_termios some_winsize ptsname p =
    master_answered-Accounts p.fds some_termios some_winsize (copy_name 20 ptsname) (ptym_open p)
      (ptym_open-Leaves p)
