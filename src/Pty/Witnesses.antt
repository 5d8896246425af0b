-- ===== src/Pty/Witnesses.antt =====
-- Runs of my_pty.c, and its theorems at them.
use personal_project.Common.{ℕ, ◌≡◌, refl, true, false, Option, none, some, List, [], ◌∷◌}
use personal_project.Decimal.{Bytes}
use personal_project.Sockets.{without_fd}
use personal_project.Pty.{Process, not_forked, in_child, pty_fork, ptym_open, ptys_open, dup_onto}
use personal_project.Pty.Main.{
  bytes, Turn, Copied, exited, loop_one_process, status, main, parse_flags,
}
use personal_project.Pty.Descriptors.{Accounts, pty_fork-Accounts}
use personal_project.Pty.Copies.{Relays, loop_one_process-Relays}

abbrev standard_open : List (Option ℕ) → Process
standard_open answers = record { fds = 0 ∷ 1 ∷ 2 ∷ []; answers = answers; names = [] }

abbrev name : Bytes
name = b'/' ∷ b'p' ∷ []

-- posix_openpt, grantpt, unlockpt, ptsname; fork fails.
abbrev no_fork : Process
no_fork = standard_open (some 3 ∷ some 0 ∷ some 0 ∷ some 0 ∷ none ∷ [])

pty_fork-Accounts_example : Accounts (0 ∷ 1 ∷ 2 ∷ []) (pty_fork true true name no_fork)
pty_fork-Accounts_example = pty_fork-Accounts true true name no_fork

-- The master stays open.
fork_leak :
    pty_fork true true name no_fork
    ≡ not_forked (record { fds = 3 ∷ 0 ∷ 1 ∷ 2 ∷ []; answers = []; names = [] })
unfolding pty_fork ptym_open
fork_leak = refl

-- In the child: setsid, open, and three calls of dup2. The slave's first descriptor stays open too.
child_run :
    pty_fork false false name (
      standard_open (
        some 3
        ∷ some 0
        ∷ some 0
        ∷ some 0
        ∷ some 0
        ∷ some 0
        ∷ some 4
        ∷ some 0
        ∷ some 1
        ∷ some 2
        ∷ []))
    ≡ in_child true (record { fds = 4 ∷ 0 ∷ 1 ∷ 2 ∷ []; answers = []; names = name ∷ [] })
unfolding pty_fork ptym_open ptys_open dup_onto without_fd
child_run = refl

abbrev typing : Turn
typing = record {
  selected = true;
  from_stdin = some (bytes (b'l' ∷ b's' ∷ []));
  wrote_ptym = true;
  from_ptym = some (bytes (b'l' ∷ []));
  wrote_stdout = true;
}

abbrev ending : Turn
ending = record {
  selected = true;
  from_stdin = none;
  wrote_ptym = true;
  from_ptym = some (bytes []);
  wrote_stdout = true;
}

abbrev nothing_yet : Copied
nothing_yet = record { to_ptym = []; to_stdout = [] }

loop_one_process-Relays_example :
    Relays (typing ∷ ending ∷ []) nothing_yet (loop_one_process (typing ∷ ending ∷ []) nothing_yet)
loop_one_process-Relays_example = loop_one_process-Relays (typing ∷ ending ∷ []) nothing_yet

loop_run :
    loop_one_process (typing ∷ ending ∷ []) nothing_yet
    ≡ exited (record { to_ptym = b'l' ∷ b's' ∷ []; to_stdout = b'l' ∷ [] })
unfolding loop_one_process
loop_run = refl

-- posix_openpt, grantpt, unlockpt, ptsname, and fork in the parent.
abbrev parent : Process
parent = standard_open (some 3 ∷ some 0 ∷ some 0 ∷ some 0 ∷ some 77 ∷ [])

main_run : main false ((b'v', []) ∷ []) true (typing ∷ ending ∷ []) name parent ≡ status 1
unfolding main parse_flags pty_fork ptym_open loop_one_process
main_run = refl
