-- ===== src/Connections/Checks.antt =====
-- Whose user `serv_accept` stores.
use personal_project.Common.{
  ℕ, ◌+◌, ◌/◌, ◌%◌, ◌≡◌, refl, ◌∙◌, Bool, true, false, ◌&&◌, ◌||◌, Option, none, some, List, ◌∷◌,
  leb, ◌==◌, if◌then◌else◌, arith, ap, Bool-cases, inl, inr,
}
use personal_project.Decimal.{Bytes, ℤ}
use personal_project.Posix.{next_fault, later_faults}
use personal_project.Sockets.{Stat, Process, find, fd_call, fd_outcome, close-fds, unlink-fds}
use personal_project.Connections.{accept_peer, accept_stat, serv_accept, accept_socket}

-- A socket (0140000) which its user has all permissions for, and nobody else any (0700), and whose three
-- times are at most five seconds before `now`.
abbrev pub own_socket : ℕ → Stat → Bool
own_socket now s =
    s.mode / 4096 % 16 == 12
    && (s.mode % 512 == 448
        && (leb now (s.atime + 5) && (leb now (s.ctime + 5) && leb now (s.mtime + 5))))

abbrev pub peer_user : ℕ → Option Stat → Option ℕ
peer_user now none = none
peer_user now (some s) = if own_socket now s then some s.uid else none

-- The user of the peer's file, where `accept` and `stat`, the first two calls, succeed.
abbrev pub user_of : Bytes → Process → Option ℕ
user_of peer p =
    if next_fault p.faults || next_fault (later_faults p.faults)
    then none
    else peer_user p.clock (find peer p.files)

abbrev pub fds_with : Option ℕ → ℕ → List ℕ → List ℕ
fds_with none new old = old
fds_with (some u) new old = new ∷ old

-- A result stores this user, and leaves the new descriptor open exactly if there is one.
abbrev Stores : Option ℕ → ℕ → List ℕ → (ℤ × Option ℕ) × Process → Type 0
Stores user new old r = (r.0.1 ≡ user) × (r.1.fds ≡ fds_with user new old)

accept_peer-user :
    (peer : Bytes) (fd : ℕ) (s : Stat) (p : Process)
    → (accept_peer peer fd s p).0.1 ≡ peer_user p.clock (some s)
unfolding accept_peer
accept_peer-user peer fd s p = ground arith

accept_peer-fds :
    (peer : Bytes) (fd : ℕ) (s : Stat) (p : Process) (old : List ℕ)
    → p.fds ≡ fd ∷ old
    → (accept_peer peer fd s p).1.fds ≡ fds_with (accept_peer peer fd s p).0.1 fd old
unfolding accept_peer
accept_peer-fds peer fd s p old e = ground (arith, close-fds fd old p e, unlink-fds peer p, e)

accept_peer-Stores :
    (peer : Bytes) (fd : ℕ) (s : Stat) (p : Process) (old : List ℕ)
    → p.fds ≡ fd ∷ old
    → Stores (peer_user p.clock (some s)) fd old (accept_peer peer fd s p)
accept_peer-Stores peer fd s p old e =
    let user = accept_peer-user peer fd s p in
    (user, accept_peer-fds peer fd s p old e ∙ ap (λ o. fds_with o fd old) user)

accept_stat-Stores :
    (peer : Bytes) (fd : ℕ) (o : Option Stat) (fails : Bool) (p : Process) (old : List ℕ)
    → p.fds ≡ fd ∷ old
    → Stores (if fails then none else peer_user p.clock o) fd old (accept_stat peer fd o fails p)
unfolding accept_stat
accept_stat-Stores peer fd (some s) false p old e = accept_peer-Stores peer fd s p old e
accept_stat-Stores peer fd (some s) true p old e = (refl, close-fds fd old p e)
accept_stat-Stores peer fd none false p old e = (refl, close-fds fd old p e)
accept_stat-Stores peer fd none true p old e = (refl, close-fds fd old p e)

-- Whichever calls fail: `serv_accept` stores the user of the peer's file exactly if its first two calls
-- succeed, the file is a socket which its user has all permissions for and nobody else any, and its
-- three times are at most five seconds old; in every other case it stores no user and leaves no new
-- descriptor open.
pub serv_accept-user :
    (peer : Bytes) (p : Process)
    → ((serv_accept peer p).0.1 ≡ user_of peer p)
      × ((serv_accept peer p).1.fds ≡ fds_with (user_of peer p) p.new_fd p.fds)
unfolding serv_accept accept_socket fd_call fd_outcome
serv_accept-user peer p = elim (Bool-cases (next_fault p.faults)) [
  | inl fails ↦ rw fails (refl, refl)
  | inr accepts ↦ rw accepts (
      accept_stat-Stores peer p.new_fd (find peer p.files) (next_fault (later_faults p.faults)) _
        p.fds refl)
]
