-- ===== src/Connections/Descriptors.antt =====
-- Which descriptors the three functions leave open.
use personal_project.Common.{
  length, ◌≤◌, ltb→ge, Bool-cases, inl, inr, ℕ, ◌≡◌, refl, sym, ◌∙◌, Bool, true, false, Option,
  none, some, List, ◌∷◌, ◌==◌, if◌then◌else◌,
}
use mathlib.Core.Path.{subst}
use personal_project.Decimal.{Bytes, ℤ, pos, negsuc}
use personal_project.Sockets.{
  Process, Opens, close-fds, fd_call-Opens, unlink-fds, bind-fds, chmod-fds, fd_call, plain_call,
  unlink, bind, chmod, irwxu,
}
use personal_project.Connections.{
  errout, fits_path, listen_bound, listen_named, listen_unlinked, listen_socket, serv_listen,
  cli_connected, cli_changed, cli_bound, cli_socket, cli_conn, cli_path,
}

-- The open descriptors after a result: the new one is open where there is no error, and where the
-- error is one that keeps it.
abbrev pub fds_after : (ℕ → Bool) → ℤ → ℕ → List ℕ → List ℕ
fds_after leaks (pos fd) new old = new ∷ old
fds_after leaks (negsuc n) new old = if leaks n then new ∷ old else old

-- The result leaves these descriptors open; there is none only where the name is too long for `sun_path`.
abbrev pub Leaves : (ℕ → Bool) → ℕ → List ℕ → ℕ → Option (ℤ × Process) → Type 0
Leaves leaks new old size none = 108 ≤ size
Leaves leaks new old size (some r) = r.1.fds ≡ fds_after leaks r.0 new old

abbrev pub name_length : Option Bytes → ℕ
name_length none = 0
name_length (some name) = length name

if_fits :
    (leaks : ℕ → Bool) (new : ℕ) (old : List ℕ) (name : Bytes) (r : ℤ × Process)
    → r.1.fds ≡ fds_after leaks r.0 new old
    → Leaves leaks new old (length name) (if fits_path name then some r else none)
if_fits leaks new old name r h = elim (Bool-cases (fits_path name)) [
  | inl e ↦ rw e h
  | inr e ↦ rw e (ltb→ge (length name) 108 e)
]

-- -3, the result where the name cannot be removed.
abbrev pub is_unlink_error : ℕ → Bool
is_unlink_error n = n == 2

abbrev pub never : ℕ → Bool
never n = false

module _ (fd : ℕ) (old : List ℕ) where
  listen_bound-fds :
      (r : Bool × Process)
      → r.1.fds ≡ fd ∷ old
      → (listen_bound fd r).1.fds ≡ fds_after is_unlink_error (listen_bound fd r).0 fd old
  unfolding listen_bound errout
  listen_bound-fds (false, p) e = close-fds fd old p e
  listen_bound-fds (true, p) e = e

  listen_named-fds :
      (r : Bool × Process)
      → r.1.fds ≡ fd ∷ old
      → (listen_named fd r).1.fds ≡ fds_after is_unlink_error (listen_named fd r).0 fd old
  unfolding listen_named errout plain_call
  listen_named-fds (false, p) e = close-fds fd old p e
  listen_named-fds (true, p) e = listen_bound-fds (plain_call p) e

  listen_unlinked-fds :
      (name : Bytes) (r : Bool × Process)
      → r.1.fds ≡ fd ∷ old
      → Leaves is_unlink_error fd old (length name) (listen_unlinked name fd r)
  unfolding listen_unlinked
  listen_unlinked-fds name (false, p) e = e
  listen_unlinked-fds name (true, p) e =
      if_fits is_unlink_error fd old name (listen_named fd (bind name p))
        (listen_named-fds (bind name p) (bind-fds name p ∙ e))

  cli_connected-fds :
      (r : Bool × Process)
      → r.1.fds ≡ fd ∷ old
      → (cli_connected fd r).1.fds ≡ fds_after never (cli_connected fd r).0 fd old
  unfolding cli_connected errout
  cli_connected-fds (false, p) e = close-fds fd old p e
  cli_connected-fds (true, p) e = e

  cli_bound-fds :
      (name path : Bytes) (r : Bool × Process)
      → r.1.fds ≡ fd ∷ old
      → Leaves never fd old (length name) (cli_bound name path fd r)
  unfolding cli_bound errout cli_changed plain_call
  cli_bound-fds name path (false, p) e = close-fds fd old p e
  cli_bound-fds name path (true, p) e =
      if_fits never fd old name (cli_connected fd (plain_call (chmod path irwxu p).1))
        (cli_connected-fds (plain_call (chmod path irwxu p).1) (chmod-fds path irwxu p ∙ e))

listen_socket-fds :
    (name : Bytes) (new : ℕ) (old : List ℕ) (r : Option ℕ × Process)
    → Opens new old r
    → Leaves is_unlink_error new old (length name) (listen_socket name r)
unfolding listen_socket
listen_socket-fds name new old (none, p) e = e
listen_socket-fds name new old (some fd, p) (same, e) =
    subst
      (λ (fd : ℕ).
        Leaves is_unlink_error new old (length name) (listen_unlinked name fd (unlink name p)))
      (sym same) (listen_unlinked-fds new old name (unlink name p) (unlink-fds name p ∙ e))

cli_socket-fds :
    (name path : Bytes) (new : ℕ) (old : List ℕ) (r : Option ℕ × Process)
    → Opens new old r
    → Leaves never new old (length name) (cli_socket name path r)
unfolding cli_socket
cli_socket-fds name path new old (none, p) e = e
cli_socket-fds name path new old (some fd, p) (same, e) =
    subst
      (λ (fd : ℕ).
        Leaves never new old (length name) (cli_bound name path fd (bind path (unlink path p).1)))
      (sym same)
      (cli_bound-fds new old name path (bind path (unlink path p).1)
        (bind-fds path (unlink path p).1 ∙ unlink-fds path p ∙ e))

serv_listen-fds :
    (name : Option Bytes) (p : Process)
    → Leaves is_unlink_error p.new_fd p.fds (name_length name) (serv_listen name p)
unfolding serv_listen
serv_listen-fds none p = refl
serv_listen-fds (some name) p = listen_socket-fds name p.new_fd p.fds (fd_call p) (fd_call-Opens p)

cli_conn-fds :
    (name : Option Bytes) (p : Process)
    → Leaves never p.new_fd p.fds (name_length name) (cli_conn name p)
unfolding cli_conn
cli_conn-fds none p = refl
cli_conn-fds (some name) p =
    cli_socket-fds name (cli_path p.pid) p.new_fd p.fds (fd_call p) (fd_call-Opens p)

-- For any name and whichever calls fail: `cli_conn` leaves its descriptor open if it returns it, and has
-- closed it on every error; `serv_listen` leaves its descriptor open if it returns it, and if it returns -3
-- because the name cannot be removed, and has closed it on every other error. Only a name of 108 bytes or
-- more can be copied past `sun_path`, after which nothing is known.
pub socket-fds :
    (name : Option Bytes) (p : Process)
    → Leaves never p.new_fd p.fds (name_length name) (cli_conn name p)
      × Leaves is_unlink_error p.new_fd p.fds (name_length name) (serv_listen name p)
socket-fds name p = (cli_conn-fds name p, serv_listen-fds name p)
