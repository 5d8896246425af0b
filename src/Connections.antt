-- ===== src/Connections.antt =====
-- unique_connections.c: `serv_listen`, `serv_accept`, `cli_conn`.
pub mod Descriptors
pub mod Checks
pub mod Meeting
mod Witnesses
use personal_project.Common.{
  ℕ, zero, suc, ◌+◌, ◌-◌, ◌*◌, ◌/◌, ◌%◌, Bool, true, false, not, ◌&&◌, ◌||◌, Option, none, some,
  List, [], ◌∷◌, ◌++◌, ltb, ◌==◌, if◌then◌else◌, length, replicate, equal_bytes,
}
use personal_project.Decimal.{Bytes, ℤ, pos, negsuc, decimal}
use personal_project.Posix.{next_fault, later_faults}
use personal_project.Sockets.{
  Stat, Process, find, close, plain_call, fd_call, unlink, bind, chmod, irwxu,
}

-- `errout`: the descriptor is closed.
unfoldable pub errout : ℕ → ℤ → Process → ℤ × Process
errout fd rval p = (rval, close fd p)

listen_bound : ℕ → Bool × Process → ℤ × Process
listen_bound fd (false, p) = errout fd (negsuc 4) p
listen_bound fd (true, p) = (pos fd, p)

listen_named : ℕ → Bool × Process → ℤ × Process
listen_named fd (false, p) = errout fd (negsuc 3) p
listen_named fd (true, p) = listen_bound fd (plain_call p)

-- Whether `strcpy` of a name, with its terminator, stays within `sun_path`, which has 108 bytes.
abbrev pub fits_path : Bytes → Bool
fits_path name = ltb (length name) 108

-- Where the name cannot be removed, the descriptor is left open. `none` is a name that `strcpy` writes
-- past `sun_path`, so that nothing is known of what follows.
listen_unlinked : Bytes → ℕ → Bool × Process → Option (ℤ × Process)
listen_unlinked name fd (false, p) = some (negsuc 2, p)
listen_unlinked name fd (true, p) =
    if fits_path name then some (listen_named fd (bind name p)) else none

listen_socket : Bytes → Option ℕ × Process → Option (ℤ × Process)
listen_socket name (none, p) = some (negsuc 1, p)
listen_socket name (some fd, p) = listen_unlinked name fd (unlink name p)

unfoldable pub serv_listen : Option Bytes → Process → Option (ℤ × Process)
unfolding listen_bound listen_named listen_unlinked listen_socket
serv_listen none p = some (negsuc 0, p)
serv_listen (some name) p = listen_socket name (fd_call p)

abbrev pub stale : ℕ
stale = 5

-- `S_ISSOCK(mode)`
abbrev pub is_socket : ℕ → Bool
is_socket mode = mode / 4096 % 16 == 12

-- The user has all permissions, the group and the others none.
abbrev pub private_mode : ℕ → Bool
private_mode mode = mode % 64 == 0 && mode / 64 % 8 == 7

-- `staletime` is `now - STALE`.
abbrev pub is_stale : ℕ → Stat → Bool
is_stale now s =
    ltb (s.atime + stale) now || (ltb (s.ctime + stale) now || ltb (s.mtime + stale) now)

-- The result, and the user that is stored in `uidptr`.
accept_peer : Bytes → ℕ → Stat → Process → (ℤ × Option ℕ) × Process
accept_peer peer fd s p =
    if not (is_socket s.mode)
    then ((negsuc 1, none), close fd p)
    else if not (private_mode s.mode)
    then ((negsuc 2, none), close fd p)
    else if is_stale p.clock s
    then ((negsuc 3, none), close fd p)
    else ((pos fd, some s.uid), (unlink peer p).1)

accept_stat : Bytes → ℕ → Option Stat → Bool → Process → (ℤ × Option ℕ) × Process
accept_stat peer fd (some s) false p = accept_peer peer fd s p
accept_stat peer fd _ _ p = ((negsuc 0, none), close fd p)

accept_socket : Bytes → Option ℕ × Process → (ℤ × Option ℕ) × Process
accept_socket peer (none, p) = ((pos 1, none), p)
accept_socket peer (some fd, p) =
    accept_stat peer fd (find peer p.files) (next_fault p.faults)
      (record p { faults = later_faults p.faults })

-- `peer` is the name that `accept` gives for the other end.
unfoldable pub serv_accept : Bytes → Process → (ℤ × Option ℕ) × Process
unfolding accept_peer accept_stat accept_socket
serv_accept peer p = accept_socket peer (fd_call p)

-- `%s%05d` of `CLI_PATH` and a process number
unfoldable pub cli_path : ℕ → Bytes
cli_path pid =
    (b'/' ∷ b't' ∷ b'm' ∷ b'p' ∷ b'/' ∷ b's' ∷ b'o' ∷ b'c' ∷ b'k' ∷ [])
    ++ (replicate (5 - length (decimal pid)) b'0' ++ decimal pid)

cli_connected : ℕ → Bool × Process → ℤ × Process
cli_connected fd (false, p) = errout fd (negsuc 4) p
cli_connected fd (true, p) = (pos fd, p)

-- The result of `chmod` is tested with `0 <`, and neither 0 nor -1 is greater than 0.
-- The server's name is then copied, as above.
cli_changed : Bytes → ℕ → Bool × Process → Option (ℤ × Process)
cli_changed name fd (_, p) = if fits_path name then some (cli_connected fd (plain_call p)) else none

cli_bound : Bytes → Bytes → ℕ → Bool × Process → Option (ℤ × Process)
cli_bound name path fd (false, p) = some (errout fd (negsuc 2) p)
cli_bound name path fd (true, p) = cli_changed name fd (chmod path irwxu p)

cli_socket : Bytes → Bytes → Option ℕ × Process → Option (ℤ × Process)
cli_socket name path (none, p) = some (negsuc 1, p)
cli_socket name path (some fd, p) = cli_bound name path fd (bind path (unlink path p).1)

unfoldable pub cli_conn : Option Bytes → Process → Option (ℤ × Process)
unfolding cli_connected cli_changed cli_bound cli_socket
cli_conn none p = some (negsuc 0, p)
cli_conn (some name) p = cli_socket name (cli_path p.pid) (fd_call p)
