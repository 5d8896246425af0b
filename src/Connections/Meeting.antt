-- ===== src/Connections/Meeting.antt =====
-- A client that connects and a server that accepts it, over the same files.
use personal_project.Common.{
  length, lt→ltb, ℕ, ◌+◌, ◌*◌, ◌/◌, ◌%◌, ◌≤◌, ◌<◌, ◌≡◌, ◌≢◌, refl, Bool, true, false, none, some,
  List, [], ◌∷◌, arith, equal_bytes_refl, eq→==,
}
use personal_project.Decimal.{Bytes, pos, negsuc}
use personal_project.Sockets.{
  Stat, Files, file, Process, find, remove, fd_call, plain_call, unlink, bind, chmod, set_mode,
  irwxu, close, without_fd, socket_type,
}
use personal_project.Connections.{
  cli_connected, cli_changed, cli_bound, cli_socket, cli_conn, cli_path, accept_peer, accept_stat,
  accept_socket, serv_accept, is_socket, private_mode, is_stale, stale,
}

find-head : (path : Bytes) (s : Stat) (fs : Files) → find path (file path s fs) ≡ some s
unfolding find
find-head path s fs = rw (equal_bytes_refl path)

remove-head : (path : Bytes) (s : Stat) (fs : Files) → remove path (file path s fs) ≡ fs
unfolding remove
remove-head path s fs = rw (equal_bytes_refl path)

set_mode-head :
    (path : Bytes) (perm now : ℕ) (s : Stat) (fs : Files)
    → set_mode path perm now (file path s fs)
      ≡ file path (record s { mode = s.mode / 512 * 512 + perm; ctime = now }) fs
unfolding set_mode
set_mode-head path perm now s fs = rw (equal_bytes_refl path)

-- A process whose calls all succeed.
abbrev pub server : ℕ → ℕ → ℕ → ℕ → ℕ → Files → List ℕ → Process
server fd perm user pid now files fds = record {
  files = files;
  fds = fds;
  new_fd = fd;
  new_perm = perm;
  user = user;
  pid = pid;
  clock = now;
  faults = [];
}

module _ (peer : Bytes) (files : Files) (fds : List ℕ) (fd perm user pid now : ℕ) where
  abbrev listening : Files → List ℕ → Process
  listening = server fd perm user pid now

  serv_accept-ok :
      (s : Stat)
      → is_socket s.mode ≡ true
      → private_mode s.mode ≡ true
      → is_stale now s ≡ false
      → serv_accept peer (listening (file peer s files) fds)
        ≡ ((pos fd, some s.uid), listening files (fd ∷ fds))
  unfolding serv_accept accept_socket accept_stat accept_peer fd_call unlink
  serv_accept-ok s is_sock is_private recent =
      rw (find-head, is_sock, is_private, recent, find-head, remove-head)

  serv_accept-open_mode :
      (s : Stat)
      → is_socket s.mode ≡ true
      → private_mode s.mode ≡ false
      → serv_accept peer (listening (file peer s files) fds)
        ≡ ((negsuc 2, none), listening (file peer s files) fds)
  unfolding serv_accept accept_socket accept_stat accept_peer fd_call close without_fd
  serv_accept-open_mode s is_sock is_open = rw (find-head, is_sock, is_open, eq→== fd fd refl)

-- Calls that all succeed but, if so marked, the fourth: the client's `chmod`.
abbrev pub chmod_outcome : Bool → List Bool
chmod_outcome fails = false ∷ false ∷ false ∷ fails ∷ []

abbrev pub client : Files → List ℕ → ℕ → ℕ → ℕ → ℕ → ℕ → Bool → Process
client files fds fd perm user pid now fails = record {
  files = files;
  fds = fds;
  new_fd = fd;
  new_perm = perm;
  user = user;
  pid = pid;
  clock = now;
  faults = chmod_outcome fails;
}

module _ (files : Files) (fds : List ℕ) (fd perm user pid now : ℕ)
    (fresh : find (cli_path pid) files ≡ none) where
  abbrev pub connecting : Bool → Process
  connecting = client files fds fd perm user pid now

  abbrev made : ℕ → Files
  made mode =
      file (cli_path pid)
        (record { mode = mode; uid = user; atime = now; mtime = now; ctime = now }) files

  abbrev connected : ℕ → Process
  connected mode = record {
    files = made mode;
    fds = fd ∷ fds;
    new_fd = fd;
    new_perm = perm;
    user = user;
    pid = pid;
    clock = now;
    faults = [];
  }

  cli_conn-ok :
      (name : Bytes)
      → length name < 108
      → cli_conn (some name) (connecting false)
        ≡ some (pos fd, connected ((socket_type + perm) / 512 * 512 + irwxu))
  unfolding cli_conn cli_socket cli_bound cli_changed cli_connected fd_call unlink bind chmod
      plain_call
  cli_conn-ok name short =
      rw (fresh, fresh, lt→ltb (length name) 108 short, find-head, set_mode-head)

  cli_conn-chmod_fails :
      (name : Bytes)
      → length name < 108
      → cli_conn (some name) (connecting true) ≡ some (pos fd, connected (socket_type + perm))
  unfolding cli_conn cli_socket cli_bound cli_changed cli_connected fd_call unlink bind chmod
      plain_call
  cli_conn-chmod_fails name short = rw (fresh, fresh, lt→ltb (length name) 108 short)

  module _ (sfds : List ℕ) (sfd sperm suser spid later : ℕ) where
    abbrev pub waiting : Files → Process
    waiting fs = server sfd sperm suser spid later fs sfds

    -- A client whose calls all succeed connects; a server that accepts it within five seconds gets a
    -- new descriptor and the client's user, and removes the file that the client has made. The client's
    -- own name is not in use before, its `umask` leaves permission bits only, and the server's name fits
    -- `sun_path`.
    pub cli_conn-serv_accept :
        (name : Bytes)
        → length name < 108
        → perm < 512
        → now ≤ later
        → later ≤ now + stale
        → (p : Process) × (cli_conn (some name) (connecting false) ≡ some (pos fd, p))
          × (serv_accept (cli_path pid) (waiting p.files)
              ≡ ((pos sfd, some user), server sfd sperm suser spid later files (sfd ∷ sfds)))
    cli_conn-serv_accept name short is_perm after soon = (
      connected ((socket_type + perm) / 512 * 512 + irwxu),
      cli_conn-ok name short,
      serv_accept-ok (cli_path pid) files sfds sfd sperm suser spid later
          (record {
            mode = (socket_type + perm) / 512 * 512 + irwxu;
            uid = user;
            atime = now;
            mtime = now;
            ctime = now;
          })
          (ground arith) (ground arith) (ground arith),
    )

    -- If only the client's `chmod` fails, and its `umask` leaves a permission to the group or to
    -- others, the client still returns a descriptor; the server refuses it with -3 and keeps no
    -- descriptor of it.
    serv_accept-chmod_fails :
        (name : Bytes)
        → length name < 108
        → perm < 512
        → perm % 64 ≢ 0
        → (p : Process) × (cli_conn (some name) (connecting true) ≡ some (pos fd, p))
          × (serv_accept (cli_path pid) (waiting p.files)
              ≡ ((negsuc 2, none), waiting (made (socket_type + perm))))
    serv_accept-chmod_fails name short is_perm shared = (
      connected (socket_type + perm),
      cli_conn-chmod_fails name short,
      serv_accept-open_mode (cli_path pid) files sfds sfd sperm suser spid later
          (record { mode = socket_type + perm; uid = user; atime = now; mtime = now; ctime = now })
          (ground arith) (ground arith),
    )
