-- ===== src/Connections/Witnesses.antt =====
-- The theorems on the three functions at concrete inputs.
use personal_project.Common.{◌≡◌, refl, false, none, some, [], ◌∷◌, arith}
use personal_project.Decimal.{Bytes, pos}
use personal_project.Sockets.{Stat, Files, no_files, file, Process, find}
use personal_project.Connections.{serv_listen, serv_accept, cli_conn, cli_path}
use personal_project.Connections.Descriptors.{Leaves, is_unlink_error, never, socket-fds}
use personal_project.Connections.Checks.{serv_accept-user}
use personal_project.Connections.Meeting.{client, server, cli_conn-serv_accept}

abbrev server_name : Bytes
server_name = b's' ∷ []

abbrev client_process : Process
client_process = client no_files [] 3 448 7 42 100 false

abbrev own_socket : Stat
own_socket = record { mode = 49600; uid = 7; atime = 100; mtime = 100; ctime = 100 }

abbrev own_files : Files
own_files = file server_name own_socket no_files

abbrev server_process : Files → Process
server_process fs = server 4 448 9 43 104 fs []

own_find : find (cli_path 42) no_files ≡ none
unfolding find
own_find = refl

socket-fds_example :
    Leaves never 3 [] 1 (cli_conn (some server_name) client_process)
    × Leaves is_unlink_error 3 [] 1 (serv_listen (some server_name) client_process)
socket-fds_example = socket-fds (some server_name) client_process

serv_accept-user_example :
    ((serv_accept server_name (server_process own_files)).0.1 ≡ some 7)
    × ((serv_accept server_name (server_process own_files)).1.fds ≡ 4 ∷ [])
unfolding find
serv_accept-user_example = serv_accept-user server_name (server_process own_files)

cli_conn-serv_accept_example :
    (p : Process) × (cli_conn (some server_name) client_process ≡ some (pos 3, p))
    × (serv_accept (cli_path 42) (server_process p.files)
        ≡ ((pos 4, some 7), server 4 448 9 43 104 no_files (4 ∷ [])))
cli_conn-serv_accept_example =
    cli_conn-serv_accept no_files [] 3 448 7 42 100 own_find [] 4 448 9 43 104 server_name
      (omega arith) (omega arith) (omega arith) (omega arith)
