-- ===== src/OpenServer/Client.antt =====
-- `csopen` and `main` of client1.c.
pub mod Together
pub mod Cat
use personal_project.Common.{
  ℕ, zero, suc, Bool, true, false, Option, none, some, List, [], ◌∷◌, ◌++◌, ◌==◌, if◌then◌else◌,
  take, drop, leb, length,
}
use personal_project.Decimal.{Bytes, ℤ, pos, negsuc, decimal_int}
use personal_project.Posix.{all_succeed}
use personal_project.OpenServer.Args.{cl_open}
use personal_project.OpenServer.Fd.{Received, Outcome, recv_fd}

-- `EXIT_FAILURE`
abbrev pub exit_failure : ℤ
exit_failure = pos 1

-- What the parent wrote to the server, and what `csopen` returned; `none` while it waits.
pub record Opening : Type 0 where
  pub wrote : Option Bytes
  pub outcome : Option Outcome

abbrev pub gave_up : Opening
gave_up = record { wrote = none; outcome = some (record { result = exit_failure; shown = [] }) }

-- What `sprintf` puts into `buf`, which has ten bytes; `none` if it writes past them.
unfoldable pub flag_text : ℤ → Option Bytes
flag_text oflag =
    if leb (length (b' ' ∷ decimal_int oflag ++ 0 ∷ [])) 10
    then some (b' ' ∷ decimal_int oflag ++ 0 ∷ [])
    else none

-- The three parts of `iov`.
unfoldable pub request_parts : Bytes → Bytes → Bytes
request_parts name flag = (cl_open ++ b' ' ∷ []) ++ (name ++ flag)

module _ (user_writes : Bytes → Bool) (malloc_fails : Bool) where
  -- `writev`, and what follows it.
  write_request : Bytes → Option Bytes → Bool → List Received → Option Opening
  write_request name none succeeds messages = none
  write_request name (some flag) false messages = some gave_up
  write_request name (some flag) true messages = some (record {
    wrote = some (request_parts name flag);
    outcome = recv_fd user_writes malloc_fails messages;
  })

  -- The parent's side of `csopen`: `fork`, `socket`, `unlink`, `bind`, `listen`, `accept` and `writev`.
  -- `none` if `sprintf` writes past its buffer, so that nothing is known of what follows.
  unfoldable pub csopen : Bytes → ℤ → List Bool → List Received → Option Opening
  unfolding write_request
  csopen name oflag calls messages =
      if all_succeed 6 calls
      then write_request name (flag_text oflag) (all_succeed 7 calls) messages
      else some gave_up

-- The child's side: `socket`, `connect`, two calls of `dup2`, each left out where the descriptor is
-- right already, and `execl`, which returns only where it fails.
unfoldable pub csopen_child : ℕ → List Bool → Option ℤ
csopen_child fd calls =
    let dups : ℕ = if fd == 0 then 1 else if fd == 1 then 1 else 2 in
    if all_succeed (suc (suc (suc dups))) calls then none else some exit_failure

abbrev pub buffsize : ℕ
buffsize = 8192

-- A round of the copying loop: what was read, and what the later rounds copy if that was something.
abbrev pub copy_round : Bytes → Bytes → Bytes
copy_round [] later = []
copy_round (c ∷ s) later = (c ∷ s) ++ later

-- The loop that copies an open file to the standard output closes the descriptor in each round; a
-- `read` from a closed descriptor fails.
unfoldable pub cat_loop : ℕ → Bool → Bytes → Bytes
cat_loop zero is_open content = []
cat_loop (suc fuel) false content = []
cat_loop (suc fuel) true content =
    copy_round (take buffsize content) (cat_loop fuel false (drop buffsize content))

-- One line of the input without its newline.
unfoldable pub chomp : Bytes → Bytes
chomp [] = []
chomp (c ∷ []) = if c == 10 then [] else c ∷ []
chomp (c ∷ d ∷ s) = c ∷ chomp (d ∷ s)

-- What `main` copies for a result of `csopen`; `file` gives the content behind a descriptor.
unfoldable pub show_file : (ℕ → Bytes) → ℕ → ℤ → Bytes
unfolding cat_loop
show_file file fuel (negsuc n) = []
show_file file fuel (pos fd) = cat_loop fuel true (file fd)

-- The loop of `main`: `open_line` is what `csopen` returns for each line.
unfoldable pub main : (Bytes → ℤ) → (ℕ → Bytes) → ℕ → List Bytes → Bytes
unfolding show_file chomp
main open_line file fuel [] = []
main open_line file fuel (line ∷ lines) =
    show_file file fuel (open_line (chomp line)) ++ main open_line file fuel lines
