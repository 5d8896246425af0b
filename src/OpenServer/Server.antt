-- ===== src/OpenServer/Server.antt =====
-- `request` and `main` of opend1.c.
pub mod Requests
use personal_project.Common.{
  ℕ, Bool, true, false, Option, none, some, List, [], ◌∷◌, ◌==◌, if◌then◌else◌,
}
use personal_project.Decimal.{Bytes, ℤ, pos, negsuc}
use personal_project.OpenServer.Args.{Request, buf_args, cli_args}
use personal_project.OpenServer.Fd.{Message, send_fd}

-- `0 == buf[nread - 1]`
unfoldable pub ends_with_zero : Bytes → Bool
ends_with_zero [] = false
ends_with_zero (c ∷ []) = c == 0
ends_with_zero (c ∷ d ∷ s) = ends_with_zero (d ∷ s)

-- What the server did for a request: the message that it sent, and the descriptors that it leaves open.
pub record Served : Type 0 where
  pub sent : Option Message
  pub left_open : List ℕ

abbrev pub nothing : Served
nothing = record { sent = none; left_open = [] }

-- The descriptor is closed if it was sent.
after_send : ℕ → ℤ × Option Message → Served
after_send fd (pos n, m) = record { sent = m; left_open = [] }
after_send fd (negsuc n, m) = record { sent = m; left_open = fd ∷ [] }

-- `open_file` is `open`; the other two arguments say whether `malloc` and `sendmsg` fail.
module _ (open_file : Bytes → ℤ → ℤ) (malloc_fails sendmsg_fails : Bool) where
  open_and_send : ℤ → Served
  open_and_send (negsuc n) = nothing
  open_and_send (pos fd) = after_send fd (send_fd (pos fd) malloc_fails sendmsg_fails)

  serve : Option Request → Served
  serve none = nothing
  serve (some r) = open_and_send (open_file r.pathname r.oflag)

  unfoldable pub request : Bytes → Served
  unfolding after_send open_and_send serve
  request buf = if ends_with_zero buf then serve (buf_args buf cli_args) else nothing

  -- The loop of `main` over what its calls of `read` give; `none` is a call that fails. The exit status
  -- comes with what was done for each request; there is none while the next `read` still waits.
  unfoldable pub main : List (Option Bytes) → List Served × Option ℕ
  unfolding request
  main [] = ([], none)
  main (none ∷ reads) = ([], some 1)
  main (some [] ∷ reads) = ([], some 0)
  main (some (c ∷ s) ∷ reads) = let (done, status) = main reads in (request (c ∷ s) ∷ done, status)
