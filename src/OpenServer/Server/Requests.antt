-- ===== src/OpenServer/Server/Requests.antt =====
-- The server's loop over a sequence of requests.
use personal_project.Common.{
  ◌≡◌, refl, false, Option, none, some, List, [], ◌∷◌, All, Bool-cases, inl, inr,
}
use personal_project.Decimal.{Bytes, ℤ, pos, negsuc}
use personal_project.OpenServer.Args.{Request, buf_args, cli_args}
use personal_project.OpenServer.Fd.{send_fd}
use personal_project.OpenServer.Server.{
  ends_with_zero, Served, request, main, serve, open_and_send, after_send,
}

-- The descriptor of a served request has been closed.
abbrev pub ClosesAll : Served → Type 0
ClosesAll s = s.left_open ≡ []

module _ (open_file : Bytes → ℤ → ℤ) where
  open_and_send-ClosesAll : (r : ℤ) → ClosesAll (open_and_send open_file false false r)
  unfolding open_and_send after_send send_fd
  open_and_send-ClosesAll (pos fd) = refl
  open_and_send-ClosesAll (negsuc n) = refl

  serve-ClosesAll : (r : Option Request) → ClosesAll (serve open_file false false r)
  unfolding serve
  serve-ClosesAll none = refl
  serve-ClosesAll (some r) = open_and_send-ClosesAll (open_file r.pathname r.oflag)

  request-ClosesAll : (buf : Bytes) → ClosesAll (request open_file false false buf)
  unfolding request
  request-ClosesAll buf = elim (Bool-cases (ends_with_zero buf)) [
    | inl e ↦ rw (e, serve-ClosesAll (buf_args buf cli_args))
    | inr e ↦ rw e
  ]

  -- Whatever the server reads, and wherever it stops: if `malloc` and `sendmsg` do not fail, no
  -- descriptor that it opened for a request is left open.
  pub main-ClosesAll :
      (reads : List (Option Bytes)) → All ClosesAll (main open_file false false reads).0
  unfolding main
  main-ClosesAll [] = tt
  main-ClosesAll (none ∷ reads) = tt
  main-ClosesAll (some [] ∷ reads) = tt
  main-ClosesAll (some (c ∷ s) ∷ reads) = (request-ClosesAll (c ∷ s), main-ClosesAll reads)
