-- ===== src/OpenServer/Client/Together.antt =====
-- The client and the server together.
use personal_project.Common.{
  length, leb, length-append, arith, ◌≤◌, ℕ, ◌≡◌, refl, ap, sym, ◌∙◌, Bool, true, false, none, some,
  List, [], ◌∷◌, ◌++◌, append_assoc,
}
use personal_project.Decimal.{Bytes, ℤ, pos, negsuc, decimal}
use personal_project.Decimal.RoundTrip.{decimal_int-pos}
use personal_project.Posix.{all_succeed}
use personal_project.OpenServer.Args.{cl_open}
use personal_project.OpenServer.Args.RoundTrip.{IsWord, request_text, buf_args-request_text}
use personal_project.OpenServer.Fd.{
  delivered, Message, Received, received, fd_message, send_fd, recv_loop, recv_fd,
}
use personal_project.OpenServer.Fd.Passing.{recv_fd-fd_message}
use personal_project.OpenServer.Server.{ends_with_zero, request, nothing}
use personal_project.OpenServer.Client.{flag_text, request_parts, csopen, write_request}

-- The flag as it is written behind the name.
abbrev pub written_flag : ℕ → Bytes
written_flag oflag = b' ' ∷ (decimal oflag ++ 0 ∷ [])

request_parts-text :
    (name : Bytes) (n : ℕ) → request_parts name (written_flag n) ≡ request_text name n
unfolding request_parts request_text
request_parts-text name n = refl

flag_text-digits : (n : ℕ) → length (decimal n) ≤ 8 → flag_text (pos n) ≡ some (written_flag n)
unfolding flag_text
flag_text-digits n h =
    let room : leb (length (written_flag n)) 10 ≡ true =
      ground (arith, length-append (decimal n) (0 ∷ []), h) in
    rw (decimal_int-pos, room)

ends_with_zero-append : (s : Bytes) → ends_with_zero (s ++ 0 ∷ []) ≡ true
unfolding ends_with_zero
ends_with_zero-append [] = refl
ends_with_zero-append (c ∷ []) = refl
ends_with_zero-append (c ∷ d ∷ s) = ends_with_zero-append (d ∷ s)

ends_with_zero-request : (name : Bytes) (n : ℕ) → ends_with_zero (request_text name n) ≡ true
unfolding request_text
ends_with_zero-request name n =
    ap ends_with_zero (
      ap (λ (t : Bytes). cl_open ++ b' ' ∷ t) (sym (append_assoc name (b' ' ∷ decimal n) (0 ∷ []))))
    ∙ ends_with_zero-append (cl_open ++ b' ' ∷ (name ++ b' ' ∷ decimal n))

-- What the server does for a request that names a file which opens.
request-opens :
    (open_file : Bytes → ℤ → ℤ) (c : ℕ) (name : Bytes) (oflag fd : ℕ)
    → IsWord (c ∷ name)
    → open_file (c ∷ name) (pos oflag) ≡ pos fd
    → request open_file false false (request_text (c ∷ name) oflag)
      ≡ record { sent = some (fd_message (pos fd)); left_open = [] }
unfolding request send_fd
request-opens open_file c name oflag fd h opens =
    rw (ends_with_zero-request (c ∷ name) oflag, buf_args-request_text c name oflag h, opens)

-- If the seven calls of the client's parent succeed and the server can open the named file, the
-- server sends one message for the request that `csopen` writes and keeps no descriptor open; and
-- `csopen`, when that message arrives, returns the number that the kernel has given the descriptor in the
-- client, with nothing shown to the user. The name has a byte at least, no blank and no zero byte, and the
-- flag is not negative and has at most eight digits.
pub csopen-request :
    (user_writes : Bytes → Bool) (open_file : Bytes → ℤ → ℤ) (c : ℕ) (name : Bytes)
    (oflag fd number : ℕ) (calls : List Bool) (rest : List Received)
    → IsWord (c ∷ name)
    → length (decimal oflag) ≤ 8
    → open_file (c ∷ name) (pos oflag) ≡ pos fd
    → all_succeed 6 calls ≡ true
    → all_succeed 7 calls ≡ true
    → (m : Message) × (request open_file false false (request_parts (c ∷ name) (written_flag oflag))
        ≡ record { sent = some m; left_open = [] })
      × (csopen user_writes false
            (c ∷ name)
            (pos oflag)
            calls
            (received (delivered number m) ∷ rest)
          ≡ some (record {
            wrote = some (request_parts (c ∷ name) (written_flag oflag));
            outcome = some (record { result = pos number; shown = [] });
          }))
unfolding csopen write_request
csopen-request user_writes open_file c name oflag fd number calls rest h digits opens six seven = (
  fd_message (pos fd),
  ap (request open_file false false) (request_parts-text (c ∷ name) oflag)
      ∙ request-opens open_file c name oflag fd h opens,
  rw (six, seven, flag_text-digits oflag digits, recv_fd-fd_message user_writes number fd rest),
)

-- If the server cannot open the named file, it sends nothing for the request that `csopen` writes,
-- not even a status: `csopen`, with no further message, has not returned.
csopen-unanswered :
    (user_writes : Bytes → Bool) (open_file : Bytes → ℤ → ℤ) (c : ℕ) (name : Bytes) (oflag n : ℕ)
    (calls : List Bool)
    → IsWord (c ∷ name)
    → length (decimal oflag) ≤ 8
    → open_file (c ∷ name) (pos oflag) ≡ negsuc n
    → all_succeed 6 calls ≡ true
    → all_succeed 7 calls ≡ true
    → (request open_file false false (request_parts (c ∷ name) (written_flag oflag)) ≡ nothing)
      × (csopen user_writes false (c ∷ name) (pos oflag) calls []
          ≡ some (record {
            wrote = some (request_parts (c ∷ name) (written_flag oflag));
            outcome = none;
          }))
unfolding request csopen write_request recv_fd recv_loop
csopen-unanswered user_writes open_file c name oflag n calls h digits fails six seven = (
  ap (request open_file false false) (request_parts-text (c ∷ name) oflag)
      ∙ rw (ends_with_zero-request (c ∷ name) oflag, buf_args-request_text c name oflag h, fails),
  rw (six, seven, flag_text-digits oflag digits),
)
