-- ===== src/OpenServer/Fd.antt =====
-- `send_fd` of opend1.c and `recv_fd` of client1.c: a descriptor, or a status, in a message.
pub mod Passing
use personal_project.Common.{
  ℕ, suc, ◌+◌, ◌-◌, ◌%◌, Bool, true, false, Option, none, some, List, [], ◌∷◌, ◌++◌, ltb, ◌==◌,
  if◌then◌else◌,
}
use personal_project.Decimal.{Bytes, ℤ, pos, negsuc}

-- The bytes of a message with the descriptor in its control part, by its number in the process that
-- sends it, or in the one that has received it.
pub record Message : Type 0 where
  pub text : Bytes
  pub control : Option ℕ

-- A message as the receiver gets it: the kernel opens the file of the descriptor there under a number of
-- its own.
abbrev pub arrived : ℕ → Option ℕ → Option ℕ
arrived number none = none
arrived number (some fd) = some number

abbrev pub delivered : ℕ → Message → Message
delivered number m = record m { control = arrived number m.control }

-- The status byte for a negative result.
abbrev pub status_byte : ℕ → ℕ
status_byte n = if (n + 1) % 256 == 0 then 1 else (n + 1) % 256

unfoldable pub fd_message : ℤ → Message
fd_message (pos fd) = record { text = 0 ∷ 0 ∷ []; control = some fd }
fd_message (negsuc n) = record { text = 0 ∷ status_byte n ∷ []; control = none }

-- Whether `malloc` is called for the control message and fails, and whether `sendmsg` fails: the
-- result, and the message that was sent.
send_control : ℤ → Bool → Bool → ℤ × Option Message
send_control fd true sendmsg_fails = (negsuc 0, none)
send_control fd false true = (negsuc 1, none)
send_control fd false false = (pos 0, some (fd_message fd))

unfoldable pub send_fd : ℤ → Bool → Bool → ℤ × Option Message
unfolding fd_message send_control
send_fd (pos fd) malloc_fails sendmsg_fails = send_control (pos fd) malloc_fails sendmsg_fails
send_fd (negsuc n) malloc_fails sendmsg_fails = send_control (negsuc n) false sendmsg_fails

-- What a call of `recvmsg` gives; an empty message means that the peer has closed.
pub data Received : Type 0 where
  failed : Received
  received : Message → Received

-- What the loop over the buffer finds: no zero byte; one that is not the last but one; or the text
-- in front of it and the status behind it.
pub data Scan : Type 0 where
  only_text malformed : Scan
  status : Bytes → ℕ → Scan

abbrev pub scan_more : ℕ → Scan → Scan
scan_more c only_text = only_text
scan_more c malformed = malformed
scan_more c (status text x) = status (c ∷ text) x

unfoldable pub at_zero : Bytes → Scan
at_zero (x ∷ []) = status [] (x % 256)
at_zero _ = malformed

unfoldable pub scan_buffer : Bytes → Scan
unfolding at_zero
scan_buffer [] = only_text
scan_buffer (c ∷ s) = elim (c == 0) [ true ↦ at_zero s | false ↦ scan_more c (scan_buffer s) ]

-- The result with what was passed to `userfunc`.
pub record Outcome : Type 0 where
  pub result : ℤ
  pub shown : Bytes

-- The descriptor or the negated status that `recv_fd` returns.
unfoldable pub new_fd : ℕ → Option ℕ → ℤ
new_fd x (some fd) = if x == 0 then pos fd else negsuc (x - 1)
new_fd x none = negsuc (x - 1)

-- A status of 0 with no control message is an error.
unfoldable pub no_fd : ℕ → Option ℕ → Bool
no_fd x (some fd) = false
no_fd x none = x == 0

-- `user_writes` is what `userfunc` does with a text: whether it takes all of it.
module _ (user_writes : Bytes → Bool) where
  -- The text of a message goes to `userfunc` if there is any.
  unfoldable pub user_accepts : Bytes → Bool
  user_accepts [] = true
  user_accepts (c ∷ s) = user_writes (c ∷ s)

  unfoldable pub finish : Bytes → Bytes → ℕ → Option ℕ → Outcome
  finish shown text x control =
      if no_fd x control
      then record { result = negsuc 4; shown = shown }
      else if user_accepts text
      then record { result = new_fd x control; shown = shown ++ text }
      else record { result = negsuc 5; shown = shown }

  -- The loop of `recv_fd` over the results of its calls of `recvmsg`: `none` if it still waits for the
  -- next.
  unfoldable pub recv_loop : Bytes → List Received → Option Outcome
  unfolding user_accepts finish new_fd no_fd
  recv_loop shown [] = none
  recv_loop shown (failed ∷ rest) = some (record { result = negsuc 1; shown = shown })
  recv_loop shown (received m ∷ rest) = elim m.text [
    | [] ↦ some (record { result = negsuc 2; shown = shown })
    | c ∷ s ↦ elim (scan_buffer (c ∷ s)) [
      | malformed ↦ some (record { result = negsuc 3; shown = shown })
      | status text x ↦ some (finish shown text x m.control)
      | only_text ↦ elim (user_writes (c ∷ s)) [
        | true ↦ recv_loop (shown ++ c ∷ s) rest
        | false ↦ some (record { result = negsuc 5; shown = shown })
      ]
    ]
  ]

  unfoldable pub recv_fd : Bool → List Received → Option Outcome
  unfolding recv_loop
  recv_fd true messages = some (record { result = negsuc 0; shown = [] })
  recv_fd false messages = recv_loop [] messages
