-- ===== src/ExchangeFd.antt =====
-- exchange_fd.c: `send_fd` and `recv_fd` in one program, with the static buffer for control messages.
pub mod Scans
pub mod Refines
pub mod Sequence
mod Witnesses
use personal_project.Common.{
  ◌+◌, ◌-◌, ◌%◌, ltb, length, take, ◌&&◌, not, ℕ, zero, suc, Bool, true, false, Option, none, some,
  List, [], ◌∷◌, ◌++◌, ◌==◌, if◌then◌else◌,
}
use personal_project.Decimal.{Bytes, ℤ, pos, negsuc}
use personal_project.Posix.{next_fault, later_faults}
use personal_project.OpenServer.Fd.{Message, Received, failed, received, Outcome}

-- Whether `cmsgptr` has been allocated, and which of the next calls fail.
pub record Statics : Type 0 where
  pub cmsgptr : Bool
  pub faults : List Bool

abbrev pub called : Statics → Statics
called s = record s { faults = later_faults s.faults }

-- `malloc` is called only if `cmsgptr` is `NULL`.
unfoldable pub allocate : Statics → Bool × Statics
allocate s =
    if s.cmsgptr
    then (true, s)
    else if next_fault s.faults
    then (false, called s)
    else (true, record s { cmsgptr = true; faults = later_faults s.faults })

-- The result, and what went into the socket.
pub record Sent : Type 0 where
  pub result : ℤ
  pub messages : List Received
  pub statics : Statics

-- `buf` and the control message.
message_of : ℤ → Message
message_of (pos fd) = record { text = 0 ∷ 0 ∷ []; control = some fd }
message_of (negsuc n) =
    let last = (n + 1) % 256 in
    record { text = 0 ∷ (if last == 0 then 1 else last) ∷ []; control = none }

send_message : ℤ → Statics → Sent
send_message r s =
    if next_fault s.faults
    then record { result = negsuc 1; messages = []; statics = called s }
    else record { result = pos 0; messages = received (message_of r) ∷ []; statics = called s }

with_buffer : ℤ → Bool × Statics → Sent
with_buffer r (false, s) = record { result = negsuc 0; messages = []; statics = s }
with_buffer r (true, s) = send_message r s

unfoldable pub send_fd : ℤ → Statics → Sent
unfolding message_of send_message with_buffer
send_fd (pos fd) s = with_buffer (pos fd) (allocate s)
send_fd (negsuc n) s = send_message (negsuc n) s

-- What the loop over the buffer comes to: an error that `recv_fd` returns, or `newfd`, `status` and `nr`;
-- the status is `none` while it is -1.
pub data Scanned : Type 0 where
  error : ℤ → Scanned
  found : ℤ → Option ℕ → ℕ → Scanned

-- `newfd` for a status, with the descriptor of the control message; `none` if there is none for 0.
fd_of : ℕ → Option ℕ → Option ℤ
fd_of zero none = none
fd_of zero (some fd) = some (pos fd)
fd_of (suc x) control = some (negsuc x)

-- `*ptr & 0xFF`
status_at : Bytes → ℕ
status_at [] = 0
status_at (x ∷ s) = x % 256

-- The loop over the buffer: what stands from `ptr` on, the place of `ptr`, and `nr`.
unfoldable pub scan : Option ℕ → Bytes → ℕ → ℕ → ℤ → Option ℕ → Scanned
unfolding fd_of status_at
scan control [] at nr newfd status = found newfd status nr
scan control (c ∷ s) at nr newfd status = elim (ltb at nr) [
  | false ↦ found newfd status nr
  | true ↦ elim (c == 0) [
    | false ↦ scan control s (at + 1) nr newfd status
    | true ↦ elim (at + 1 == nr - 1) [
      | false ↦ error (negsuc 3)
      | true ↦ elim (fd_of (status_at s) control) [
        | none ↦ error (negsuc 4)
        | some fd ↦ scan control s (at + 1) (nr - 2) fd (some (status_at s))
      ]
    ]
  ]
]

-- A round of the loop of `recv_fd` ends it, or goes on after more text was passed to `userfunc`.
pub data Round : Type 0 where
  over : Outcome → Round
  again : Bytes → Round

-- `if (status >= 0)`
end_of_round : Bytes → ℤ → Option ℕ → Round
end_of_round shown newfd none = again shown
end_of_round shown newfd (some x) = over (record { result = newfd; shown = shown })

-- What `recv_fd` returns, with the messages that it has left in the socket.
pub record Result : Type 0 where
  pub outcome : Outcome
  pub left : List Received
  pub statics : Statics

-- `user_writes` is whether `userfunc` takes all of a text.
module _ (user_writes : Bytes → Bool) where
  -- What follows the loop over the buffer `buf`.
  scanned : Bytes → Bytes → Scanned → Round
  scanned shown buf (error r) = over (record { result = r; shown = shown })
  scanned shown buf (found newfd status nr) =
      if ltb 0 nr && not (user_writes (take nr buf))
      then over (record { result = negsuc 5; shown = shown })
      else end_of_round (shown ++ take nr buf) newfd status

  read_message : Bytes → Bytes → Option ℕ → Round
  read_message shown [] control = over (record { result = negsuc 2; shown = shown })
  read_message shown (c ∷ s) control =
      scanned shown (c ∷ s) (scan control (c ∷ s) 0 (length (c ∷ s)) (negsuc 0) none)

  round : Bytes → Received → Round
  round shown failed = over (record { result = negsuc 1; shown = shown })
  round shown (received m) = read_message shown m.text m.control

  -- The loop over the messages in the socket; `none` if it waits for another one. The buffer has been
  -- allocated in the first round.
  unfoldable pub recv_loop : Bytes → Statics → List Received → Option Result
  unfolding scanned end_of_round read_message round
  recv_loop shown s [] = none
  recv_loop shown s (m ∷ rest) = elim (round shown m) [
    | over o ↦ some (record { outcome = o; left = rest; statics = s })
    | again text ↦ recv_loop text s rest
  ]

  recv_with : Bool × Statics → List Received → Option Result
  recv_with (false, s) messages =
      some (record {
        outcome = record { result = negsuc 0; shown = [] };
        left = messages;
        statics = s;
      })
  recv_with (true, s) messages = recv_loop [] s messages

  unfoldable pub recv_fd : Statics → List Received → Option Result
  unfolding recv_with
  recv_fd s messages = recv_with (allocate s) messages

-- The numbers that are sent one after the other, and what is then in the socket.
unfoldable pub send_all : List ℤ → Statics → List Received
send_all [] s = []
send_all (r ∷ rs) s = let sent = send_fd r s in sent.messages ++ send_all rs sent.statics

-- So many calls of `recv_fd`, and what they return.
module _ (user_writes : Bytes → Bool) where
  unfoldable pub recv_all : ℕ → Statics → List Received → Option (List ℤ)
  recv_all zero s messages = some []
  recv_all (suc n) s messages = elim (recv_fd user_writes s messages) [
    | none ↦ none
    | some r ↦ elim (recv_all n r.statics r.left) [
      | none ↦ none
      | some rs ↦ some (r.outcome.result ∷ rs)
    ]
  ]
