-- ===== src/ExchangeFd/Sequence.antt =====
-- What is sent in a row is received in a row.
use personal_project.Common.{
  none, ◌-◌, ap, ◌∙◌, ℕ, ◌+◌, ◌≡◌, refl, Bool, true, false, some, List, [], ◌∷◌, length,
}
use personal_project.Decimal.{Bytes, ℤ, pos, negsuc}
use personal_project.OpenServer.Fd.{
  scan_buffer, at_zero, no_fd, new_fd, status_byte, fd_message, delivered, Received, failed,
  received,
}
use personal_project.OpenServer.Fd.Passing.{passed, status_byte_nonzero, status_byte_low}
use personal_project.ExchangeFd.Scans.{expected, scan-scan_buffer}
use personal_project.ExchangeFd.{
  Statics, allocate, send_fd, message_of, send_message, with_buffer, over, scanned, read_message,
  round, end_of_round, scan, fd_of, status_at, recv_loop, recv_with, recv_fd, send_all, recv_all,
}

-- A process whose calls all succeed.
abbrev pub calm : Bool → Statics
calm allocated = record { cmsgptr = allocated; faults = [] }

-- Whether the buffer is there after a number was sent.
abbrev buffer_after : ℤ → Bool → Bool
buffer_after (pos fd) allocated = true
buffer_after (negsuc n) allocated = allocated

send_fd-calm :
    (r : ℤ) (b : Bool)
    → send_fd r (calm b) ≡ record {
      result = pos 0;
      messages = received (fd_message r) ∷ [];
      statics = calm (buffer_after r b);
    }
unfolding send_fd with_buffer send_message message_of allocate fd_message
send_fd-calm (pos fd) true = refl
send_fd-calm (pos fd) false = refl
send_fd-calm (negsuc n) b = refl

-- The messages as they arrive: the descriptor of the `k`th has the number `numbers k` in the receiver.
abbrev pub arriving : (ℕ → ℕ) → ℕ → List Received → List Received
arriving numbers k [] = []
arriving numbers k (failed ∷ rest) = failed ∷ arriving numbers (k + 1) rest
arriving numbers k (received m ∷ rest) =
    received (delivered (numbers k) m) ∷ arriving numbers (k + 1) rest

abbrev pub all_passed : (ℕ → ℕ) → ℕ → List ℤ → List ℤ
all_passed numbers k [] = []
all_passed numbers k (r ∷ rs) = passed (numbers k) r ∷ all_passed numbers (k + 1) rs

module _ (user_writes : Bytes → Bool) where
  expected-status :
      (n : ℕ)
      → scanned user_writes []
          (0 ∷ status_byte n ∷ [])
          (expected none 0 (0 ∷ status_byte n ∷ []) (scan_buffer (0 ∷ status_byte n ∷ [])))
        ≡ over (record { result = negsuc (status_byte n - 1); shown = [] })
  unfolding scan_buffer at_zero no_fd new_fd scanned end_of_round
  expected-status n = rw (status_byte_low n, status_byte_nonzero n)

  round-status :
      (number : ℕ) (r : ℤ)
      → round user_writes [] (received (delivered number (fd_message r)))
        ≡ over (record { result = passed number r; shown = [] })
  unfolding round read_message scanned end_of_round scan fd_of status_at fd_message
  round-status number (pos fd) = refl
  round-status number (negsuc n) =
      ap (scanned user_writes [] (0 ∷ status_byte n ∷ []))
        (scan-scan_buffer none (0 ∷ status_byte n ∷ []) 0)
      ∙ expected-status n

  recv_loop-message :
      (number : ℕ) (r : ℤ) (s : Statics) (rest : List Received)
      → recv_loop user_writes [] s (received (delivered number (fd_message r)) ∷ rest)
        ≡ some (record {
          outcome = record { result = passed number r; shown = [] };
          left = rest;
          statics = s;
        })
  unfolding recv_loop
  recv_loop-message number r s rest = rw (recv_loop, round-status number r)

  recv_fd-message :
      (number : ℕ) (r : ℤ) (b : Bool) (rest : List Received)
      → recv_fd user_writes (calm b) (received (delivered number (fd_message r)) ∷ rest)
        ≡ some (record {
          outcome = record { result = passed number r; shown = [] };
          left = rest;
          statics = calm true;
        })
  unfolding recv_fd recv_with allocate
  recv_fd-message number r true rest = recv_loop-message number r (calm true) rest
  recv_fd-message number r false rest = recv_loop-message number r (calm true) rest

  recv_all-from :
      (numbers : ℕ → ℕ) (k : ℕ) (rs : List ℤ) (b c : Bool)
      → recv_all user_writes (length rs) (calm c) (arriving numbers k (send_all rs (calm b)))
        ≡ some (all_passed numbers k rs)
  unfolding recv_all send_all recv_fd allocate
  recv_all-from numbers k [] b c = refl
  recv_all-from numbers k (r ∷ rs) b c = rw (
    send_fd-calm r b,
    recv_fd-message (numbers k) r c
        (arriving numbers (k + 1) (send_all rs (calm (buffer_after r b)))),
    recv_all-from numbers (k + 1) rs (buffer_after r b) true,
  )

  -- If no call fails and each recvmsg gives one message: what is sent in a row is received in its order,
  -- one by each call, for a descriptor the number that the kernel has given it in the receiver, and a
  -- negative number reduced to a byte.
  pub recv_all-send_all :
      (numbers : ℕ → ℕ) (rs : List ℤ) (b c : Bool)
      → recv_all user_writes (length rs) (calm c) (arriving numbers 0 (send_all rs (calm b)))
        ≡ some (all_passed numbers 0 rs)
  recv_all-send_all numbers rs b c = recv_all-from numbers 0 rs b c
