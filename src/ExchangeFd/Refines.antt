-- ===== src/ExchangeFd/Refines.antt =====
-- `recv_fd` of exchange_fd.c against that of client1.c.
use personal_project.Common.{
  take, length, Bool-cases, inl, inr, ap, ◌++◌, ◌+◌, ℕ, sym, ◌∙◌, arith, if◌then◌else◌, ◌≡◌, refl,
  Bool, true, false, Option, none, some, List, [], ◌∷◌,
}
use personal_project.Decimal.{Bytes, ℤ, negsuc}
use personal_project.Posix.{next_fault, later_faults}
use personal_project.OpenServer
use personal_project.OpenServer.Fd.{
  Message, Received, received, failed, Scan, malformed, status, only_text, scan_buffer, Outcome,
}
use personal_project.ExchangeFd.Scans.{
  expected, IsBeginning, scan_buffer-IsBeginning, scan-scan_buffer,
}
use personal_project.ExchangeFd.{
  found, scan, end_of_round, Statics, allocate, Round, over, again, Result, scanned, read_message,
  round, recv_loop, recv_with, recv_fd,
}

-- What the caller of `recv_fd` sees.
abbrev pub seen : Option Result → Option Outcome
seen none = none
seen (some r) = some r.outcome

-- Whether the buffer for control messages is missing and cannot be allocated.
abbrev pub no_buffer : Statics → Bool
no_buffer s = if s.cmsgptr then false else next_fault s.faults

over-if : (b : Bool) (x y : Outcome) → (if b then over x else over y) ≡ over (if b then x else y)
over-if true x y = refl
over-if false x y = refl

take_all : (s : Bytes) → take (length s) s ≡ s
take_all [] = refl
take_all (c ∷ s) = ap (λ t. c ∷ t) (take_all s)

module _ (user_writes : Bytes → Bool) where
  -- What the loop of client1.c does after a round.
  after_round : List Received → Round → Option Outcome
  after_round rest (over o) = some o
  after_round rest (again text) = OpenServer.Fd.recv_loop user_writes text rest

  -- The round of client1.c for what its buffer holds.
  client_round : Bytes → Bytes → Option ℕ → Scan → Round
  client_round shown buf control malformed = over (record { result = negsuc 3; shown = shown })
  client_round shown buf control (status text x) =
      over (OpenServer.Fd.finish user_writes shown text x control)
  client_round shown buf control only_text =
      if user_writes buf
      then again (shown ++ buf)
      else over (record { result = negsuc 5; shown = shown })

  -- What follows the loop over the buffer, by the text that goes to `userfunc`.
  scanned-found :
      (shown buf text : Bytes) (newfd : ℤ) (x : Option ℕ) (nr : ℕ)
      → nr ≡ length text
      → take (length text) buf ≡ text
      → scanned user_writes shown buf (found newfd x nr) ≡ (
          if OpenServer.Fd.user_accepts user_writes text
          then end_of_round (shown ++ text) newfd x
          else over (record { result = negsuc 5; shown = shown }))
  unfolding scanned OpenServer.Fd.user_accepts
  scanned-found shown buf [] newfd x nr h k = ground (arith, h, ap (λ n. take n buf) h ∙ k)
  scanned-found shown buf (c ∷ t) newfd x nr h k = ground (arith, h, ap (λ n. take n buf) h ∙ k)

  scanned-expected :
      (shown : Bytes) (c : ℕ) (t : Bytes) (control : Option ℕ) (x : Scan)
      → IsBeginning (c ∷ t) x
      → scanned user_writes shown (c ∷ t) (expected control 0 (c ∷ t) x)
        ≡ client_round shown (c ∷ t) control x
  unfolding scanned end_of_round client_round OpenServer.Fd.finish OpenServer.Fd.user_accepts
  scanned-expected shown c t control malformed h = refl
  scanned-expected shown c t control only_text h =
      scanned-found shown (c ∷ t) (c ∷ t) (negsuc 0) none (0 + length (c ∷ t)) (omega arith)
        (take_all (c ∷ t))
  scanned-expected shown c t control (status text x) h =
      elim (Bool-cases (OpenServer.Fd.no_fd x control)) [
        | inl e ↦ rw e
        | inr e ↦ rw e (
            scanned-found shown (c ∷ t) text (OpenServer.Fd.new_fd x control) (some x)
              (0 + length text) (omega arith) h
            ∙ over-if (OpenServer.Fd.user_accepts user_writes text) _ _)
      ]

  loop-scan :
      (shown : Bytes) (c : ℕ) (t : Bytes) (control : Option ℕ) (rest : List Received) (x : Scan)
      → scan_buffer (c ∷ t) ≡ x
      → OpenServer.Fd.recv_loop user_writes shown
          (received (record { text = c ∷ t; control = control }) ∷ rest)
        ≡ after_round rest (client_round shown (c ∷ t) control x)
  unfolding after_round client_round OpenServer.Fd.recv_loop
  loop-scan shown c t control rest malformed e = rw (OpenServer.Fd.recv_loop, e)
  loop-scan shown c t control rest (status text x) e = rw (OpenServer.Fd.recv_loop, e)
  loop-scan shown c t control rest only_text e = rw (OpenServer.Fd.recv_loop, e) (ground arith)

  after-message :
      (shown text : Bytes) (control : Option ℕ) (rest : List Received)
      → OpenServer.Fd.recv_loop user_writes shown
          (received (record { text = text; control = control }) ∷ rest)
        ≡ after_round rest (read_message user_writes shown text control)
  unfolding read_message
  after-message shown [] control rest = unfold after_round OpenServer.Fd.recv_loop in refl
  after-message shown (c ∷ t) control rest =
      loop-scan shown c t control rest (scan_buffer (c ∷ t)) refl
      ∙ ap (after_round rest) (
          sym (
            scanned-expected shown c t control (scan_buffer (c ∷ t))
              (scan_buffer-IsBeginning (c ∷ t))))
      ∙ ap (λ x. after_round rest (scanned user_writes shown (c ∷ t) x))
          (sym (scan-scan_buffer control (c ∷ t) 0)
            ∙ ap (λ n. scan control (c ∷ t) 0 n (negsuc 0) none) (omega arith))

  loop-round :
      (shown : Bytes) (m : Received) (rest : List Received)
      → OpenServer.Fd.recv_loop user_writes shown (m ∷ rest)
        ≡ after_round rest (round user_writes shown m)
  unfolding after_round round OpenServer.Fd.recv_loop
  loop-round shown failed rest = refl
  loop-round shown (received m) rest = after-message shown m.text m.control rest

  seen_after :
      (s : Statics) (rest : List Received) (x : Round)
      → ((text : Bytes)
          → seen (recv_loop user_writes text s rest)
            ≡ OpenServer.Fd.recv_loop user_writes text rest)
      → seen (elim x [
        | over o ↦ some (record { outcome = o; left = rest; statics = s })
        | again text ↦ recv_loop user_writes text s rest
      ])
        ≡ after_round rest x
  unfolding after_round
  seen_after s rest (over o) h = refl
  seen_after s rest (again text) h = h text

  loop-seen :
      (shown : Bytes) (s : Statics) (messages : List Received)
      → seen (recv_loop user_writes shown s messages)
        ≡ OpenServer.Fd.recv_loop user_writes shown messages
  unfolding recv_loop OpenServer.Fd.recv_loop
  loop-seen shown s [] = refl
  loop-seen shown s (m ∷ rest) =
      seen_after s rest (round user_writes shown m) (λ text. loop-seen text s rest)
      ∙ sym (loop-round shown m rest)

  -- `recv_fd` of exchange_fd.c returns and shows what `recv_fd` of client1.c does for the same messages,
  -- and so fails at once if there is no buffer for control messages and none can be allocated.
  pub recv_fd-seen :
      (s : Statics) (messages : List Received)
      → seen (recv_fd user_writes s messages)
        ≡ OpenServer.Fd.recv_fd user_writes (no_buffer s) messages
  unfolding recv_fd recv_with allocate OpenServer.Fd.recv_fd
  recv_fd-seen s messages = ground (
    arith,
    loop-seen [] s messages,
    loop-seen [] (record s { cmsgptr = true; faults = later_faults s.faults }) messages,
  )
