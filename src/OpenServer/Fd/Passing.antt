-- ===== src/OpenServer/Fd/Passing.antt =====
-- What `recv_fd` makes of the messages that `send_fd` sends.
use personal_project.Common.{
  ℕ, ◌-◌, ◌%◌, ◌≡◌, refl, ap, ◌∙◌, Bool, true, false, none, some, List, [], ◌∷◌, ◌++◌, append-nil,
  arith, ◌==◌, All,
}
use personal_project.Decimal.{Bytes, ℤ, pos, negsuc}
use personal_project.OpenServer.Fd.{
  delivered, Message, Received, received, only_text, status_byte, fd_message, send_fd, scan_buffer,
  recv_loop, recv_fd,
}

-- A text with no zero byte.
abbrev pub IsText : Bytes → Type 0
IsText = All (λ c. (c == 0) ≡ false)

scan_buffer-text : (s : Bytes) → IsText s → scan_buffer s ≡ only_text
unfolding scan_buffer
scan_buffer-text [] h = refl
scan_buffer-text (c ∷ s) h = ground (arith, scan_buffer-text s, h.0, h.1)

-- Messages of text, none of them empty.
abbrev pub AreTexts : List Bytes → Type 0
AreTexts [] = Unit
AreTexts ([] ∷ ts) = ⊥
AreTexts ((c ∷ s) ∷ ts) = IsText (c ∷ s) × AreTexts ts

abbrev pub text_message : Bytes → Received
text_message s = received (record { text = s; control = none })

abbrev pub before_status : List Bytes → List Received → List Received
before_status [] rest = rest
before_status (t ∷ ts) rest = text_message t ∷ before_status ts rest

abbrev pub joined : Bytes → List Bytes → Bytes
joined shown [] = shown
joined shown (t ∷ ts) = joined (shown ++ t) ts

-- What a number passed to `send_fd` becomes: a descriptor has its number in the receiver, and a negative
-- one loses all but its low byte, which is made 1 where it is 0.
abbrev pub passed : ℕ → ℤ → ℤ
passed number (pos fd) = pos number
passed number (negsuc n) = negsuc (status_byte n - 1)

pub status_byte_nonzero : (n : ℕ) → (status_byte n == 0) ≡ false
status_byte_nonzero n = ground arith

pub status_byte_low : (n : ℕ) → status_byte n % 256 ≡ status_byte n
status_byte_low n = ground arith

pub recv_fd-fd_message :
    (user_writes : Bytes → Bool) (number fd : ℕ) (rest : List Received)
    → recv_fd user_writes false (received (delivered number (fd_message (pos fd))) ∷ rest)
      ≡ some (record { result = pos number; shown = [] })
unfolding recv_fd recv_loop fd_message scan_buffer
recv_fd-fd_message user_writes number fd rest = refl

module _ (user_writes : Bytes → Bool) (number : ℕ)
    (takes : (t : Bytes) → user_writes t ≡ true) where
  recv_loop-text :
      (shown : Bytes) (c : ℕ) (s : Bytes) (rest : List Received)
      → IsText (c ∷ s)
      → recv_loop user_writes shown (text_message (c ∷ s) ∷ rest)
        ≡ recv_loop user_writes (shown ++ c ∷ s) rest
  unfolding recv_loop
  recv_loop-text shown c s rest h = ground (arith, scan_buffer-text (c ∷ s) h, takes (c ∷ s))

  recv_loop-status :
      (shown : Bytes) (r : ℤ) (rest : List Received)
      → recv_loop user_writes shown (received (delivered number (fd_message r)) ∷ rest)
        ≡ some (record { result = passed number r; shown = shown })
  unfolding recv_loop fd_message scan_buffer
  recv_loop-status shown (pos fd) rest =
      ap (λ (t : Bytes). some (record { result = pos number; shown = t })) (append-nil shown)
  recv_loop-status shown (negsuc n) rest = rw (status_byte_low n, status_byte_nonzero n, append-nil)

  recv_loop-texts :
      (shown : Bytes) (ts : List Bytes) (r : ℤ) (rest : List Received)
      → AreTexts ts
      → recv_loop user_writes shown
          (before_status ts (received (delivered number (fd_message r)) ∷ rest))
        ≡ some (record { result = passed number r; shown = joined shown ts })
  recv_loop-texts shown [] r rest h = recv_loop-status shown r rest
  recv_loop-texts shown ([] ∷ ts) r rest h = absurd h
  recv_loop-texts shown ((c ∷ s) ∷ ts) r rest h =
      recv_loop-text shown c s
        (before_status ts (received (delivered number (fd_message r)) ∷ rest)) h.0
      ∙ recv_loop-texts (shown ++ c ∷ s) ts r rest h.1

  -- What `send_fd` sends behind any messages of text, `recv_fd` returns, if `userfunc` takes every text:
  -- for a descriptor the number that the kernel has given it in the receiver, and a negative number
  -- reduced to a byte. The texts have been passed to `userfunc` in their order.
  pub recv_fd-send_fd :
      (ts : List Bytes) (r : ℤ) (rest : List Received)
      → AreTexts ts
      → (m : Message) × (send_fd r false false ≡ (pos 0, some m))
        × (recv_fd user_writes false (before_status ts (received (delivered number m) ∷ rest))
            ≡ some (record { result = passed number r; shown = joined [] ts }))
  unfolding recv_fd
  recv_fd-send_fd ts (pos fd) rest h =
      (fd_message (pos fd), unfold send_fd in refl, recv_loop-texts [] ts (pos fd) rest h)
  recv_fd-send_fd ts (negsuc n) rest h =
      (fd_message (negsuc n), unfold send_fd in refl, recv_loop-texts [] ts (negsuc n) rest h)
