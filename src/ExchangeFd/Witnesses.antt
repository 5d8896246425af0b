-- ===== src/ExchangeFd/Witnesses.antt =====
-- The theorems about exchange_fd.c on concrete messages.
use personal_project.Common.{◌+◌, ◌≡◌, refl, Bool, true, false, none, some, List, [], ◌∷◌}
use personal_project.Decimal.{Bytes, ℤ, pos, negsuc}
use personal_project.OpenServer.Fd.{fd_message, Received, received, Outcome}
use personal_project.OpenServer
use personal_project.ExchangeFd.{send_all, recv_fd, recv_all, allocate, recv_loop, scan}
use personal_project.ExchangeFd.Refines.{seen, recv_fd-seen}
use personal_project.ExchangeFd.Sequence.{calm, arriving, recv_all-send_all}

abbrev takes_all : Bytes → Bool
takes_all t = true

abbrev numbers_sent : List ℤ
numbers_sent = negsuc 2 ∷ pos 7 ∷ negsuc 255 ∷ []

recv_all-send_all_example :
    recv_all takes_all 3 (calm false) (arriving (λ k. k + 20) 0 (send_all numbers_sent (calm true)))
    ≡ some (negsuc 2 ∷ pos 21 ∷ negsuc 0 ∷ [])
recv_all-send_all_example = recv_all-send_all takes_all (λ k. k + 20) numbers_sent true false

abbrev text_then_fd : List Received
text_then_fd =
    received (record { text = b'h' ∷ b'i' ∷ []; control = none })
    ∷ received (fd_message (pos 5))
    ∷ []

recv_fd-seen_example :
    seen (recv_fd takes_all (calm false) text_then_fd)
    ≡ OpenServer.Fd.recv_fd takes_all false text_then_fd
recv_fd-seen_example = recv_fd-seen takes_all (calm false) text_then_fd

recv_fd-text :
    seen (recv_fd takes_all (calm false) text_then_fd)
    ≡ some (record { result = pos 5; shown = b'h' ∷ b'i' ∷ [] })
unfolding recv_fd allocate recv_loop scan fd_message
recv_fd-text = refl
