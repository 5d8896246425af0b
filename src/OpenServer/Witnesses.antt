-- ===== src/OpenServer/Witnesses.antt =====
-- The theorems on the two programs at concrete inputs.
use personal_project.Common.{
  length, ◌≤◌, arith, ℕ, ◌≡◌, refl, Bool, true, false, some, [], ◌∷◌, All,
}
use personal_project.Decimal.{decimal, digits, Bytes, ℤ, pos, negsuc}
use personal_project.Posix.{all_succeed}
use personal_project.OpenServer.Args.RoundTrip.{request_text}
use personal_project.OpenServer.Fd.{delivered, Message, received, send_fd, recv_fd}
use personal_project.OpenServer.Fd.Passing.{before_status, recv_fd-send_fd}
use personal_project.OpenServer.Server.{request, main}
use personal_project.OpenServer.Server.Requests.{ClosesAll, main-ClosesAll}
use personal_project.OpenServer.Client.{csopen, request_parts}
use personal_project.OpenServer.Client.Together.{written_flag, csopen-request}

abbrev tmp_a : Bytes
tmp_a = b'/' ∷ b'a' ∷ []

abbrev takes_all : Bytes → Bool
takes_all t = true

abbrev opens_five : Bytes → ℤ → ℤ
opens_five name oflag = pos 5

abbrev opens_none : Bytes → ℤ → ℤ
opens_none name oflag = negsuc 0

abbrev zeros : ℕ → Bytes
zeros fd = 0 ∷ 0 ∷ []

recv_fd-send_fd_example :
    (m : Message) × (send_fd (negsuc 1) false false ≡ (pos 0, some m))
    × (recv_fd takes_all false (before_status (tmp_a ∷ []) (received (delivered 9 m) ∷ []))
        ≡ some (record { result = negsuc 1; shown = tmp_a }))
recv_fd-send_fd_example =
    recv_fd-send_fd takes_all 9 (λ t. refl) (tmp_a ∷ []) (negsuc 1) [] ((refl, (refl, tt)), tt)

one_digit : length (decimal 0) ≤ 8
unfolding decimal digits
one_digit = omega arith

csopen-request_example :
    (m : Message) × (request opens_five false false (request_parts tmp_a (written_flag 0))
      ≡ record { sent = some m; left_open = [] })
    × (csopen takes_all false tmp_a (pos 0) [] (received (delivered 9 m) ∷ [])
        ≡ some (record {
          wrote = some (request_parts tmp_a (written_flag 0));
          outcome = some (record { result = pos 9; shown = [] });
        }))
csopen-request_example =
    csopen-request takes_all opens_five b'/' (b'a' ∷ []) 0 5 9 [] []
      ((refl, refl), ((refl, refl), tt)) one_digit refl (unfold all_succeed in refl)
      (unfold all_succeed in refl)

main-ClosesAll_example :
    All ClosesAll (main opens_five false false (some (request_text tmp_a 0) ∷ some [] ∷ [])).0
main-ClosesAll_example = main-ClosesAll opens_five (some (request_text tmp_a 0) ∷ some [] ∷ [])
