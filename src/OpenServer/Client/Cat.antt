-- ===== src/OpenServer/Client/Cat.antt =====
-- What the client copies to its standard output.
use personal_project.Common.{
  ℕ, zero, suc, ◌≡◌, refl, ap, Bool, true, false, none, some, List, [], ◌∷◌, append-nil, take, drop,
  ◌∙◌,
}
use personal_project.Decimal.{Bytes, ℤ, pos}
use personal_project.Posix.{all_succeed}
use personal_project.OpenServer.Fd.{Received, Outcome}
use personal_project.OpenServer.Client.{
  exit_failure, csopen, copy_round, cat_loop, show_file, buffsize,
}

cat_loop-closed : (fuel : ℕ) (content : Bytes) → cat_loop fuel false content ≡ []
unfolding cat_loop
cat_loop-closed zero content = refl
cat_loop-closed (suc fuel) content = refl

copy_round-nil : (s : Bytes) → copy_round s [] ≡ s
copy_round-nil [] = refl
copy_round-nil (c ∷ s) = append-nil (c ∷ s)

cat_loop-take :
    (fuel : ℕ) (content : Bytes) → cat_loop (suc fuel) true content ≡ take buffsize content
unfolding cat_loop
cat_loop-take fuel content =
    ap (copy_round (take buffsize content)) (cat_loop-closed fuel (drop buffsize content))
    ∙ copy_round-nil (take buffsize content)

-- With room for one round of the loop, `main` copies of an open file the first 8192 bytes and no more:
-- it closes the descriptor inside the loop that reads from it.
show_file-take :
    (file : ℕ → Bytes) (fuel fd : ℕ) → show_file file (suc fuel) (pos fd) ≡ take buffsize (file fd)
unfolding show_file
show_file-take file fuel fd = cat_loop-take fuel (file fd)

-- If one of the first six calls of `csopen` fails, nothing is written to the server, and `csopen` returns a
-- number for which `main` copies the first 8192 bytes behind descriptor 1, the standard output.
csopen-failed_call :
    (user_writes : Bytes → Bool) (malloc_fails : Bool) (name : Bytes) (oflag : ℤ)
    (calls : List Bool) (messages : List Received) (file : ℕ → Bytes) (fuel : ℕ)
    → all_succeed 6 calls ≡ false
    → (o : Outcome) × (csopen user_writes malloc_fails name oflag calls messages
        ≡ some (record { wrote = none; outcome = some o }))
      × (show_file file (suc fuel) o.result ≡ take buffsize (file 1))
unfolding csopen
csopen-failed_call user_writes malloc_fails name oflag calls messages file fuel failed =
    (record { result = exit_failure; shown = [] }, rw failed, show_file-take file fuel 1)
