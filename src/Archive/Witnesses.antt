-- ===== src/Archive/Witnesses.antt =====
-- The program at concrete options, on a system that writes at most 1000 bytes at a time.
use Prim.Native.Nat.{min}
use personal_project.Common.{
  ℕ, ◌+◌, ◌-◌, ◌*◌, ◌/◌, ◌≡◌, refl, true, Option, none, some, List, [], ◌∷◌, arith,
}
use personal_project.Decimal.{Bytes, atol}
use personal_project.Archive.{max_len, fifo, default_options, parse_options, Written, main}
use personal_project.Archive.Sequences.{MakesProgress, main-ended}

abbrev thousand : ℕ → ℕ → Option ℕ
thousand i n = some (min n 1000)

thousand-MakesProgress : MakesProgress thousand
thousand-MakesProgress i n h = (min n 1000, refl, omega arith, omega arith)

abbrev options : List (ℕ × Bytes)
options = (b'p', b'F' ∷ b'i' ∷ b'f' ∷ b'o' ∷ []) ∷ (b's', b'8' ∷ []) ∷ []

parsed :
    parse_options options default_options
    ≡ some (record { prioritize = true; policy = fifo; nb_seq = 8 })
unfolding parse_options atol
parsed = refl

-- The last option given counts, and a number that is not positive is refused.
refused : parse_options ((b's', b'0' ∷ []) ∷ []) default_options ≡ none
unfolding parse_options atol
refused = refl

main-ended_example :
    (w : Written) × (main thousand [] options ≡ some (0, w))
    × (w.bytes ≡ 8 * max_len)
    × (w.syncs ≡ 8 - 8 / 8 + 1)
main-ended_example =
    main-ended thousand thousand-MakesProgress options
      (record { prioritize = true; policy = fifo; nb_seq = 8 }) parsed
