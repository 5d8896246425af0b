-- ===== src/Archive.antt =====
-- archive_data.c: sequences of writes to a file that is given its room in advance.
pub mod Sequences
mod Witnesses
use mathlib.Core.List.{map}
use Prim.Native.Nat.{min}
use personal_project.Common.{
  ℕ, zero, suc, ◌+◌, ◌-◌, ◌*◌, ◌%◌, ◌^◌, Bool, true, false, Option, none, some, List, [], ◌∷◌, ltb,
  ◌==◌, if◌then◌else◌, drop, equal_bytes,
}
use personal_project.Decimal.{Bytes, ℤ, pos, negsuc, atol, to_lower}
use personal_project.Posix.{all_succeed}

-- `MAX_BUFFER_LEN`, `MAX_LEN`
abbrev pub max_buffer_len : ℕ
max_buffer_len = 1048576

abbrev pub max_len : ℕ
max_len = 330 * 1048576

-- `strcasecmp`
abbrev pub same_letters : Bytes → Bytes → Bool
same_letters s t = equal_bytes (map to_lower s) (map to_lower t)

pub data Policy : Type 0 where
  other fifo round_robin : Policy

-- What the options set.
pub record Options : Type 0 where
  pub prioritize : Bool
  pub policy : Policy
  pub nb_seq : ℕ

abbrev pub default_options : Options
default_options = record { prioritize = false; policy = other; nb_seq = 1 }

-- `-p`: the scheduling policy.
set_policy : Bytes → Options → Option Options
set_policy optarg o =
    if same_letters optarg (b'f' ∷ b'i' ∷ b'f' ∷ b'o' ∷ [])
    then some (record o { prioritize = true; policy = fifo })
    else if same_letters optarg (b'r' ∷ b'r' ∷ [])
    then some (record o { prioritize = true; policy = round_robin })
    else none

-- `-s`: the number of sequences, which has to be positive.
set_sequences : ℤ → Options → Option Options
set_sequences (pos zero) o = none
set_sequences (pos (suc n)) o = some (record o { nb_seq = suc n })
set_sequences (negsuc n) o = none

set_option : ℕ → Bytes → Options → Option Options
set_option c optarg o =
    if c == b'p'
    then set_policy optarg o
    else if c == b's'
    then set_sequences (atol optarg) o
    else none

-- The loop over what `getopt` gives; `none` is the exit on an error.
unfoldable pub parse_options : List (ℕ × Bytes) → Options → Option Options
unfolding set_policy set_sequences set_option
parse_options [] o = some o
parse_options ((c, optarg) ∷ rest) o = elim (set_option c optarg o) [
  | none ↦ none
  | some next ↦ parse_options rest next
]

-- The calls of `write` so far, the bytes that they wrote, and the calls of `fsync`.
pub record Written : Type 0 where
  pub calls : ℕ
  pub bytes : ℕ
  pub syncs : ℕ

abbrev pub nothing_written : Written
nothing_written = record { calls = 0; bytes = 0; syncs = 0 }

-- The loop has run out of fuel, has met an error of `write`, or has ended.
pub data Outcome : Type 0 where
  stuck : Outcome
  failed : Written → Outcome
  ended : Written → Outcome

-- `write_some` gives what each call of `write` writes of a number of bytes; `none` is an error.
module _ (write_some : ℕ → ℕ → Option ℕ) where
  -- The inner loop, `len` bytes being left to write.
  unfoldable pub write_all : ℕ → ℕ → Written → Outcome
  write_all zero len w = stuck
  write_all (suc fuel) len w = elim (write_some w.calls (min len max_buffer_len)) [
    | none ↦ failed w
    | some k ↦ elim (ltb k len) [
      | true ↦ write_all fuel (len - k) (record w { calls = w.calls + 1; bytes = w.bytes + k })
      | false ↦ ended (record w { calls = w.calls + 1; bytes = w.bytes + k })
    ]
  ]

  -- `fsync` is called after a sequence whose number is no multiple of eight.
  abbrev pub sync_after : ℕ → Written → Written
  sync_after n w = if (n + 1) % 8 == 0 then w else record w { syncs = w.syncs + 1 }

  -- The outer loop from sequence `n` on.
  unfoldable pub sequences : ℕ → ℕ → Written → Outcome
  sequences zero n w = ended w
  sequences (suc rounds) n w = elim (write_all max_len max_len w) [
    | stuck ↦ stuck
    | failed v ↦ failed v
    | ended v ↦ sequences rounds (n + 1) (sync_after n v)
  ]

  -- The exit status with what was written; `none` while the loop runs. Behind the loop stand four
  -- calls that can fail.
  finish : Outcome → List Bool → Option (ℕ × Written)
  finish stuck faults = none
  finish (failed w) faults = some (1, w)
  finish (ended w) faults =
      some (if all_succeed 4 faults then 0 else 1, record w { syncs = w.syncs + 1 })

  -- The calls between the options and the loop.
  abbrev calls_before : Options → ℕ
  calls_before o = if o.prioritize then 3 else 1

  write_with : Option Options → List Bool → Option (ℕ × Written)
  write_with none faults = some (1, nothing_written)
  write_with (some o) faults =
      if all_succeed (calls_before o) faults
      then finish (sequences o.nb_seq 0 nothing_written) (drop (calls_before o) faults)
      else some (1, nothing_written)

  -- Seven calls stand in front of the options.
  unfoldable pub main : List Bool → List (ℕ × Bytes) → Option (ℕ × Written)
  unfolding finish write_with
  main faults options =
      if all_succeed 7 faults
      then write_with (parse_options options default_options) (drop 7 faults)
      else some (1, nothing_written)
