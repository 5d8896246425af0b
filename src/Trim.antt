-- ===== src/Trim.antt =====
-- trim_string.cpp: `trim_string`, which works in place on a text that ends with 0.
pub mod Squeeze
pub mod Words
mod Witnesses
use personal_project.Common.{
  ℕ, suc, ◌+◌, ◌-◌, Bool, true, false, not, ◌&&◌, Option, none, some, List, [], ◌∷◌, ◌++◌, ◌==◌,
  if◌then◌else◌, length, take, drop, get_or,
}
use personal_project.Decimal.{Bytes, ℤ, pos, negsuc}

abbrev pub is_blank : ℕ → Bool
is_blank c = c == b' '

-- The loop over the copy: `at_start` is `buf == start_buf`, `out` what was written to `io_str`. The
-- result has `found_space` with it.
unfoldable pub trim_loop : Bool → Bool → Bytes → Bytes → Bytes × Bool
trim_loop at_start found_space [] out = (out, found_space)
trim_loop at_start found_space (c ∷ buf) out = elim (is_blank c) [
  | false ↦ trim_loop false false buf (out ++ c ∷ [])
  | true ↦ elim (if at_start then true else found_space) [
    | true ↦ trim_loop false true buf out
    | false ↦ trim_loop false true buf (out ++ c ∷ [])
  ]
]

-- The memory at `io_str` after the loop: behind what was written stand the old bytes.
abbrev pub memory : Bytes → Bytes → Bytes
memory out text = out ++ drop (length out) (text ++ 0 ∷ [])

-- The last blank is taken back if `*io_str` is no blank; then the text ends at `io_str`.
unfoldable pub finish : Bytes → Bytes × Bool → Bytes
finish text (out, found_space) =
    if found_space && not (is_blank (get_or (memory out text) (length out) 0))
    then take (length out - 1) out
    else out

-- The result, and the text in front of the terminator, for a text that has no 0 in it.
unfoldable pub trim_string : Option Bytes → ℤ × Option Bytes
trim_string none = (negsuc 0, none)
trim_string (some text) = (pos 0, some (finish text (trim_loop true false text [])))
