-- ===== src/OpenServer/Args.antt =====
-- `buf_args` and `cli_args` of opend1.c: the words of a request.
pub mod RoundTrip
use personal_project.Common.{
  equal_bytes, ℕ, suc, ◌+◌, ◌-◌, Bool, true, false, ◌||◌, Option, none, some, List, [], ◌∷◌, ◌++◌,
  leb, ◌==◌, if◌then◌else◌,
}
use personal_project.Decimal.{Bytes, ℤ, atol}

abbrev pub maxargc : ℕ
maxargc = 50

-- `WHITE`
abbrev pub is_white : ℕ → Bool
is_white c = c == b' ' || (c == 9 || c == 10)

abbrev pub emit : Bytes → List Bytes
emit [] = []
emit (c ∷ word) = (c ∷ word) ∷ []

-- The words that `strtok` finds in a C string, `word` being what was read of the current one.
unfoldable pub words : Bytes → Bytes → List Bytes
words word [] = emit word
words word (c ∷ s) = elim (c == 0) [
  | true ↦ emit word
  | false ↦ elim (is_white c) [ true ↦ emit word ++ words [] s | false ↦ words (word ++ c ∷ []) s ]
]

-- The blanks in front of the first word: `argv[0]` is the buffer, not that word.
unfoldable pub leading : Bytes → Bytes
leading [] = []
leading (c ∷ s) = elim (is_white c) [ true ↦ c ∷ leading s | false ↦ [] ]

-- `argc` after the loop over the later words, if there is room for them.
unfoldable pub count_args : ℕ → List Bytes → Option ℕ
count_args argc [] = some (suc argc)
count_args argc (w ∷ ws) = elim (leb (maxargc - 1) (argc + 1)) [
  | true ↦ none
  | false ↦ count_args (argc + 1) ws
]

-- `none` stands for the result -1.
call_optfunc : {A : Type 0} → (ℕ → List Bytes → Option A) → List Bytes → Option ℕ → Option A
call_optfunc optfunc argv none = none
call_optfunc optfunc argv (some argc) = optfunc argc argv

split_args : {A : Type 0} → Bytes → (ℕ → List Bytes → Option A) → List Bytes → Option A
split_args buf optfunc [] = none
split_args buf optfunc (w ∷ ws) = call_optfunc optfunc ((leading buf ++ w) ∷ ws) (count_args 0 ws)

unfoldable pub buf_args : {A : Type 0} → Bytes → (ℕ → List Bytes → Option A) → Option A
unfolding words leading count_args call_optfunc split_args
buf_args buf optfunc = split_args buf optfunc (words [] buf)

-- `CL_OPEN`
abbrev pub cl_open : Bytes
cl_open = b'o' ∷ b'p' ∷ b'e' ∷ b'n' ∷ []

-- What `cli_args` leaves in `pathname` and `oflag`.
pub record Request : Type 0 where
  pub pathname : Bytes
  pub oflag : ℤ

three_args : List Bytes → Option Request
three_args (verb ∷ pathname ∷ oflag ∷ []) =
    if equal_bytes verb cl_open
    then some (record { pathname = pathname; oflag = atol oflag })
    else none
three_args _ = none

unfoldable pub cli_args : ℕ → List Bytes → Option Request
unfolding three_args
cli_args argc argv = if argc == 3 then three_args argv else none
