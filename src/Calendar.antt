-- ===== src/Calendar.antt =====
-- Date.h and Date.cpp: days counted from 1 January 1000, and the calendar.
pub mod Months
pub mod Blocks
pub mod Years
pub mod Weekday
mod Witnesses
use Prim.Native.String.{String}
use text.Mathlib.Text.{◌==◌ as same_name}
use personal_project.Common.{
  ℕ, zero, suc, ◌+◌, ◌-◌, ◌*◌, ◌/◌, ◌%◌, ◌^◌, Bool, true, false, not, ◌&&◌, ◌||◌, Option, none,
  some, List, [], ◌∷◌, ◌++◌, ltb, ◌==◌, if◌then◌else◌, get_or,
}
use personal_project.Decimal.{Bytes, ℤ, pos, negsuc, is_negative, decimal}
use personal_project.Integers.{◌+ℤ◌, ◌-ℤ◌, ltb_ℤ, equal_ℤ, to_int, to_unsigned}

abbrev pub base_year : ℕ
base_year = 1000

-- `monthName_`
abbrev pub month_names : List String
month_names =
    "January" ∷ "February" ∷ "March" ∷ "April" ∷ "May" ∷ "June" ∷ "July" ∷ "August" ∷ "September"
    ∷ "October" ∷ "November" ∷ "December" ∷ []

-- `weekDay_`
abbrev pub week_days : List String
week_days = "Monday" ∷ "Tuesday" ∷ "Wednesday" ∷ "Thursday" ∷ "Friday" ∷ "Saturday" ∷ "Sunday" ∷ []

unfoldable pub month_name : ℕ → String
month_name month =
    if ltb month 1 || ltb 12 month then "unknown month" else get_or month_names (month - 1) ""

unfoldable pub leap_year : ℕ → Bool
leap_year year =
    if year % 400 == 0 then true else if year % 4 == 0 && ltb 0 (year % 100) then true else false

unfoldable pub year_days : ℕ → ℕ
unfolding leap_year
year_days year = if leap_year year then 366 else 365

-- The month is recognised by its name.
unfoldable pub month_days : ℕ → ℕ → ℕ
unfolding month_name
month_days month year =
    if ltb month 1 || ltb 12 month
    then 0
    else if same_name (month_name month) (month_name 2)
    then (if leap_year year then 29 else 28)
    else if same_name (month_name month) (month_name 4)
        || (same_name (month_name month) (month_name 6)
            || (same_name (month_name month) (month_name 9)
                || same_name (month_name month) (month_name 11)))
    then 30
    else 31

-- `for (; n < end; ++n) total += size(n)`, the loops of `dmy2dsbd`, with end - n rounds to go. The sum of an `int`
-- and a number without a sign has 32 bits without a sign.
unfoldable pub sum_blocks : (ℕ → ℕ) → ℕ → ℕ → ℕ → ℕ
sum_blocks size zero n total = total
sum_blocks size (suc rounds) n total = sum_blocks size rounds (n + 1) ((total + size n) % 2 ^ 32)

abbrev pub no_date : ℕ → ℕ → ℕ → Bool
no_date d m y = ltb d 1 || (ltb (month_days m y) d || (ltb m 1 || (ltb 12 m || ltb y base_year)))

unfoldable pub dmy2dsbd : ℕ → ℕ → ℕ → ℤ
dmy2dsbd d m y =
    if no_date d m y
    then pos 0
    else to_int (
        (sum_blocks (λ n. month_days n y) (m - 1) 1
            (sum_blocks year_days (y - base_year) base_year 0)
          + (d - 1))
        % 2 ^ 32)

-- `while ((tmp -= size(++n)) >= 0)`, the loops of `getDMY`, where `n` has been counted up: the last
-- `n`, and `tmp` before the last subtraction. `n` has 32 bits without a sign.
unfoldable pub subtract_blocks : (ℕ → ℕ) → ℕ → ℕ → ℤ → Option (ℕ × ℤ)
subtract_blocks size zero n tmp = none
subtract_blocks size (suc fuel) n tmp = elim (is_negative (tmp -ℤ pos (size n))) [
  | true ↦ some (n, tmp)
  | false ↦ subtract_blocks size fuel (suc n % 2 ^ 32) (tmp -ℤ pos (size n))
]

-- A day, a month and a year.
pub record Dmy : Type 0 where
  pub day : ℕ
  pub month : ℕ
  pub year : ℕ

month_and_day : ℕ → Option (ℕ × ℤ) → Option Dmy
month_and_day y none = none
month_and_day y (some (m, tmp)) =
    some (record { day = to_unsigned (tmp +ℤ pos 1); month = m; year = y })

in_year : Option (ℕ × ℤ) → Option Dmy
in_year none = none
in_year (some (y, tmp)) = month_and_day y (subtract_blocks (λ m. month_days m y) 12 1 tmp)

abbrev pub magnitude : ℤ → ℕ
magnitude (pos n) = n
magnitude (negsuc n) = suc n

unfoldable pub get_dmy : ℤ → Option Dmy
unfolding in_year month_and_day
get_dmy days = in_year (subtract_blocks year_days (suc (magnitude days)) base_year days)

to_text : Bool → Option Dmy → Option Bytes
to_text brief none = none
to_text true (some t) = some (decimal t.day ++ b'/' ∷ decimal t.month)
to_text false (some t) = some (decimal t.day ++ b'/' ∷ (decimal t.month ++ b'/' ∷ decimal t.year))

unfoldable pub to_string : Bool → ℤ → Option Bytes
unfolding to_text
to_string brief days = to_text brief (get_dmy days)

abbrev pub month_table_not_leap : List ℕ
month_table_not_leap = 0 ∷ 3 ∷ 3 ∷ 6 ∷ 1 ∷ 4 ∷ 6 ∷ 2 ∷ 5 ∷ 0 ∷ 3 ∷ 5 ∷ []

abbrev pub month_table_leap : List ℕ
month_table_leap = 6 ∷ 2 ∷ 3 ∷ 6 ∷ 1 ∷ 4 ∷ 6 ∷ 2 ∷ 5 ∷ 0 ∷ 3 ∷ 5 ∷ []

-- The place in `weekDay_`; the sums are of unsigned numbers.
unfoldable pub week_day_index : Dmy → ℕ
week_day_index t =
    let century = 2 * (3 - t.year / 100 % 4) in
    let year = t.year % 100 + t.year % 100 / 4 in
    let month : ℕ =
      if leap_year t.year
      then get_or month_table_leap (t.month - 1) 0
      else get_or month_table_not_leap (t.month - 1) 0 in
    ((t.day + century + year + month) % 2 ^ 32 + 6) % 2 ^ 32 % 7

week_day_name : Option Dmy → Option String
week_day_name none = none
week_day_name (some t) = some (get_or week_days (week_day_index t) "")

unfoldable pub get_week_day : ℤ → Option String
unfolding week_day_name
get_week_day days = week_day_name (get_dmy days)

-- The fields of the local time that the code reads.
pub record LocalTime : Type 0 where
  pub tm_mday : ℕ
  pub tm_mon : ℕ
  pub tm_year : ℕ

-- The exit status and the days, from the results of `time` and `localtime`.
unfoldable pub set_to_today : Bool → Option LocalTime → ℤ → ℤ × ℤ
set_to_today true now days = (pos 1, days)
set_to_today false none days = (pos 1, days)
set_to_today false (some t) days = (pos 0, dmy2dsbd t.tm_mday (t.tm_mon + 1) (1900 + t.tm_year))

unfoldable pub less_than : ℤ → ℤ → Bool
less_than a b = ltb_ℤ a b

unfoldable pub equals : ℤ → ℤ → Bool
equals a b = equal_ℤ a b

unfoldable pub days_after : ℤ → ℤ → ℤ
days_after a b = a -ℤ b

-- The days of the object itself and of the copy that is returned.
unfoldable pub add_days : ℤ → ℤ → ℤ × ℤ
add_days days n = (days +ℤ n, days +ℤ n)
