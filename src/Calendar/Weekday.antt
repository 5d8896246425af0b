-- ===== src/Calendar/Weekday.antt =====
-- The day of the week against the number of days.
use personal_project.Common.{
  ℕ, zero, suc, ◌+◌, ◌-◌, ◌*◌, ◌/◌, ◌%◌, ◌^◌, ◌≤◌, ◌<◌, ◌≡◌, refl, ap, ◌∙◌, Bool, true, false, some,
  arith, if◌then◌else◌, get_or, List, [], ◌∷◌, All,
}
use personal_project.Decimal.{pos}
use personal_project.Calendar.{
  year_days, leap_year, month_days, base_year, week_days, week_day_index, get_week_day,
  month_table_leap, month_table_not_leap,
}
use personal_project.Calendar.Blocks.{span, span-suc}
use personal_project.Calendar.Months.{days_of, IsDate, month_days_max}
use personal_project.Calendar.Years.{day_number, get_dmy-day_number}

-- What the formula adds for a year.
abbrev year_code : ℕ → ℕ
year_code y = 2 * (3 - y / 100 % 4) + (y % 100 + y % 100 / 4)

abbrev table : ℕ → ℕ → ℕ
table y m =
    if leap_year y then get_or month_table_leap (m - 1) 0 else get_or month_table_not_leap (m - 1) 0

year_code-suc :
    (y : ℕ)
    → (year_code (suc y) + table (suc y) 1) % 7 ≡ (year_code y + table y 1 + year_days y) % 7
unfolding year_days leap_year
year_code-suc y = ground arith

months_code : (y j : ℕ) → j < 12 → table y (1 + j) % 7 ≡ (table y 1 + span (days_of y) 1 j) % 7
unfolding month_days
months_code y zero h = ground arith
months_code y (suc zero) h = ground arith
months_code y (suc (suc zero)) h = ground arith
months_code y (suc (suc (suc zero))) h = ground arith
months_code y (suc (suc (suc (suc zero)))) h = ground arith
months_code y (suc (suc (suc (suc (suc zero))))) h = ground arith
months_code y (suc (suc (suc (suc (suc (suc zero)))))) h = ground arith
months_code y (suc (suc (suc (suc (suc (suc (suc zero))))))) h = ground arith
months_code y (suc (suc (suc (suc (suc (suc (suc (suc zero)))))))) h = ground arith
months_code y (suc (suc (suc (suc (suc (suc (suc (suc (suc zero))))))))) h = ground arith
months_code y (suc (suc (suc (suc (suc (suc (suc (suc (suc (suc zero)))))))))) h = ground arith
months_code y (suc (suc (suc (suc (suc (suc (suc (suc (suc (suc (suc zero))))))))))) h =
    ground arith
months_code y (suc (suc (suc (suc (suc (suc (suc (suc (suc (suc (suc (suc j)))))))))))) h =
    absurd (omega arith)

get_or-max : (xs : List ℕ) (n : ℕ) → All (λ x. x ≤ 6) xs → get_or xs n 0 ≤ 6
get_or-max [] n h = omega arith
get_or-max (x ∷ xs) zero h = h.0
get_or-max (x ∷ xs) (suc n) h = get_or-max xs n h.1

if_max : (b : Bool) (m n : ℕ) → m ≤ 6 → n ≤ 6 → (if b then m else n) ≤ 6
if_max true m n h k = h
if_max false m n h k = k

table_max : (y m : ℕ) → table y m ≤ 6
table_max y m =
    if_max (leap_year y) (get_or month_table_leap (m - 1) 0) (get_or month_table_not_leap (m - 1) 0)
      (get_or-max month_table_leap (m - 1) (ground arith))
      (get_or-max month_table_not_leap (m - 1) (ground arith))

-- The sums do not leave 32 bits.
small_sum :
    (d century year month : ℕ)
    → d ≤ 31
    → century ≤ 6
    → year ≤ 123
    → month ≤ 6
    → ((d + century + year + month) % 2 ^ 32 + 6) % 2 ^ 32 % 7
      ≡ (d + century + year + month + 6) % 7
small_sum d century year month a b c e = omega arith

-- The first of January of the `k`th year.
year_start :
    (k : ℕ)
    → (span year_days base_year k + 2) % 7
      ≡ (year_code (base_year + k) + table (base_year + k) 1) % 7
unfolding leap_year
year_start zero = refl
year_start (suc k) =
    let next : suc (base_year + k) ≡ base_year + suc k = omega arith in
    let step : (span year_days base_year (suc k) + 2) % 7
        ≡ (year_code (suc (base_year + k)) + table (suc (base_year + k)) 1) % 7 =
      omega (arith, year_start k, year_code-suc (base_year + k), span-suc year_days base_year k) in
    step ∙ ap (λ y. (year_code y + table y 1) % 7) next

-- The index of the day of the week, for a date, is its day number counted from a Wednesday.
week_day_index-day_number :
    (d m y : ℕ)
    → IsDate d m y
    → week_day_index (record { day = d; month = m; year = y }) ≡ (day_number d m y + 2) % 7
unfolding week_day_index
week_day_index-day_number d m y h =
    let month : 1 + (m - 1) ≡ m = omega (arith, h.month_first) in
    let year : base_year + (y - base_year) ≡ y = omega (arith, h.year_first) in
    let entry : table y (1 + (m - 1)) ≡ table y m = ap (table y) month in
    let start : (year_code (base_year + (y - base_year)) + table (base_year + (y - base_year)) 1)
          % 7
        ≡ (year_code y + table y 1) % 7 =
      ap (λ i. (year_code i + table i 1) % 7) year in
    small_sum d (2 * (3 - y / 100 % 4)) (y % 100 + y % 100 / 4) (table y m)
      (omega (arith, h.day_last, month_days_max m y)) (omega arith) (omega arith) (table_max y m)
    ∙ omega (
      arith,
      h.day_first,
      entry,
      start,
      months_code y (m - 1) (omega (arith, h.month_first, h.month_last)),
      year_start (y - base_year),
    )

-- For every number of days that is not negative and fits an `int`, `getWeekDay` gives the name at the place of that
-- number, plus two, modulo seven: the base day is a Wednesday, and the days follow each other.
pub get_week_day-mod :
    (days : ℕ)
    → days < 2 ^ 31
    → get_week_day (pos days) ≡ some (get_or week_days ((days + 2) % 7) "")
unfolding get_week_day
get_week_day-mod days low =
    let (t, found, is_date, number) = get_dmy-day_number days low in
    rw (found, week_day_index-day_number t.day t.month t.year is_date, number)
