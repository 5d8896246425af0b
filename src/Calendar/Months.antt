-- ===== src/Calendar/Months.antt =====
-- The months of a year, and the dates that there are.
use personal_project.Common.{ℕ, ◌≤◌, ◌≡◌, false, Bool-cases, inl, inr, arith, le→ltb}
use personal_project.Calendar.{month_days, leap_year, year_days, no_date}
use personal_project.Calendar.Blocks.{span}

abbrev pub days_of : ℕ → ℕ → ℕ
days_of y m = month_days m y

pub twelve_months : (y : ℕ) → span (days_of y) 1 12 ≡ year_days y
unfolding month_days year_days
twelve_months y = elim (Bool-cases (leap_year y)) [ inl leap ↦ rw leap | inr common ↦ rw common ]

pub month_days_max : (m y : ℕ) → month_days m y ≤ 31
unfolding month_days
month_days_max m y = ground arith

-- What the guard of `dmy2dsbd` lets pass.
pub record IsDate (d m y : ℕ) : Type 0 where
  pub day_first : 1 ≤ d
  pub day_last : d ≤ month_days m y
  pub month_first : 1 ≤ m
  pub month_last : m ≤ 12
  pub year_first : 1000 ≤ y

pub IsDate-guard : (d m y : ℕ) → no_date d m y ≡ false → IsDate d m y
IsDate-guard d m y h = record {
  day_first = ground arith;
  day_last = ground arith;
  month_first = ground arith;
  month_last = ground arith;
  year_first = ground arith;
}

pub no_date-IsDate : (d m y : ℕ) → IsDate d m y → no_date d m y ≡ false
no_date-IsDate d m y h = rw (
  le→ltb d 1 h.day_first,
  le→ltb (month_days m y) d h.day_last,
  le→ltb m 1 h.month_first,
  le→ltb 12 m h.month_last,
  le→ltb y 1000 h.year_first,
)
