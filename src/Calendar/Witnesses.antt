-- ===== src/Calendar/Witnesses.antt =====
-- Runs of the calendar, and its theorems at concrete dates.
use personal_project.Common.{◌+◌, ◌%◌, ◌≡◌, refl, some, get_or, arith}
use personal_project.Decimal.{pos}
use personal_project.Integers.{◌-ℤ◌}
use personal_project.Calendar.{
  sum_blocks, subtract_blocks, leap_year, year_days, month_name, Dmy, dmy2dsbd, get_dmy, month_days,
  week_days, week_day_index, get_week_day,
}
use personal_project.Calendar.Months.{IsDate}
use personal_project.Calendar.Years.{get_dmy-dmy2dsbd, dmy2dsbd-get_dmy}
use personal_project.Calendar.Weekday.{get_week_day-mod}

birthday : IsDate 19 11 1977
unfolding month_days
birthday = record {
  day_first = omega arith;
  day_last = omega arith;
  month_first = omega arith;
  month_last = omega arith;
  year_first = omega arith;
}

get_dmy-dmy2dsbd_example :
    get_dmy (dmy2dsbd 19 11 1977) ≡ some (record { day = 19; month = 11; year = 1977 })
get_dmy-dmy2dsbd_example = get_dmy-dmy2dsbd 19 11 1977 birthday (omega arith)

dmy2dsbd-get_dmy_example :
    (t : Dmy) × (get_dmy (pos 357167) ≡ some t)
    × IsDate t.day t.month t.year
    × (dmy2dsbd t.day t.month t.year ≡ pos 357167)
dmy2dsbd-get_dmy_example = dmy2dsbd-get_dmy 357167 (omega arith)

get_week_day-mod_example : get_week_day (pos 328715) ≡ some (get_or week_days ((328715 + 2) % 7) "")
get_week_day-mod_example = get_week_day-mod 328715 (omega arith)

-- The first of January 1900 is a Monday.
monday : get_week_day (dmy2dsbd 1 1 1900) ≡ some "Monday"
unfolding get_week_day dmy2dsbd sum_blocks get_dmy subtract_blocks ◌-ℤ◌ year_days leap_year
    month_days month_name week_day_index
monday = refl

-- An impossible date counts as the first of January 1000.
no_such_day : dmy2dsbd 31 2 2010 ≡ pos 0
unfolding dmy2dsbd month_days month_name leap_year
no_such_day = refl
