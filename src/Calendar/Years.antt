-- ===== src/Calendar/Years.antt =====
-- Day numbers and dates.
use personal_project.Common.{
  ℕ, zero, suc, ◌+◌, ◌-◌, ◌*◌, ◌%◌, ◌^◌, ◌≤◌, ◌<◌, ◌≡◌, sym, ap, ◌∙◌, some, arith,
}
use personal_project.Decimal.{pos, negsuc}
use personal_project.Integers.{to_int, sub-negative, to_unsigned-suc}
use personal_project.Calendar.{
  year_days, month_days, base_year, dmy2dsbd, sum_blocks, subtract_blocks, Dmy, month_and_day,
  in_year, get_dmy,
}
use personal_project.Calendar.Blocks.{
  span, span_room, sum_blocks-span, subtract_blocks-span, subtract_blocks-stop, split,
}
use personal_project.Calendar.Months.{
  days_of, twelve_months, IsDate, no_date-IsDate, month_days_max,
}

year_days-positive : (y : ℕ) → 1 ≤ year_days y
unfolding year_days
year_days-positive y = ground arith

span-years : (n k : ℕ) → k ≤ span year_days n k
span-years n zero = omega arith
span-years n (suc k) = omega (arith, span-years (suc n) k, year_days-positive n)

-- The day number of a date, as a sum of whole years and months.
abbrev pub day_number : ℕ → ℕ → ℕ → ℕ
day_number d m y = span year_days base_year (y - base_year) + (span (days_of y) 1 (m - 1) + (d - 1))

int_of : (n : ℕ) → n < 2 ^ 31 → to_int (n % 2 ^ 32) ≡ pos n
int_of n h = ground (arith, h)

-- `dmy2dsbd` counts the days of a date, if their number fits an `int`.
pub dmy2dsbd-sum :
    (d m y : ℕ) → IsDate d m y → day_number d m y < 2 ^ 31 → dmy2dsbd d m y ≡ pos (day_number d m y)
unfolding dmy2dsbd
dmy2dsbd-sum d m y h low =
    let years : sum_blocks year_days (y - base_year) base_year 0
        ≡ span year_days base_year (y - base_year) =
      sum_blocks-span year_days (y - base_year) base_year 0 (omega (arith, low)) ∙ omega arith in
    let months : sum_blocks (days_of y) (m - 1) 1 (span year_days base_year (y - base_year))
        ≡ span year_days base_year (y - base_year) + span (days_of y) 1 (m - 1) =
      sum_blocks-span (days_of y) (m - 1) 1 (span year_days base_year (y - base_year))
        (omega (arith, low)) in
    rw (no_date-IsDate d m y h, years, months)
      (ap (λ n. to_int (n % 2 ^ 32)) (omega arith) ∙ int_of (day_number d m y) low)

-- A day in the `k`th year that is in its `j`th month.
get_dmy-sum :
    (k j e : ℕ)
    → base_year + k < 2 ^ 32
    → j < 12
    → e < month_days (1 + j) (base_year + k)
    → get_dmy (pos (span year_days base_year k + (span (days_of (base_year + k)) 1 j + e)))
      ≡ some (record { day = e + 1; month = 1 + j; year = base_year + k })
unfolding get_dmy in_year month_and_day
get_dmy-sum k j e low h less =
    let inside : span (days_of (base_year + k)) 1 j + e < year_days (base_year + k) =
      omega (
        arith,
        less,
        span_room (days_of (base_year + k)) 1 j 12 h,
        twelve_months (base_year + k),
      ) in
    let days : ℕ = span year_days base_year k + (span (days_of (base_year + k)) 1 j + e) in
    let year : subtract_blocks year_days (suc days) base_year (pos days)
        ≡ some (base_year + k, pos (span (days_of (base_year + k)) 1 j + e)) =
      subtract_blocks-span year_days (suc days) k base_year (span (days_of (base_year + k)) 1 j + e)
        (omega (arith, span-years base_year k)) low inside in
    let month : subtract_blocks (days_of (base_year + k)) 12 1
          (pos (span (days_of (base_year + k)) 1 j + e))
        ≡ some (1 + j, pos e) =
      subtract_blocks-span (days_of (base_year + k)) 12 j 1 e h (omega (arith, h)) less in
    let first : (e + 1) % 2 ^ 32 ≡ e + 1 =
      omega (arith, less, month_days_max (1 + j) (base_year + k)) in
    rw (year, month, first)

span-years_max : (n k : ℕ) → span year_days n k ≤ 366 * k
unfolding year_days
span-years_max n zero = omega arith
span-years_max n (suc k) = ground (arith, span-years_max (suc n) k)

-- The day number of a date up to the year 5000000 fits an `int`.
day_number_bound : (d m y : ℕ) → IsDate d m y → y ≤ 5000000 → day_number d m y < 2 ^ 31
day_number_bound d m y h last =
    let month : 1 + (m - 1) ≡ m = omega (arith, h.month_first) in
    let room : span (days_of y) 1 (m - 1) + month_days (1 + (m - 1)) y ≤ span (days_of y) 1 12 =
      span_room (days_of y) 1 (m - 1) 12 (omega (arith, h.month_first, h.month_last)) in
    let size : month_days (1 + (m - 1)) y ≡ month_days m y = ap (days_of y) month in
    omega (
      arith,
      room,
      size,
      twelve_months y,
      span-years_max base_year (y - base_year),
      span-years_max y 1,
      h.day_last,
      h.day_first,
    )

plus_minus : (a b : ℕ) → a + b - a ≡ b
plus_minus a b = omega arith

minus_plus : (a : ℕ) → a + 1 - 1 ≡ a
minus_plus a = omega arith

-- Up to the year 5000000 `getDMY` gives back the day, the month and the year that `dmy2dsbd` has
-- counted the days of.
pub get_dmy-dmy2dsbd :
    (d m y : ℕ)
    → IsDate d m y
    → y ≤ 5000000
    → get_dmy (dmy2dsbd d m y) ≡ some (record { day = d; month = m; year = y })
get_dmy-dmy2dsbd d m y h last =
    let month : 1 + (m - 1) ≡ m = omega (arith, h.month_first) in
    let year : base_year + (y - base_year) ≡ y = omega (arith, h.year_first) in
    let day : d - 1 + 1 ≡ d = omega (arith, h.day_first) in
    let size : month_days (1 + (m - 1)) (base_year + (y - base_year)) ≡ month_days m y =
      rw (month, year) in
    ap get_dmy (dmy2dsbd-sum d m y h (day_number_bound d m y h last))
    ∙ ap
        (λ i.
          get_dmy (
            pos
              (span year_days base_year (y - base_year) + (span (days_of i) 1 (m - 1) + (d - 1)))))
        (sym year)
    ∙ get_dmy-sum (y - base_year) (m - 1) (d - 1) (omega (arith, last))
        (omega (arith, h.month_last, h.month_first)) (omega (arith, size, h.day_first, h.day_last))
    ∙ rw (day, month, year)

-- The date that `getDMY` finds for a number of days.
pub get_dmy-day_number :
    (days : ℕ)
    → days < 2 ^ 31
    → (t : Dmy) × (get_dmy (pos days) ≡ some t)
      × IsDate t.day t.month t.year
      × (day_number t.day t.month t.year ≡ days)
get_dmy-day_number days low =
    let (k, r, low_k, same, room) =
      split year_days (suc days) base_year days (omega (arith, span-years base_year (suc days))) in
    let (j, e, low_j, same_j, room_j) =
      split (days_of (base_year + k)) 12 1 r (omega (arith, room, twelve_months (base_year + k))) in
    let is_date : IsDate (e + 1) (1 + j) (base_year + k) = record {
      day_first = omega arith;
      day_last = omega (arith, room_j);
      month_first = omega arith;
      month_last = omega arith;
      year_first = omega arith;
    } in
    let number : days ≡ span year_days base_year k + (span (days_of (base_year + k)) 1 j + e) =
      omega arith in
    (
      record { day = e + 1; month = 1 + j; year = base_year + k },
      ap (λ n. get_dmy (pos n)) number ∙ get_dmy-sum k j e (omega (arith, low, low_k)) low_j room_j,
      is_date,
      rw (plus_minus base_year k, plus_minus 1 j, minus_plus e) (sym number),
    )

-- Every number of days that is not negative and fits an `int` has a date, which `getDMY` finds, and
-- whose day number is that number.
pub dmy2dsbd-get_dmy :
    (days : ℕ)
    → days < 2 ^ 31
    → (t : Dmy) × (get_dmy (pos days) ≡ some t)
      × IsDate t.day t.month t.year
      × (dmy2dsbd t.day t.month t.year ≡ pos days)
dmy2dsbd-get_dmy days low =
    let (t, found, is_date, number) = get_dmy-day_number days low in
    (
      t,
      found,
      is_date,
      dmy2dsbd-sum t.day t.month t.year is_date (omega (arith, number, low)) ∙ ap pos number,
    )

-- For a number of days below 0, which `addDays` can leave, `getDMY` gives January of the year 1000,
-- and as the day a number of 32 bits without a sign that is 0 or far above 31.
get_dmy-negative :
    (n : ℕ)
    → get_dmy (negsuc n)
      ≡ some (record { day = (2 ^ 32 - n % 2 ^ 32) % 2 ^ 32; month = 1; year = 1000 })
unfolding get_dmy in_year month_and_day
get_dmy-negative n =
    rw
      (
        subtract_blocks-stop year_days (suc n) base_year (negsuc n)
            (sub-negative n (year_days base_year)),
        subtract_blocks-stop (days_of base_year) 11 1 (negsuc n)
            (sub-negative n (month_days 1 base_year)),
      )
      (ap (λ d. some (record { day = d; month = 1; year = 1000 })) (to_unsigned-suc n))
