-- ===== src/Leave/Dates.antt =====
-- The dates of src/clubs/services/leave-management.service.ts: JavaScript's calendar, in UTC, and
-- the two loops that count the days of a range.
use Prim.Native.Nat.{zero, suc}
use poker_crm_backend.Base.{ℕ, ◌+◌, ◌-◌, ◌%◌, Bool, not, ◌&&◌, ◌||◌, ◌==◌, leb, ltb, if◌then◌else◌}

-- `getDay()`: 1 January 1970 was a Thursday.
unfoldable pub day_of_week : ℕ → ℕ
day_of_week day = (day + 4) % 7

-- Saturday is 6, Sunday is 0.
unfoldable pub is_off_day : ℕ → Bool
unfolding day_of_week
is_off_day day = day_of_week day == 0 || day_of_week day == 6

unfoldable pub is_working_day : ℕ → Bool
is_working_day day = not (is_off_day day)

-- The loop of calculateWorkingDays and of calculateOffDays, on fuel: the days from `current` to the
-- last that satisfy a test.
unfoldable pub count_days : (ℕ → Bool) → ℕ → ℕ → ℕ → ℕ
count_days p zero current last = 0
count_days p (suc fuel) current last =
    let rest = count_days p fuel (current + 1) last in
    if leb current last then (if p current then 1 + rest else rest) else 0

-- calculateWorkingDays
unfoldable pub calculate_working_days : ℕ → ℕ → ℕ
calculate_working_days first last = count_days is_working_day (last + 1 - first) first last

-- calculateOffDays
unfoldable pub calculate_off_days : ℕ → ℕ → ℕ
calculate_off_days first last = count_days is_off_day (last + 1 - first) first last

-- The days of the year that is so many after 1970.
unfoldable pub is_leap : ℕ → Bool
is_leap year = year % 4 == 0 && (not (year % 100 == 0) || year % 400 == 0)

unfoldable pub year_length : ℕ → ℕ
unfolding is_leap
year_length year = if is_leap (1970 + year) then 366 else 365

-- The first day of the year of a date, by `getFullYear`: from the first day of a year on, as many
-- years as the date is away, at most one for each day.
unfoldable pub year_start_from : ℕ → ℕ → ℕ → ℕ → ℕ × ℕ
year_start_from zero year first day = (first, year)
year_start_from (suc fuel) year first day =
    let rest = year_start_from fuel (year + 1) (first + year_length year) day in
    if ltb day (first + year_length year) then (first, year) else rest

-- `new Date(currentYear, 0, 1)`
unfoldable pub year_start : ℕ → ℕ
year_start day = (year_start_from day 0 0 day).0

-- `new Date(currentYear, 11, 31)`
unfoldable pub year_end : ℕ → ℕ
year_end day = let found = year_start_from day 0 0 day in found.0 + year_length found.1 - 1
