-- ===== src/Leave/Days.antt =====
-- The counting loops of src/clubs/services/leave-management.service.ts end, and split a range.
use Prim.Native.Nat.{zero, suc}
use poker_crm_backend.Base.{ℕ, ◌+◌, ◌-◌, ◌≤◌, ◌≡◌, refl, arith, Bool, not, if◌then◌else◌}
use poker_crm_backend.Leave.Dates.{
  day_of_week, is_off_day, is_working_day, count_days, calculate_working_days, calculate_off_days,
}

-- Working days and days off make up the range.
count_days_split :
    (p : ℕ → Bool) (fuel first last : ℕ)
    → last + 1 - first ≤ fuel
    → count_days (λ d. not (p d)) fuel first last + count_days p fuel first last ≡ last + 1 - first
unfolding count_days
count_days_split p zero first last h = omega arith
count_days_split p (suc fuel) first last h =
    ground (arith, count_days_split p fuel (first + 1) last (omega arith))

-- More fuel changes nothing.
count_days_fuel :
    (p : ℕ → Bool) (fuel more first last : ℕ)
    → last + 1 - first ≤ fuel
    → fuel ≤ more
    → count_days p more first last ≡ count_days p fuel first last
unfolding count_days
count_days_fuel p zero zero first last h h' = refl
count_days_fuel p zero (suc more) first last h h' = ground arith
count_days_fuel p (suc fuel) zero first last h h' = absurd (omega arith)
count_days_fuel p (suc fuel) (suc more) first last h h' =
    ground (arith, count_days_fuel p fuel more (first + 1) last (omega arith) (omega arith))

-- Seven days in a row, whichever comes first, have five working days.
abbrev one : ℕ → ℕ
one d = if is_working_day d then 1 else 0

week :
    (d : ℕ)
    → one d + one (d + 1) + one (d + 2) + one (d + 3) + one (d + 4) + one (d + 5) + one (d + 6) ≡ 5
unfolding is_working_day is_off_day day_of_week
week d = ground arith

count_days_step :
    (fuel d next last : ℕ)
    → d ≤ last
    → next ≡ d + 1
    → count_days is_working_day (suc fuel) d last ≡ one d + count_days is_working_day fuel next last
unfolding count_days
count_days_step fuel d next last h e = rw e (ground arith)

seven_days : (d last : ℕ) → last + 1 ≡ d + 7 → count_days is_working_day 7 d last ≡ 5
seven_days d last h =
    rw
      (
        count_days_step 6 d (d + 1) last (omega arith) (omega arith),
        count_days_step 5 (d + 1) (d + 2) last (omega arith) (omega arith),
        count_days_step 4 (d + 2) (d + 3) last (omega arith) (omega arith),
        count_days_step 3 (d + 3) (d + 4) last (omega arith) (omega arith),
        count_days_step 2 (d + 4) (d + 5) last (omega arith) (omega arith),
        count_days_step 1 (d + 5) (d + 6) last (omega arith) (omega arith),
        count_days_step 0 (d + 6) (d + 7) last (omega arith) (omega arith),
      )
      (unfold count_days in omega (arith, week d))

count_days_none : (d last : ℕ) → count_days is_working_day 0 d last ≡ 0
unfolding count_days
count_days_none d last = refl

-- A week more at the end, over so many days before it.
count_days_week :
    (fuel d last : ℕ)
    → last + 1 ≡ d + fuel
    → count_days is_working_day (fuel + 7) d (last + 7) ≡ count_days is_working_day fuel d last + 5
count_days_week zero d last h =
    rw (seven_days d (last + 7) (omega arith), count_days_none d last) (omega arith)
count_days_week (suc fuel) d last h =
    let one_more : suc fuel + 7 ≡ suc (fuel + 7) = omega arith in
    rw
      (
        one_more,
        count_days_step (fuel + 7) d (d + 1) (last + 7) (omega arith) refl,
        count_days_step fuel d (d + 1) last (omega arith) refl,
        count_days_week fuel (d + 1) last (omega arith),
      )
      (omega arith)

-- Of the days of a range, none counted twice and none left out, each is a working day or a day off;
-- and a week more adds five working days, whatever day it is.
pub calculate_working_days_lem :
    (first last : ℕ)
    → first ≤ last + 1
    → (calculate_working_days first last + calculate_off_days first last ≡ last + 1 - first)
      × (calculate_working_days first (last + 7) ≡ calculate_working_days first last + 5)
unfolding calculate_working_days calculate_off_days
calculate_working_days_lem first last h =
    let n = last + 1 - first in
    let more : last + 7 + 1 - first ≡ n + 7 = omega arith in
    (
      unfold is_working_day in count_days_split is_off_day n first last (omega arith),
      rw more (count_days_week n first last (omega arith)),
    )
