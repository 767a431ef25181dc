-- ===== src/Budget/Calendar.antt =====
-- The calendar of `crates/router/src/client_budget.rs`: when a budget's period rolls over. An i64
-- is an integer here; its range (some 292 billion years of seconds) is not written out.
pub mod Dates
pub mod Gregorian
pub mod NextDay
pub mod Periods
use rusty_provider.Prelude.{ℕ, ◌+◌, ◌-◌, ◌*◌, ◌/◌, if◌then◌else◌, ltb, leb}
use rusty_provider.Prelude.Int.{
  ℤ, pos, negsuc, pos_part, ◌+ℤ◌, ◌-ℤ◌, ◌*ℤ◌, div_euclid, div_trunc, to_i32,
}

pub data BudgetPeriod : Type 0 where
  total daily weekly monthly : BudgetPeriod

-- A year, a month and a day.
pub record Civil : Type 0 where
  pub year : ℤ
  pub month : ℕ
  pub day : ℕ

-- The era of 400 years of a shifted day, rounded down.
unfoldable pub era_of : ℤ → ℤ
unfolding div_trunc ◌-ℤ◌
era_of (pos z) = div_trunc (pos z) 146_097
era_of (negsuc z) = div_trunc (negsuc z -ℤ pos 146_096) 146_097

-- The year of the era, counted from March, and the day of that year.
unfoldable pub year_of_era : ℕ → ℕ
year_of_era doe = (doe - doe / 1460 + doe / 36_524 - doe / 146_096) / 365

unfoldable pub day_of_year : ℕ → ℕ
day_of_year doe = let yoe = year_of_era doe in doe - (365 * yoe + yoe / 4 - yoe / 100)

-- `mp`: the month counted from March.
unfoldable pub month_from_march : ℕ → ℕ
month_from_march doy = (5 * doy + 2) / 153

unfoldable pub day_of_month : ℕ → ℕ
day_of_month doy = doy - (153 * month_from_march doy + 2) / 5 + 1

unfoldable pub month_number : ℕ → ℕ
month_number mp = if ltb mp 10 then mp + 3 else mp - 9

-- `z - era * 146_097` is never negative, so it is taken as a natural number.
unfoldable pub day_of_era : ℤ → ℕ
day_of_era z = pos_part (z -ℤ era_of z *ℤ pos 146_097)

unfoldable pub ymd_from_days : ℤ → Civil
ymd_from_days days =
    let z = days +ℤ pos 719_468 in
    let doe = day_of_era z in
    let y = pos (year_of_era doe) +ℤ era_of z *ℤ pos 400 in
    let doy = day_of_year doe in
    let m = month_number (month_from_march doy) in
    record { year = to_i32 (if leb m 2 then y +ℤ pos 1 else y); month = m; day = day_of_month doy }

unfoldable pub period_key_at : BudgetPeriod → ℤ → ℤ
period_key_at total now = pos 0
period_key_at daily now = div_euclid now 86_400
period_key_at weekly now = div_euclid (div_euclid now 86_400) 7
period_key_at monthly now =
    let date = ymd_from_days (div_euclid now 86_400) in date.year *ℤ pos 12 +ℤ pos date.month
