-- ===== src/Budget/Calendar/Periods.antt =====
-- When the key of a budget period changes.
use rusty_provider.Prelude.{ℕ, ◌+◌, ◌*◌, ◌≤◌, ◌<◌, ◌≡◌, ◌↔◌, refl, ap, arith}
use rusty_provider.Prelude.Int.{
  ℤ, pos, negsuc, pos_part, neg_part, ◌+ℤ◌, ◌*ℤ◌, eq_of_parts, +ℤ_parts, div_euclid,
}
use rusty_provider.Budget.Calendar.{
  monthly, ymd_from_days, period_key_at, month_from_march, day_of_year, day_of_era, month_number,
}
use rusty_provider.Budget.Calendar.Dates.{day_of_era-Splits, day_of_year-lt, year_of_era-lt}

*12_parts :
    (e : ℤ)
    → (pos_part (e *ℤ pos 12) ≡ pos_part e * 12) × (neg_part (e *ℤ pos 12) ≡ neg_part e * 12)
unfolding ◌*ℤ◌
*12_parts (pos k) = ground arith
*12_parts (negsuc k) = ground arith

-- A year and a month from 1 to 12 are determined by `year * 12 + month`.
year_month_unique :
    (y y' : ℤ) (m m' : ℕ)
    → (0 < m) × (m ≤ 12)
    → (0 < m') × (m' ≤ 12)
    → y *ℤ pos 12 +ℤ pos m ≡ y' *ℤ pos 12 +ℤ pos m'
    → (y ≡ y') × (m ≡ m')
year_month_unique y y' m m' h h' e =
    let above : pos_part (y *ℤ pos 12 +ℤ pos m) ≡ pos_part (y' *ℤ pos 12 +ℤ pos m') =
      ap pos_part e in
    let below : neg_part (y *ℤ pos 12 +ℤ pos m) ≡ neg_part (y' *ℤ pos 12 +ℤ pos m') =
      ap neg_part e in
    let sums : pos_part y * 12 + m + neg_part y' * 12 ≡ pos_part y' * 12 + m' + neg_part y * 12 =
      omega (
        arith,
        +ℤ_parts (y *ℤ pos 12) (pos m),
        +ℤ_parts (y' *ℤ pos 12) (pos m'),
        *12_parts y,
        *12_parts y',
      ) in
    (eq_of_parts y y' (omega arith), omega arith)

month_number_bounds :
    (doy : ℕ)
    → doy < 366
    → (0 < month_number (month_from_march doy)) × (month_number (month_from_march doy) ≤ 12)
unfolding month_number month_from_march
month_number_bounds doy h = ground arith

pub month_bounds : (days : ℤ) → (0 < (ymd_from_days days).month) × ((ymd_from_days days).month ≤ 12)
unfolding ymd_from_days
month_bounds days =
    let doe = day_of_era (days +ℤ pos 719_468) in
    let small = (day_of_era-Splits (days +ℤ pos 719_468)).1 in
    month_number_bounds (day_of_year doe)
      (omega (arith, day_of_year-lt doe small, year_of_era-lt doe small))

-- Two instants have one monthly key exactly when their dates have the same year and month: the
-- monthly budget rolls over at the boundaries of calendar months and nowhere else.
pub period_key_at-monthly_iff :
    (t t' : ℤ)
    → (period_key_at monthly t ≡ period_key_at monthly t') ↔ (
        ((ymd_from_days (div_euclid t 86_400)).year ≡ (ymd_from_days (div_euclid t' 86_400)).year)
        × ((ymd_from_days (div_euclid t 86_400)).month
            ≡ (ymd_from_days (div_euclid t' 86_400)).month))
unfolding period_key_at
period_key_at-monthly_iff t t' =
    let d = div_euclid t 86_400 in
    let d' = div_euclid t' 86_400 in
    (
      λ same.
          year_month_unique (ymd_from_days d).year (ymd_from_days d').year (ymd_from_days d).month
            (ymd_from_days d').month (month_bounds d) (month_bounds d') same,
      λ (y, m). rw (y, m) refl,
    )
