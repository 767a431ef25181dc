-- ===== src/Budget/Calendar/NextDay.antt =====
-- That the date of a day number advances by the Gregorian calendar, across eras too.
use rusty_provider.Prelude.{
  ℕ, ◌+◌, ◌*◌, ◌^◌, ◌≤◌, ◌<◌, ◌≡◌, refl, arith, if◌then◌else◌, eqb, Bool, true, sym,
}
use native.Mathlib.Decide.{dec_lt}
use rusty_provider.Prelude.Int.{
  ℤ, pos, negsuc, pos_part, neg_part, ◌+ℤ◌, ◌-ℤ◌, ◌*ℤ◌, eq_of_parts, +ℤ_parts, to_i32,
}
use rusty_provider.Budget.Calendar.{
  Civil, ymd_from_days, era_of, day_of_era, year_of_era, day_of_year, month_from_march,
  day_of_month, month_number,
}
use rusty_provider.Budget.Calendar.Dates.{
  Splits, day_of_era-Splits, Splits-next, Splits-last, Splits-unique, year_length, day_of_year-lt,
  year_of_era-lt, year_of_era_same, day_of_year_same, year_of_era_next, day_of_year_next,
}
use rusty_provider.Budget.Calendar.Gregorian.{
  is_leap-year, next_day, date_in_year, next_in_year, next_year, month_of,
}

-- The date of a day of an era, its year not yet cast to 32 bits.
date_in : ℤ → ℕ → Civil
date_in era doe = date_in_year (pos (year_of_era doe) +ℤ era *ℤ pos 400) (day_of_year doe)

-- The leapness of a year's last February, and the year's last day.
abbrev ends_long : ℕ → Bool
ends_long yoe = eqb (year_length yoe) 366

year_length-lt :
    (yoe d : ℕ) → yoe < 400 → d < year_length yoe → d < (if ends_long yoe then 366 else 365)
year_length-lt yoe d h k = ground arith

last_day :
    (yoe d : ℕ) → yoe < 400 → d + 1 ≡ year_length yoe → d ≡ (if ends_long yoe then 365 else 364)
last_day yoe d h k = ground arith

year_suc : (yoe : ℕ) (e : ℤ) → pos yoe +ℤ e +ℤ pos 1 ≡ pos (yoe + 1) +ℤ e
year_suc yoe e = eq_of_parts _ _ (
    omega
      (arith, +ℤ_parts (pos yoe) e, +ℤ_parts (pos yoe +ℤ e) (pos 1), +ℤ_parts (pos (yoe + 1)) e))

next_day-date_in :
    (era : ℤ) (doe : ℕ) → doe + 1 < 146_097 → next_day (date_in era doe) ≡ date_in era (doe + 1)
unfolding date_in
next_day-date_in era doe h =
    let yoe = year_of_era doe in
    let doy = day_of_year doe in
    let y = pos yoe +ℤ era *ℤ pos 400 in
    let small = year_of_era-lt doe (omega arith) in
    let isl = is_leap-year yoe era small in
    elim (dec_lt (doy + 1) (year_length yoe)) [
      | yes inside ↦
          rw (year_of_era_same doe h inside, day_of_year_same doe h inside)
            (next_in_year y doy (ends_long yoe) isl (year_length-lt yoe (doy + 1) small inside))
      | no outside ↦
          let full : doy + 1 ≡ year_length yoe = omega (arith, day_of_year-lt doe (omega arith)) in
          rw
            (
              year_of_era_next doe h full,
              day_of_year_next doe h full,
              ← year_suc yoe (era *ℤ pos 400),
              last_day yoe doy small full,
            )
            (next_year y (ends_long yoe) isl)
    ]

era_suc : (era : ℤ) → pos 399 +ℤ era *ℤ pos 400 +ℤ pos 1 ≡ pos 0 +ℤ (era +ℤ pos 1) *ℤ pos 400
unfolding ◌+ℤ◌ ◌*ℤ◌
era_suc (pos k) = ground arith
era_suc (negsuc k) = ground arith

next_day-date_in_last : (era : ℤ) → next_day (date_in era 146_096) ≡ date_in (era +ℤ pos 1) 0
unfolding date_in year_of_era day_of_year
next_day-date_in_last era =
    rw (← era_suc era)
      (next_year (pos 399 +ℤ era *ℤ pos 400) true (is_leap-year 399 era (omega arith)))

civil : ℤ → Civil
civil z = date_in (era_of z) (day_of_era z)

next_day-civil : (z : ℤ) → next_day (civil z) ≡ civil (z +ℤ pos 1)
unfolding civil
next_day-civil z = elim (dec_lt (day_of_era z + 1) 146_097) [
  | yes more ↦
      let (e, d) = Splits-unique _ _ _ (Splits-next z _ _ (day_of_era-Splits z) more) in
      rw (e, d) (next_day-date_in (era_of z) (day_of_era z) more)
  | no less ↦
      let full : day_of_era z ≡ 146_096 = omega (arith, (day_of_era-Splits z).1) in
      let (e, d) = Splits-unique _ _ _ (Splits-last z _ _ (day_of_era-Splits z) (omega arith)) in
      rw (e, d, full) (next_day-date_in_last (era_of z))
]

-- The days whose year is certain to fit 32 bits.
abbrev pub InRange : ℤ → Type 0
InRange days = (pos_part days < 700_000_000_000) × (neg_part days < 700_000_000_000)

to_i32_small : (y : ℤ) → pos_part y < 2 ^ 31 → neg_part y < 2 ^ 31 → to_i32 y ≡ y
unfolding to_i32
to_i32_small (pos n) h k = ground arith
to_i32_small (negsuc n) h k = ground arith

+ℤ_bounds :
    (a b : ℤ)
    → (pos_part (a +ℤ b) ≤ pos_part a + pos_part b) × (neg_part (a +ℤ b) ≤ neg_part a + neg_part b)
unfolding ◌+ℤ◌
+ℤ_bounds a b = ground arith

*400_parts :
    (e : ℤ)
    → (pos_part (e *ℤ pos 400) ≡ pos_part e * 400) × (neg_part (e *ℤ pos 400) ≡ neg_part e * 400)
unfolding ◌*ℤ◌
*400_parts (pos k) = ground arith
*400_parts (negsuc k) = ground arith

Splits-bounds :
    (z era : ℤ) (doe : ℕ)
    → Splits z era doe
    → (146_097 * pos_part era ≤ pos_part z + 146_097)
      × (146_097 * neg_part era ≤ neg_part z + 146_097)
Splits-bounds z (pos k) doe (e, h) = omega arith
Splits-bounds z (negsuc k) doe (e, h) = omega arith

civil_year :
    (days : ℤ)
    → InRange days
    → (pos_part (civil (days +ℤ pos 719_468)).year < 2 ^ 31)
      × (neg_part (civil (days +ℤ pos 719_468)).year < 2 ^ 31)
unfolding civil date_in date_in_year
civil_year days h =
    let z = days +ℤ pos 719_468 in
    let e = era_of z in
    let yoe = year_of_era (day_of_era z) in
    ground (
      arith,
      +ℤ_bounds days (pos 719_468),
      Splits-bounds z e (day_of_era z) (day_of_era-Splits z),
      *400_parts e,
      year_of_era-lt (day_of_era z) ((day_of_era-Splits z).1),
      +ℤ_bounds (pos yoe) (e *ℤ pos 400),
      +ℤ_bounds (pos yoe +ℤ e *ℤ pos 400) (pos 1),
    )

ymd_from_days-civil : (days : ℤ) → InRange days → ymd_from_days days ≡ civil (days +ℤ pos 719_468)
unfolding ymd_from_days civil date_in date_in_year month_of
ymd_from_days-civil days h =
    let (above, below) = civil_year days h in
    rw (to_i32_small (civil (days +ℤ pos 719_468)).year above below)

+ℤ_swap : (a b c : ℤ) → a +ℤ b +ℤ c ≡ a +ℤ c +ℤ b
+ℤ_swap a b c =
    eq_of_parts _ _
      (omega (arith, +ℤ_parts a b, +ℤ_parts (a +ℤ b) c, +ℤ_parts a c, +ℤ_parts (a +ℤ c) b))

-- The date of the next day number is the next day of the Gregorian calendar, for every day whose
-- year is certain to fit 32 bits. (Day 0 is 1970-01-01.)
pub ymd_from_days_next :
    (days : ℤ)
    → InRange days
    → InRange (days +ℤ pos 1)
    → ymd_from_days (days +ℤ pos 1) ≡ next_day (ymd_from_days days)
ymd_from_days_next days h k =
    rw
      (
        ymd_from_days-civil days h,
        ymd_from_days-civil (days +ℤ pos 1) k,
        +ℤ_swap days (pos 1) (pos 719_468),
      )
      (sym (next_day-civil (days +ℤ pos 719_468)))

pub epoch : ymd_from_days (pos 0) ≡ record { year = pos 1970; month = 1; day = 1 }
unfolding ymd_from_days day_of_era era_of year_of_era day_of_year month_from_march day_of_month
    month_number ◌+ℤ◌ ◌-ℤ◌ ◌*ℤ◌ to_i32
epoch = refl
