-- ===== src/Budget/Calendar/Dates.antt =====
-- The civil date of a day number: how the era, the year and the month of a day advance.
use rusty_provider.Prelude.{ℕ, ◌+◌, ◌-◌, ◌*◌, ◌/◌, ◌≤◌, ◌<◌, ◌≡◌, refl, arith}
use native.Mathlib.Decide.{dec_lt}
use rusty_provider.Prelude.Int.{
  ℤ, pos, negsuc, pos_part, neg_part, ◌+ℤ◌, eq_of_parts, +ℤ_parts, ◌-ℤ◌, ◌*ℤ◌,
}
use rusty_provider.Budget.Calendar.{era_of, day_of_era, year_of_era, day_of_year}

-- A shifted day is its era's first day plus the day of the era.
abbrev pub Splits : ℤ → ℤ → ℕ → Type 0
Splits z era doe =
    (pos_part z + 146_097 * neg_part era ≡ neg_part z + 146_097 * pos_part era + doe)
    × (doe < 146_097)

Splits-pos : (n : ℕ) → Splits (pos n) (era_of (pos n)) (day_of_era (pos n))
unfolding day_of_era era_of ◌-ℤ◌ ◌*ℤ◌
Splits-pos n = ground arith

Splits-negsuc : (n : ℕ) → Splits (negsuc n) (era_of (negsuc n)) (day_of_era (negsuc n))
unfolding day_of_era era_of ◌-ℤ◌ ◌*ℤ◌
Splits-negsuc n = ground arith

pub day_of_era-Splits : (z : ℤ) → Splits z (era_of z) (day_of_era z)
day_of_era-Splits (pos n) = Splits-pos n
day_of_era-Splits (negsuc n) = Splits-negsuc n

-- There is one such split.
Splits-era : (z era era' : ℤ) (doe doe' : ℕ) → Splits z era doe → Splits z era' doe' → era ≡ era'
Splits-era z era era' doe doe' (e, h) (e', h') = eq_of_parts era era' (omega arith)

Splits-day : (z era : ℤ) (doe doe' : ℕ) → Splits z era doe → Splits z era doe' → doe ≡ doe'
Splits-day z era doe doe' (e, h) (e', h') = omega arith

pub Splits-next :
    (z era : ℤ) (doe : ℕ) → Splits z era doe → doe + 1 < 146_097 → Splits (z +ℤ pos 1) era (doe + 1)
Splits-next z era doe (e, h) k = (omega (arith, +ℤ_parts z (pos 1)), k)

pub Splits-last :
    (z era : ℤ) (doe : ℕ)
    → Splits z era doe
    → doe + 1 ≡ 146_097
    → Splits (z +ℤ pos 1) (era +ℤ pos 1) 0
Splits-last z era doe (e, h) k =
    (omega (arith, +ℤ_parts z (pos 1), +ℤ_parts era (pos 1)), omega arith)

pub Splits-unique :
    (z era : ℤ) (doe : ℕ) → Splits z era doe → (era_of z ≡ era) × (day_of_era z ≡ doe)
Splits-unique z era doe h =
    let same = Splits-era z (era_of z) era (day_of_era z) doe (day_of_era-Splits z) h in
    (same, Splits-day z era (day_of_era z) doe (rw same at (day_of_era-Splits z)) h)

-- The first day of a year of the era.
abbrev pub year_start : ℕ → ℕ
year_start y = 365 * y + y / 4 - y / 100

year_of_era_lower : (doe : ℕ) → doe < 146_097 → year_start (year_of_era doe) ≤ doe
unfolding year_of_era
year_of_era_lower doe h = omega arith

year_of_era_upper : (doe : ℕ) → doe < 146_096 → doe < year_start (year_of_era doe + 1)
unfolding year_of_era
year_of_era_upper doe h = omega arith

year_of_era_unique :
    (doe y : ℕ)
    → doe < 146_097
    → y < 400
    → year_start y ≤ doe
    → doe < year_start (y + 1)
    → year_of_era doe ≡ y
unfolding year_of_era
year_of_era_unique doe y h k lo hi = omega arith

-- The length of a year of the era: its last February, that of the next calendar year, has 29 days
-- if that year is a leap year. In an era of 400 years those are the years below.
abbrev pub year_length : ℕ → ℕ
year_length y = 365 + (y + 1) / 4 + (y + 1) / 400 + y / 100 - y / 4 - (y + 1) / 100

pub year_of_era-lt : (doe : ℕ) → doe < 146_097 → year_of_era doe < 400
unfolding year_of_era
year_of_era-lt doe h = omega arith

day_of_year_lem : (doe : ℕ) → day_of_year doe ≡ doe - year_start (year_of_era doe)
unfolding day_of_year
day_of_year_lem doe = refl

year_of_era_last : year_of_era 146_096 ≡ 399
unfolding year_of_era
year_of_era_last = refl

year_bounds_last :
    (year_start (year_of_era 146_096) ≤ 146_096)
    × (146_096 < year_start (year_of_era 146_096) + year_length (year_of_era 146_096))
    × (year_of_era 146_096 < 400)
year_bounds_last = omega (arith, year_of_era_last)

-- The year of a day is the one whose days hold it, the last day of the era included.
year_bounds :
    (doe : ℕ)
    → doe < 146_097
    → (year_start (year_of_era doe) ≤ doe)
      × (doe < year_start (year_of_era doe) + year_length (year_of_era doe))
      × (year_of_era doe < 400)
year_bounds doe h = elim (dec_lt doe 146_096) [
  | yes p ↦ omega (arith, year_of_era_lower doe h, year_of_era_upper doe p, year_of_era-lt doe h)
  | no p ↦ let last : doe ≡ 146_096 = omega arith in rw last (year_bounds_last)
]

pub day_of_year-lt : (doe : ℕ) → doe < 146_097 → day_of_year doe < year_length (year_of_era doe)
day_of_year-lt doe h = omega (arith, day_of_year_lem doe, year_bounds doe h)

year_unique :
    (doe y : ℕ)
    → doe < 146_097
    → y < 400
    → year_start y ≤ doe
    → doe < year_start y + year_length y
    → year_of_era doe ≡ y
year_unique doe y h k lo hi = elim (dec_lt doe 146_096) [
  | yes p ↦ year_of_era_unique doe y h k lo (omega arith)
  | no p ↦ let last : doe ≡ 146_096 = omega arith in rw last (omega (arith, year_of_era_last))
]

pub year_of_era_same :
    (doe : ℕ)
    → doe + 1 < 146_097
    → day_of_year doe + 1 < year_length (year_of_era doe)
    → year_of_era (doe + 1) ≡ year_of_era doe
year_of_era_same doe h k =
    let (lo, hi, top) = year_bounds doe (omega arith) in
    year_unique (doe + 1) (year_of_era doe) h top (omega arith) (omega (arith, day_of_year_lem doe))

pub year_of_era_next :
    (doe : ℕ)
    → doe + 1 < 146_097
    → day_of_year doe + 1 ≡ year_length (year_of_era doe)
    → year_of_era (doe + 1) ≡ year_of_era doe + 1
year_of_era_next doe h k =
    let (lo, hi, top) = year_bounds doe (omega arith) in
    year_unique (doe + 1) (year_of_era doe + 1) h (omega (arith, day_of_year_lem doe))
      (omega (arith, day_of_year_lem doe)) (omega (arith, day_of_year_lem doe))

pub day_of_year_same :
    (doe : ℕ)
    → doe + 1 < 146_097
    → day_of_year doe + 1 < year_length (year_of_era doe)
    → day_of_year (doe + 1) ≡ day_of_year doe + 1
day_of_year_same doe h k =
    let (lo, hi, top) = year_bounds doe (omega arith) in
    let same = year_of_era_same doe h k in
    omega (arith, day_of_year_lem doe, rw same at (day_of_year_lem (doe + 1)))

pub day_of_year_next :
    (doe : ℕ)
    → doe + 1 < 146_097
    → day_of_year doe + 1 ≡ year_length (year_of_era doe)
    → day_of_year (doe + 1) ≡ 0
day_of_year_next doe h k =
    let (lo, hi, top) = year_bounds doe (omega arith) in
    let step = year_of_era_next doe h k in
    omega (arith, day_of_year_lem doe, rw step at (day_of_year_lem (doe + 1)))
