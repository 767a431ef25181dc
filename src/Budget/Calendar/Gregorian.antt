-- ===== src/Budget/Calendar/Gregorian.antt =====
-- The Gregorian calendar on its own, and the days of a year that begins in March, as the source
-- counts them, against it.
use rusty_provider.Prelude.{
  ℕ, zero, suc, ◌+◌, ◌%◌, ◌<◌, ◌≡◌, ◌≢◌, refl, arith, if◌then◌else◌, ltb, leb, eqb, Bool, true,
  false, ◌&&◌, ◌||◌, not, Bool-cases, inl, inr,
}
use rusty_provider.Prelude.Int.{ℤ, pos, negsuc, pos_part, neg_part, ◌+ℤ◌, ◌*ℤ◌}
use rusty_provider.Budget.Calendar.{Civil, month_from_march, day_of_month, month_number}
use rusty_provider.Budget.Calendar.Dates.{year_length}

abbrev pub divides : ℕ → ℤ → Bool
divides d y = eqb ((pos_part y + neg_part y) % d) 0

-- The leap years of the Gregorian calendar, before year 1 too.
unfoldable pub is_leap : ℤ → Bool
is_leap y = divides 4 y && (not (divides 100 y) || divides 400 y)

unfoldable pub days_in_month : Bool → ℕ → ℕ
days_in_month leap month =
    if eqb month 2
    then if leap then 29 else 28
    else if eqb month 4 || eqb month 6 || eqb month 9 || eqb month 11
    then 30
    else 31

-- The day after a date.
unfoldable pub next_day : Civil → Civil
next_day c =
    if ltb c.day (days_in_month (is_leap c.year) c.month)
    then record c { day = c.day + 1 }
    else if ltb c.month 12
    then record c { month = c.month + 1; day = 1 }
    else record { year = c.year +ℤ pos 1; month = 1; day = 1 }

-- The last February of a year that begins in March is in the next calendar year.
pub is_leap-year :
    (yoe : ℕ) (era : ℤ)
    → yoe < 400
    → is_leap (pos yoe +ℤ era *ℤ pos 400 +ℤ pos 1) ≡ eqb (year_length yoe) 366
unfolding is_leap ◌+ℤ◌ ◌*ℤ◌
is_leap-year yoe (pos k) h = ground arith
is_leap-year yoe (negsuc k) h = ground arith

holds_before : (ℕ → Bool) → ℕ → Bool
holds_before test zero = true
holds_before test (suc last) = holds_before test last && test last

holds_before_each :
    (test : ℕ → Bool) (last day : ℕ) → day < last → holds_before test last ≡ true → test day ≡ true
unfolding holds_before
holds_before_each test zero day early all_hold = absurd (omega arith)
holds_before_each test (suc last) day early all_hold =
    ground (arith, holds_before_each test last day)

-- The number of the month and the day of the month, for a day of a year that begins in March.
unfoldable pub month_of : ℕ → ℕ
unfolding month_number
month_of doy = month_number (month_from_march doy)

-- Whether (month', day') is the day after (month, day) in a year that begins in March, with a
-- following February of that leapness.
follows : Bool → ℕ → ℕ → ℕ → ℕ → Bool
follows leap m d m' d' =
    if ltb d (days_in_month leap m)
    then eqb m' m && eqb d' (d + 1)
    else if ltb m 12
    then eqb m' (m + 1) && eqb d' 1 && not (eqb m 2)
    else eqb m' 1 && eqb d' 1

long_year :
    holds_before
      (λ doy.
        follows true
          (month_of doy)
          (day_of_month doy)
          (month_of (doy + 1))
          (day_of_month (doy + 1)))
      365
    ≡ true
unfolding holds_before follows month_of day_of_month days_in_month month_from_march
long_year = refl

short_year :
    holds_before
      (λ doy.
        follows false
          (month_of doy)
          (day_of_month doy)
          (month_of (doy + 1))
          (day_of_month (doy + 1)))
      364
    ≡ true
unfolding holds_before follows month_of day_of_month days_in_month month_from_march
short_year = refl

-- The date of a day of a year that begins in March of calendar year y.
unfoldable pub date_in_year : ℤ → ℕ → Civil
date_in_year y doy =
    let m = month_of doy in
    record { year = if leb m 2 then y +ℤ pos 1 else y; month = m; day = day_of_month doy }

days_in_month_ne :
    (leap leap' : Bool) (m : ℕ) → m ≢ 2 → days_in_month leap m ≡ days_in_month leap' m
unfolding days_in_month
days_in_month_ne leap leap' m h = ground arith

-- The length of the month depends on the February that follows.
days_in_month-date_in_year :
    (y : ℤ) (m : ℕ) (leap : Bool)
    → is_leap (y +ℤ pos 1) ≡ leap
    → days_in_month (is_leap (if leb m 2 then y +ℤ pos 1 else y)) m ≡ days_in_month leap m
days_in_month-date_in_year y m leap h = elim (Bool-cases (eqb m 2)) [
  | inl feb ↦ let two : m ≡ 2 = ground arith in rw two (rw h)
  | inr other ↦ days_in_month_ne _ _ m (ground arith)
]

next_day-date_in_year :
    (y : ℤ) (doy : ℕ) (leap : Bool)
    → is_leap (y +ℤ pos 1) ≡ leap
    → follows leap (month_of doy) (day_of_month doy) (month_of (doy + 1)) (day_of_month (doy + 1))
      ≡ true
    → next_day (date_in_year y doy) ≡ date_in_year y (doy + 1)
unfolding next_day date_in_year follows
next_day-date_in_year y doy leap h f =
    rw (days_in_month-date_in_year y (month_of doy) leap h) (ground arith)

pub next_in_year :
    (y : ℤ) (doy : ℕ) (leap : Bool)
    → is_leap (y +ℤ pos 1) ≡ leap
    → doy + 1 < (if leap then 366 else 365)
    → next_day (date_in_year y doy) ≡ date_in_year y (doy + 1)
next_in_year y doy true isl h =
    next_day-date_in_year y doy true isl (holds_before_each _ 365 doy (omega arith) long_year)
next_in_year y doy false isl h =
    next_day-date_in_year y doy false isl (holds_before_each _ 364 doy (omega arith) short_year)

-- The last day of February is followed by the 1st of March.
pub next_year :
    (y : ℤ) (leap : Bool)
    → is_leap (y +ℤ pos 1) ≡ leap
    → next_day (date_in_year y (if leap then 365 else 364)) ≡ date_in_year (y +ℤ pos 1) 0
unfolding next_day date_in_year month_of day_of_month days_in_month month_from_march
next_year y true isl = ground arith
next_year y false isl = ground arith
