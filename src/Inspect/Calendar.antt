-- ===== src/Inspect/Calendar.antt =====
-- inspect.rs, `civil_from_days`: the dates of the proleptic Gregorian calendar.
use heeler.Common.{
  ℕ, ◌+◌, ◌-◌, ◌*◌, ◌/◌, ◌%◌, ◌≤◌, ◌<◌, ◌≡◌, refl, Bool, true, false, not, ◌&&◌, ◌||◌, ltb, ◌==◌,
  if◌then◌else◌, arith, ◌⊎◌, inl, inr, Bool-cases,
}
use heeler.Common.Int.{ℤ, pos, negsuc, ◌+ℤ◌, ◌*ℤ◌, rem_euclid}
use heeler.Inspect.{Civil, year_of_era, day_of_year, month_index}

-- The leap rule, the lengths of the months, and the day after a date.
unfoldable pub is_leap : ℤ → Bool
is_leap y = rem_euclid y 4 == 0 && (not (rem_euclid y 100 == 0) || rem_euclid y 400 == 0)

unfoldable pub days_in_month : Bool → ℕ → ℕ
days_in_month leap m =
    if m == 2
    then (if leap then 29 else 28)
    else if m == 4 || m == 6 || m == 9 || m == 11
    then 30
    else 31

unfoldable pub day_after : Civil → Civil
unfolding is_leap days_in_month
day_after c =
    if ltb c.day (days_in_month (is_leap c.year) c.month)
    then record c { day = c.day + 1 }
    else if ltb c.month 12
    then record c { month = c.month + 1; day = 1 }
    else record { year = c.year +ℤ pos 1; month = 1; day = 1 }

-- The same rule for the year of an era that ends the March-based year.
abbrev pub leap_in_era : ℕ → Bool
leap_in_era n = n % 4 == 0 && (not (n % 100 == 0) || n % 400 == 0)

abbrev pub leap_day : ℕ → ℕ
leap_day yoe = if leap_in_era (yoe + 1) then 1 else 0

pub year_parts :
    (doe : ℕ)
    → doe < 146_097
    → let yoe = year_of_era doe in
      (yoe < 400)
      × (doe ≡ 365 * yoe + yoe / 4 - yoe / 100 + day_of_year doe)
      × (day_of_year doe ≤ 364 + leap_day yoe)
unfolding year_of_era day_of_year
year_parts doe h = (omega arith, omega arith, ground arith)

-- A day of the era has one year, given by the length of each.
year_unique :
    (doe y doy : ℕ)
    → doe < 146_097
    → y < 400
    → doe ≡ 365 * y + y / 4 - y / 100 + doy
    → doy ≤ 364 + leap_day y
    → (year_of_era doe ≡ y) × (day_of_year doe ≡ doy)
year_unique doe y doy h hy e l =
    let (a, b, c) = year_parts doe h in
    let same : year_of_era doe ≡ y = ground arith in (same, ground (arith, same))

-- The next day is in the same year, or the first of the next.
pub next_day :
    (doe : ℕ)
    → doe + 1 < 146_097
    → let yoe = year_of_era doe in
      let doy = day_of_year doe in
      ((doy < 364 + leap_day yoe)
        × (year_of_era (doe + 1) ≡ yoe)
        × (day_of_year (doe + 1) ≡ doy + 1))
      ⊎ ((doy ≡ 364 + leap_day yoe)
          × (year_of_era (doe + 1) ≡ yoe + 1)
          × (day_of_year (doe + 1) ≡ 0))
next_day doe h =
    let (a, b, c) = year_parts doe (omega arith) in
    let yoe = year_of_era doe in
    let doy = day_of_year doe in
    elim (Bool-cases (ltb doy (364 + leap_day yoe))) [
      | inl e ↦
          let (y, d) = year_unique (doe + 1) yoe (doy + 1) h a (omega arith) (ground arith) in
          inl (ground arith, y, d)
      | inr e ↦
          let (y, d) =
            year_unique (doe + 1) (yoe + 1) 0 h (ground arith) (ground arith) (omega arith) in
          inr (ground arith, y, d)
    ]

abbrev pub day_index : ℕ → ℕ
day_index doy = doy - (153 * month_index doy + 2) / 5

abbrev pub month_of : ℕ → ℕ
month_of mp = if ltb mp 10 then mp + 3 else mp - 9

-- Within a March-based year, the next day is in the same month, or the first of the next.
pub next_in_year :
    (doy : ℕ) (leap : Bool)
    → doy < 364 + (if leap then 1 else 0)
    → let mp = month_index doy in
      let d = day_index doy in
      ((month_index (doy + 1) ≡ mp)
        × (day_index (doy + 1) ≡ d + 1)
        × (d + 1 < days_in_month leap (month_of mp))
        × (mp < 12))
      ⊎ ((month_index (doy + 1) ≡ mp + 1)
          × (day_index (doy + 1) ≡ 0)
          × (d + 1 ≡ days_in_month leap (month_of mp))
          × (mp < 11))
unfolding month_index days_in_month
next_in_year doy leap h = ground arith

pub last_in_year :
    (leap : Bool)
    → let doy = 364 + (if leap then 1 else 0) in
      (month_index doy ≡ 11) × (day_index doy + 1 ≡ days_in_month leap 2)
unfolding month_index days_in_month
last_in_year true = (refl, refl)
last_in_year false = (refl, refl)

rem_period :
    (n : ℕ) (era : ℤ)
    → let y = pos n +ℤ era *ℤ pos 400 in
      (rem_euclid y 4 ≡ n % 4) × (rem_euclid y 100 ≡ n % 100) × (rem_euclid y 400 ≡ n % 400)
unfolding rem_euclid ◌+ℤ◌ ◌*ℤ◌
rem_period n (pos e) = (ground arith, ground arith, ground arith)
rem_period n (negsuc e) = (ground arith, ground arith, ground arith)

pub is_leap_lem : (n : ℕ) (era : ℤ) → is_leap (pos n +ℤ era *ℤ pos 400) ≡ leap_in_era n
unfolding is_leap
is_leap_lem n era = let (a, b, c) = rem_period n era in rw (a, b, c) refl
