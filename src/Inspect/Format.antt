-- ===== src/Inspect/Format.antt =====
-- inspect.rs, `format_instant`: the text of a moment, and a reader of it.
use heeler.Common.{ℕ, suc, ◌≤◌, ◌<◌, ◌≡◌, refl, Option, none, some, List, [], ◌∷◌, ◌++◌, arith}
use heeler.Common.Int.{ℤ, pos, negsuc, ◌+ℤ◌, div_euclid, rem_euclid}
use heeler.Common.Words.{wrap_i64}
use heeler.Common.Decimal.{show}
use heeler.Inspect.Calendar.{year_parts}
use heeler.Inspect.{civil_of_era, month_index, day_of_year, civil_from_days, Moment, moment}
use heeler.Timestamp.{NtpInstant, as_unix_nanos}
use heeler.Inspect.Fields.{padded, read_field, read_field-padded}

-- `{:04}` of a signed one: the sign counts.
abbrev pub show_year : ℤ → List ℕ
show_year (pos n) = padded 4 (show n)
show_year (negsuc n) = b'-' ∷ padded 3 (show (suc n))

abbrev pub show_moment : Moment → List ℕ
show_moment m =
    show_year m.date.year
    ++ (b'-'
        ∷ (padded 2 (show m.date.month)
            ++ (b'-'
                ∷ (padded 2 (show m.date.day)
                    ++ (b'T'
                        ∷ (padded 2 (show m.hour)
                            ++ (b':'
                                ∷ (padded 2 (show m.minute)
                                    ++ (b':'
                                        ∷ (padded 2 (show m.second)
                                            ++ (b'.'
                                                ∷ (padded 9 (show m.nanos)
                                                    ++ (b'Z' ∷ [])))))))))))))

unfoldable pub format_instant : NtpInstant → List ℕ
format_instant instant = show_moment (moment instant)

abbrev then_field {ℓ} : {A : Type ℓ} → Option (ℕ × List ℕ) → (ℕ → List ℕ → Option A) → Option A
then_field none next = none
then_field (some (n, rest)) next = next n rest

-- A reader of years from 0 to 9999.
unfoldable pub read_moment : List ℕ → Option Moment
read_moment text = then_field (read_field 4 text) (λ year t1.
    then_field (read_field 2 t1) (λ month t2. then_field (read_field 2 t2) (λ day t3.
      then_field (read_field 2 t3) (λ hour t4. then_field (read_field 2 t4) (λ minute t5.
        then_field (read_field 2 t5) (λ second t6. then_field (read_field 9 t6) (λ nanos t7.
          some (record {
            date = record { year = pos year; month = month; day = day };
            hour = hour;
            minute = minute;
            second = second;
            nanos = nanos;
          }))))))))

pub record IsReadable (m : Moment) (year : ℕ) : Type 0 where
  pub year_known : m.date.year ≡ pos year
  pub year_fits : year < 10_000
  pub month_fits : m.date.month < 100
  pub day_fits : m.date.day < 100
  pub hour_fits : m.hour < 100
  pub minute_fits : m.minute < 100
  pub second_fits : m.second < 100
  pub nanos_fit : m.nanos < 1_000_000_000

read_moment-show_moment :
    (m : Moment) (year : ℕ) → IsReadable m year → read_moment (show_moment m) ≡ some m
unfolding read_moment
read_moment-show_moment m year h =
    let t6 = padded 9 (show m.nanos) ++ (b'Z' ∷ []) in
    let t5 = padded 2 (show m.second) ++ (b'.' ∷ t6) in
    let t4 = padded 2 (show m.minute) ++ (b':' ∷ t5) in
    let t3 = padded 2 (show m.hour) ++ (b':' ∷ t4) in
    let t2 = padded 2 (show m.date.day) ++ (b'T' ∷ t3) in
    let t1 = padded 2 (show m.date.month) ++ (b'-' ∷ t2) in
    let e0 = read_field-padded 3 year b'-' t1 h.year_fits (omega (arith, h.year_fits)) in
    let e1 = read_field-padded 1 m.date.month b'-' t2 h.month_fits (omega (arith, h.month_fits)) in
    let e2 = read_field-padded 1 m.date.day b'T' t3 h.day_fits (omega (arith, h.day_fits)) in
    let e3 = read_field-padded 1 m.hour b':' t4 h.hour_fits (omega (arith, h.hour_fits)) in
    let e4 = read_field-padded 1 m.minute b':' t5 h.minute_fits (omega (arith, h.minute_fits)) in
    let e5 = read_field-padded 1 m.second b'.' t6 h.second_fits (omega (arith, h.second_fits)) in
    let e6 = read_field-padded 8 m.nanos b'Z' [] h.nanos_fit (omega (arith, h.nanos_fit)) in
    rw (h.year_known, e0, e1, e2, e3, e4, e5, e6) refl

rem_euclid-lt : (z : ℤ) (d : ℕ) → 0 < d → rem_euclid z d < d
unfolding rem_euclid
rem_euclid-lt (pos a) d h = omega (arith, h)
rem_euclid-lt (negsuc a) d h = omega (arith, h)

civil_of_era-bounds :
    (era : ℤ) (doe : ℕ)
    → doe < 146_097
    → ((civil_of_era era doe).month < 100) × ((civil_of_era era doe).day < 100)
unfolding civil_of_era month_index
civil_of_era-bounds era doe small =
    let (_, _, last) = year_parts doe small in
    let doy : day_of_year doe ≤ 365 = ground (arith, last) in
    (ground (arith, doy), ground (arith, doy))

moment-IsReadable :
    (i : NtpInstant) (year : ℕ)
    → (moment i).date.year ≡ pos year
    → year < 10_000
    → IsReadable (moment i) year
unfolding moment civil_from_days
moment-IsReadable i year known small =
    let unix_nanos = as_unix_nanos i in
    let seconds = div_euclid unix_nanos 1_000_000_000 in
    let z = wrap_i64 (wrap_i64 (div_euclid seconds 86_400) +ℤ pos 719_468) in
    let (month, day) =
      civil_of_era-bounds (div_euclid z 146_097) (rem_euclid z 146_097)
        (rem_euclid-lt z 146_097 (omega arith)) in
    let second_of_day = rem_euclid-lt seconds 86_400 (omega arith) in
    record {
      year_known = known;
      year_fits = small;
      month_fits = month;
      day_fits = day;
      hour_fits = omega (arith, second_of_day);
      minute_fits = omega (arith, second_of_day);
      second_fits = omega (arith, second_of_day);
      nanos_fit = rem_euclid-lt unix_nanos 1_000_000_000 (omega arith);
    }

-- What is printed of an instant in the years from 0 to 9999 is read back as the same date and time of
-- day, to the nanosecond, by the positions of its fields.
pub read_moment-format_instant :
    (i : NtpInstant) (year : ℕ)
    → (moment i).date.year ≡ pos year
    → year < 10_000
    → read_moment (format_instant i) ≡ some (moment i)
unfolding format_instant
read_moment-format_instant i year known small =
    read_moment-show_moment (moment i) year (moment-IsReadable i year known small)
