-- ===== src/Inspect/Days.antt =====
-- inspect.rs, `civil_from_days`: day by day, the date advances by the rules of the calendar.
use heeler.Common.{
  ℕ, zero, suc, ◌+◌, ◌^◌, ◌<◌, ◌≡◌, refl, sym, ap, ◌∙◌, leb, if◌then◌else◌, arith, ◌⊎◌, inl, inr,
}
use heeler.Common.Int.{
  ℤ, pos, negsuc, ◌+ℤ◌, ◌*ℤ◌, ◌≤ℤ◌, div_euclid, rem_euclid, eq_of_parts, int_laws,
}
use heeler.Common.Words.{wrap_i64, wrap_i64_id}
use heeler.Inspect.{Civil, year_of_era, day_of_year, month_index, civil_of_era, civil_from_days}
use heeler.Inspect.Calendar.{
  is_leap, days_in_month, day_after, leap_in_era, next_day, day_index, month_of, next_in_year,
  last_in_year, is_leap_lem,
}

abbrev march_year : ℤ → ℕ → ℤ
march_year era yoe = pos yoe +ℤ era *ℤ pos 400

-- The date of a day of a month of a March-based year.
abbrev civil_at : ℤ → ℕ → ℕ → ℕ → Civil
civil_at era yoe mp d = record {
  year = if leb (month_of mp) 2 then march_year era yoe +ℤ pos 1 else march_year era yoe;
  month = month_of mp;
  day = d + 1;
}

march_year-suc : (era : ℤ) (yoe : ℕ) → march_year era yoe +ℤ pos 1 ≡ march_year era (yoe + 1)
march_year-suc era yoe = eq_of_parts _ _ (omega int_laws)

-- Only February's length depends on the leap rule, and its year ends the March-based one.
month_length :
    (era : ℤ) (yoe mp d : ℕ)
    → days_in_month (is_leap (civil_at era yoe mp d).year) (month_of mp)
      ≡ days_in_month (leap_in_era (yoe + 1)) (month_of mp)
unfolding days_in_month
month_length era yoe mp d =
    let e = ap is_leap (march_year-suc era yoe) ∙ is_leap_lem (yoe + 1) era in ground (arith, e)

module _ (era : ℤ) (yoe mp d : ℕ) where
  same_month :
      d + 1 < days_in_month (leap_in_era (yoe + 1)) (month_of mp)
      → day_after (civil_at era yoe mp d) ≡ civil_at era yoe mp (d + 1)
  unfolding day_after
  same_month h = ground (arith, month_length era yoe mp d)

  next_month :
      mp < 11
      → d + 1 ≡ days_in_month (leap_in_era (yoe + 1)) (month_of mp)
      → day_after (civil_at era yoe mp d) ≡ civil_at era yoe (mp + 1) 0
  unfolding day_after
  next_month lt h = ground (arith, month_length era yoe mp d)

next_year :
    (era : ℤ) (yoe d : ℕ)
    → d + 1 ≡ days_in_month (leap_in_era (yoe + 1)) 2
    → day_after (civil_at era yoe 11 d) ≡ civil_at era (yoe + 1) 0 0
unfolding day_after
next_year era yoe d h = ground (arith, month_length era yoe 11 d, march_year-suc era yoe)

-- The next day of an era, and the first of the next era.
next_in_era :
    (era : ℤ) (doe : ℕ)
    → doe + 1 < 146_097
    → day_after (civil_of_era era doe) ≡ civil_of_era era (doe + 1)
unfolding civil_of_era
next_in_era era doe h =
    let yoe = year_of_era doe in
    let doy = day_of_year doe in
    let at : ℕ → ℕ → Civil = λ y d. civil_at era y (month_index d) (day_index d) in
    elim (next_day doe h) [
      | inl (early, y, d) ↦
          let there = ap (λ n. at n (day_of_year (doe + 1))) y ∙ ap (at yoe) d in
          elim (next_in_year doy (leap_in_era (yoe + 1)) early) [
            | inl (m, i, len, lt) ↦
                same_month era yoe (month_index doy) (day_index doy) len
                ∙ sym (
                    there
                    ∙ ap (λ n. civil_at era yoe n (day_index (doy + 1))) m
                    ∙ ap (civil_at era yoe (month_index doy)) i)
            | inr (m, i, len, lt) ↦
                next_month era yoe (month_index doy) (day_index doy) lt len
                ∙ sym (
                    there
                    ∙ ap (λ n. civil_at era yoe n (day_index (doy + 1))) m
                    ∙ ap (civil_at era yoe (month_index doy + 1)) i)
          ]
      | inr (last, y, d) ↦
          let there = ap (λ n. at n (day_of_year (doe + 1))) y ∙ ap (at (yoe + 1)) d in
          let (m, len) = last_in_year (leap_in_era (yoe + 1)) in
          let start = ap month_index last ∙ m in
          ap (λ n. day_after (civil_at era yoe n (day_index doy))) start
          ∙ next_year era yoe (day_index doy) (ap (λ n. day_index n + 1) last ∙ len)
          ∙ sym there
    ]

next_era : (era : ℤ) → march_year era 400 ≡ march_year (era +ℤ pos 1) 0
unfolding ◌+ℤ◌ ◌*ℤ◌
next_era (pos e) = ground arith
next_era (negsuc e) = ground arith

abbrev first_of_march : ℤ → Civil
first_of_march y = record { year = y; month = 3; day = 1 }

last_of_era : (era : ℤ) → day_after (civil_of_era era 146_096) ≡ civil_of_era (era +ℤ pos 1) 0
unfolding civil_of_era year_of_era day_of_year month_index days_in_month
last_of_era era = next_year era 399 28 refl ∙ ap first_of_march (next_era era)

-- Adding one to a dividend.
div_rem-suc :
    (w : ℤ)
    → ((rem_euclid w 146_097 + 1 < 146_097)
        × (div_euclid (w +ℤ pos 1) 146_097 ≡ div_euclid w 146_097)
        × (rem_euclid (w +ℤ pos 1) 146_097 ≡ rem_euclid w 146_097 + 1))
      ⊎ ((rem_euclid w 146_097 ≡ 146_096)
          × (div_euclid (w +ℤ pos 1) 146_097 ≡ div_euclid w 146_097 +ℤ pos 1)
          × (rem_euclid (w +ℤ pos 1) 146_097 ≡ 0))
unfolding div_euclid rem_euclid ◌+ℤ◌
div_rem-suc (pos n) = ground arith
div_rem-suc (negsuc zero) = ground arith
div_rem-suc (negsuc (suc n)) = ground arith

abbrev shifted : ℤ → Civil
shifted w = civil_of_era (div_euclid w 146_097) (rem_euclid w 146_097)

shifted-suc : (w : ℤ) → shifted (w +ℤ pos 1) ≡ day_after (shifted w)
shifted-suc w = elim (div_rem-suc w) [
  | inl (lt, d, r) ↦ rw (d, r) (sym (next_in_era (div_euclid w 146_097) (rem_euclid w 146_097) lt))
  | inr (last, d, r) ↦ rw (d, r, last) (sym (last_of_era (div_euclid w 146_097)))
]

epoch_date : civil_from_days (pos 0) ≡ record { year = pos 1970; month = 1; day = 1 }
unfolding civil_from_days rem_euclid wrap_i64 ◌+ℤ◌ ◌*ℤ◌ div_euclid
epoch_date = refl

-- The Unix epoch is 1970-01-01, and the date of each day, within 2^62 days of the epoch, is the
-- calendar's successor of the date of the day before: by the lengths of the months, February's by the
-- leap rule of the Gregorian calendar.
pub civil_from_days-suc :
    (z : ℤ)
    → pos 0 ≤ℤ z +ℤ pos (2 ^ 62)
    → z ≤ℤ pos (2 ^ 62)
    → (civil_from_days (z +ℤ pos 1) ≡ day_after (civil_from_days z))
      × (civil_from_days (pos 0) ≡ record { year = pos 1970; month = 1; day = 1 })
unfolding civil_from_days
civil_from_days-suc z lo hi = (
  ap shifted (wrap_i64_id _ (omega int_laws) (omega int_laws) ∙ eq_of_parts _ _ (omega int_laws))
      ∙ shifted-suc (z +ℤ pos 719_468)
      ∙ ap (λ w. day_after (shifted w)) (sym (wrap_i64_id _ (omega int_laws) (omega int_laws))),
  epoch_date,
)
