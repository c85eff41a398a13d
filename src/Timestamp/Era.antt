-- ===== src/Timestamp/Era.antt =====
-- timestamp.rs, `unfold`: the era that a pivot selects, across the 2036 rollover.
use heeler.Common.{ℕ, ◌+◌, ◌*◌, ◌/◌, ◌%◌, ◌≤◌, ◌<◌, ◌≡◌, arith, ok, refl, ap}
use heeler.Common.Int.{
  ℤ, pos, negsuc, ◌+ℤ◌, ◌-ℤ◌, ◌*ℤ◌, ◌≤ℤ◌, pos_part, neg_part, div_euclid, rem_euclid, int_laws,
  +ℤ_parts, -ℤ_parts, eq_of_parts,
}
use heeler.Timestamp.{
  NtpTimestamp, NtpInstant, IsTimestamp, unfold_era, to_timestamp, nanos_per_second, two_pow_32,
  absolute_seconds, fraction_from_nanos,
}
use heeler.Timestamp.Fraction.{fraction_to_nanos-lt, fraction_round_trip_bounds}

-- What rounding down by a constant divisor gives, and multiplying by a constant, in parts.
div_second_parts :
    (a : ℤ)
    → let q = div_euclid a nanos_per_second in
      (pos_part q * nanos_per_second + neg_part a ≤ pos_part a + neg_part q * nanos_per_second)
      × (pos_part a + neg_part q * nanos_per_second
          < pos_part q * nanos_per_second + neg_part a + nanos_per_second)
unfolding div_euclid
div_second_parts (pos n) = omega arith
div_second_parts (negsuc n) = omega arith

div_era_parts :
    (a : ℤ)
    → let q = div_euclid a two_pow_32 in
      (pos_part q * two_pow_32 + neg_part a ≤ pos_part a + neg_part q * two_pow_32)
      × (pos_part a + neg_part q * two_pow_32 < pos_part q * two_pow_32 + neg_part a + two_pow_32)
unfolding div_euclid
div_era_parts (pos n) = omega arith
div_era_parts (negsuc n) = omega arith

*ℤ_second_parts :
    (a : ℤ)
    → pos_part (a *ℤ pos nanos_per_second) + neg_part a * nanos_per_second
      ≡ neg_part (a *ℤ pos nanos_per_second) + pos_part a * nanos_per_second
unfolding ◌*ℤ◌
*ℤ_second_parts (pos n) = ground arith
*ℤ_second_parts (negsuc n) = ground arith

*ℤ_era_parts :
    (a : ℤ)
    → pos_part (a *ℤ pos two_pow_32) + neg_part a * two_pow_32
      ≡ neg_part (a *ℤ pos two_pow_32) + pos_part a * two_pow_32
unfolding ◌*ℤ◌
*ℤ_era_parts (pos n) = ground arith
*ℤ_era_parts (negsuc n) = ground arith

-- The chosen second count is congruent to the wire's modulo 2^32, and the closest such to the pivot.
pub absolute_seconds_parts :
    (p : ℤ) (w : ℕ)
    → let a = absolute_seconds p w in
      (e : ℤ) × (pos_part a + neg_part e * two_pow_32 ≡ w + pos_part e * two_pow_32 + neg_part a)
      × (a ≤ℤ p +ℤ pos 2_147_483_648)
      × (p +ℤ pos 1 ≤ℤ a +ℤ pos 2_147_483_648)
unfolding absolute_seconds
absolute_seconds_parts p w =
    let x = p -ℤ pos w +ℤ pos 2_147_483_648 in
    let e = div_euclid x two_pow_32 in
    let d = div_era_parts x in
    let m = *ℤ_era_parts e in
    let a = +ℤ_parts (pos w) (e *ℤ pos two_pow_32) in
    let b = +ℤ_parts (p -ℤ pos w) (pos 2_147_483_648) in
    let c = -ℤ_parts p (pos w) in
    let f = +ℤ_parts p (pos 2_147_483_648) in
    let g = +ℤ_parts p (pos 1) in
    let h = +ℤ_parts (pos w +ℤ e *ℤ pos two_pow_32) (pos 2_147_483_648) in
    (e, omega arith, omega arith, omega arith)

-- Half an era, 2^31 seconds, in nanoseconds.
abbrev pub half_era : ℕ
half_era = 2_147_483_648 * nanos_per_second

-- Whatever the wire value and the pivot, the unfolded instant lies less than half an era and one
-- second from the pivot, on either side.
pub unfold_era_near :
    (t : NtpTimestamp) (pivot : NtpInstant)
    → IsTimestamp t
    → ((unfold_era t pivot).nanos ≤ℤ pivot.nanos +ℤ pos (half_era + nanos_per_second))
      × (pivot.nanos ≤ℤ (unfold_era t pivot).nanos +ℤ pos half_era)
unfolding unfold_era
unfold_era_near t pivot h =
    let p = div_euclid pivot.nanos nanos_per_second in
    let a = absolute_seconds p t.seconds in
    let near = absolute_seconds_parts p t.seconds in
    omega (
      int_laws,
      near.2,
      near.3,
      div_second_parts pivot.nanos,
      *ℤ_second_parts a,
      fraction_to_nanos-lt t.fraction h.fraction_fit,
    )

-- What a successful encoding carries.
pub to_timestamp_fields :
    (i : NtpInstant) (t : NtpTimestamp)
    → to_timestamp i ≡ ok t
    → (n : ℕ) × (i.nanos ≡ pos n)
      × (t.seconds ≡ n / nanos_per_second % two_pow_32)
      × (t.fraction ≡ fraction_from_nanos (n % nanos_per_second))
unfolding to_timestamp div_euclid rem_euclid
to_timestamp_fields i t e = go i.nanos refl
  where
    go :
        (z : ℤ)
        → i.nanos ≡ z
        → (n : ℕ) × (i.nanos ≡ pos n)
          × (t.seconds ≡ n / nanos_per_second % two_pow_32)
          × (t.fraction ≡ fraction_from_nanos (n % nanos_per_second))
    go (pos n) q = (n, q, ground arith, ground arith)
    go (negsuc n) q = absurd (ground arith)

-- The closest second count congruent to an encoded one is that one, if it is less than 2^31 away.
absolute_seconds-mod :
    (p : ℤ) (s : ℕ)
    → pos s +ℤ pos 1 ≤ℤ p +ℤ pos 2_147_483_648
    → p +ℤ pos 1 ≤ℤ pos s +ℤ pos 2_147_483_648
    → absolute_seconds p (s % two_pow_32) ≡ pos s
absolute_seconds-mod p s lo hi =
    let (e, c, l, h) = absolute_seconds_parts p (s % two_pow_32) in
    eq_of_parts _ _ (omega (int_laws, c, l, h))

-- An instant not before the NTP epoch, encoded to the wire and unfolded against any pivot that is
-- at most half an era less one second away, comes back exact or one nanosecond early.
pub unfold_era-to_timestamp :
    (i pivot : NtpInstant) (t : NtpTimestamp)
    → to_timestamp i ≡ ok t
    → i.nanos +ℤ pos nanos_per_second ≤ℤ pivot.nanos +ℤ pos half_era
    → pivot.nanos +ℤ pos nanos_per_second ≤ℤ i.nanos +ℤ pos half_era
    → ((unfold_era t pivot).nanos ≤ℤ i.nanos) × (i.nanos ≤ℤ (unfold_era t pivot).nanos +ℤ pos 1)
unfolding unfold_era
unfold_era-to_timestamp i pivot t e lo hi =
    let (n, q, s, f) = to_timestamp_fields i t e in
    let p = div_euclid pivot.nanos nanos_per_second in
    let d = div_second_parts pivot.nanos in
    let k = n / nanos_per_second in
    let u = ap pos_part q in
    let v = ap neg_part q in
    let a = absolute_seconds-mod p k (omega (int_laws, u, v, d)) (omega (int_laws, u, v, d)) in
    let b = fraction_round_trip_bounds (n % nanos_per_second) (omega arith) in
    rw (s, f, a, q) (omega (int_laws, *ℤ_second_parts (pos k), b))
