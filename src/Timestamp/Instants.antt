-- ===== src/Timestamp/Instants.antt =====
-- timestamp.rs, `NtpInstant`: the platform's clock time to an instant and back, and the wire form.
use heeler.Common.{
  ◌*◌, ◌/◌, ◌%◌, ◌^◌, ◌<◌, ◌≡◌, refl, Bool, true, ok, err, arith, ◌⊎◌, inl, inr, sym, ap, ◌∙◌, leb,
  if◌then◌else◌, false,
}
use heeler.Common.Int.{
  ℤ, pos, negsuc, ◌+ℤ◌, ◌-ℤ◌, ◌≤ℤ◌, leb_ℤ, unsigned_abs, div_euclid, rem_euclid, pos_part,
}
use heeler.Timestamp.{
  NtpInstant, NtpTimestamp, IsTimestamp, from_system_time, to_system_time, checked_system_time,
  as_unix_nanos, from_unix_nanos, to_timestamp, nanos_per_second, before_ntp_epoch,
  out_of_system_time_range, two_pow_32, epoch_offset, fraction_from_nanos,
}
use mathlib.Core.Path.{subst}
use heeler.Timestamp.Fraction.{fraction_from_nanos-lt}

unix_round_trip : (z : ℤ) → as_unix_nanos (from_unix_nanos z) ≡ z
unfolding as_unix_nanos from_unix_nanos ◌+ℤ◌ ◌-ℤ◌
unix_round_trip z = ground arith

from_system_time_lem : (time : ℤ) → from_system_time time ≡ from_unix_nanos time
unfolding from_system_time
from_system_time_lem (pos n) = ground arith
from_system_time_lem (negsuc n) = ground arith

instant_round_trip : (i : NtpInstant) → from_unix_nanos (as_unix_nanos i) ≡ i
unfolding as_unix_nanos from_unix_nanos ◌+ℤ◌ ◌-ℤ◌
instant_round_trip i = ground arith

-- The magnitude, split into seconds and nanoseconds and joined again, is the time itself.
epoch_offset_lem : (z : ℤ) → epoch_offset z ≡ z
unfolding epoch_offset
epoch_offset_lem (pos n) = ground arith
epoch_offset_lem (negsuc n) = ground arith

checked_system_time_lem :
    (representable : ℤ → Bool) (z : ℤ)
    → checked_system_time representable z ≡ (
        if leb (2 ^ 64) (unsigned_abs z / nanos_per_second)
        then err out_of_system_time_range
        else if representable z
        then ok z
        else err out_of_system_time_range)
unfolding checked_system_time
checked_system_time_lem representable z = rw (epoch_offset_lem z) (ground arith)

-- A clock time that the platform holds, with fewer than 2^64 seconds from the Unix epoch, goes to an
-- instant and comes back unchanged, before 1970 too.
pub to_system_time-from_system_time :
    (representable : ℤ → Bool) (time : ℤ)
    → representable time ≡ true
    → unsigned_abs time < 2 ^ 64 * nanos_per_second
    → to_system_time representable (from_system_time time) ≡ ok time
unfolding to_system_time
to_system_time-from_system_time representable time r h =
    rw (from_system_time_lem, unix_round_trip, checked_system_time_lem representable time)
      (ground arith)

-- An instant that converts to a clock time is the instant of that time, and the platform holds it.
pub from_system_time-to_system_time :
    (representable : ℤ → Bool) (i : NtpInstant) (time : ℤ)
    → to_system_time representable i ≡ ok time
    → (from_system_time time ≡ i) × (representable time ≡ true)
unfolding to_system_time
from_system_time-to_system_time representable i time e =
    let (t, r) : (as_unix_nanos i ≡ time) × (representable time ≡ true) =
      ground (arith, checked_system_time_lem representable (as_unix_nanos i)) in
    (from_system_time_lem time ∙ ap from_unix_nanos (sym t) ∙ instant_round_trip i, r)

-- An instant has a wire form exactly if it is not before 1900, and its fields fit their 32 bits.
pub to_timestamp_total :
    (i : NtpInstant)
    → ((i.nanos ≤ℤ negsuc 0) × (to_timestamp i ≡ err before_ntp_epoch))
      ⊎ ((pos 0 ≤ℤ i.nanos) × (t : NtpTimestamp) × (to_timestamp i ≡ ok t) × IsTimestamp t)
unfolding to_timestamp
to_timestamp_total i = go (leb_ℤ (pos 0) i.nanos) refl
  where
    fields : NtpTimestamp
    fields = record {
      seconds = pos_part (div_euclid i.nanos nanos_per_second) % two_pow_32;
      fraction = fraction_from_nanos (rem_euclid i.nanos nanos_per_second);
    }

    go :
        (b : Bool)
        → leb_ℤ (pos 0) i.nanos ≡ b
        → ((i.nanos ≤ℤ negsuc 0) × (to_timestamp i ≡ err before_ntp_epoch))
          ⊎ ((pos 0 ≤ℤ i.nanos) × (t : NtpTimestamp) × (to_timestamp i ≡ ok t) × IsTimestamp t)
    go true e = inr (
      ground arith,
      fields,
      ground arith,
      record {
        seconds_fit = omega arith;
        fraction_fit = fraction_from_nanos-lt (rem_euclid i.nanos nanos_per_second);
      },
    )
    go false e = inl (ground arith, ground arith)

pub to_timestamp-IsTimestamp :
    (i : NtpInstant) (t : NtpTimestamp) → to_timestamp i ≡ ok t → IsTimestamp t
to_timestamp-IsTimestamp i t e = elim (to_timestamp_total i) [
  | inl (_, f) ↦ cc
  | inr (_, u, f, h) ↦ subst IsTimestamp (cc) h
]
