-- ===== src/Timestamp.antt =====
-- crates/heeler-core/src/timestamp.rs: NTP wire timestamps and absolute instants. An instant's i128
-- count of nanoseconds is an integer without bounds, as is a `SystemTime`: its signed distance in
-- nanoseconds from the Unix epoch. The reading of `SystemTime::now` is the caller's argument, and
-- which times the platform can represent is an argument of `to_system_time`.
pub mod Fraction
pub mod Wire
pub mod Era
pub mod Instants
use heeler.Common.{
  ℕ, ◌+◌, ◌*◌, ◌/◌, ◌%◌, ◌^◌, Bool, ◌&&◌, ltb, leb, ◌==◌, if◌then◌else◌, List, [], ◌∷◌, ◌++◌,
  Option, none, some, Result, ok, err, arith, ok_or, ◌>>=◌, ◌>>◌, reject_if,
}
use heeler.Common.Int.{
  ℤ, pos, negsuc, ◌+ℤ◌, ◌-ℤ◌, ◌*ℤ◌, ltb_ℤ, leb_ℤ, div_euclid, rem_euclid, unsigned_abs, pos_part,
  neg_part, sub_ℕ,
}
use heeler.Common.Words.{u32_from_be, u32_to_be, IsU32}

pub data TimestampError : Type 0 where
  before_ntp_epoch out_of_system_time_range : TimestampError

abbrev pub unix_to_ntp_offset_seconds : ℕ
unix_to_ntp_offset_seconds = 2_208_988_800

abbrev pub nanos_per_second : ℕ
nanos_per_second = 1_000_000_000

abbrev pub two_pow_32 : ℕ
two_pow_32 = 4_294_967_296

pub record NtpTimestamp : Type 0 where
  pub seconds : ℕ
  pub fraction : ℕ

-- Both fields are u32 values.
pub record IsTimestamp (t : NtpTimestamp) : Type 0 where
  pub seconds_fit : IsU32 t.seconds
  pub fraction_fit : IsU32 t.fraction

-- `NtpTimestamp::ZERO`.
abbrev pub zero_timestamp : NtpTimestamp
zero_timestamp = record { seconds = 0; fraction = 0 }

unfoldable pub is_zero : NtpTimestamp → Bool
is_zero t = t.seconds == 0 && t.fraction == 0

-- From the eight bytes of a packet field, and back.
unfoldable pub from_be_bytes : ℕ → ℕ → ℕ → ℕ → ℕ → ℕ → ℕ → ℕ → NtpTimestamp
from_be_bytes a b c d e f g h = record {
  seconds = u32_from_be a b c d;
  fraction = u32_from_be e f g h;
}

unfoldable pub to_be_bytes : NtpTimestamp → List ℕ
unfolding u32_to_be
to_be_bytes t = u32_to_be t.seconds ++ u32_to_be t.fraction

-- The halves of the u64 do not overlap, so `|` is a sum.
unfoldable pub to_bits : NtpTimestamp → ℕ
to_bits t = t.seconds * two_pow_32 + t.fraction

unfoldable pub from_bits : ℕ → NtpTimestamp
from_bits bits = record { seconds = bits / two_pow_32 % two_pow_32; fraction = bits % two_pow_32 }

unfoldable pub fraction_from_nanos : ℕ → ℕ
fraction_from_nanos nanos =
    let sub = nanos % nanos_per_second in sub * two_pow_32 / nanos_per_second % two_pow_32

unfoldable pub fraction_to_nanos : ℕ → ℕ
fraction_to_nanos fraction = fraction * nanos_per_second / two_pow_32 % two_pow_32

pub record NtpInstant : Type 0 where
  pub nanos : ℤ

abbrev pub epoch : NtpInstant
epoch = record { nanos = pos 0 }

-- The first lines of `unfold`: the era that minimises |wire + era * 2^32 - pivot|, and the absolute
-- second count in it.
unfoldable pub absolute_seconds : ℤ → ℕ → ℤ
absolute_seconds pivot_seconds wire_seconds =
    let wire = pos wire_seconds in
    let era = div_euclid (pivot_seconds -ℤ wire +ℤ pos (two_pow_32 / 2)) two_pow_32 in
    wire +ℤ era *ℤ pos two_pow_32

unfoldable pub unfold_era : NtpTimestamp → NtpInstant → NtpInstant
unfold_era t pivot =
    let seconds = absolute_seconds (div_euclid pivot.nanos nanos_per_second) t.seconds in
    record { nanos = seconds *ℤ pos nanos_per_second +ℤ pos (fraction_to_nanos t.fraction) }

abbrev unix_offset_nanos : ℤ
unix_offset_nanos = pos (unix_to_ntp_offset_seconds * nanos_per_second)

unfoldable pub from_unix_nanos : ℤ → NtpInstant
from_unix_nanos unix_nanos = record { nanos = unix_nanos +ℤ unix_offset_nanos }

unfoldable pub as_unix_nanos : NtpInstant → ℤ
as_unix_nanos i = i.nanos -ℤ unix_offset_nanos

-- `time.duration_since(UNIX_EPOCH)`: `ok` with the distance after the epoch, `err` before it.
abbrev duration_since_epoch : ℤ → Result ℕ ℕ
duration_since_epoch time = if ltb_ℤ time (pos 0) then err (neg_part time) else ok (pos_part time)

unfoldable pub from_system_time : ℤ → NtpInstant
unfolding from_unix_nanos
from_system_time time = elim (duration_since_epoch time) [
  | ok after ↦ from_unix_nanos (pos after)
  | err before ↦ from_unix_nanos (sub_ℕ 0 before)
]

-- `representable` says which times, in nanoseconds from the Unix epoch, the platform's
-- `SystemTime` holds; the checked sum and difference fail outside.
unfoldable pub epoch_offset : ℤ → ℤ
epoch_offset unix_nanos =
    let magnitude = unsigned_abs unix_nanos in
    let seconds = magnitude / nanos_per_second in
    let sub_nanos = magnitude % nanos_per_second in
    let duration = seconds * nanos_per_second + sub_nanos in
    if leb_ℤ (pos 0) unix_nanos then pos duration else sub_ℕ 0 duration

unfoldable pub checked_system_time : (ℤ → Bool) → ℤ → Result TimestampError ℤ
checked_system_time representable unix_nanos = do
  let seconds = unsigned_abs unix_nanos / nanos_per_second
  reject_if (leb (2 ^ 64) seconds) out_of_system_time_range
  let result = epoch_offset unix_nanos
  ok_or (if representable result then some result else none) out_of_system_time_range

unfoldable pub to_system_time : (ℤ → Bool) → NtpInstant → Result TimestampError ℤ
to_system_time representable i = checked_system_time representable (as_unix_nanos i)

unfoldable pub to_timestamp : NtpInstant → Result TimestampError NtpTimestamp
unfolding fraction_from_nanos
to_timestamp i =
    if ltb_ℤ i.nanos (pos 0)
    then err before_ntp_epoch
    else let seconds = div_euclid i.nanos nanos_per_second in
      let sub_nanos = rem_euclid i.nanos nanos_per_second in
      ok (record {
        seconds = pos_part seconds % two_pow_32;
        fraction = fraction_from_nanos sub_nanos;
      })

unfoldable pub add_nanos : NtpInstant → ℤ → NtpInstant
add_nanos i delta = record { nanos = i.nanos +ℤ delta }

unfoldable pub nanos_since : NtpInstant → NtpInstant → ℤ
nanos_since a b = a.nanos -ℤ b.nanos
