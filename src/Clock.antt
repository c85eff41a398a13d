-- ===== src/Clock.antt =====
-- crates/heeler-core/src/clock.rs: readings, the `ClockSource` trait as an interface with the laws
-- that the server relies on, and its two implementations. A duration and an `Instant` are numbers of
-- nanoseconds. `ClockStatus` stands in `Response`, which uses it first. The precision
-- is measured in Precision.
pub mod System
pub mod Jumps
pub mod Mock
pub mod Precision
use heeler.Common.{ℕ, ◌≡◌, Result, ok, err, map_err, ◌>>=◌, List, Option, some, arith}
use heeler.Common.Int.{ℤ}
use heeler.Timestamp.{NtpInstant, NtpTimestamp, IsTimestamp, TimestampError, to_timestamp}
use heeler.Timestamp.Instants.{to_timestamp-IsTimestamp}
use heeler.Response.{ClockStatus}

pub data ClockError : Type 0 where
  system_clock : List ℕ → ClockError
  unrepresentable : TimestampError → ClockError
  mock_exhausted : ClockError

pub record ClockReading : Type 0 where
  pub instant : NtpInstant
  pub timestamp : NtpTimestamp

-- `ClockReading::from_instant`.
unfoldable pub from_instant : NtpInstant → Result ClockError ClockReading
from_instant instant = do
  timestamp ← map_err unrepresentable (to_timestamp instant)
  ok (record { instant = instant; timestamp = timestamp })

-- The trait, over the source's state. A reading may change the state: the script of a mock, or how
-- often the operating system has been asked. `IsSound` is the implementation's invariant.
pub record ClockSource (S : Type 0) : Type 1 where
  pub now : S → Result ClockError ClockReading × S
  pub status : S → ClockStatus
  pub reference_timestamp : S → Option NtpTimestamp
  pub estimated_precision : S → ℤ
  pub estimated_root_dispersion : S → ℕ
  pub IsSound : S → Type 0
  pub now_sound : (s : S) → IsSound s → IsSound (now s).1
  pub now_fits : (s : S) (r : ClockReading) → (now s).0 ≡ ok r → IsTimestamp r.timestamp
  pub reference_fits :
      (s : S) (t : NtpTimestamp) → IsSound s → reference_timestamp s ≡ some t → IsTimestamp t

pub from_instant-IsTimestamp :
    (i : NtpInstant) (r : ClockReading) → from_instant i ≡ ok r → IsTimestamp r.timestamp
unfolding from_instant
from_instant-IsTimestamp i r e = ground (arith, to_timestamp-IsTimestamp i r.timestamp)
