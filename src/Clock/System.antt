-- ===== src/Clock/System.antt =====
-- clock.rs, `SystemClockSource`: the wall clock, checked for jumps against the monotonic clock. The
-- mutexes and the atomic flag are plain fields, since each operation runs under its lock. The k-th
-- call of `SystemTime::now` returns `wall k`.
use heeler.Common.{
  ℕ, ◌+◌, ◌-◌, ◌*◌, Bool, true, false, ◌||◌, if◌then◌else◌, Option, none, some, Result, ok, err,
  map_err, ◌>>=◌,
}
use heeler.Common.Int.{ℤ, pos, ◌-ℤ◌, ltb_ℤ, sub_ℕ}
use heeler.Timestamp.{
  NtpInstant, NtpTimestamp, TimestampError, from_system_time, to_timestamp, nanos_since,
}
use heeler.Response.{ClockStatus, synchronised, unsynchronised}
use heeler.Clock.{ClockError, ClockReading, unrepresentable, from_instant}

pub record JumpPolicy : Type 0 where
  pub max_backward : ℕ
  pub max_forward : ℕ
  pub mark_unsynchronised_on_jump : Bool

pub record ClockJump : Type 0 where
  pub drift_nanos : ℤ
  pub marked_unsynchronised : Bool

pub record SystemClockSource : Type 0 where
  pub policy : JumpPolicy
  pub precision : ℤ
  pub root_dispersion : ℕ
  pub is_synchronised : Bool
  pub reference : Option NtpTimestamp
  pub last_wall : NtpInstant
  pub last_mono : ℕ
  pub reads : ℕ

abbrev millis : ℕ → ℕ
millis n = n * 1_000_000

-- `JumpPolicy::default()`.
abbrev pub default_jump_policy : JumpPolicy
default_jump_policy = record {
  max_backward = millis 250;
  max_forward = millis 5000;
  mark_unsynchronised_on_jump = true;
}

-- `new`, at a wall reading and a monotonic instant; `precision` is the measured one.
unfoldable pub new : JumpPolicy → ℕ → ℤ → ℤ → ℕ → Result ClockError SystemClockSource
new policy root_dispersion precision wall mono = do
  let now_wall = from_system_time wall
  reference ← map_err unrepresentable (to_timestamp now_wall)
  ok (record {
    policy = policy;
    precision = precision;
    root_dispersion = root_dispersion;
    is_synchronised = true;
    reference = some reference;
    last_wall = now_wall;
    last_mono = mono;
    reads = 0;
  })

-- The wall clock's movement less the monotonic clock's, since the last check.
unfoldable pub drift_since : SystemClockSource → ℤ → ℕ → ℤ
unfolding nanos_since
drift_since s wall mono =
    nanos_since (from_system_time wall) s.last_wall -ℤ pos (mono - s.last_mono)

unfoldable pub is_jump : JumpPolicy → ℤ → Bool
is_jump policy drift =
    ltb_ℤ drift (sub_ℕ 0 policy.max_backward) || ltb_ℤ (pos policy.max_forward) drift

abbrev pub refreshed :
    Option NtpTimestamp → Result TimestampError NtpTimestamp → Option NtpTimestamp
refreshed old (ok ts) = some ts
refreshed old (err _) = old

-- `check_jump`, at a wall reading and a monotonic instant.
unfoldable pub check_jump : SystemClockSource → ℤ → ℕ → Option ClockJump × SystemClockSource
check_jump s wall mono =
    let now_wall = from_system_time wall in
    let drift = drift_since s wall mono in
    let moved = record s { last_wall = now_wall; last_mono = mono } in
    let marked = s.policy.mark_unsynchronised_on_jump in
    if is_jump s.policy drift
    then (
      some (record { drift_nanos = drift; marked_unsynchronised = marked }),
      record moved { is_synchronised = if marked then false else s.is_synchronised },
    )
    else (
      none,
      record moved {
        reference =
            if s.is_synchronised
            then refreshed s.reference (to_timestamp now_wall)
            else s.reference;
      },
    )

unfoldable pub now :
    (ℕ → ℤ) → SystemClockSource → Result ClockError ClockReading × SystemClockSource
now wall s = (from_instant (from_system_time (wall s.reads)), record s { reads = s.reads + 1 })

unfoldable pub status : SystemClockSource → ClockStatus
status s = if s.is_synchronised then synchronised else unsynchronised
