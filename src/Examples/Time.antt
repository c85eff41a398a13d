-- ===== src/Examples/Time.antt =====
-- The results on timestamps, clocks and short formats, at concrete values.
use heeler.Common.{
  ℕ, ◌+◌, ◌-◌, ◌*◌, ◌^◌, ◌≡◌, refl, true, false, ◌⊎◌, List, [], ◌∷◌, some, none, ok, arith,
}
use heeler.Common.Int.{ℤ, pos, negsuc, ◌≤ℤ◌, ◌+ℤ◌, ◌-ℤ◌, div_euclid, rem_euclid}
use heeler.Timestamp.{
  NtpTimestamp, NtpInstant, fraction_from_nanos, fraction_to_nanos, unfold_era, to_timestamp,
  from_system_time,
}
use heeler.Timestamp.Fraction.{fraction_round_trip}
use heeler.Timestamp.Era.{unfold_era-to_timestamp}
use heeler.Packet.Short.{unsigned_from_millis, unsigned_from_millis_wraps}
use heeler.Clock.System.{SystemClockSource, check_jump, drift_since, is_jump, default_jump_policy}
use heeler.Clock.Jumps.{Within, Outside, check_jump_exact, undetected_drift, run_checks, Quiet}

fraction_round_trip_example : fraction_to_nanos (fraction_from_nanos 3) ≡ 2
fraction_round_trip_example = fraction_round_trip 3 (omega arith)

abbrev pivot : NtpInstant
pivot = record { nanos = pos 8_100_000_000_000_000_000 }

abbrev later : NtpInstant
later = record { nanos = pos 8_100_000_000_000_000_123 }

abbrev later_stamp : NtpTimestamp
later_stamp = record { seconds = 8_100_000_000 - 4_294_967_296; fraction = 528 }

to_timestamp-later : to_timestamp later ≡ ok later_stamp
unfolding to_timestamp div_euclid rem_euclid
to_timestamp-later = refl

unfold_era-to_timestamp_example :
    ((unfold_era later_stamp pivot).nanos ≤ℤ later.nanos)
    × (later.nanos ≤ℤ (unfold_era later_stamp pivot).nanos +ℤ pos 1)
unfolding ◌+ℤ◌
unfold_era-to_timestamp_example =
    unfold_era-to_timestamp later pivot later_stamp to_timestamp-later (omega arith) (omega arith)

five_millis : unsigned_from_millis (pos 5) ≡ ok 327
unfolding unsigned_from_millis
five_millis = refl

unsigned_from_millis_wraps_example : unsigned_from_millis (pos (5 + 2 ^ 48)) ≡ ok 327
unsigned_from_millis_wraps_example = unsigned_from_millis_wraps 5 327 five_millis

abbrev system : SystemClockSource
system = record {
  policy = default_jump_policy;
  precision = negsuc 19;
  root_dispersion = 5_000_000;
  is_synchronised = true;
  reference = none;
  last_wall = from_system_time (pos 0);
  last_mono = 0;
  reads = 0;
}

-- The wall clock is 100 ms ahead after a second, then 200 ms after another.
abbrev checks : List (ℤ × ℕ)
checks = (pos 1_100_000_000, 1_000_000_000) ∷ (pos 2_200_000_000, 2_000_000_000) ∷ []

check_jump_exact_example :
    let (jump, after) = check_jump system (pos 9_000_000_000) 1_000_000_000 in
    let now = from_system_time (pos 9_000_000_000) in
    let drift = now.nanos -ℤ system.last_wall.nanos -ℤ pos (1_000_000_000 - system.last_mono) in
    (after.last_wall ≡ from_system_time (pos 9_000_000_000))
    × (after.last_mono ≡ 1_000_000_000)
    × (((jump ≡ none) × Within system.policy drift × (after.is_synchronised ≡ true))
        ⊎ ((jump ≡ some (record { drift_nanos = drift; marked_unsynchronised = true }))
            × Outside system.policy drift
            × (after.is_synchronised ≡ false)
            × (after.reference ≡ none)))
check_jump_exact_example = check_jump_exact system (pos 9_000_000_000) 1_000_000_000

checks-Quiet : Quiet system checks
unfolding check_jump drift_since from_system_time is_jump ◌-ℤ◌ ◌+ℤ◌
checks-Quiet = (refl, omega arith, (refl, omega arith, tt))

undetected_drift_example :
    let t = run_checks system checks in
    (t.last_wall.nanos +ℤ pos 0
      ≤ℤ system.last_wall.nanos +ℤ pos (t.last_mono + 2 * system.policy.max_forward))
    × (system.last_wall.nanos +ℤ pos t.last_mono
        ≤ℤ t.last_wall.nanos +ℤ pos (0 + 2 * system.policy.max_backward))
undetected_drift_example = undetected_drift system checks checks-Quiet
