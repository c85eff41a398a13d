-- ===== src/Timestamp/Fraction.antt =====
-- timestamp.rs, `fraction_from_nanos` and `fraction_to_nanos`: how exact the 32-bit fraction is.
use heeler.Common.{ℕ, ◌+◌, ◌-◌, ◌%◌, ◌≤◌, ◌<◌, ◌≡◌, ◌==◌, if◌then◌else◌, arith}
use heeler.Timestamp.{fraction_from_nanos, fraction_to_nanos, nanos_per_second, two_pow_32}

-- For a nanosecond count below one second the fraction read back is the count itself exactly when
-- 5^9 = 1953125 divides it, and one nanosecond less otherwise.
pub fraction_round_trip :
    (n : ℕ)
    → n < nanos_per_second
    → fraction_to_nanos (fraction_from_nanos n) ≡ (if n % 1_953_125 == 0 then n else n - 1)
unfolding fraction_from_nanos fraction_to_nanos
fraction_round_trip n h = ground arith

-- A fraction turned into nanoseconds and back loses at most five units of 2^-32 seconds and never
-- grows.
pub nanos_round_trip :
    (f : ℕ)
    → f < two_pow_32
    → (fraction_from_nanos (fraction_to_nanos f) ≤ f)
      × (f ≤ fraction_from_nanos (fraction_to_nanos f) + 5)
unfolding fraction_from_nanos fraction_to_nanos
nanos_round_trip f h = (omega arith, omega arith)

pub fraction_to_nanos-lt : (f : ℕ) → f < two_pow_32 → fraction_to_nanos f < nanos_per_second
unfolding fraction_to_nanos
fraction_to_nanos-lt f h = omega arith

pub fraction_from_nanos-lt : (n : ℕ) → fraction_from_nanos n < two_pow_32
unfolding fraction_from_nanos
fraction_from_nanos-lt n = omega arith

pub fraction_round_trip_bounds :
    (n : ℕ)
    → n < nanos_per_second
    → (fraction_to_nanos (fraction_from_nanos n) ≤ n)
      × (n ≤ fraction_to_nanos (fraction_from_nanos n) + 1)
fraction_round_trip_bounds n h = ground (arith, fraction_round_trip n)
