-- ===== src/Errors.antt =====
-- crates/heeler-core/src/error.rs: the errors of the packet and configuration layers. A
-- `FixedPointOutOfRange` carries the milliseconds that did not fit, an `InvalidReferenceId` the
-- bytes of the text.
use heeler.Common.{ℕ, List}
use heeler.Common.Int.{ℤ}

pub data ParseError : Type 0 where
  too_short : ℕ → ParseError

pub data ConfigError : Type 0 where
  stratum_zero : ConfigError
  stratum_too_high : ℕ → ConfigError
  invalid_reference_id : List ℕ → ConfigError
  stratum_one_needs_reference_id : ConfigError
  invalid_leap_indicator : ℕ → ConfigError
  fixed_point_out_of_range : ℤ → ConfigError
