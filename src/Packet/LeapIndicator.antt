-- ===== src/Packet/LeapIndicator.antt =====
-- crates/heeler-core/src/packet.rs, `LeapIndicator`: the top two bits of a packet's first byte.
use heeler.Common.{
  ℕ, ◌%◌, ◌<◌, ◌≡◌, refl, leb, ◌==◌, if◌then◌else◌, bit_and, arith, Result, ok, err, IsByte,
}
use heeler.Common.Words.{mask_three}
use heeler.Errors.{ConfigError, invalid_leap_indicator}

pub data LeapIndicator : Type 0 where
  no_warning last_minute_61 last_minute_59 unsynchronised : LeapIndicator

unfoldable pub from_bits : ℕ → LeapIndicator
from_bits bits =
    let b = bit_and bits 0b11 in
    if b == 0
    then no_warning
    else if b == 1
    then last_minute_61
    else if b == 2
    then last_minute_59
    else unsynchronised

unfoldable pub to_bits : LeapIndicator → ℕ
to_bits no_warning = 0
to_bits last_minute_61 = 1
to_bits last_minute_59 = 2
to_bits unsynchronised = 3

unfoldable pub from_config : ℕ → Result ConfigError LeapIndicator
unfolding from_bits
from_config value = if leb value 3 then ok (from_bits value) else err (invalid_leap_indicator value)

pub to_bits-lt : (l : LeapIndicator) → to_bits l < 4
unfolding to_bits
to_bits-lt no_warning = omega arith
to_bits-lt last_minute_61 = omega arith
to_bits-lt last_minute_59 = omega arith
to_bits-lt unsynchronised = omega arith

pub from_bits-to_bits : (l : LeapIndicator) → from_bits (to_bits l) ≡ l
unfolding from_bits to_bits
from_bits-to_bits no_warning = refl
from_bits-to_bits last_minute_61 = refl
from_bits-to_bits last_minute_59 = refl
from_bits-to_bits unsynchronised = refl

pub to_bits-from_bits : (b : ℕ) → IsByte b → to_bits (from_bits b) ≡ b % 4
unfolding from_bits to_bits
to_bits-from_bits b h = ground (arith, mask_three b h)
