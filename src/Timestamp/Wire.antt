-- ===== src/Timestamp/Wire.antt =====
-- timestamp.rs, the wire form of a timestamp: eight bytes, or one u64.
use heeler.Common.{ℕ, ◌^◌, ◌<◌, ◌≡◌, [], ◌∷◌, ◌++◌, arith, IsByte}
use mathlib.Core.Path.{ap₂}
use heeler.Common.Words.{byte_of, u32_from-to, u32_to-from, u32_from_be-IsU32}
use heeler.Timestamp.{NtpTimestamp, IsTimestamp, from_be_bytes, to_be_bytes, to_bits, from_bits}

-- The u64 form of a timestamp whose fields are u32 values gives the timestamp back.
pub from_bits-to_bits : (t : NtpTimestamp) → IsTimestamp t → from_bits (to_bits t) ≡ t
unfolding from_bits to_bits
from_bits-to_bits t h = ground arith

pub to_bits-from_bits : (b : ℕ) → b < 2 ^ 64 → to_bits (from_bits b) ≡ b
unfolding from_bits to_bits
to_bits-from_bits b h = omega arith

-- Reading the eight bytes that `to_be_bytes` writes.
pub from_be-to_be :
    (t : NtpTimestamp)
    → IsTimestamp t
    → from_be_bytes
        (byte_of t.seconds 3)
        (byte_of t.seconds 2)
        (byte_of t.seconds 1)
        (byte_of t.seconds 0)
        (byte_of t.fraction 3)
        (byte_of t.fraction 2)
        (byte_of t.fraction 1)
        (byte_of t.fraction 0)
      ≡ t
unfolding from_be_bytes
from_be-to_be t h = rw (u32_from-to t.seconds h.seconds_fit, u32_from-to t.fraction h.fraction_fit)

pub to_be-from_be :
    (a b c d e f g h : ℕ)
    → IsByte a × IsByte b × IsByte c × IsByte d × IsByte e × IsByte f × IsByte g × IsByte h
    → to_be_bytes (from_be_bytes a b c d e f g h) ≡ a ∷ b ∷ c ∷ d ∷ e ∷ f ∷ g ∷ h ∷ []
unfolding from_be_bytes to_be_bytes
to_be-from_be a b c d e f g h k =
    ap₂ ◌++◌ (u32_to-from a b c d k.0 k.1 k.2 k.3) (u32_to-from e f g h k.4 k.5 k.6 k.7)

pub from_be_bytes-IsTimestamp :
    (a b c d e f g h : ℕ)
    → IsByte a × IsByte b × IsByte c × IsByte d × IsByte e × IsByte f × IsByte g × IsByte h
    → IsTimestamp (from_be_bytes a b c d e f g h)
unfolding from_be_bytes
from_be_bytes-IsTimestamp a b c d e f g h k = record {
  seconds_fit = u32_from_be-IsU32 a b c d k.0 k.1 k.2 k.3;
  fraction_fit = u32_from_be-IsU32 e f g h k.4 k.5 k.6 k.7;
}
