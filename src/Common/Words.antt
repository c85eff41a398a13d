-- ===== src/Common/Words.antt =====
-- Machine words as native numbers and integers: big-endian bytes and the casts between widths.
use Prim.Native.Nat.{ℕ, ◌+◌, ◌-◌, ◌*◌, ◌/◌, ◌%◌, ◌^◌, ◌<◌, bit_and}
use mathlib.Core.Path.{◌≡◌, refl}
use mathlib.Core.Bool.{true}
use mathlib.Core.List.{List, [], ◌∷◌}
use native.Mathlib.Omega.{arith}
use heeler.Common.Tests.{ltb, if◌then◌else◌, ◌==◌, ==_iff, passed_under, passed_under_lem}
use heeler.Common.Lists.{IsByte}
use heeler.Common.Int.{ℤ, pos, negsuc, sub_ℕ, ◌≤ℤ◌, rem_euclid}

abbrev pub IsU32 : ℕ → Type 0
IsU32 v = v < 2 ^ 32

abbrev pub IsI8 : ℤ → Type 0
IsI8 v = (negsuc 127 ≤ℤ v) × (v ≤ℤ pos 127)

abbrev pub IsI32 : ℤ → Type 0
IsI32 v = (negsuc (2 ^ 31 - 1) ≤ℤ v) × (v ≤ℤ pos (2 ^ 31 - 1))

-- `u32::from_be_bytes` on four bytes, and `to_be_bytes`.
unfoldable pub u32_from_be : ℕ → ℕ → ℕ → ℕ → ℕ
u32_from_be a b c d = ((a * 256 + b) * 256 + c) * 256 + d

abbrev pub byte_of : ℕ → ℕ → ℕ
byte_of v k = v / 256 ^ k % 256

unfoldable pub u32_to_be : ℕ → List ℕ
u32_to_be v = byte_of v 3 ∷ byte_of v 2 ∷ byte_of v 1 ∷ byte_of v 0 ∷ []

-- `as i8` and `as i32` on a bit pattern, `as u8` and `as u32` on a signed value.
unfoldable pub as_i8 : ℕ → ℤ
as_i8 b = if ltb b 128 then pos b else sub_ℕ b 256

unfoldable pub as_u8 : ℤ → ℕ
as_u8 (pos n) = n % 256
as_u8 (negsuc n) = 255 - n % 256

unfoldable pub as_i32 : ℕ → ℤ
as_i32 w = if ltb w (2 ^ 31) then pos w else sub_ℕ w (2 ^ 32)

unfoldable pub as_u32 : ℤ → ℕ
as_u32 (pos n) = n % 2 ^ 32
as_u32 (negsuc n) = 2 ^ 32 - 1 - n % 2 ^ 32

-- Wrap-around of an i64 and of a u64 product, as in a release build.
unfoldable pub wrap_i64 : ℤ → ℤ
wrap_i64 z = let r = rem_euclid z (2 ^ 64) in if ltb r (2 ^ 63) then pos r else sub_ℕ r (2 ^ 64)

abbrev pub wrap_u64 : ℕ → ℕ
wrap_u64 n = n % 2 ^ 64

pub u32_from-to :
    (v : ℕ) → IsU32 v → u32_from_be (byte_of v 3) (byte_of v 2) (byte_of v 1) (byte_of v 0) ≡ v
unfolding u32_from_be
u32_from-to v h = omega arith

pub u32_to-from :
    (a b c d : ℕ)
    → IsByte a
    → IsByte b
    → IsByte c
    → IsByte d
    → u32_to_be (u32_from_be a b c d) ≡ a ∷ b ∷ c ∷ d ∷ []
unfolding u32_from_be u32_to_be
u32_to-from a b c d ha hb hc hd = ground arith

pub u32_from_be-IsU32 :
    (a b c d : ℕ) → IsByte a → IsByte b → IsByte c → IsByte d → IsU32 (u32_from_be a b c d)
unfolding u32_from_be
u32_from_be-IsU32 a b c d ha hb hc hd = omega arith

pub as_i8-as_u8 : (v : ℤ) → IsI8 v → as_i8 (as_u8 v) ≡ v
unfolding as_i8 as_u8
as_i8-as_u8 (pos n) h = ground arith
as_i8-as_u8 (negsuc n) h = ground arith

pub as_u8-as_i8 : (b : ℕ) → IsByte b → as_u8 (as_i8 b) ≡ b
unfolding as_i8 as_u8
as_u8-as_i8 b h = ground arith

pub as_i8-IsI8 : (b : ℕ) → IsByte b → IsI8 (as_i8 b)
unfolding as_i8
as_i8-IsI8 b h = ground arith

pub as_u8-IsByte : (v : ℤ) → IsByte (as_u8 v)
unfolding as_u8
as_u8-IsByte (pos n) = omega arith
as_u8-IsByte (negsuc n) = omega arith

pub as_i32-as_u32 : (v : ℤ) → IsI32 v → as_i32 (as_u32 v) ≡ v
unfolding as_i32 as_u32
as_i32-as_u32 (pos n) h = ground arith
as_i32-as_u32 (negsuc n) h = ground arith

pub as_u32-as_i32 : (w : ℕ) → IsU32 w → as_u32 (as_i32 w) ≡ w
unfolding as_i32 as_u32
as_u32-as_i32 w h = ground arith

pub as_i32-IsI32 : (w : ℕ) → IsU32 w → IsI32 (as_i32 w)
unfolding as_i32
as_i32-IsI32 w h = ground arith

pub as_u32-IsU32 : (v : ℤ) → IsU32 (as_u32 v)
unfolding as_u32
as_u32-IsU32 (pos n) = omega arith
as_u32-IsU32 (negsuc n) = omega arith

-- The masks of the packet's first byte, as remainders; tables of 256 entries.
mask_three_table : passed_under (λ x. bit_and x 3 == x % 4) 256 ≡ true
unfolding passed_under
mask_three_table = refl

mask_seven_table : passed_under (λ x. bit_and x 7 == x % 8) 256 ≡ true
unfolding passed_under
mask_seven_table = refl

pub mask_three : (x : ℕ) → IsByte x → bit_and x 3 ≡ x % 4
mask_three x h = (==_iff _ _).0 (passed_under_lem _ 256 x h mask_three_table)

pub mask_seven : (x : ℕ) → IsByte x → bit_and x 7 ≡ x % 8
mask_seven x h = (==_iff _ _).0 (passed_under_lem _ 256 x h mask_seven_table)

-- A value within the i64 range does not wrap.
pub wrap_i64_id : (z : ℤ) → negsuc (2 ^ 63 - 1) ≤ℤ z → z ≤ℤ pos (2 ^ 63 - 1) → wrap_i64 z ≡ z
unfolding wrap_i64 rem_euclid
wrap_i64_id (pos n) lo hi = ground arith
wrap_i64_id (negsuc n) lo hi = ground arith
