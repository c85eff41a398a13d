-- ===== src/Packet/Short.antt =====
-- crates/heeler-core/src/packet.rs, `NtpShortSigned` and `NtpShortUnsigned`: 16.16 fixed point. The
-- wrapped i32 is an integer, the wrapped u32 a number. Milliseconds are an i64; its products wrap
-- around as in a release build, where the profile leaves overflow checks off.
use heeler.Common.{
  ℕ, ◌+◌, ◌-◌, ◌*◌, ◌/◌, ◌^◌, ◌≤◌, ◌<◌, ◌≡◌, ◌||◌, ◌&&◌, ltb, leb, if◌then◌else◌, Result, ok, err,
  List, arith,
}
use heeler.Common.Int.{ℤ, pos, negsuc, ◌*ℤ◌, ◌≤ℤ◌, ltb_ℤ, leb_ℤ, div_trunc, pos_part, neg_part}
use heeler.Common.Words.{wrap_i64, wrap_u64, wrap_i64_id, as_i32, as_u32, u32_from_be, u32_to_be}
use heeler.Errors.{ConfigError, fixed_point_out_of_range}

-- `from_be_bytes` and `to_be_bytes` of both.
abbrev pub signed_from_be_bytes : ℕ → ℕ → ℕ → ℕ → ℤ
signed_from_be_bytes a b c d = as_i32 (u32_from_be a b c d)

abbrev pub signed_to_be_bytes : ℤ → List ℕ
signed_to_be_bytes bits = u32_to_be (as_u32 bits)

abbrev pub unsigned_from_be_bytes : ℕ → ℕ → ℕ → ℕ → ℕ
unsigned_from_be_bytes = u32_from_be

abbrev pub unsigned_to_be_bytes : ℕ → List ℕ
unsigned_to_be_bytes = u32_to_be

-- `NtpShortSigned::from_millis`.
unfoldable pub signed_from_millis : ℤ → Result ConfigError ℤ
signed_from_millis millis =
    let bits = div_trunc (wrap_i64 (millis *ℤ pos 65_536)) 1000 in
    if ltb_ℤ (pos 2_147_483_647) bits || ltb_ℤ bits (negsuc 2_147_483_647)
    then err (fixed_point_out_of_range millis)
    else ok bits

-- `NtpShortSigned::to_micros`.
unfoldable pub signed_to_micros : ℤ → ℤ
signed_to_micros bits = div_trunc (bits *ℤ pos 1_000_000) 65_536

-- `NtpShortUnsigned::from_millis`.
unfoldable pub unsigned_from_millis : ℤ → Result ConfigError ℕ
unsigned_from_millis millis =
    if ltb_ℤ millis (pos 0)
    then err (fixed_point_out_of_range millis)
    else let bits = wrap_u64 (pos_part millis * 65_536) / 1000 in
      if ltb 4_294_967_295 bits then err (fixed_point_out_of_range millis) else ok bits

-- `NtpShortUnsigned::to_micros`.
unfoldable pub unsigned_to_micros : ℕ → ℕ
unsigned_to_micros bits = bits * 1_000_000 / 65_536

-- Below 2^48 milliseconds nothing wraps: exactly the values whose bits, rounded down, fit 32 bits
-- are accepted, and every other one, the negative ones too, is refused with its milliseconds.
pub unsigned_from_millis_exact :
    (millis : ℤ)
    → millis ≤ℤ pos (2 ^ 48 - 1)
    → unsigned_from_millis millis ≡ (
        if ltb_ℤ millis (pos 0) || leb (2 ^ 32) (pos_part millis * 65_536 / 1000)
        then err (fixed_point_out_of_range millis)
        else ok (pos_part millis * 65_536 / 1000))
unfolding unsigned_from_millis
unsigned_from_millis_exact (pos n) h = ground arith
unsigned_from_millis_exact (negsuc n) h = ground arith

-- From 2^48 on the u64 product wraps: adding 2^48 milliseconds to an accepted value gives a value
-- that is accepted too, with the same bits.
pub unsigned_from_millis_wraps :
    (n b : ℕ) → unsigned_from_millis (pos n) ≡ ok b → unsigned_from_millis (pos (n + 2 ^ 48)) ≡ ok b
unfolding unsigned_from_millis
unsigned_from_millis_wraps n b e = ground arith

product_parts :
    (m : ℤ)
    → pos_part (m *ℤ pos 65_536) + neg_part m * 65_536
      ≡ neg_part (m *ℤ pos 65_536) + pos_part m * 65_536
unfolding ◌*ℤ◌
product_parts (pos n) = ground arith
product_parts (negsuc n) = ground arith

-- Below 2^47 milliseconds in magnitude the signed conversion does not wrap: its result is the
-- product truncated toward zero, and a value is accepted exactly if that fits an i32.
pub signed_from_millis_exact :
    (millis : ℤ)
    → negsuc (2 ^ 47 - 1) ≤ℤ millis
    → millis ≤ℤ pos (2 ^ 47 - 1)
    → let bits = div_trunc (millis *ℤ pos 65_536) 1000 in
      signed_from_millis millis ≡ (
        if leb_ℤ (negsuc (2 ^ 31 - 1)) bits && leb_ℤ bits (pos (2 ^ 31 - 1))
        then ok bits
        else err (fixed_point_out_of_range millis))
unfolding signed_from_millis
signed_from_millis_exact millis lo hi =
    rw
      (
        wrap_i64_id (millis *ℤ pos 65_536) (omega (arith, product_parts millis))
            (omega (arith, product_parts millis)),
        signed_from_millis,
      )
      (ground arith)

-- The microseconds of an accepted dispersion lie within one 2^-16 s unit, 16 microseconds, below
-- the configured milliseconds.
pub unsigned_to_micros_close :
    (n b : ℕ)
    → n < 2 ^ 48
    → unsigned_from_millis (pos n) ≡ ok b
    → (unsigned_to_micros b ≤ n * 1000) × (n * 1000 ≤ unsigned_to_micros b + 16)
unfolding unsigned_from_millis unsigned_to_micros
unsigned_to_micros_close n b h e = ground arith
