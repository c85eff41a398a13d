-- ===== src/Packet/Shape.antt =====
-- packet.rs: what `encode` writes, byte by byte, and that a parsed packet's fields are in range.
use heeler.Common.{
  ℕ, ◌+◌, ◌*◌, ◌/◌, ◌%◌, ◌^◌, ◌<◌, ◌≡◌, refl, List, [], ◌∷◌, length, arith, bit_or, ◌==◌, ==_iff,
  passed_under, passed_under_lem, true,
}
use heeler.Common.Words.{byte_of, as_u8, as_u32}
use heeler.Timestamp.{NtpTimestamp}
use heeler.Packet.{NtpPacket, encode, flags_byte, packet_size}
use heeler.Packet.LeapIndicator
use heeler.Packet.LeapIndicator.{LeapIndicator}
use heeler.Packet.Mode
use heeler.Packet.Mode.{Mode}

abbrev pub word_bytes : ℕ → List ℕ → List ℕ
word_bytes v rest = byte_of v 3 ∷ byte_of v 2 ∷ byte_of v 1 ∷ byte_of v 0 ∷ rest

abbrev pub stamp_bytes : NtpTimestamp → List ℕ → List ℕ
stamp_bytes t rest = word_bytes t.seconds (word_bytes t.fraction rest)

-- The packet's layout as one list: byte 0, the small fields, then each wider field in order.
abbrev pub layout : NtpPacket → List ℕ
layout p =
    flags_byte p
    ∷ p.stratum
    ∷ as_u8 p.poll
    ∷ as_u8 p.precision
    ∷ word_bytes (as_u32 p.root_delay) (
        word_bytes p.root_dispersion (
          p.reference_id.b0
          ∷ p.reference_id.b1
          ∷ p.reference_id.b2
          ∷ p.reference_id.b3
          ∷ stamp_bytes p.reference_timestamp (
              stamp_bytes p.origin_timestamp
                (stamp_bytes p.receive_timestamp (stamp_bytes p.transmit_timestamp [])))))

pub encode-layout : (p : NtpPacket) → encode p ≡ layout p
unfolding encode
encode-layout p = refl

-- An encoded packet has exactly 48 bytes.
pub length-encode : (p : NtpPacket) → length (encode p) ≡ packet_size
unfolding encode
length-encode p = refl

-- Byte 0 as arithmetic: the three fields do not overlap.
flags_table :
    passed_under
      (λ x. bit_or (bit_or (x / 64 * 2 ^ 6 % 256) (x / 8 % 8 * 2 ^ 3 % 256)) (x % 8) == x)
      256
    ≡ true
unfolding passed_under
flags_table = refl

flags_sum :
    (l v m : ℕ)
    → l < 4
    → v < 8
    → m < 8
    → bit_or (bit_or (l * 2 ^ 6 % 256) (v * 2 ^ 3 % 256)) m ≡ l * 64 + v * 8 + m
flags_sum l v m hl hv hm =
    let x = l * 64 + v * 8 + m in
    let e = (==_iff _ _).0 (passed_under_lem _ 256 x (omega arith) flags_table) in
    let el : x / 64 ≡ l = omega arith in
    let ev : x / 8 % 8 ≡ v = omega arith in let em : x % 8 ≡ m = omega arith in rw (el, ev, em) at e

pub flags_byte_lem :
    (p : NtpPacket)
    → p.version < 8
    → flags_byte p ≡ LeapIndicator.to_bits p.leap * 64 + p.version * 8 + Mode.to_bits p.mode
unfolding flags_byte
flags_byte_lem p h =
    flags_sum (LeapIndicator.to_bits p.leap) p.version (Mode.to_bits p.mode)
      (LeapIndicator.to_bits-lt p.leap) h (Mode.to_bits-lt p.mode)
