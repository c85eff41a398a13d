-- ===== src/Packet.antt =====
-- crates/heeler-core/src/packet.rs: the 48-byte base packet, parsed from a datagram and encoded. A
-- datagram is a list of bytes. The newtypes NtpVersion, Stratum and the two short formats are the
-- numbers that they wrap; a read out of range, which the length test excludes, would give 0.
pub mod LeapIndicator
pub mod Mode
pub mod Stratum
pub mod Short
pub mod ReferenceId
pub mod Shape
pub mod RoundTrip
pub mod Display
use heeler.Common.{
  ℕ, zero, suc, ◌+◌, ◌-◌, ◌*◌, ◌/◌, ◌%◌, ◌^◌, ◌≤◌, ◌<◌, ltb, if◌then◌else◌, List, [], ◌∷◌, ◌++◌,
  Result, ok, err, bit_and, bit_or, length, get_or, take, drop, replicate, IsByte,
}
use heeler.Common.Int.{ℤ}
use heeler.Common.Words.{IsI8, IsI32, IsU32, as_i8, as_u8, as_i32, as_u32, u32_from_be, u32_to_be}
use heeler.Errors.{ParseError, too_short}
use heeler.Timestamp.{NtpTimestamp, IsTimestamp}
use heeler.Timestamp

abbrev pub packet_size : ℕ
packet_size = 48

abbrev pub offset_flags : ℕ
offset_flags = 0

abbrev pub offset_stratum : ℕ
offset_stratum = 1

abbrev pub offset_poll : ℕ
offset_poll = 2

abbrev pub offset_precision : ℕ
offset_precision = 3

abbrev pub offset_root_delay : ℕ
offset_root_delay = 4

abbrev pub offset_root_dispersion : ℕ
offset_root_dispersion = 8

abbrev pub offset_reference_id : ℕ
offset_reference_id = 12

abbrev pub offset_reference_ts : ℕ
offset_reference_ts = 16

abbrev pub offset_origin_ts : ℕ
offset_origin_ts = 24

abbrev pub offset_receive_ts : ℕ
offset_receive_ts = 32

abbrev pub offset_transmit_ts : ℕ
offset_transmit_ts = 40

-- `NtpVersion::from_bits`, the three VN bits.
unfoldable pub version_from_bits : ℕ → ℕ
version_from_bits bits = bit_and bits 0b111

pub record NtpPacket : Type 0 where
  pub leap : LeapIndicator.LeapIndicator
  pub version : ℕ
  pub mode : Mode.Mode
  pub stratum : ℕ
  pub poll : ℤ
  pub precision : ℤ
  pub root_delay : ℤ
  pub root_dispersion : ℕ
  pub reference_id : ReferenceId.ReferenceId
  pub reference_timestamp : NtpTimestamp
  pub origin_timestamp : NtpTimestamp
  pub receive_timestamp : NtpTimestamp
  pub transmit_timestamp : NtpTimestamp

-- Each field is a value of its Rust type.
pub record IsPacket (p : NtpPacket) : Type 0 where
  pub version_fits : p.version < 8
  pub stratum_fits : IsByte p.stratum
  pub poll_fits : IsI8 p.poll
  pub precision_fits : IsI8 p.precision
  pub root_delay_fits : IsI32 p.root_delay
  pub root_dispersion_fits : IsU32 p.root_dispersion
  pub reference_id_fits : ReferenceId.IsReferenceId p.reference_id
  pub reference_timestamp_fits : IsTimestamp p.reference_timestamp
  pub origin_timestamp_fits : IsTimestamp p.origin_timestamp
  pub receive_timestamp_fits : IsTimestamp p.receive_timestamp
  pub transmit_timestamp_fits : IsTimestamp p.transmit_timestamp

pub record ParsedPacket : Type 0 where
  pub packet : NtpPacket
  pub trailing_bytes : ℕ

-- The array of four, or eight, bytes from an offset, handed to the reader of the array.
abbrev pub read_4 {ℓ} : {A : Type ℓ} → List ℕ → ℕ → (ℕ → ℕ → ℕ → ℕ → A) → A
read_4 bytes offset f =
    f (get_or bytes offset 0) (get_or bytes (offset + 1) 0) (get_or bytes (offset + 2) 0)
      (get_or bytes (offset + 3) 0)

abbrev pub read_8 {ℓ} : {A : Type ℓ} → List ℕ → ℕ → (ℕ → ℕ → ℕ → ℕ → ℕ → ℕ → ℕ → ℕ → A) → A
read_8 bytes offset f =
    f (get_or bytes offset 0) (get_or bytes (offset + 1) 0) (get_or bytes (offset + 2) 0)
      (get_or bytes (offset + 3) 0) (get_or bytes (offset + 4) 0) (get_or bytes (offset + 5) 0)
      (get_or bytes (offset + 6) 0) (get_or bytes (offset + 7) 0)

unfoldable pub decode_fields : List ℕ → NtpPacket
unfolding version_from_bits
decode_fields bytes =
    let flags = get_or bytes offset_flags 0 in
    record {
      leap = LeapIndicator.from_bits (flags / 2 ^ 6);
      version = version_from_bits (flags / 2 ^ 3);
      mode = Mode.from_bits flags;
      stratum = get_or bytes offset_stratum 0;
      poll = as_i8 (get_or bytes offset_poll 0);
      precision = as_i8 (get_or bytes offset_precision 0);
      root_delay = read_4 bytes offset_root_delay Short.signed_from_be_bytes;
      root_dispersion = read_4 bytes offset_root_dispersion Short.unsigned_from_be_bytes;
      reference_id = read_4 bytes offset_reference_id ReferenceId.from_bytes;
      reference_timestamp = read_8 bytes offset_reference_ts Timestamp.from_be_bytes;
      origin_timestamp = read_8 bytes offset_origin_ts Timestamp.from_be_bytes;
      receive_timestamp = read_8 bytes offset_receive_ts Timestamp.from_be_bytes;
      transmit_timestamp = read_8 bytes offset_transmit_ts Timestamp.from_be_bytes;
    }

unfoldable pub parse : List ℕ → Result ParseError ParsedPacket
parse bytes =
    if ltb (length bytes) packet_size
    then err (too_short (length bytes))
    else ok (record { packet = decode_fields bytes; trailing_bytes = length bytes - packet_size })

-- `copy_from_slice` into the array at an offset: `write_4` and `write_8`.
abbrev pub write_at : List ℕ → ℕ → List ℕ → List ℕ
write_at out offset bytes = take offset out ++ bytes ++ drop (offset + length bytes) out

-- Byte 0. The shifts are on u8 and drop what leaves the byte.
unfoldable pub flags_byte : NtpPacket → ℕ
flags_byte p =
    bit_or (bit_or (LeapIndicator.to_bits p.leap * 2 ^ 6 % 256) (p.version * 2 ^ 3 % 256))
      (Mode.to_bits p.mode)

unfoldable pub encode : NtpPacket → List ℕ
unfolding u32_to_be Timestamp.to_be_bytes ReferenceId.as_bytes
encode p =
    let o0 = replicate packet_size 0 in
    let o1 = write_at o0 offset_flags (flags_byte p ∷ []) in
    let o2 = write_at o1 offset_stratum (p.stratum ∷ []) in
    let o3 = write_at o2 offset_poll (as_u8 p.poll ∷ []) in
    let o4 = write_at o3 offset_precision (as_u8 p.precision ∷ []) in
    let o5 = write_at o4 offset_root_delay (Short.signed_to_be_bytes p.root_delay) in
    let o6 = write_at o5 offset_root_dispersion (Short.unsigned_to_be_bytes p.root_dispersion) in
    let o7 = write_at o6 offset_reference_id (ReferenceId.as_bytes p.reference_id) in
    let o8 = write_at o7 offset_reference_ts (Timestamp.to_be_bytes p.reference_timestamp) in
    let o9 = write_at o8 offset_origin_ts (Timestamp.to_be_bytes p.origin_timestamp) in
    let o10 = write_at o9 offset_receive_ts (Timestamp.to_be_bytes p.receive_timestamp) in
    write_at o10 offset_transmit_ts (Timestamp.to_be_bytes p.transmit_timestamp)
