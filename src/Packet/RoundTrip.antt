-- ===== src/Packet/RoundTrip.antt =====
-- packet.rs: `parse` and `encode` undo one another.
use heeler.Common.{
  ℕ, ◌+◌, ◌-◌, ◌/◌, ◌≤◌, ◌<◌, ◌≡◌, refl, sym, ap, ◌∙◌, List, ◌∷◌, ◌++◌, length, length-append,
  arith, IsByte, All, get_or, get_or-IsByte, take, take-slice, ok, err, slice, ◌⊎◌, inl, inr,
}
use native.Mathlib.Decide.{dec_lt}
use mathlib.Core.Path.{ap₂}
use heeler.Common.Words.{
  as_u32, as_i32, u32_from_be, u32_to_be, u32_from-to, u32_to-from, as_i8-as_u8, as_u8-as_i8,
  as_i32-as_u32, as_u32-as_i32, as_u32-IsU32, u32_from_be-IsU32, mask_seven, as_i8-IsI8,
  as_i32-IsI32, IsU32,
}
use heeler.Errors.{too_short}
use heeler.Timestamp
use heeler.Timestamp.{NtpTimestamp}
use heeler.Timestamp.Wire.{from_be-to_be, from_be_bytes-IsTimestamp}
use heeler.Packet.{
  NtpPacket, ParsedPacket, IsPacket, parse, encode, decode_fields, flags_byte, packet_size,
  version_from_bits, read_4,
}
use heeler.Packet.LeapIndicator
use heeler.Packet.Mode
use heeler.Packet.ReferenceId
use heeler.Packet.Shape.{layout, word_bytes, encode-layout, length-encode, flags_byte_lem}

-- The fields of byte 0, read back.
leap_from_flags :
    (p : NtpPacket) → p.version < 8 → LeapIndicator.from_bits (flags_byte p / 64) ≡ p.leap
leap_from_flags p h =
    let b : flags_byte p / 64 ≡ LeapIndicator.to_bits p.leap =
      omega (arith, flags_byte_lem p h, Mode.to_bits-lt p.mode) in
    rw b (LeapIndicator.from_bits-to_bits p.leap)

version_from_flags :
    (p : NtpPacket) → p.version < 8 → version_from_bits (flags_byte p / 8) ≡ p.version
unfolding version_from_bits
version_from_flags p h =
    let f = flags_byte_lem p h in
    let l = LeapIndicator.to_bits-lt p.leap in
    let m = Mode.to_bits-lt p.mode in omega (arith, mask_seven (flags_byte p / 8) (omega arith))

mode_from_flags : (p : NtpPacket) → p.version < 8 → Mode.from_bits (flags_byte p) ≡ p.mode
mode_from_flags p h =
    let f = flags_byte_lem p h in
    let l = LeapIndicator.to_bits-lt p.leap in
    let m = Mode.to_bits-lt p.mode in
    let b : Mode.to_bits (Mode.from_bits (flags_byte p)) ≡ Mode.to_bits p.mode =
      omega (arith, Mode.to_bits-from_bits (flags_byte p) (omega arith)) in
    sym (Mode.from_bits-to_bits (Mode.from_bits (flags_byte p)))
    ∙ ap Mode.from_bits b
    ∙ Mode.from_bits-to_bits p.mode

decode_fields-layout :
    (p : NtpPacket) (rest : List ℕ) → IsPacket p → decode_fields (layout p ++ rest) ≡ p
unfolding decode_fields ReferenceId.from_bytes
decode_fields-layout p rest h = rw (
  leap_from_flags p h.version_fits,
  version_from_flags p h.version_fits,
  mode_from_flags p h.version_fits,
  as_i8-as_u8 p.poll h.poll_fits,
  as_i8-as_u8 p.precision h.precision_fits,
  u32_from-to (as_u32 p.root_delay) (as_u32-IsU32 p.root_delay),
  as_i32-as_u32 p.root_delay h.root_delay_fits,
  u32_from-to p.root_dispersion h.root_dispersion_fits,
  from_be-to_be p.reference_timestamp h.reference_timestamp_fits,
  from_be-to_be p.origin_timestamp h.origin_timestamp_fits,
  from_be-to_be p.receive_timestamp h.receive_timestamp_fits,
  from_be-to_be p.transmit_timestamp h.transmit_timestamp_fits,
)

pub parse_long :
    (bytes : List ℕ)
    → packet_size ≤ length bytes
    → parse bytes
      ≡ ok (record { packet = decode_fields bytes; trailing_bytes = length bytes - packet_size })
unfolding parse
parse_long bytes h = ground arith

pub parse_short :
    (bytes : List ℕ) → length bytes < packet_size → parse bytes ≡ err (too_short (length bytes))
unfolding parse
parse_short bytes h = ground arith

-- A packet whose fields are values of their types, encoded and followed by any bytes, parses to the
-- same packet, and the bytes that follow are reported by their number.
pub parse-encode :
    (p : NtpPacket) (rest : List ℕ)
    → IsPacket p
    → parse (encode p ++ rest) ≡ ok (record { packet = p; trailing_bytes = length rest })
parse-encode p rest h =
    let n : length (encode p ++ rest) ≡ 48 + length rest =
      rw (length-append (encode p) rest, length-encode p) in
    rw (parse_long (encode p ++ rest) (omega arith), encode-layout p, decode_fields-layout p rest h)
      (ground arith)

-- One word, and one timestamp, read from bytes and written back.
word_back :
    (a b c d : ℕ) {xs ys : List ℕ}
    → IsByte a
    → IsByte b
    → IsByte c
    → IsByte d
    → xs ≡ ys
    → word_bytes (u32_from_be a b c d) xs ≡ a ∷ b ∷ c ∷ d ∷ ys
unfolding u32_to_be
word_back a b c d ha hb hc hd e = ap₂ ◌++◌ (u32_to-from a b c d ha hb hc hd) e

module _ (bytes : List ℕ) (h : All IsByte bytes) where
  IsByte-at : (i : ℕ) → IsByte (get_or bytes i 0)
  IsByte-at i = get_or-IsByte bytes i h

  flags_back : flags_byte (decode_fields bytes) ≡ get_or bytes 0 0
  unfolding decode_fields
  flags_back =
      let f = get_or bytes 0 0 in
      let b = IsByte-at 0 in
      let v = mask_seven (f / 8) (omega arith) in
      let l = LeapIndicator.to_bits-from_bits (f / 64) (omega arith) in
      let m = Mode.to_bits-from_bits f b in
      omega (arith, flags_byte_lem (decode_fields bytes) (unfold version_from_bits in omega arith))

  word_at :
      (i : ℕ) {xs ys : List ℕ}
      → xs ≡ ys
      → word_bytes (read_4 bytes i u32_from_be) xs
        ≡ get_or bytes i 0
          ∷ get_or bytes (i + 1) 0
          ∷ get_or bytes (i + 2) 0
          ∷ get_or bytes (i + 3) 0
          ∷ ys
  word_at i =
      word_back _ _ _ _ (IsByte-at i) (IsByte-at (i + 1)) (IsByte-at (i + 2)) (IsByte-at (i + 3))

  delay_back : as_u32 (as_i32 (read_4 bytes 4 u32_from_be)) ≡ read_4 bytes 4 u32_from_be
  delay_back =
      as_u32-as_i32 _
        (u32_from_be-IsU32 _ _ _ _ (IsByte-at 4) (IsByte-at 5) (IsByte-at 6) (IsByte-at 7))

  encode-decode_fields :
      packet_size ≤ length bytes → encode (decode_fields bytes) ≡ take packet_size bytes
  unfolding decode_fields ReferenceId.from_bytes Timestamp.from_be_bytes
  encode-decode_fields long =
      rw (encode-layout (decode_fields bytes), take-slice packet_size bytes 0 long, delay_back)
        (ap₂ ◌∷◌ flags_back (
          ap (◌∷◌ (get_or bytes 1 0)) (
            ap₂ ◌∷◌ (as_u8-as_i8 _ (IsByte-at 2)) (
              ap₂ ◌∷◌ (as_u8-as_i8 _ (IsByte-at 3)) (
                word_at 4 (
                  word_at 8 (
                    ap (λ xs. slice 4 12 bytes 0 ++ xs)
                      (word_at 16 (
                        word_at 20 (
                          word_at 24 (
                            word_at 28
                              (word_at 32 (word_at 36 (word_at 40 (word_at 44 refl)))))))))))))))

  eight :
      (i : ℕ)
      → IsByte (get_or bytes i 0)
        × IsByte (get_or bytes (i + 1) 0)
        × IsByte (get_or bytes (i + 2) 0)
        × IsByte (get_or bytes (i + 3) 0)
        × IsByte (get_or bytes (i + 4) 0)
        × IsByte (get_or bytes (i + 5) 0)
        × IsByte (get_or bytes (i + 6) 0)
        × IsByte (get_or bytes (i + 7) 0)
  eight i = (
    IsByte-at i,
    IsByte-at (i + 1),
    IsByte-at (i + 2),
    IsByte-at (i + 3),
    IsByte-at (i + 4),
    IsByte-at (i + 5),
    IsByte-at (i + 6),
    IsByte-at (i + 7),
  )

  word_fits : (i : ℕ) → IsU32 (read_4 bytes i u32_from_be)
  word_fits i =
      u32_from_be-IsU32 _ _ _ _ (IsByte-at i) (IsByte-at (i + 1)) (IsByte-at (i + 2))
        (IsByte-at (i + 3))

  decode_fields-IsPacket : IsPacket (decode_fields bytes)
  unfolding decode_fields version_from_bits ReferenceId.from_bytes
  decode_fields-IsPacket = record {
    version_fits =
        let b = IsByte-at 0 in omega (arith, mask_seven (get_or bytes 0 0 / 8) (omega arith));
    stratum_fits = IsByte-at 1;
    poll_fits = as_i8-IsI8 _ (IsByte-at 2);
    precision_fits = as_i8-IsI8 _ (IsByte-at 3);
    root_delay_fits = as_i32-IsI32 _ (word_fits 4);
    root_dispersion_fits = word_fits 8;
    reference_id_fits = record {
      first = IsByte-at 12;
      second = IsByte-at 13;
      third = IsByte-at 14;
      fourth = IsByte-at 15;
    };
    reference_timestamp_fits = from_be_bytes-IsTimestamp _ _ _ _ _ _ _ _ (eight 16);
    origin_timestamp_fits = from_be_bytes-IsTimestamp _ _ _ _ _ _ _ _ (eight 24);
    receive_timestamp_fits = from_be_bytes-IsTimestamp _ _ _ _ _ _ _ _ (eight 32);
    transmit_timestamp_fits = from_be_bytes-IsTimestamp _ _ _ _ _ _ _ _ (eight 40);
  }

-- A datagram of bytes is parsed exactly if it has 48 of them. The error is its length; the packet
-- has fields that fit their types, encodes to the datagram's first 48 bytes, and the bytes behind
-- those are counted.
pub parse_cases :
    (bytes : List ℕ)
    → All IsByte bytes
    → ((length bytes < packet_size) × (parse bytes ≡ err (too_short (length bytes))))
      ⊎ ((q : ParsedPacket) × (parse bytes ≡ ok q)
          × IsPacket q.packet
          × (encode q.packet ≡ take packet_size bytes)
          × (q.trailing_bytes + packet_size ≡ length bytes))
parse_cases bytes h = elim (dec_lt (length bytes) packet_size) [
  | yes short ↦ inl (short, parse_short bytes short)
  | no long ↦ inr (
    record { packet = decode_fields bytes; trailing_bytes = length bytes - packet_size },
    parse_long bytes (omega arith),
    decode_fields-IsPacket bytes h,
    encode-decode_fields bytes h (omega arith),
    omega arith,
  )
]

-- A parsed packet came from at least 48 bytes, and its fields are those at the fixed offsets.
pub parse-decode_fields :
    (bytes : List ℕ) (q : ParsedPacket)
    → parse bytes ≡ ok q
    → (packet_size ≤ length bytes) × (q.packet ≡ decode_fields bytes)
unfolding parse
parse-decode_fields bytes q e = ground arith
