-- ===== src/Inspect/ReadBack.antt =====
-- inspect.rs: what is read back from the text that `heeler inspect` prints of a packet.
use heeler.Common.{
  ℕ, ◌^◌, ◌<◌, ◌≡◌, refl, Option, some, List, [], ◌++◌, codes, drop, get_or, ok, length, true,
  arith, Bool-cases, inl, inr,
}
use heeler.Common.Int.{ℤ}
use heeler.Common.Words.{IsI32, as_i32, as_u32, as_i32-as_u32, as_u32-IsU32}
use heeler.Common.Text.{split}
use heeler.Common.Lines.{Line, IsLine, split-unlines}
use heeler.Packet.LeapIndicator
use heeler.Packet.LeapIndicator.{LeapIndicator}
use heeler.Packet.Mode
use heeler.Packet.Mode.{Mode}
use heeler.Packet.ReferenceId.{ReferenceId}
use heeler.Packet.Display.{show_leap, show_mode}
use heeler.Packet.{NtpPacket, ParsedPacket, IsPacket, encode}
use heeler.Packet.RoundTrip.{parse-encode}
use heeler.Timestamp.{
  NtpTimestamp, NtpInstant, IsTimestamp, to_bits, from_bits, is_zero, zero_timestamp, unfold_era,
}
use heeler.Timestamp.Wire.{from_bits-to_bits}
use heeler.Inspect.{decode_hex, inspect, to_digit}
use heeler.Inspect.Format.{format_instant}
use heeler.Inspect.Lines.{field_lines-lines, trailing_line-lines}
use heeler.Inspect.Reader.{
  and_then, read_digits, read_number, read_int, read_hex, read_number-show, read_number-show_all,
  read_int-power_of_two, read_hex-show_hex,
}
use heeler.Inspect.Render.{
  render_timestamp, fixed_point, field_lines, trailing_line, note, render, inspect_text,
}

abbrev read_leap : List ℕ → Option LeapIndicator
read_leap text = and_then (read_number text) (λ n. some (LeapIndicator.from_bits n))

abbrev read_mode : List ℕ → Option Mode
read_mode text = and_then (read_number text) (λ n. some (Mode.from_bits n))

abbrev read_delay : List ℕ → Option ℤ
read_delay text = and_then (read_hex 8 text) (λ n. some (as_i32 n))

abbrev read_timestamp : List ℕ → Option NtpTimestamp
read_timestamp text = and_then (read_hex 16 text) (λ n. some (from_bits n))

-- The value on the i-th line, after the eighteen characters of its label.
abbrev value : List Line → ℕ → List ℕ
value ls i = drop 18 (get_or ls i [])

-- The packet of a text, but for the reference identifier, which is given.
unfoldable pub read_packet : ReferenceId → List ℕ → Option NtpPacket
unfolding split read_number read_int read_hex from_bits as_i32 LeapIndicator.from_bits
    Mode.from_bits
read_packet id text =
    let ls = split b'\n' text in
    and_then (read_leap (value ls 0)) (λ leap. and_then (read_number (value ls 1)) (λ version.
      and_then (read_mode (value ls 2)) (λ mode. and_then (read_number (value ls 3)) (λ stratum.
        and_then (read_int (value ls 4)) (λ poll. and_then (read_int (value ls 5)) (λ precision.
          and_then (read_delay (value ls 6)) (λ delay.
            and_then (read_hex 8 (value ls 7)) (λ dispersion.
              and_then (read_timestamp (value ls 9)) (λ reference.
                and_then (read_timestamp (value ls 10)) (λ origin.
                  and_then (read_timestamp (value ls 11)) (λ receive.
                    and_then (read_timestamp (value ls 12)) (λ transmit. some (record {
                      leap = leap;
                      version = version;
                      mode = mode;
                      stratum = stratum;
                      poll = poll;
                      precision = precision;
                      root_delay = delay;
                      root_dispersion = dispersion;
                      reference_id = id;
                      reference_timestamp = reference;
                      origin_timestamp = origin;
                      receive_timestamp = receive;
                      transmit_timestamp = transmit;
                    })))))))))))))

read_leap-show_leap : (leap : LeapIndicator) → read_leap (show_leap leap) ≡ some leap
unfolding show_leap
read_leap-show_leap leap =
    rw
      (
        read_number-show (LeapIndicator.to_bits leap) _
            (omega (arith, LeapIndicator.to_bits-lt leap)),
        LeapIndicator.from_bits-to_bits leap,
      )
      refl

read_mode-show_mode : (mode : Mode) → read_mode (show_mode mode) ≡ some mode
unfolding show_mode
read_mode-show_mode mode =
    rw
      (
        read_number-show (Mode.to_bits mode) _ (omega (arith, Mode.to_bits-lt mode)),
        Mode.from_bits-to_bits mode,
      )
      refl

is_zero-zero : (t : NtpTimestamp) → is_zero t ≡ true → t ≡ zero_timestamp
unfolding is_zero
is_zero-zero t e = ground (arith, e)

zero_back : read_hex 16 (codes "0x0000000000000000 (zero / unknown)") ≡ some 0
unfolding read_hex read_digits to_digit
zero_back = refl

read_timestamp-render_timestamp :
    (t : NtpTimestamp) (pivot : NtpInstant)
    → IsTimestamp t
    → read_timestamp (render_timestamp t pivot) ≡ some t
unfolding render_timestamp
read_timestamp-render_timestamp t pivot h = elim (Bool-cases (is_zero t)) [
  | inr e ↦
      let small : to_bits t < 16 ^ 16 =
        unfold to_bits in omega (arith, h.seconds_fit, h.fraction_fit) in
      let back =
        read_hex-show_hex 16 (to_bits t)
          (codes " (" ++ (format_instant (unfold_era t pivot) ++ codes ")")) small in
      rw e (rw (back, from_bits-to_bits t h) refl)
  | inl e ↦ let is_it = is_zero-zero t e in rw e (rw (zero_back, is_it) (unfold from_bits in refl))
]

read_delay-fixed_point :
    (show_seconds : ℤ → List ℕ) (z : ℤ)
    → IsI32 z
    → read_delay (fixed_point show_seconds (as_u32 z) z) ≡ some z
read_delay-fixed_point show_seconds z h =
    rw
      (
        read_hex-show_hex 8 (as_u32 z) (codes " (" ++ (show_seconds z ++ codes " s)"))
            (as_u32-IsU32 z),
        as_i32-as_u32 z h,
      )
      refl

module _ (show_seconds : ℤ → List ℕ) (one_line : (bits : ℤ) → IsLine (show_seconds bits)) where
  -- The values of the lines of a packet, whatever comes after them.
  read_packet-render :
      (p : NtpPacket) (pivot : NtpInstant) (n : ℕ)
      → IsPacket p
      → read_packet p.reference_id
          (render show_seconds (record { packet = p; trailing_bytes = n }) pivot)
        ≡ some p
  unfolding read_packet render field_lines
  read_packet-render p pivot n h =
      rw
        (
          split-unlines (field_lines show_seconds p pivot (trailing_line n)) note
              (field_lines-lines show_seconds one_line p pivot (trailing_line n)
                (trailing_line-lines n))
              refl,
          read_leap-show_leap p.leap,
          read_number-show_all p.version (omega (arith, h.version_fits)),
          read_mode-show_mode p.mode,
          read_number-show_all p.stratum h.stratum_fits,
          read_int-power_of_two p.poll h.poll_fits,
          read_int-power_of_two p.precision h.precision_fits,
          read_delay-fixed_point show_seconds p.root_delay h.root_delay_fits,
          read_hex-show_hex 8 p.root_dispersion _ h.root_dispersion_fits,
          read_timestamp-render_timestamp p.reference_timestamp pivot h.reference_timestamp_fits,
          read_timestamp-render_timestamp p.origin_timestamp pivot h.origin_timestamp_fits,
          read_timestamp-render_timestamp p.receive_timestamp pivot h.receive_timestamp_fits,
          read_timestamp-render_timestamp p.transmit_timestamp pivot h.transmit_timestamp_fits,
        )
        refl

  -- `heeler inspect` on the hexadecimal text of an encoded packet, followed by any bytes, prints a text
  -- from which every field of the packet is read back, but for the reference identifier: the fields, and
  -- the raw bits of the timestamps and of the fixed-point values, whatever the pivot of the era, and
  -- however std writes seconds, as long as that is without a line break.
  pub inspect_text-read_packet :
      (p : NtpPacket) (rest input : List ℕ) (pivot : NtpInstant)
      → IsPacket p
      → decode_hex input ≡ some (ok (encode p ++ rest))
      → (text : List ℕ) × (inspect_text show_seconds input pivot ≡ some (ok text))
        × (read_packet p.reference_id text ≡ some p)
  unfolding inspect_text inspect
  inspect_text-read_packet p rest input pivot h decoded =
      let parsed : ParsedPacket = record { packet = p; trailing_bytes = length rest } in
      (
        render show_seconds parsed pivot,
        rw (decoded, parse-encode p rest h) refl,
        read_packet-render p pivot (length rest) h,
      )
