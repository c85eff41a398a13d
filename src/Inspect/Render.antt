-- ===== src/Inspect/Render.antt =====
-- inspect.rs, `render` and `render_timestamp`: the text that `heeler inspect` prints. How std writes
-- `bits as f64 / 65536.0` to six places, for the fixed-point fields, is an argument.
use Prim.Native.String.{String}
use heeler.Common.{
  ℕ, ltb, if◌then◌else◌, List, [], ◌∷◌, ◌++◌, codes, Option, none, some, Result, ok, err,
}
use heeler.Common.Int.{ℤ, pos}
use heeler.Common.Words.{as_u32}
use heeler.Common.Decimal.{show}
use heeler.Common.Lines.{Line, unlines, show_int, show_hex}
use heeler.Packet.{NtpPacket, ParsedPacket}
use heeler.Packet.Display.{show_leap, show_mode, show_reference_id}
use heeler.Timestamp.{NtpTimestamp, NtpInstant, is_zero, to_bits, unfold_era}
use heeler.Inspect.{InspectError, inspect}
use heeler.Inspect.Format.{format_instant}

-- `0x{:016X} ({})`.
unfoldable pub render_timestamp : NtpTimestamp → NtpInstant → List ℕ
unfolding is_zero to_bits unfold_era format_instant show_hex
render_timestamp ts pivot =
    if is_zero ts
    then codes "0x0000000000000000 (zero / unknown)"
    else codes "0x"
      ++ (show_hex 16 (to_bits ts)
          ++ (codes " (" ++ (format_instant (unfold_era ts pivot) ++ codes ")")))

-- `{} (2^{} s)`.
abbrev pub power_of_two : ℤ → List ℕ
power_of_two n = show_int n ++ (codes " (2^" ++ (show_int n ++ codes " s)"))

abbrev field : String → List ℕ → Line
field label value = codes label ++ value

abbrev pub trailing_line : ℕ → List Line
trailing_line n =
    if ltb 0 n
    then (field "trailing data     "
        (show n ++ codes " uninterpreted byte(s) after the base packet"))
      ∷ []
    else []

abbrev pub note : Line
note =
    codes
      "note: era resolved against the current time; wire timestamps carry only the low 32 bits of the second count"

module _ (show_seconds : ℤ → List ℕ) where
  -- `0x{:08X} ({:.6} s)`.
  abbrev pub fixed_point : ℕ → ℤ → List ℕ
  fixed_point raw bits =
      codes "0x" ++ (show_hex 8 raw ++ (codes " (" ++ (show_seconds bits ++ codes " s)")))

  unfoldable pub field_lines : NtpPacket → NtpInstant → List Line → List Line
  unfolding show_leap show_mode show_reference_id render_timestamp show show_hex as_u32
  field_lines p pivot rest =
      field "leap indicator    " (show_leap p.leap)
      ∷ field "version           " (show p.version)
      ∷ field "mode              " (show_mode p.mode)
      ∷ field "stratum           " (show p.stratum)
      ∷ field "poll              " (power_of_two p.poll)
      ∷ field "precision         " (power_of_two p.precision)
      ∷ field "root delay        " (fixed_point (as_u32 p.root_delay) p.root_delay)
      ∷ field "root dispersion   " (fixed_point p.root_dispersion (pos p.root_dispersion))
      ∷ field "reference id      " (show_reference_id p.reference_id)
      ∷ field "reference ts      " (render_timestamp p.reference_timestamp pivot)
      ∷ field "origin ts (T1)    " (render_timestamp p.origin_timestamp pivot)
      ∷ field "receive ts (T2)   " (render_timestamp p.receive_timestamp pivot)
      ∷ field "transmit ts (T3)  " (render_timestamp p.transmit_timestamp pivot)
      ∷ rest

  -- The note at the end has no line break after it.
  unfoldable pub render : ParsedPacket → NtpInstant → List ℕ
  unfolding field_lines
  render parsed pivot =
      unlines (field_lines parsed.packet pivot (trailing_line parsed.trailing_bytes)) ++ note

  abbrev rendered :
      NtpInstant → Option (Result InspectError ParsedPacket) → Option (Result InspectError (List ℕ))
  rendered pivot none = none
  rendered pivot (some (err e)) = some (err e)
  rendered pivot (some (ok parsed)) = some (ok (render parsed pivot))

  -- `inspect`, the text included.
  unfoldable pub inspect_text : List ℕ → NtpInstant → Option (Result InspectError (List ℕ))
  unfolding inspect
  inspect_text input pivot = rendered pivot (inspect input)
