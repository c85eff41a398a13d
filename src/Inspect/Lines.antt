-- ===== src/Inspect/Lines.antt =====
-- inspect.rs, `render`: no field has a line break in it.
use heeler.Common.{ℕ, List, [], ◌∷◌, ◌++◌, refl, arith, codes, All, suc, ltb, if-both}
use heeler.Common.Int.{ℤ, pos, negsuc}
use heeler.Common.Words.{as_u32}
use heeler.Common.Decimal.{show}
use heeler.Common.Lines.{
  Line, IsLine, append-IsLine, digits-IsFree, show-IsLine, show_int, show_int-IsLine, show_hex,
  show_hex-IsLine,
}
use heeler.Packet.{NtpPacket}
use heeler.Packet.Display.{show_leap-IsLine, show_mode-IsLine, show_reference_id-IsLine}
use heeler.Timestamp.{NtpTimestamp, NtpInstant, is_zero, to_bits, unfold_era}
use heeler.Inspect.{moment}
use heeler.Inspect.Fields.{padded, padded-digits}
use heeler.Inspect.Format.{show_year, format_instant}
use heeler.Inspect.Render.{render_timestamp, power_of_two, trailing_line, fixed_point, field_lines}

padded-IsLine : (width n : ℕ) → IsLine (padded width (show n))
padded-IsLine width n =
    digits-IsFree b'\n' (padded width (show n)) (omega arith) (padded-digits width n)

show_year-IsLine : (year : ℤ) → IsLine (show_year year)
show_year-IsLine (pos n) = padded-IsLine 4 n
show_year-IsLine (negsuc n) = padded-IsLine 3 (suc n)

pub format_instant-IsLine : (i : NtpInstant) → IsLine (format_instant i)
unfolding format_instant
format_instant-IsLine i =
    let m = moment i in
    append-IsLine (show_year m.date.year) _ (show_year-IsLine m.date.year) (
      append-IsLine (padded 2 (show m.date.month)) _ (padded-IsLine 2 m.date.month) (
        append-IsLine (padded 2 (show m.date.day)) _ (padded-IsLine 2 m.date.day) (
          append-IsLine (padded 2 (show m.hour)) _ (padded-IsLine 2 m.hour) (
            append-IsLine (padded 2 (show m.minute)) _ (padded-IsLine 2 m.minute) (
              append-IsLine (padded 2 (show m.second)) _ (padded-IsLine 2 m.second) (
                append-IsLine (padded 9 (show m.nanos)) (b'Z' ∷ []) (padded-IsLine 9 m.nanos)
                  refl))))))

render_timestamp-IsLine :
    (ts : NtpTimestamp) (pivot : NtpInstant) → IsLine (render_timestamp ts pivot)
unfolding render_timestamp
render_timestamp-IsLine ts pivot =
    if-both IsLine (is_zero ts) {yes = codes "0x0000000000000000 (zero / unknown)"} refl (
      append-IsLine (show_hex 16 (to_bits ts))
        (codes " (" ++ (format_instant (unfold_era ts pivot) ++ codes ")"))
        (show_hex-IsLine 16 (to_bits ts))
        (append-IsLine (format_instant (unfold_era ts pivot)) (codes ")")
          (format_instant-IsLine (unfold_era ts pivot)) refl))

pub power_of_two-IsLine : (n : ℤ) → IsLine (power_of_two n)
power_of_two-IsLine n =
    append-IsLine (show_int n) _ (show_int-IsLine n)
      (append-IsLine (show_int n) (codes " s)") (show_int-IsLine n) refl)

pub trailing_line-lines : (n : ℕ) → All IsLine (trailing_line n)
trailing_line-lines n =
    if-both (All IsLine) (ltb 0 n)
      {yes = (codes "trailing data     "
          ++ (show n ++ codes " uninterpreted byte(s) after the base packet"))
        ∷ []}
      {no = []}
      (
        append-IsLine (show n) (codes " uninterpreted byte(s) after the base packet")
            (show-IsLine n) refl,
        tt,
      )
      tt

module _ (show_seconds : ℤ → List ℕ) (one_line : (bits : ℤ) → IsLine (show_seconds bits)) where
  fixed_point-IsLine : (raw : ℕ) (bits : ℤ) → IsLine (fixed_point show_seconds raw bits)
  fixed_point-IsLine raw bits =
      append-IsLine (show_hex 8 raw) _ (show_hex-IsLine 8 raw)
        (append-IsLine (show_seconds bits) (codes " s)") (one_line bits) refl)

  pub field_lines-lines :
      (p : NtpPacket) (pivot : NtpInstant) (rest : List Line)
      → All IsLine rest
      → All IsLine (field_lines show_seconds p pivot rest)
  unfolding field_lines
  field_lines-lines p pivot rest h = (
    show_leap-IsLine p.leap,
    (
      show-IsLine p.version,
      (
        show_mode-IsLine p.mode,
        (
          show-IsLine p.stratum,
          (
            power_of_two-IsLine p.poll,
            (
              power_of_two-IsLine p.precision,
              (
                fixed_point-IsLine (as_u32 p.root_delay) p.root_delay,
                (
                  fixed_point-IsLine p.root_dispersion (pos p.root_dispersion),
                  (
                    show_reference_id-IsLine p.reference_id,
                    (
                      render_timestamp-IsLine p.reference_timestamp pivot,
                      (
                        render_timestamp-IsLine p.origin_timestamp pivot,
                        (
                          render_timestamp-IsLine p.receive_timestamp pivot,
                          (render_timestamp-IsLine p.transmit_timestamp pivot, h),
                        ),
                      ),
                    ),
                  ),
                ),
              ),
            ),
          ),
        ),
      ),
    ),
  )
