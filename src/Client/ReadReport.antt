-- ===== src/Client/ReadReport.antt =====
-- client.rs, `format_report`: what is read back from the text of a report.
use heeler.Common.{
  ℕ, ◌<◌, ◌≡◌, refl, Bool, true, false, if◌then◌else◌, if-both, some, List, [], ◌∷◌, ◌++◌, codes,
  drop, get_or, All, arith, ◌-◌, length, replicate,
}
use heeler.Common.Int.{ℤ, pos}
use heeler.Common.Text.{split}
use heeler.Common.Decimal.{show}
use heeler.Common.Lines.{
  IsLine, append-IsLine, digits-IsFree, show-IsLine, show_int-IsLine, split-unlines,
}
use heeler.Access.{SocketAddr}
use heeler.Timestamp.{NtpTimestamp, NtpInstant}
use heeler.Packet.Stratum.{is_kiss_of_death}
use heeler.Packet.Display.{
  show_timestamp, show_reference_id, show_leap-IsLine, show_mode-IsLine, show_reference_id-IsLine,
}
use heeler.Inspect.{moment}
use heeler.Inspect.Fields.{padded-digits}
use heeler.Inspect.Format.{format_instant, read_moment, read_moment-format_instant}
use heeler.Inspect.Lines.{format_instant-IsLine, power_of_two-IsLine}
use heeler.Client.{QueryReport}
use heeler.Client.Report.{report_lines, format_report, warning, note}

show_timestamp-IsLine : (t : NtpTimestamp) → IsLine (show_timestamp t)
unfolding show_timestamp
show_timestamp-IsLine t = append-IsLine (show t.seconds) _ (show-IsLine t.seconds) (
    digits-IsFree b'\n' (replicate (10 - length (show t.fraction)) b'0' ++ show t.fraction)
      (omega arith) (padded-digits 10 t.fraction))

-- An instant in the years from 0 to 9999.
abbrev pub InYears : NtpInstant → Type 0
InYears i = (year : ℕ) × ((moment i).date.year ≡ pos year) × (year < 10_000)

read_instant : (i : NtpInstant) → InYears i → read_moment (format_instant i) ≡ some (moment i)
read_instant i (year, e, small) = read_moment-format_instant i year e small

module _ (show_addr : SocketAddr → List ℕ) (show_seconds show_millis : ℤ → List ℕ)
    (addr_line : (a : SocketAddr) → IsLine (show_addr a))
    (seconds_line : (z : ℤ) → IsLine (show_seconds z))
    (millis_line : (z : ℤ) → IsLine (show_millis z)) where
  warned-lines : (matched : Bool) → All IsLine (if matched then [] else warning ∷ [])
  warned-lines true = tt
  warned-lines false = (refl, tt)

  report_lines-lines :
      (r : QueryReport) → All IsLine (report_lines show_addr show_seconds show_millis r)
  unfolding report_lines
  report_lines-lines report =
      let r = report.response in
      (
        addr_line report.server,
        (
          show_leap-IsLine r.leap,
          (
            show-IsLine r.version,
            (
              show_mode-IsLine r.mode,
              (
                if-both IsLine (is_kiss_of_death r.stratum)
                    {yes = codes "0 (Kiss-o'-Death, code "
                      ++ (show_reference_id r.reference_id ++ codes ")")}
                    {no = show r.stratum}
                    (append-IsLine (show_reference_id r.reference_id) (codes ")")
                      (show_reference_id-IsLine r.reference_id) refl)
                    (show-IsLine r.stratum),
                (
                  show_int-IsLine r.poll,
                  (
                    power_of_two-IsLine r.precision,
                    (
                      append-IsLine (show_seconds r.root_delay) (codes " s")
                          (seconds_line r.root_delay) refl,
                      (
                        append-IsLine (show_seconds (pos r.root_dispersion)) (codes " s")
                            (seconds_line (pos r.root_dispersion)) refl,
                        (
                          show_reference_id-IsLine r.reference_id,
                          (
                            show_timestamp-IsLine r.reference_timestamp,
                            (
                              refl,
                              (
                                format_instant-IsLine report.t1,
                                (
                                  format_instant-IsLine report.t2,
                                  (
                                    format_instant-IsLine report.t3,
                                    (
                                      format_instant-IsLine report.t4,
                                      (
                                        append-IsLine (show_timestamp r.receive_timestamp)
                                            (codes " / " ++ show_timestamp r.transmit_timestamp)
                                            (show_timestamp-IsLine r.receive_timestamp)
                                            (show_timestamp-IsLine r.transmit_timestamp),
                                        (
                                          refl,
                                          (
                                            append-IsLine (show_millis report.delay_nanos)
                                                (codes " ms") (millis_line report.delay_nanos) refl,
                                            (
                                              append-IsLine (show_millis report.offset_nanos)
                                                  (codes " ms") (millis_line report.offset_nanos)
                                                  refl,
                                              warned-lines report.origin_matched,
                                            ),
                                          ),
                                        ),
                                      ),
                                    ),
                                  ),
                                ),
                              ),
                            ),
                          ),
                        ),
                      ),
                    ),
                  ),
                ),
              ),
            ),
          ),
        ),
      )

  -- The text of a report keeps its four instants, in the years from 0 to 9999, to the nanosecond: each
  -- is read back from its line. The line after the measurements is the warning exactly if the response
  -- did not echo the request's timestamp, and the note otherwise. That is so however std writes addresses
  -- and fractions, as long as those are without a line break.
  pub read_moment-format_report :
      (r : QueryReport)
      → InYears r.t1
      → InYears r.t2
      → InYears r.t3
      → InYears r.t4
      → let ls = split b'\n' (format_report show_addr show_seconds show_millis r) in
        (read_moment (drop 18 (get_or ls 12 [])) ≡ some (moment r.t1))
        × (read_moment (drop 18 (get_or ls 13 [])) ≡ some (moment r.t2))
        × (read_moment (drop 18 (get_or ls 14 [])) ≡ some (moment r.t3))
        × (read_moment (drop 18 (get_or ls 15 [])) ≡ some (moment r.t4))
        × (get_or ls 20 [] ≡ (if r.origin_matched then note else warning))
  unfolding format_report
  read_moment-format_report r y1 y2 y3 y4 =
      rw
        (split-unlines (report_lines show_addr show_seconds show_millis r) note
          (report_lines-lines r) refl)
        (unfold report_lines in
          (
            read_instant r.t1 y1,
            read_instant r.t2 y2,
            read_instant r.t3 y3,
            read_instant r.t4 y4,
            after r.origin_matched,
          ))
    where
      after :
          (matched : Bool)
          → get_or ((if matched then [] else warning ∷ []) ++ (note ∷ [])) 0 []
            ≡ (if matched then note else warning)
      after true = refl
      after false = refl
