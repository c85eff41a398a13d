-- ===== src/Client/Report.antt =====
-- client.rs, `format_report`: the text that `heeler query` prints. How std writes a socket address, the
-- seconds of a fixed-point value to six places, and nanoseconds as milliseconds with a sign, are
-- arguments.
use Prim.Native.String.{String}
use heeler.Common.{ℕ, if◌then◌else◌, List, [], ◌∷◌, ◌++◌, codes}
use heeler.Common.Int.{ℤ, pos}
use heeler.Common.Decimal.{show}
use heeler.Common.Lines.{Line, unlines, show_int}
use heeler.Access.{SocketAddr}
use heeler.Packet.Stratum.{is_kiss_of_death}
use heeler.Packet.Display.{show_leap, show_mode, show_reference_id, show_timestamp}
use heeler.Inspect.Format.{format_instant}
use heeler.Inspect.Render.{power_of_two}
use heeler.Client.{QueryReport}

abbrev labelled : String → List ℕ → Line
labelled label value = codes label ++ value

abbrev pub warning : Line
warning = codes "warning: response origin timestamp did not echo our request"

abbrev pub note : Line
note = codes "note: user-space timestamps; accuracy is bounded by scheduling and network asymmetry"

module _ (show_addr : SocketAddr → List ℕ) (show_seconds show_millis : ℤ → List ℕ) where
  unfoldable pub report_lines : QueryReport → List Line
  unfolding is_kiss_of_death show_leap show_mode show_reference_id show_timestamp show
      format_instant
  report_lines report =
      let r = report.response in
      labelled "server            " (show_addr report.server)
      ∷ labelled "leap              " (show_leap r.leap)
      ∷ labelled "version           " (show r.version)
      ∷ labelled "mode              " (show_mode r.mode)
      ∷ labelled "stratum           " (
          if is_kiss_of_death r.stratum
          then codes "0 (Kiss-o'-Death, code " ++ (show_reference_id r.reference_id ++ codes ")")
          else show r.stratum)
      ∷ labelled "poll              " (show_int r.poll)
      ∷ labelled "precision         " (power_of_two r.precision)
      ∷ labelled "root delay        " (show_seconds r.root_delay ++ codes " s")
      ∷ labelled "root dispersion   " (show_seconds (pos r.root_dispersion) ++ codes " s")
      ∷ labelled "reference id      " (show_reference_id r.reference_id)
      ∷ labelled "reference ts      " (show_timestamp r.reference_timestamp)
      ∷ []
      ∷ labelled "T1 (client tx)    " (format_instant report.t1)
      ∷ labelled "T2 (server rx)    " (format_instant report.t2)
      ∷ labelled "T3 (server tx)    " (format_instant report.t3)
      ∷ labelled "T4 (client rx)    " (format_instant report.t4)
      ∷ labelled "raw T2/T3         " (
          show_timestamp r.receive_timestamp
          ++ (codes " / " ++ show_timestamp r.transmit_timestamp))
      ∷ []
      ∷ labelled "round-trip delay  " (show_millis report.delay_nanos ++ codes " ms")
      ∷ labelled "clock offset      " (show_millis report.offset_nanos ++ codes " ms")
      ∷ (if report.origin_matched then [] else warning ∷ [])

  -- The note at the end has no line break after it.
  unfoldable pub format_report : QueryReport → List ℕ
  unfolding report_lines
  format_report report = unlines (report_lines report) ++ note
