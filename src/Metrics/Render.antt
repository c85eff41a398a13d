-- ===== src/Metrics/Render.antt =====
-- metrics.rs, `render` and the answer of `serve_metrics`: the Prometheus text and its HTTP frame. How
-- std writes `n as f64 / 1e9` is an argument. The request's prefix is ASCII, so that the lossy decoding
-- of the request before the test is of no account.
use Prim.Native.String.{String}
use heeler.Common.{ℕ, Bool, if◌then◌else◌, List, [], ◌∷◌, ◌++◌, codes, length}
use heeler.Common.Text.{reverse, starts_with}
use heeler.Common.Decimal.{show}
use heeler.Common.Lines.{Line, unlines}
use heeler.Metrics.{Metrics, build_buckets_nanos}

abbrev pub sample : List ℕ → List ℕ → Line
sample name value = name ++ (b' ' ∷ value)

abbrev pub header : List ℕ → List ℕ → List ℕ → List Line → List Line
header name help kind rest =
    (codes "# HELP " ++ (name ++ (b' ' ∷ help)))
    ∷ (codes "# TYPE " ++ (name ++ (b' ' ∷ kind)))
    ∷ rest

-- The rows of `counters`: a name, its help and its value.
pub record Counter : Type 0 where
  pub name : List ℕ
  pub help : List ℕ
  pub value : ℕ

abbrev counter : String → String → ℕ → Counter
counter name help value = record { name = codes name; help = codes help; value = value }

unfoldable pub counters : Metrics → List Counter
counters m =
    counter "heeler_requests_total" "Datagrams received" m.requests_total
    ∷ counter "heeler_responses_total" "Responses sent" m.responses_total
    ∷ counter "heeler_packets_dropped_total" "Datagrams dropped" m.packets_dropped_total
    ∷ counter "heeler_malformed_packets_total" "Malformed datagrams" m.malformed_packets_total
    ∷ counter "heeler_unsupported_version_total" "Unsupported NTP version requests"
        m.unsupported_version_total
    ∷ counter "heeler_unsupported_mode_total" "Non-client-mode packets" m.unsupported_mode_total
    ∷ counter "heeler_rate_limited_total" "Rate-limited requests" m.rate_limited_total
    ∷ counter "heeler_access_denied_total" "Access-denied requests" m.access_denied_total
    ∷ counter "heeler_kod_sent_total" "Kiss-o'-Death responses sent" m.kod_sent_total
    ∷ counter "heeler_socket_errors_total" "Socket errors" m.socket_errors_total
    ∷ counter "heeler_clock_errors_total" "Clock read failures" m.clock_errors_total
    ∷ counter "heeler_clock_jumps_total" "Detected wall-clock jumps" m.clock_jumps_total
    ∷ counter "heeler_active_rate_limit_entries" "Tracked rate-limiter entries"
        m.active_rate_limit_entries
    ∷ []

-- `str::ends_with`.
abbrev pub ends_with : List ℕ → List ℕ → Bool
ends_with suffix text = starts_with (reverse suffix) (reverse text)

abbrev pub kind_of : List ℕ → List ℕ
kind_of name = if ends_with (codes "_total") name then codes "counter" else codes "gauge"

abbrev pub counter_lines : List Counter → List Line → List Line
counter_lines [] rest = rest
counter_lines (c ∷ cs) rest =
    header c.name c.help (kind_of c.name) (sample c.name (show c.value) ∷ counter_lines cs rest)

abbrev pub histogram : List ℕ
histogram = codes "heeler_response_build_duration_seconds"

module _ (show_seconds : ℕ → List ℕ) where
  abbrev pub bucket_line : List ℕ → ℕ → Line
  bucket_line bound count =
      sample (histogram ++ (codes "_bucket{le=\"" ++ (bound ++ codes "\"}"))) (show count)

  abbrev pub bucket_lines : List ℕ → List ℕ → List Line → List Line
  bucket_lines (count ∷ counts) (le ∷ les) rest =
      bucket_line (show_seconds le) count ∷ bucket_lines counts les rest
  bucket_lines counts [] rest = rest
  bucket_lines [] (le ∷ les) rest = rest

  unfoldable pub histogram_lines : Metrics → List Line
  unfolding show
  histogram_lines m = header histogram (codes "Time to build one response") (codes "histogram") (
      bucket_lines m.build_bucket_counts build_buckets_nanos (
        bucket_line (codes "+Inf") m.build_count
        ∷ sample (histogram ++ codes "_sum") (show_seconds m.build_sum_nanos)
        ∷ sample (histogram ++ codes "_count") (show m.build_count)
        ∷ []))

  unfoldable pub render_lines : Metrics → ℕ → List Line
  unfolding counters starts_with reverse
  render_lines m uptime = counter_lines (counters m) (
      header (codes "heeler_clock_synchronised") (codes "1 while the clock source is synchronised")
        (codes "gauge")
        (sample (codes "heeler_clock_synchronised") (show m.clock_synchronised)
          ∷ header (codes "heeler_uptime_seconds") (codes "Seconds since the server started")
              (codes "gauge")
              (sample (codes "heeler_uptime_seconds") (show uptime) ∷ histogram_lines m)))

  unfoldable pub render : Metrics → ℕ → List ℕ
  unfolding render_lines
  render m uptime = unlines (render_lines m uptime)

  -- What is written back for the bytes that were read.
  unfoldable pub http_response : Metrics → ℕ → List ℕ → List ℕ
  unfolding starts_with
  http_response m uptime request =
      let body = render m uptime in
      if starts_with (codes "GET /metrics ") request
      then codes "HTTP/1.1 200 OK\r\ncontent-type: text/plain; version=0.0.4\r\ncontent-length: "
        ++ (show (length body) ++ (codes "\r\nconnection: close\r\n\r\n" ++ body))
      else codes "HTTP/1.1 404 Not Found\r\ncontent-length: 0\r\nconnection: close\r\n\r\n"
