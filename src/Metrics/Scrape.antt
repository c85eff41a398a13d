-- ===== src/Metrics/Scrape.antt =====
-- metrics.rs, `render`: what a scraper reads back from the text.
use heeler.Common.{
  ℕ, ◌^◌, ◌<◌, ◌≡◌, refl, Bool, true, not, ◌&&◌, all, Option, some, none, List, [], ◌∷◌, ◌++◌,
  codes, contains, arith, All, if-both,
}
use heeler.Common.Text.{split, strip_prefix, parse_unsigned}
use heeler.Common.Decimal.{show, parse_unsigned-show}
use heeler.Common.Lines.{Line, IsLine, append-IsLine, show-IsLine, split-lines}
use heeler.Metrics.{Metrics, build_buckets_nanos}
use heeler.Metrics.Render.{
  sample, Counter, counters, header, ends_with, kind_of, counter_lines, histogram, bucket_line,
  bucket_lines, histogram_lines, render_lines, render,
}

-- The value on the first line that starts with the name and a space.
unfoldable pub value_of : List ℕ → List Line → Option ℕ
unfolding strip_prefix parse_unsigned
value_of name [] = none
value_of name (l ∷ ls) = elim (strip_prefix (name ++ (b' ' ∷ [])) l) [
  | some text ↦ parse_unsigned (2 ^ 64) text
  | none ↦ value_of name ls
]

unfoldable pub scrape : List ℕ → List ℕ → Option ℕ
unfolding value_of split
scrape name text = value_of name (split b'\n' text)

sample-IsLine : (name value : List ℕ) → IsLine name → IsLine value → IsLine (sample name value)
sample-IsLine name value h i = append-IsLine name (b' ' ∷ value) h (ground (arith, i))

abbrev IsText : Counter → Type 0
IsText c = IsLine c.name × IsLine c.help

abbrev is_text : Counter → Bool
is_text c = not (contains c.name b'\n') && not (contains c.help b'\n')

all-IsText : (cs : List Counter) → all is_text cs ≡ true → All IsText cs
all-IsText [] e = tt
all-IsText (c ∷ cs) e = (ground (arith, e), all-IsText cs (ground (arith, e)))

header-lines :
    (name help kind : List ℕ) (rest : List Line)
    → IsLine name
    → IsLine help
    → IsLine kind
    → All IsLine rest
    → All IsLine (header name help kind rest)
header-lines name help kind rest n h k r = (
  append-IsLine (codes "# HELP ") (sample name help) refl (sample-IsLine name help n h),
  (append-IsLine (codes "# TYPE ") (sample name kind) refl (sample-IsLine name kind n k), r),
)

kind_of-IsLine : (name : List ℕ) → IsLine (kind_of name)
kind_of-IsLine name =
    if-both IsLine (ends_with (codes "_total") name) {yes = codes "counter"} {no = codes "gauge"}
      refl refl

counter_lines-lines :
    (cs : List Counter) (rest : List Line)
    → All IsText cs
    → All IsLine rest
    → All IsLine (counter_lines cs rest)
counter_lines-lines [] rest h r = r
counter_lines-lines (c ∷ cs) rest ((n, h), hs) r =
    header-lines c.name c.help (kind_of c.name)
      (sample c.name (show c.value) ∷ counter_lines cs rest) n h (kind_of-IsLine c.name)
      (
        sample-IsLine c.name (show c.value) n (show-IsLine c.value),
        counter_lines-lines cs rest hs r,
      )

counters-IsText : (m : Metrics) → All IsText (counters m)
unfolding counters
counters-IsText m = all-IsText (counters m) refl

counters_shown :
    (cs : List Counter)
    → All (λ (c : Counter). c.value < 2 ^ 64) cs
    → All (λ (c : Counter). parse_unsigned (2 ^ 64) (show c.value) ≡ some c.value) cs
counters_shown [] h = tt
counters_shown (c ∷ cs) (small, h) =
    (parse_unsigned-show (2 ^ 64) c.value small (omega (arith, small)), counters_shown cs h)

-- The names under which a scraper finds the counters, and where each stands in the state.
abbrev pub named_counters : Metrics → List (List ℕ × ℕ)
named_counters m =
    (codes "heeler_requests_total", m.requests_total)
    ∷ (codes "heeler_responses_total", m.responses_total)
    ∷ (codes "heeler_packets_dropped_total", m.packets_dropped_total)
    ∷ (codes "heeler_malformed_packets_total", m.malformed_packets_total)
    ∷ (codes "heeler_unsupported_version_total", m.unsupported_version_total)
    ∷ (codes "heeler_unsupported_mode_total", m.unsupported_mode_total)
    ∷ (codes "heeler_rate_limited_total", m.rate_limited_total)
    ∷ (codes "heeler_access_denied_total", m.access_denied_total)
    ∷ (codes "heeler_kod_sent_total", m.kod_sent_total)
    ∷ (codes "heeler_socket_errors_total", m.socket_errors_total)
    ∷ (codes "heeler_clock_errors_total", m.clock_errors_total)
    ∷ (codes "heeler_clock_jumps_total", m.clock_jumps_total)
    ∷ (codes "heeler_active_rate_limit_entries", m.active_rate_limit_entries)
    ∷ []

module _ (show_seconds : ℕ → List ℕ) (one_line : (nanos : ℕ) → IsLine (show_seconds nanos)) where
  bucket_line-IsLine :
      (bound : List ℕ) (count : ℕ) → IsLine bound → IsLine (bucket_line show_seconds bound count)
  bucket_line-IsLine bound count h =
      sample-IsLine (histogram ++ (codes "_bucket{le=\"" ++ (bound ++ codes "\"}"))) (show count)
        (append-IsLine (histogram ++ codes "_bucket{le=\"") (bound ++ codes "\"}") refl
          (append-IsLine bound (codes "\"}") h refl))
        (show-IsLine count)

  bucket_lines-lines :
      (counts les : List ℕ) (rest : List Line)
      → All IsLine rest
      → All IsLine (bucket_lines show_seconds counts les rest)
  bucket_lines-lines (count ∷ counts) (le ∷ les) rest r = (
    bucket_line-IsLine (show_seconds le) count (one_line le),
    bucket_lines-lines counts les rest r,
  )
  bucket_lines-lines (count ∷ counts) [] rest r = r
  bucket_lines-lines [] [] rest r = r
  bucket_lines-lines [] (le ∷ les) rest r = r

  histogram_lines-lines : (m : Metrics) → All IsLine (histogram_lines show_seconds m)
  unfolding histogram_lines
  histogram_lines-lines m =
      header-lines histogram (codes "Time to build one response") (codes "histogram") _ refl refl
        refl
        (bucket_lines-lines m.build_bucket_counts build_buckets_nanos _ (
          bucket_line-IsLine (codes "+Inf") m.build_count refl,
          (
            sample-IsLine (histogram ++ codes "_sum") (show_seconds m.build_sum_nanos) refl
                (one_line m.build_sum_nanos),
            (
              sample-IsLine (histogram ++ codes "_count") (show m.build_count) refl
                  (show-IsLine m.build_count),
              tt,
            ),
          ),
        ))

  render_lines-lines : (m : Metrics) (uptime : ℕ) → All IsLine (render_lines show_seconds m uptime)
  unfolding render_lines
  render_lines-lines m uptime =
      let up =
        sample (codes "heeler_uptime_seconds") (show uptime) ∷ histogram_lines show_seconds m in
      let up_lines : All IsLine up = (
        sample-IsLine (codes "heeler_uptime_seconds") (show uptime) refl (show-IsLine uptime),
        histogram_lines-lines m,
      ) in
      let help = codes "Seconds since the server started" in
      let gauge =
        sample (codes "heeler_clock_synchronised") (show m.clock_synchronised)
        ∷ header (codes "heeler_uptime_seconds") help (codes "gauge") up in
      let gauge_lines : All IsLine gauge = (
        sample-IsLine (codes "heeler_clock_synchronised") (show m.clock_synchronised) refl
            (show-IsLine m.clock_synchronised),
        header-lines (codes "heeler_uptime_seconds") help (codes "gauge") up refl refl refl
            up_lines,
      ) in
      counter_lines-lines (counters m)
        (header (codes "heeler_clock_synchronised")
          (codes "1 while the clock source is synchronised") (codes "gauge") gauge)
        (counters-IsText m)
        (header-lines (codes "heeler_clock_synchronised")
          (codes "1 while the clock source is synchronised") (codes "gauge") gauge refl refl refl
          gauge_lines)

  scrape-counters :
      (m : Metrics) (uptime : ℕ)
      → All (λ (c : Counter). c.value < 2 ^ 64) (counters m)
      → All
          (λ (c : Counter). scrape c.name (render show_seconds m uptime) ≡ some c.value)
          (counters m)
  unfolding scrape render value_of strip_prefix render_lines counters
  scrape-counters m uptime small =
      rw (split-lines (render_lines show_seconds m uptime) (render_lines-lines m uptime))
        (counters_shown (counters m) small)

  -- Each of the thirteen counters is read back from the text under its own name: the first line that
  -- starts with the name and a space has the value of that counter in the state. The
  -- values are of 64 bits, and std's seconds have no line break in them.
  pub scrape-render :
      (m : Metrics) (uptime : ℕ)
      → All (λ (nv : List ℕ × ℕ). nv.1 < 2 ^ 64) (named_counters m)
      → All
          (λ (nv : List ℕ × ℕ). scrape nv.0 (render show_seconds m uptime) ≡ some nv.1)
          (named_counters m)
  unfolding counters
  scrape-render m uptime small = scrape-counters m uptime small
