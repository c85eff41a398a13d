-- ===== src/Metrics.antt =====
-- crates/heeler-server/src/metrics.rs: the counters and their updates. A counter is an `AtomicU64`,
-- whose `fetch_add` wraps around; a relaxed addition is one step of the state. The uptime is an
-- argument of the rendering.
pub mod Render
pub mod Scrape
pub mod Http
pub mod Serve
use heeler.Common.{ℕ, ◌+◌, ◌-◌, ◌^◌, leb, if◌then◌else◌, List, [], ◌∷◌}
use heeler.Common.Words.{wrap_u64}

pub record Metrics : Type 0 where
  pub requests_total : ℕ
  pub responses_total : ℕ
  pub packets_dropped_total : ℕ
  pub malformed_packets_total : ℕ
  pub unsupported_version_total : ℕ
  pub unsupported_mode_total : ℕ
  pub rate_limited_total : ℕ
  pub access_denied_total : ℕ
  pub kod_sent_total : ℕ
  pub socket_errors_total : ℕ
  pub clock_errors_total : ℕ
  pub clock_jumps_total : ℕ
  pub clock_synchronised : ℕ
  pub active_rate_limit_entries : ℕ
  pub build_bucket_counts : List ℕ
  pub build_count : ℕ
  pub build_sum_nanos : ℕ

abbrev pub build_buckets_nanos : List ℕ
build_buckets_nanos = 1_000 ∷ 5_000 ∷ 10_000 ∷ 50_000 ∷ 100_000 ∷ 1_000_000 ∷ []

unfoldable pub new : Metrics
new = record {
  requests_total = 0;
  responses_total = 0;
  packets_dropped_total = 0;
  malformed_packets_total = 0;
  unsupported_version_total = 0;
  unsupported_mode_total = 0;
  rate_limited_total = 0;
  access_denied_total = 0;
  kod_sent_total = 0;
  socket_errors_total = 0;
  clock_errors_total = 0;
  clock_jumps_total = 0;
  clock_synchronised = 1;
  active_rate_limit_entries = 0;
  build_bucket_counts = 0 ∷ 0 ∷ 0 ∷ 0 ∷ 0 ∷ 0 ∷ [];
  build_count = 0;
  build_sum_nanos = 0;
}

-- `fetch_add(1)`.
abbrev pub bump : ℕ → ℕ
bump n = wrap_u64 (n + 1)

-- `u64::try_from(..).unwrap_or(u64::MAX)`.
abbrev saturated_u64 : ℕ → ℕ
saturated_u64 n = if leb n (2 ^ 64 - 1) then n else 2 ^ 64 - 1

unfoldable pub observe_buckets : ℕ → List ℕ → List ℕ → List ℕ
observe_buckets nanos (count ∷ counts) (le ∷ les) =
    (if leb nanos le then bump count else count) ∷ observe_buckets nanos counts les
observe_buckets nanos counts [] = counts
observe_buckets nanos [] (le ∷ les) = []

unfoldable pub observe_build_duration : Metrics → ℕ → Metrics
unfolding observe_buckets
observe_build_duration m duration =
    let nanos = saturated_u64 duration in
    record m {
      build_bucket_counts = observe_buckets nanos m.build_bucket_counts build_buckets_nanos;
      build_count = bump m.build_count;
      build_sum_nanos = wrap_u64 (m.build_sum_nanos + nanos);
    }
