-- ===== src/Server/Start.antt =====
-- server.rs, `ServerState::new`: the server as it is assembled from a validated configuration and a
-- clock, at the monotonic instant that it starts.
use heeler.Common.{ℕ, ◌+◌, ◌*◌, ◌≡◌, refl, if◌then◌else◌, Option, List, ok, if-both}
use heeler.Common.Words.{IsI8}
use heeler.Response.{ServerIdentity}
use heeler.Response.Laws.{IsIdentity}
use heeler.Clock.{ClockSource}
use heeler.Clock.System.{ClockJump}
use heeler.Access.{IpNets}
use heeler.RateLimit
use heeler.RateLimit.Client.{RateLimitSettings}
use heeler.RateLimit.Bounds.{new-IsBounded}
use heeler.Metrics
use heeler.Config.{Config}
use heeler.Config.Validate.{ValidatedConfig, validate}
use heeler.Config.Laws.{validate-IsServable}
use heeler.Server.{State}
use heeler.Server.Loop.{Tick, Event, LoopState, run, check_jump}
use heeler.Server.Runs.{Balanced, recv_failures, run-Balanced}
use heeler.Server.Sound.{IsSoundState, run-IsSoundState}

module _ {S : Type 0} (clock_source : ClockSource S) (nets : IpNets) where
  -- The configured precision, or the clock's.
  abbrev started_identity : ValidatedConfig nets → S → ServerIdentity
  started_identity v clock =
      if v.precision_configured
      then v.identity
      else record v.identity { precision = clock_source.estimated_precision clock }

  abbrev started_settings : Config → RateLimitSettings
  started_settings c = record {
    enabled = c.rate_limit.enabled;
    requests_per_second = c.rate_limit.requests_per_second;
    burst = c.rate_limit.burst;
    global_requests_per_second = c.rate_limit.global_requests_per_second;
    global_burst = c.rate_limit.global_burst;
    client_entry_ttl = c.rate_limit.client_entry_ttl_seconds * 1_000_000_000;
    max_client_entries = c.rate_limit.max_client_entries;
  }

  unfoldable pub new : ValidatedConfig nets → S → ℕ → State clock_source nets
  unfolding RateLimit.new Metrics.new
  new v clock now = record {
    identity = started_identity v clock;
    clock = clock;
    access = v.access;
    settings = started_settings v.config;
    limiter = RateLimit.new (started_settings v.config) now;
    metrics = Metrics.new;
    policy = v.validation_policy;
    max_packet_size = v.config.server.max_packet_size;
    send_kod_on_rate_limit = v.config.protocol.send_kod_on_rate_limit;
    send_kod_on_policy_deny = v.config.protocol.send_kod_on_policy_deny;
  }

  started_identity-IsIdentity :
      (v : ValidatedConfig nets) (clock : S)
      → IsIdentity v.identity
      → IsI8 (clock_source.estimated_precision clock)
      → IsIdentity (started_identity v clock)
  started_identity-IsIdentity v clock h p = if-both IsIdentity v.precision_configured h (record {
    stratum_fits = h.stratum_fits;
    reference_id_fits = h.reference_id_fits;
    precision_fits = p;
    root_delay_fits = h.root_delay_fits;
    root_dispersion_fits = h.root_dispersion_fits;
  })

  new-IsSoundState :
      (c : Config) (v : ValidatedConfig nets) (clock : S) (now : ℕ)
      → validate nets c ≡ ok v
      → clock_source.IsSound clock
      → IsI8 (clock_source.estimated_precision clock)
      → IsSoundState clock_source nets (new v clock now)
  unfolding new
  new-IsSoundState c v clock now e k p =
      let (_, _, servable) = validate-IsServable nets c v e in
      record {
        bounded = new-IsBounded (started_settings v.config) now;
        clock_sound = k;
        identity_fits = started_identity-IsIdentity v clock servable.identity_fits p;
      }

  new-Balanced :
      (v : ValidatedConfig nets) (clock : S) (now : ℕ) → Balanced (new v clock now).metrics 0
  unfolding new Metrics.new
  new-Balanced v clock now = refl

  module _ (system_clock : Option (Tick → S → Option ClockJump × S)) where
    -- A server that starts from a configuration that passed validation, with a sound clock, keeps its
    -- invariant over any sequence of datagrams, failed receives and ticks: memory is bounded, the clock
    -- stays sound, and the identity fits a packet. Its counters balance: modulo 2^64, requests and
    -- failed receives add up to responses, drops and socket errors.
    pub new-run :
        ((tick : Tick) (c : S)
          → clock_source.IsSound c
          → clock_source.IsSound (check_jump clock_source nets system_clock system_clock tick c).1)
        → (c : Config) (v : ValidatedConfig nets) (clock : S) (now : ℕ) (es : List Event)
        → validate nets c ≡ ok v
        → clock_source.IsSound clock
        → IsI8 (clock_source.estimated_precision clock)
        → let start : LoopState clock_source nets system_clock = record {
          server = new v clock now;
          ticks = 0;
        } in
          let st = (run clock_source nets system_clock start es).server in
          IsSoundState clock_source nets st × Balanced st.metrics (recv_failures es + 0)
    new-run jumps c v clock now es e k p = (
      run-IsSoundState clock_source nets system_clock jumps _ es
          (new-IsSoundState c v clock now e k p),
      run-Balanced clock_source nets system_clock _ es 0 (new-Balanced v clock now),
    )
