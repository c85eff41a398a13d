-- ===== src/Config.antt =====
-- crates/heeler-server/src/config.rs: the sections of the configuration and their defaults. Text is
-- the list of its bytes, a socket address the one of `Access`. Reading the file and its TOML schema
-- are left to the toml and serde crates.
pub mod Validate
pub mod Env
pub mod Chosen
pub mod Precedence
pub mod Binds
pub mod Laws
use heeler.Common.{ℕ, ◌*◌, ◌+◌, ◌^◌, Bool, true, false, Option, none, List, [], ◌∷◌, codes}
use heeler.Common.Int.{ℤ, pos}
use heeler.Access.{SocketAddr, IpAddr, v4, v6}

pub record ServerSection : Type 0 where
  pub bind : List SocketAddr
  pub workers : ℕ
  pub max_packet_size : ℕ
  pub strict_public_bind : Bool
  pub public_bind_acknowledged : Bool
  pub recv_buffer_bytes : ℕ
  pub send_buffer_bytes : ℕ
  pub reuse_addr : Bool

pub record ProtocolSection : Type 0 where
  pub versions : List ℕ
  pub stratum : ℕ
  pub reference_id : List ℕ
  pub poll : ℤ
  pub precision : Option ℤ
  pub root_delay_ms : ℤ
  pub root_dispersion_ms : ℤ
  pub leap_indicator : ℕ
  pub require_nonzero_transmit_timestamp : Bool
  pub allow_trailing_data : Bool
  pub send_kod_on_rate_limit : Bool
  pub send_kod_on_policy_deny : Bool
  pub silently_drop_malformed : Bool

pub record ClockSection : Type 0 where
  pub source : List ℕ
  pub mark_unsynchronised_on_jump : Bool
  pub max_backward_jump_ms : ℕ
  pub max_forward_jump_ms : ℕ

pub record AccessSection : Type 0 where
  pub allow : List (List ℕ)
  pub deny : List (List ℕ)
  pub default_action : List ℕ

pub record RateLimitSection : Type 0 where
  pub enabled : Bool
  pub requests_per_second : ℕ
  pub burst : ℕ
  pub global_requests_per_second : ℕ
  pub global_burst : ℕ
  pub client_entry_ttl_seconds : ℕ
  pub max_client_entries : ℕ

pub record LoggingSection : Type 0 where
  pub format : List ℕ
  pub level : List ℕ

pub record MetricsSection : Type 0 where
  pub enabled : Bool
  pub bind : SocketAddr

pub record SecuritySection : Type 0 where
  pub drop_privileges : Bool
  pub user : List ℕ
  pub group : List ℕ
  pub chroot_dir : List ℕ

pub record Config : Type 0 where
  pub server : ServerSection
  pub protocol : ProtocolSection
  pub clock : ClockSection
  pub access : AccessSection
  pub rate_limit : RateLimitSection
  pub logging : LoggingSection
  pub metrics : MetricsSection
  pub security : SecuritySection

abbrev localhost_v4 : IpAddr
localhost_v4 = v4 (127 * 2 ^ 24 + 1)

abbrev default_server : ServerSection
default_server = record {
  bind = record { ip = localhost_v4; port = 123 } ∷ record { ip = v6 1; port = 123 } ∷ [];
  workers = 1;
  max_packet_size = 512;
  strict_public_bind = true;
  public_bind_acknowledged = false;
  recv_buffer_bytes = 0;
  send_buffer_bytes = 0;
  reuse_addr = false;
}

abbrev default_protocol : ProtocolSection
default_protocol = record {
  versions = 3 ∷ 4 ∷ [];
  stratum = 2;
  reference_id = codes "HLER";
  poll = pos 6;
  precision = none;
  root_delay_ms = pos 0;
  root_dispersion_ms = pos 5;
  leap_indicator = 0;
  require_nonzero_transmit_timestamp = false;
  allow_trailing_data = false;
  send_kod_on_rate_limit = true;
  send_kod_on_policy_deny = false;
  silently_drop_malformed = true;
}

abbrev default_clock : ClockSection
default_clock = record {
  source = codes "system";
  mark_unsynchronised_on_jump = true;
  max_backward_jump_ms = 250;
  max_forward_jump_ms = 5000;
}

abbrev default_access : AccessSection
default_access = record {
  allow = codes "127.0.0.0/8" ∷ codes "::1/128" ∷ [];
  deny = [];
  default_action = codes "deny";
}

abbrev default_rate_limit : RateLimitSection
default_rate_limit = record {
  enabled = true;
  requests_per_second = 4;
  burst = 8;
  global_requests_per_second = 10_000;
  global_burst = 20_000;
  client_entry_ttl_seconds = 600;
  max_client_entries = 100_000;
}

abbrev default_logging : LoggingSection
default_logging = record { format = codes "pretty"; level = codes "info" }

abbrev default_metrics : MetricsSection
default_metrics = record { enabled = false; bind = record { ip = localhost_v4; port = 9180 } }

abbrev default_security : SecuritySection
default_security = record {
  drop_privileges = true;
  user = codes "heeler";
  group = codes "heeler";
  chroot_dir = [];
}

abbrev pub default_config : Config
default_config = record {
  server = default_server;
  protocol = default_protocol;
  clock = default_clock;
  access = default_access;
  rate_limit = default_rate_limit;
  logging = default_logging;
  metrics = default_metrics;
  security = default_security;
}
