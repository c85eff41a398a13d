-- ===== src/Examples/Data.antt =====
-- Concrete values for the examples: a request, a server on a scripted clock, and prefixes of addresses
-- with a parser that knows one prefix and one address.
use heeler.Common.{
  ℕ, ◌+◌, ◌-◌, ◌*◌, ◌/◌, ◌^◌, Bool, true, false, ◌==◌, if◌then◌else◌, Option, none, some, List, [],
  ◌∷◌, ok, ◌≡◌, refl, codes, bytes_eq, arith,
}
use heeler.Common.Int.{pos, negsuc}
use heeler.Timestamp.{NtpTimestamp, IsTimestamp}
use heeler.Packet.{NtpPacket, IsPacket, encode}
use heeler.Response.Laws.{IsIdentity}
use heeler.Packet.LeapIndicator
use heeler.Packet.Mode
use heeler.Response.{ServerIdentity}
use heeler.Validation.{default_policy}
use heeler.Clock.Mock
use heeler.Clock.Mock.{MockClockSource, mock_clock_source}
use heeler.Config.{Config, default_config}
use heeler.Config.Validate
use heeler.Config.Validate.{ValidatedConfig}
use heeler.Clock.System.{default_jump_policy}
use heeler.Common.Int.{div_trunc, rem_euclid, ◌*ℤ◌}
use heeler.Common.Words.{wrap_i64}
use heeler.Packet.Short.{signed_from_millis, unsigned_from_millis}
use heeler.Access.{from_rules, parse_default_action, parse_rules, parse_rule}
use heeler.Access.{IpAddr, v4, v6, IpNets, AccessControl}
use heeler.RateLimit
use heeler.RateLimit.Client.{RateLimitSettings}
use heeler.Metrics
use heeler.Server.{Arrival, ServerState}
use heeler.Server.Loop.{Event, received, recv_failed, ticked}

abbrev pub ip_in : IpAddr × ℕ → IpAddr → Bool
ip_in (v4 base, n) (v4 a) = a / 2 ^ (32 - n) == base / 2 ^ (32 - n)
ip_in (v6 base, n) (v6 a) = a / 2 ^ (128 - n) == base / 2 ^ (128 - n)
ip_in (v4 base, n) (v6 a) = false
ip_in (v6 base, n) (v4 a) = false

abbrev pub loopback : ℕ
loopback = 127 * 2 ^ 24

abbrev known_net : List ℕ → Option (IpAddr × ℕ)
known_net text = if bytes_eq text (codes "127.0.0.0/8") then some (v4 loopback, 8) else none

abbrev known_addr : List ℕ → Option IpAddr
known_addr text = if bytes_eq text (codes "127.0.0.9") then some (v4 (loopback + 9)) else none

abbrev pub prefixes : IpNets
prefixes = record {
  IpNet = IpAddr × ℕ;
  net_contains = ip_in;
  prefix_len = λ net. net.1;
  parse_net = known_net;
  parse_addr = known_addr;
  net_of_addr = λ a. (a, 32);
}

abbrev pub acl : AccessControl prefixes
acl = record {
  allow = (v4 loopback, 8) ∷ [];
  deny = (v4 (loopback + 9), 32) ∷ [];
  default_allow = false;
}

abbrev pub stamp : NtpTimestamp
stamp = record { seconds = 3_900_000_000; fraction = 2 ^ 31 }

abbrev pub request : NtpPacket
request = record {
  leap = LeapIndicator.no_warning;
  version = 4;
  mode = Mode.client;
  stratum = 0;
  poll = pos 6;
  precision = negsuc 19;
  root_delay = pos 0;
  root_dispersion = 0;
  reference_id = record { b0 = 0; b1 = 0; b2 = 0; b3 = 0 };
  reference_timestamp = record { seconds = 0; fraction = 0 };
  origin_timestamp = record { seconds = 0; fraction = 0 };
  receive_timestamp = record { seconds = 0; fraction = 0 };
  transmit_timestamp = stamp;
}

abbrev pub identity : ServerIdentity
identity = record {
  stratum = 2;
  reference_id = record { b0 = 72; b1 = 76; b2 = 69; b3 = 82 };
  precision = negsuc 19;
  root_delay = pos 0;
  root_dispersion = 327;
  default_poll = pos 6;
  leap = LeapIndicator.no_warning;
}

abbrev pub settings : RateLimitSettings
settings = record {
  enabled = true;
  requests_per_second = 4;
  burst = 8;
  global_requests_per_second = 10;
  global_burst = 20;
  client_entry_ttl = 600 * 1_000_000_000;
  max_client_entries = 2;
}

abbrev pub clock : MockClockSource
clock = Mock.new (ok (record { nanos = pos 3_900_000_000_500_000_000 }) ∷ [])

abbrev pub state : ServerState MockClockSource prefixes
state = record {
  identity = identity;
  clock = clock;
  access = acl;
  settings = settings;
  limiter = RateLimit.new settings 0;
  metrics = Metrics.new;
  policy = default_policy;
  max_packet_size = 512;
  send_kod_on_rate_limit = true;
  send_kod_on_policy_deny = false;
}

abbrev pub from_host : ℕ → Arrival
from_host n = record {
  data_bytes = encode request;
  source = record { ip = v4 (loopback + n); port = 5000 };
  limiter_now = 1000;
  build_nanos = 1500;
  send_ok = true;
}

abbrev pub events : List Event
events =
    received (from_host 1)
    ∷ recv_failed
    ∷ ticked (record { wall = pos 0; mono = 0; sweep_now = 0 })
    ∷ received (from_host 9)
    ∷ []

pub stamp-IsTimestamp : IsTimestamp stamp
stamp-IsTimestamp = record { seconds_fit = omega arith; fraction_fit = omega arith }

pub request-IsPacket : IsPacket request
request-IsPacket = record {
  version_fits = omega arith;
  stratum_fits = omega arith;
  poll_fits = (omega arith, omega arith);
  precision_fits = (omega arith, omega arith);
  root_delay_fits = (omega arith, omega arith);
  root_dispersion_fits = omega arith;
  reference_id_fits = record {
    first = omega arith;
    second = omega arith;
    third = omega arith;
    fourth = omega arith;
  };
  reference_timestamp_fits = record { seconds_fit = omega arith; fraction_fit = omega arith };
  origin_timestamp_fits = record { seconds_fit = omega arith; fraction_fit = omega arith };
  receive_timestamp_fits = record { seconds_fit = omega arith; fraction_fit = omega arith };
  transmit_timestamp_fits = stamp-IsTimestamp;
}

pub identity-IsIdentity : IsIdentity identity
identity-IsIdentity = record {
  stratum_fits = omega arith;
  reference_id_fits = record {
    first = omega arith;
    second = omega arith;
    third = omega arith;
    fourth = omega arith;
  };
  precision_fits = (omega arith, omega arith);
  root_delay_fits = (omega arith, omega arith);
  root_dispersion_fits = omega arith;
}

abbrev pub config : Config
config = record default_config {
  access = record {
    allow = codes "127.0.0.0/8" ∷ [];
    deny = codes "127.0.0.9" ∷ [];
    default_action = codes "deny";
  };
}

abbrev pub validated : ValidatedConfig prefixes
validated = record {
  config = config;
  identity = record identity { precision = negsuc 19 };
  precision_configured = false;
  access = acl;
  validation_policy = default_policy;
  jump_policy = default_jump_policy;
}

pub config_valid : Validate.validate prefixes config ≡ ok validated
unfolding Validate.validate signed_from_millis div_trunc wrap_i64 rem_euclid ◌*ℤ◌
    unsigned_from_millis from_rules parse_default_action parse_rules parse_rule
config_valid = refl
