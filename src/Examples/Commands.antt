-- ===== src/Examples/Commands.antt =====
-- The results on the commands, each at one command line. A floating point number is a number of
-- nanoseconds, or not a number.
use heeler.Common.{ℕ, ◌≡◌, ◌⊎◌, Bool, true, false, ltb, Option, none, some, [], ◌∷◌, ok, err, codes}
use heeler.Common.Int.{pos}
use heeler.Config.Validate.{ValidatedConfig}
use heeler.Client.{Environment, timed_out}
use heeler.Launch
use heeler.Launch.{LaunchError, serve_valid}
use heeler.Cli.Timeout.{F64}
use heeler.Cli.{QueryArgs, Command, query, Host}
use heeler.Cli.Laws.{only_config, serve-check_config}
use heeler.Examples.Data.{prefixes}
use heeler.Examples.Site.{world, args, here}

abbrev is_none : Option ℕ → Bool
is_none none = true
is_none (some n) = false

abbrev less : Option ℕ → Option ℕ → Bool
less none y = false
less (some n) none = false
less (some n) (some k) = ltb n k

abbrev floats : F64
floats = record {
  F = Option ℕ;
  is_nan = is_none;
  less = less;
  twentieth = some 50_000_000;
  three_hundred = some 300_000_000_000;
  from_secs_f64 = λ x. x;
}

serve-check_config_example :
    ((v : ValidatedConfig prefixes) × (Launch.check_config prefixes world args.config ≡ ok v)
      × (Launch.serve prefixes world (only_config args.config) ≡ serve_valid prefixes world v))
    ⊎ ((e : LaunchError) × (Launch.check_config prefixes world args.config ≡ err e)
        × (Launch.serve prefixes world (only_config args.config) ≡ ([], err e)))
serve-check_config_example = serve-check_config prefixes world args.config

abbrev network : Environment
network = record {
  is_socket_addr = λ text. true;
  to_socket_addrs = λ text. some (here ∷ []);
  socket_ok = true;
  t1_wall = pos 1_700_000_000_000_000_000;
  send_ok = true;
  answer = λ sent. timed_out;
  t4_wall = pos 1_700_000_000_000_000_000;
}

abbrev host : Host floats
host = record {
  world = world;
  run_ends_well = true;
  stdin = none;
  stdout_ok = true;
  stderr_ok = true;
  inspect_wall = pos 1_700_000_000_000_000_000;
  network = network;
  default_config_toml = codes "[server]";
  package_version = codes "0.1.0";
  timings = record {
    parse_elapsed = 1;
    encode_elapsed = 2;
    clock_elapsed = 3;
    convert_elapsed = 4;
    build_elapsed = 5;
  };
  show_per_op = λ elapsed n. codes "0.0";
  show_addr = λ addr. codes "addr";
  show_seconds = λ z. codes "0.0";
  show_millis = λ z. codes "0.0";
}

abbrev nan_query : QueryArgs floats
nan_query = record { server = codes "localhost"; ntp_version = 4; timeout = none }

abbrev asked : Command floats
asked = query nan_query
