-- ===== src/Launch/Load.antt =====
-- main.rs, `load_config`: the command line, the world outside, and the configuration that is loaded.
-- What `serve` can do to the world, and how it can fail, are declared here as well.
use heeler.Common.{
  ℕ, Bool, true, false, ◌||◌, if◌then◌else◌, Option, none, some, List, [], ◌∷◌, Result, ok, err,
  map_err, ◌>>=◌,
}
use heeler.Common.Int.{ℤ}
use heeler.Access.{SocketAddr}
use heeler.Clock.{ClockError}
use heeler.Config.{Config, default_config}
use heeler.Config.Env.{EnvError, apply_env_overrides}
use heeler.Config.Validate.{Invalid}
use heeler.Server.Start.{new}
use heeler.Privilege.{Kernel, Files, DropOutcome, PrivilegeError}
use heeler.Launch.Sockets.{SocketOp}

pub record ServeArgs : Type 0 where
  pub config : Option (List ℕ)
  pub bind : List SocketAddr
  pub log_level : Option (List ℕ)
  pub log_format : Option (List ℕ)
  pub stratum : Option ℕ
  pub metrics : Bool
  pub metrics_bind : Option SocketAddr
  pub public_bind_acknowledged : Bool

pub data LaunchError : Type 0 where
  unreadable : List ℕ → LaunchError
  unparsed : List ℕ → LaunchError
  bad_variable : EnvError → LaunchError
  invalid : Invalid → LaunchError
  bad_level : List ℕ → LaunchError
  public_bind : List SocketAddr → LaunchError
  socket : SocketAddr → SocketOp → LaunchError
  privilege : PrivilegeError → LaunchError
  no_runtime : LaunchError
  no_clock : ClockError → LaunchError
  metrics_listener : SocketAddr → LaunchError

pub data Effect : Type 0 where
  bound : SocketAddr → Effect
  gave_up : DropOutcome → Effect
  listening : SocketAddr → Effect
  serving : Effect

-- `read_to_string` is `none` for a file that cannot be read, `parse_toml` for a text that toml refuses. The precision
-- of the clock is measured on the readings `measuring`.
pub record World : Type 1 where
  pub read_to_string : List ℕ → Option (List ℕ)
  pub parse_toml : List ℕ → Option Config
  pub system_path : List ℕ
  pub system_path_exists : Bool
  pub variables : List ℕ → Option (List ℕ)
  pub parse_addr : List ℕ → Option SocketAddr
  pub is_filter : List ℕ → Bool
  pub works : SocketAddr → SocketOp → Bool
  pub kernel : Kernel
  pub files : Files
  pub process : kernel.Process
  pub runtime_ok : Bool
  pub log2_floor : ℕ → ℤ
  pub measuring : ℕ → ℤ
  pub wall : ℤ
  pub mono : ℕ
  pub readings : ℕ → ℤ
  pub metrics_works : SocketAddr → Bool

-- `Config::from_file`.
abbrev pub from_file : World → List ℕ → Result LaunchError Config
from_file w path = elim (w.read_to_string path) [
  | none ↦ err (unreadable path)
  | some text ↦ elim (w.parse_toml text) [ none ↦ err (unparsed path) | some c ↦ ok c ]
]

abbrev pub base_config : World → Option (List ℕ) → Result LaunchError Config
base_config w (some path) = from_file w path
base_config w none = if w.system_path_exists then from_file w w.system_path else ok default_config

abbrev pub choose {ℓ} : {A : Type ℓ} → Option A → A → A
choose none old = old
choose (some new) old = new

abbrev pub choose_binds : List SocketAddr → List SocketAddr → List SocketAddr
choose_binds [] old = old
choose_binds (addr ∷ addrs) old = addr ∷ addrs

abbrev pub given : Option SocketAddr → Bool
given none = false
given (some _) = true

-- The command line over the configuration.
unfoldable pub apply_args : ServeArgs → Config → Config
apply_args args c = record c {
  server = record c.server {
    bind = choose_binds args.bind c.server.bind;
    public_bind_acknowledged =
        if args.public_bind_acknowledged then true else c.server.public_bind_acknowledged;
  };
  logging = record c.logging {
    level = choose args.log_level c.logging.level;
    format = choose args.log_format c.logging.format;
  };
  protocol = record c.protocol { stratum = choose args.stratum c.protocol.stratum };
  metrics = record c.metrics {
    enabled = if args.metrics || given args.metrics_bind then true else c.metrics.enabled;
    bind = choose args.metrics_bind c.metrics.bind;
  };
}

abbrev with_args : Option ServeArgs → Config → Config
with_args none c = c
with_args (some args) c = apply_args args c

unfoldable pub load_config : World → Option (List ℕ) → Option ServeArgs → Result LaunchError Config
unfolding apply_args apply_env_overrides
load_config w path args = do
  base ← base_config w path
  overridden ← map_err bad_variable (apply_env_overrides w.parse_addr w.variables base)
  ok (with_args args overridden)
