-- ===== src/Examples/Site.antt =====
-- Concrete values for the start of a server: a small kernel, one configuration file, one world.
use heeler.Common.{
  ℕ, ◌+◌, ◌*◌, ◌≡◌, refl, ◌∙◌, Bool, true, false, ◌==◌, if◌then◌else◌, Option, none, some, List, [],
  ◌∷◌, ok, codes, arith,
}
use heeler.Common.Int.{pos, negsuc}
use heeler.Access.{v4, SocketAddr}
use heeler.Config.{Config}
use heeler.Privilege.{
  Kernel, Credentials, Files, drop_privileges, dropped, targets, resolve_user, lookup_colon_file,
  lookup_lines, change_root, change_ids,
}
use heeler.Common.Text.{
  lines, split, trim, parse_u32, drop_last_empty, parse_unsigned, parse_digits, trim_start,
  is_whitespace,
}
use heeler.Privilege.Drop.{IsPosix, dropped_to}
use heeler.Config.Env.{apply_env_overrides, env_var}
use heeler.Examples.Data.{config, validated, loopback, prefixes}
use heeler.Common.Int.{div_trunc, div_euclid, rem_euclid, ◌*ℤ◌, ◌+ℤ◌, ◌-ℤ◌}
use heeler.Common.Words.{wrap_i64}
use heeler.Packet.Short.{signed_from_millis, unsigned_from_millis}
use heeler.Timestamp.{to_timestamp, from_system_time}
use heeler.Clock.Precision.{measure_system, measure_steps, rounds, spin, step_since, from_duration}
use heeler.Clock.System
use heeler.Clock.System.{SystemClockSource, default_jump_policy}
use heeler.Config.Validate
use heeler.Config.Validate.{ValidatedConfig}
use heeler.Config.Binds.{public_bind_addresses, is_public_address}
use heeler.Access.{from_rules, parse_default_action, parse_rules, parse_rule}
use heeler.Launch.Laws.{serve-valid}
use heeler.Launch.Sockets.{bind_socket, socket_ops, perform}
use heeler.Launch.{
  refuses_public, dropped_by, serve_valid, bind_sockets, give_up_privileges, start,
  listen_for_metrics, bound, gave_up, serving, apply_args, World, ServeArgs, Effect, load_config,
  serve, started,
}

-- A kernel that knows the ids only: a call that needs root succeeds as root.
abbrev pub as_root : Credentials → Credentials → Bool × Credentials
as_root before after = if before.effective_uid == 0 then (true, after) else (false, before)

abbrev pub kernel : Kernel
kernel = record {
  Process = Credentials;
  credentials = λ c. c;
  call_chroot = λ dir c. (c.effective_uid == 0, c);
  call_chdir = λ dir c. (true, c);
  call_setgroups = λ gids c. as_root c (record c { groups = gids });
  call_setgid = λ gid c. as_root c (record c { effective_gid = gid });
  call_setuid =
      λ uid c. as_root c (record c { real_uid = uid; effective_uid = uid; saved_uid = uid });
}

pub kernel-IsPosix : IsPosix kernel
kernel-IsPosix = record {
  chroot_keeps = λ dir p. refl;
  chdir_keeps = λ dir p. refl;
  setgroups_sets = λ gids p e. ground (arith, e);
  setgid_sets = λ gid p r e. ground (arith, r);
  setuid_sets = λ uid p r e. ground (arith, r);
  setuid_fails = λ uid p e. ground (arith, e);
}

abbrev pub root : Credentials
root = record { real_uid = 0; effective_uid = 0; saved_uid = 0; effective_gid = 0; groups = 0 ∷ [] }

abbrev pub files : Files
files = record { passwd = some (codes "heeler:x:77:78:\n"); group = none }

abbrev pub service : List ℕ
service = codes "heeler"

pub dropped_run :
    drop_privileges kernel files service [] (some (codes "/var")) root
    ≡ (ok (dropped 77 78), dropped_to 77 78)
unfolding drop_privileges targets resolve_user lookup_colon_file lookup_lines lines split trim
    parse_u32 change_root change_ids drop_last_empty parse_unsigned parse_digits trim_start
    is_whitespace
dropped_run = refl

-- A configuration file that asks for one port on the loopback address and for the drop of privileges.
abbrev pub here : SocketAddr
here = record { ip = v4 (loopback + 1); port = 123 }

abbrev pub on_file : Config
on_file = record config {
  server = record config.server { bind = here ∷ [] };
  security = record config.security { drop_privileges = true; user = service; group = [] };
}

abbrev pub args : ServeArgs
args = record {
  config = some (codes "heeler.toml");
  bind = [];
  log_level = none;
  log_format = none;
  stratum = some 3;
  metrics = false;
  metrics_bind = none;
  public_bind_acknowledged = false;
}

abbrev pub no_variables : List ℕ → Option (List ℕ)
no_variables name = none

abbrev pub world : World
world = record {
  read_to_string = λ path. some (codes "heeler");
  parse_toml = λ text. some on_file;
  system_path = codes "/etc/heeler/heeler.toml";
  system_path_exists = false;
  variables = no_variables;
  parse_addr = λ text. none;
  is_filter = λ text. true;
  works = λ addr op. true;
  kernel = kernel;
  files = files;
  process = root;
  runtime_ok = true;
  log2_floor = λ n. negsuc 19;
  measuring = λ k. pos (k * 1000);
  wall = pos 1_700_000_000_000_000_000;
  mono = 0;
  readings = λ k. pos 1_700_000_000_000_000_000;
  metrics_works = λ addr. true;
}

abbrev pub final : Config
final = record on_file { protocol = record on_file.protocol { stratum = 3 } }

pub loads : load_config world args.config (some args) ≡ ok final
unfolding load_config apply_args apply_env_overrides env_var
loads = refl

abbrev pub valid : ValidatedConfig prefixes
valid = record validated { config = final; identity = record validated.identity { stratum = 3 } }

abbrev pub accepted : SystemClockSource
accepted = record {
  policy = default_jump_policy;
  precision = negsuc 19;
  root_dispersion = 5_000_000;
  is_synchronised = true;
  reference = some (record { seconds = 3_908_988_800; fraction = 0 });
  last_wall = record { nanos = pos 3_908_988_800_000_000_000 };
  last_mono = 0;
  reads = 0;
}

abbrev pub log : List Effect
log = bound here ∷ gave_up (dropped 77 78) ∷ serving ∷ []

pub final_valid : Validate.validate prefixes final ≡ ok valid
unfolding Validate.validate signed_from_millis div_trunc wrap_i64 rem_euclid ◌*ℤ◌
    unsigned_from_millis from_rules parse_default_action parse_rules parse_rule
final_valid = refl

pub not_public : refuses_public final ≡ false
unfolding public_bind_addresses is_public_address
not_public = refl

pub dropped_here : dropped_by world final ≡ (ok (dropped 77 78), dropped_to 77 78)
unfolding drop_privileges targets resolve_user lookup_colon_file lookup_lines lines split trim
    parse_u32 change_root change_ids drop_last_empty parse_unsigned parse_digits trim_start
    is_whitespace
dropped_here = refl

pub starts : start prefixes world valid ≡ (serving ∷ [], ok (started prefixes world valid accepted))
unfolding start listen_for_metrics System.new to_timestamp from_system_time div_euclid rem_euclid
    ◌+ℤ◌ measure_system measure_steps rounds spin step_since from_duration ◌-ℤ◌
starts = refl

pub gives_up : give_up_privileges world final ≡ (gave_up (dropped 77 78) ∷ [], ok tt)
unfolding give_up_privileges
gives_up = rw dropped_here refl

pub serves : serve prefixes world args ≡ (log, ok (started prefixes world valid accepted))
unfolding serve_valid bind_sockets bind_socket socket_ops perform
serves =
    serve-valid prefixes world args final valid loads final_valid
    ∙ rw (serve_valid, not_public, gives_up, starts) refl
