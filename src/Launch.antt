-- ===== src/Launch.antt =====
-- crates/heeler-server/src/main.rs, `load_config` and `serve`, with `bind_sockets` of server.rs: from
-- the command line to a running server. The world outside is a record: files, variables, sockets, the
-- kernel, clocks. What is done to it is a log of effects. Logging and the command line's own parsing
-- are left out; the server's run is that of `Server`, and the other commands are in `Cli`.
pub mod Sockets
mod Load
pub mod Precedence
pub mod Stages
pub mod Laws
pub mod Served
pub use Load.*
unfoldable pub use Load.{apply_args, load_config}
use heeler.Common.{
  ℕ, ◌*◌, Bool, true, false, not, ◌&&◌, ◌||◌, if◌then◌else◌, Option, none, some, List, [], ◌∷◌,
  ◌++◌, Result, ok, err, map_err, ◌>>=◌,
}
use heeler.Common.Int.{ℤ, pos_part}
use heeler.Access.{SocketAddr, IpNets}
use heeler.Clock.{ClockError}
use heeler.Clock.Precision.{measure_system}
use heeler.Clock.System
use heeler.Clock.System.{SystemClockSource, ClockJump}
use heeler.Config.{Config, default_config}
use heeler.Config.Env.{EnvError, apply_env_overrides}
use heeler.Config.Validate
use heeler.Config.Validate.{Invalid, ValidatedConfig}
use heeler.Config.Binds.{public_bind_addresses}
use heeler.Clock.Jumps.{system_clock_source}
use heeler.Server.Loop.{Tick, LoopState}
use heeler.Server.Start.{new}
use heeler.Privilege.{Kernel, Files, DropOutcome, PrivilegeError, drop_privileges}
use Sockets.{SocketOp, bind_socket}

-- A computation that logs its effects up to where it fails.
abbrev pub Logged {ℓ} : Type ℓ → Type ℓ
Logged A = List Effect × Result LaunchError A

abbrev pub fail {ℓ} : {A : Type ℓ} → LaunchError → Logged A
fail e = ([], err e)

abbrev pub then_do {ℓ κ} : {A : Type ℓ} {B : Type κ} → Logged A → (A → Logged B) → Logged B
then_do (log, err e) f = (log, err e)
then_do (log, ok a) f = let (later, r) = f a in (log ++ later, r)

abbrev logged_bind : SocketAddr → Result SocketOp (List SocketOp) → Logged (Unit {0})
logged_bind addr (err op) = fail (socket addr op)
logged_bind addr (ok _) = (bound addr ∷ [], ok tt)

-- `bind_sockets`: one socket for each address, in order, up to the first that fails.
unfoldable pub bind_sockets : World → Config → List SocketAddr → Logged (Unit {0})
unfolding bind_socket
bind_sockets w c [] = ([], ok tt)
bind_sockets w c (addr ∷ addrs) =
    then_do (logged_bind addr (bind_socket (w.works addr) c.server addr))
      (λ _. bind_sockets w c addrs)

abbrev chroot_option : List ℕ → Option (List ℕ)
chroot_option [] = none
chroot_option (c ∷ dir) = some (c ∷ dir)

abbrev logged_drop : Result PrivilegeError DropOutcome → Logged (Unit {0})
logged_drop (err e) = fail (privilege e)
logged_drop (ok outcome) = (gave_up outcome ∷ [], ok tt)

-- What `drop_privileges` returns, and the process afterwards.
abbrev pub dropped_by : (w : World) → Config → Result PrivilegeError DropOutcome × w.kernel.Process
dropped_by w c =
    drop_privileges w.kernel w.files c.security.user c.security.group
      (chroot_option c.security.chroot_dir) w.process

unfoldable pub give_up_privileges : World → Config → Logged (Unit {0})
unfolding drop_privileges
give_up_privileges w c =
    if c.security.drop_privileges then logged_drop (dropped_by w c).0 else ([], ok tt)

unfoldable pub listen_for_metrics : World → Config → Logged (Unit {0})
listen_for_metrics w c =
    if c.metrics.enabled
    then if w.metrics_works c.metrics.bind
      then (listening c.metrics.bind ∷ [], ok tt)
      else fail (metrics_listener c.metrics.bind)
    else ([], ok tt)

abbrev is_empty {ℓ} : {A : Type ℓ} → List A → Bool
is_empty [] = true
is_empty (_ ∷ _) = false

-- Under strict public binds an unacknowledged public address stops the start.
abbrev pub refuses_public : Config → Bool
refuses_public c =
    not (is_empty (public_bind_addresses c))
    && (c.server.strict_public_bind && not c.server.public_bind_acknowledged)

-- The housekeeping task's check of the system clock.
abbrev pub jump_check : Tick → SystemClockSource → Option ClockJump × SystemClockSource
jump_check tick clock = System.check_jump clock tick.wall tick.mono

-- The precision that `SystemClockSource::new` measures.
abbrev pub precision_of : World → ℤ
precision_of w = measure_system w.log2_floor w.measuring

module _ (nets : IpNets) where
  -- A server over the system clock.
  abbrev pub Running : World → Type 0
  Running w = LoopState (system_clock_source w.readings) nets (some jump_check)

  abbrev pub started : (w : World) → ValidatedConfig nets → SystemClockSource → Running w
  started w v clock = record {
    server = new (system_clock_source w.readings) nets v clock w.mono;
    ticks = 0;
  }

  -- `run`, up to the start of the receive loops.
  unfoldable pub start : (w : World) → ValidatedConfig nets → Logged (Running w)
  unfolding listen_for_metrics System.new
  start w v =
      let dispersion = pos_part v.config.protocol.root_dispersion_ms * 1_000_000 in
      elim (System.new v.jump_policy dispersion (precision_of w) w.wall w.mono) [
        | err e ↦ fail (no_clock e)
        | ok clock ↦
            then_do (listen_for_metrics w v.config) (λ _. (serving ∷ [], ok (started w v clock)))
      ]

  -- The rest of `serve`, from a configuration that is valid.
  unfoldable pub serve_valid : (w : World) → ValidatedConfig nets → Logged (Running w)
  unfolding bind_sockets give_up_privileges start public_bind_addresses
  serve_valid w v =
      if not (w.is_filter v.config.logging.level)
      then fail (bad_level v.config.logging.level)
      else if refuses_public v.config
      then fail (public_bind (public_bind_addresses v.config))
      else then_do (bind_sockets w v.config v.config.server.bind) (λ _.
        then_do (give_up_privileges w v.config)
          (λ _. if w.runtime_ok then start w v else fail no_runtime))

  unfoldable pub serve : (w : World) → ServeArgs → Logged (Running w)
  unfolding load_config Validate.validate serve_valid
  serve w args =
      elim (load_config w args.config (some args) >>= λ c.
      map_err invalid (Validate.validate nets c)) [ err e ↦ fail e | ok v ↦ serve_valid w v ]

  -- `check_config`, before what it prints.
  unfoldable pub check_config : World → Option (List ℕ) → Result LaunchError (ValidatedConfig nets)
  unfolding load_config Validate.validate
  check_config w path = do c ← load_config w path none; map_err invalid (Validate.validate nets c)
