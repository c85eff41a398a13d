-- ===== src/Cli.antt =====
-- crates/heeler-server/src/main.rs: `main`, its commands, and what they print and exit with. Parsing
-- the command line is clap's; logging and the text of an error are left out. Where the standard output or
-- error cannot be written, `println!` and `eprintln!` panic. How std writes addresses and
-- fractions, the texts that the build puts in, and the times that the benchmark takes are the host's.
pub mod Timeout
pub mod Laws
use heeler.Common.{
  ℕ, Bool, true, false, not, ◌==◌, if◌then◌else◌, Option, none, some, List, [], ◌∷◌, ◌++◌, map,
  codes, bytes_eq, Result, ok, err,
}
use heeler.Common.Int.{ℤ}
use heeler.Common.Decimal.{show}
use heeler.Common.Lines.{Line, unlines}
use heeler.Access.{SocketAddr, IpNets}
use heeler.Timestamp.{from_system_time}
use heeler.Packet.Display.{show_reference_id}
use heeler.Config.Validate.{ValidatedConfig}
use heeler.Config.Binds.{public_bind_addresses}
use heeler.Inspect.{InspectError}
use heeler.Inspect.Render.{inspect_text}
use heeler.Client
use heeler.Client.{Environment, QueryOptions, QueryError, QueryReport}
use heeler.Client.Report.{format_report}
use heeler.Bench
use heeler.Bench.{Timings}
use heeler.Launch
use heeler.Launch.{World, ServeArgs, LaunchError, Effect, Running}
use Timeout.{F64, query_timeout}

-- `--ntp-version` is 3 or 4, which clap checks.
pub record QueryArgs (f : F64) : Type 0 where
  pub server : List ℕ
  pub ntp_version : ℕ
  pub timeout : f.F

pub data Command (f : F64) : Type 0 where
  serve : ServeArgs → Command f
  check_config : Option (List ℕ) → Command f
  print_default_config : Command f
  inspect_packet : List ℕ → Command f
  query : QueryArgs f → Command f
  version : Command f
  bench : Command f

-- `stdin` is `none` where it cannot be read. `stdout_ok` and `stderr_ok` say whether what is written to
-- the standard output and error gets there. `run_ends_well` is the result of the server's run, once it
-- has started.
pub record Host (f : F64) : Type 1 where
  pub world : World
  pub run_ends_well : Bool
  pub stdin : Option (List ℕ)
  pub stdout_ok : Bool
  pub stderr_ok : Bool
  pub inspect_wall : ℤ
  pub network : Environment
  pub default_config_toml : List ℕ
  pub package_version : List ℕ
  pub timings : Timings
  pub show_per_op : ℕ → ℕ → List ℕ
  pub show_addr : SocketAddr → List ℕ
  pub show_seconds : ℤ → List ℕ
  pub show_millis : ℤ → List ℕ

-- `ExitCode`, or a panic.
pub data Exit : Type 0 where
  success : Exit
  failure : Exit
  panicked : Exit

pub record Outcome : Type 0 where
  pub printed : List ℕ
  pub exit : Exit

abbrev pub line : List ℕ → List ℕ
line text = text ++ (b'\n' ∷ [])

abbrev pub prints : List ℕ → Outcome
prints text = record { printed = text; exit = success }

abbrev pub stops_with : Exit → Outcome
stops_with exit = record { printed = []; exit = exit }

abbrev pub joined : List (List ℕ) → List ℕ
joined [] = []
joined (text ∷ []) = text
joined (text ∷ next ∷ texts) = text ++ (codes ", " ++ joined (next ∷ texts))

module _ (nets : IpNets) where
  abbrev public_lines : (SocketAddr → List ℕ) → List SocketAddr → List Line
  public_lines show_addr [] = []
  public_lines show_addr (addr ∷ addrs) =
      (codes "  warning: public bind addresses configured: "
        ++ joined (map show_addr (addr ∷ addrs)))
      ∷ []

  -- What `check_config` prints of a valid configuration; `{:?}` of the versions is a bracketed list.
  unfoldable pub check_text : (SocketAddr → List ℕ) → ValidatedConfig nets → List ℕ
  unfolding public_bind_addresses show_reference_id show
  check_text show_addr v = unlines (
      codes "configuration OK"
      ∷ (codes "  bind: " ++ joined (map show_addr v.config.server.bind))
      ∷ (codes "  stratum "
          ++ (show v.identity.stratum
              ++ (codes " refid "
                  ++ (show_reference_id v.identity.reference_id
                      ++ (codes " versions ["
                          ++ (joined (map show v.config.protocol.versions) ++ codes "]"))))))
      ∷ public_lines show_addr (public_bind_addresses v.config))

  module _ (f : F64) (host : Host f) where
    abbrev pub checked : Result LaunchError (ValidatedConfig nets) → Outcome
    checked (err _) = stops_with failure
    checked (ok v) = prints (check_text host.show_addr v)

    abbrev pub served : Result LaunchError (Running nets host.world) → Outcome
    served (err _) = stops_with failure
    served (ok _) = stops_with (if host.run_ends_well then success else failure)

    abbrev pub inspected : Option (Result InspectError (List ℕ)) → Outcome
    inspected none = stops_with panicked
    inspected (some (err _)) = stops_with failure
    inspected (some (ok text)) = prints (line text)

    unfoldable pub inspect_input : Option (List ℕ) → Outcome
    unfolding inspect_text
    inspect_input none = stops_with failure
    inspect_input (some input) =
        inspected (inspect_text host.show_seconds input (from_system_time host.inspect_wall))

    -- A dash stands for the standard input.
    abbrev pub input_of : List ℕ → Option (List ℕ)
    input_of hex = if bytes_eq hex (codes "-") then host.stdin else some hex

    abbrev pub answered : Result QueryError QueryReport → Outcome
    answered (err _) = stops_with failure
    answered (ok report) =
        prints (line (format_report host.show_addr host.show_seconds host.show_millis report))

    abbrev pub ask : QueryArgs f → Option ℕ → Outcome
    ask args none = stops_with panicked
    ask args (some timeout) = answered (
        Client.query host.network
          (record { server = args.server; version = args.ntp_version; timeout = timeout }))

    -- The commands, with a standard output that can be written.
    unfoldable pub perform : Command f → Outcome
    unfolding inspect_input query_timeout Launch.serve Launch.check_config Client.query
        format_report check_text Bench.run
    perform (serve args) = served (Launch.serve nets host.world args).1
    perform (check_config path) = checked (Launch.check_config nets host.world path)
    perform print_default_config = prints host.default_config_toml
    perform (inspect_packet hex) = inspect_input (input_of hex)
    perform (query args) = ask args (query_timeout f args.timeout)
    perform version = prints (line (codes "heeler " ++ host.package_version))
    perform bench = prints (line (Bench.run host.show_per_op host.timings))

    -- A failed print panics, and so does the line on the standard error that ends a failed command.
    abbrev pub written : List ℕ → Exit → Outcome
    written [] success = prints []
    written (c ∷ text) success = if host.stdout_ok then prints (c ∷ text) else stops_with panicked
    written text failure = stops_with (if host.stderr_ok then failure else panicked)
    written text panicked = stops_with panicked

    unfoldable pub main : Command f → Outcome
    unfolding perform
    main c = let o = perform c in written o.printed o.exit
