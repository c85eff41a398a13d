-- ===== src/Lib.antt =====
-- Heeler, an NTP server: a model of its packet path, its start and its tools, and what
-- holds of them.
--
-- A datagram passes the size check, access control, the rate limiter, the parser and the validation
-- policy; a request that passes them all gets a response with a fresh reading of the clock, and some of
-- those that do not get a Kiss-o'-Death packet. A housekeeping task checks the clock for jumps and
-- sweeps the limiter. The model follows that path:
--
--   Timestamp   crates/heeler-core/src/timestamp.rs: `NtpTimestamp`, `NtpInstant`, `unfold` as
--               `unfold_era`. An instant is an integer of nanoseconds.
--   Packet      crates/heeler-core/src/packet.rs: `NtpPacket::parse` and `encode` over lists of bytes,
--               with the field types as child modules, their `Display` in Packet.Display. The
--               newtypes are numbers, with predicates such as `IsPacket` for their ranges.
--   Errors      crates/heeler-core/src/error.rs.
--   Validation  crates/heeler-core/src/validation.rs: `ValidationPolicy::validate`.
--   Response    crates/heeler-core/src/response.rs: `build_response`, `build_kiss_of_death`.
--   Clock       crates/heeler-core/src/clock.rs: the `ClockSource` trait as a record of operations and
--               laws, `SystemClockSource` as Clock.System, `MockClockSource` as Clock.Mock,
--               `ClockPrecision` as Clock.Precision.
--   Access      crates/heeler-server/src/access.rs: `AccessControl`, over prefixes of the ipnet crate.
--   RateLimit   crates/heeler-server/src/rate_limit.rs: `RateLimiter::check` and `sweep` as functions of
--               the limiter's state; RateLimit.Forgetting has a limiter that never sweeps.
--   Metrics     crates/heeler-server/src/metrics.rs: the counters; `render` and the HTTP response are
--               in Metrics.Render, a reader of the text in Metrics.Scrape, `serve_metrics` in
--               Metrics.Serve.
--   Server      crates/heeler-server/src/server.rs: `handle_datagram` in its steps (`by_access`, `limit`,
--               `answer`, `respond`), `send_kod`, and in Server.Loop the receive loop and the
--               housekeeping loop as steps on events. `ServerState::new` is in
--               Server.Start, `run_server` with its tasks and awaits in Server.Tasks.
--   Config      crates/heeler-server/src/config.rs: the sections, `Config::validate`,
--               `public_bind_addresses`, and in Config.Env `apply_env_overrides`.
--   Launch      crates/heeler-server/src/main.rs: `load_config`, `serve` and `run` up to the receive
--               loops, as a log of effects on a `World`; `bind_sockets` of server.rs.
--   Privilege   crates/heeler-server/src/privilege.rs: `drop_privileges` over a `Kernel`.
--   Client      crates/heeler-server/src/client.rs: `query` in an `Environment`; `format_report` is in
--               Client.Report.
--   Inspect     crates/heeler-server/src/inspect.rs: `decode_hex`, `civil_from_days`,
--               `format_instant`; `render` is in Inspect.Render, a reader of its text in
--               Inspect.Reader and Inspect.ReadBack.
--   Cli         crates/heeler-server/src/main.rs: `main` and its commands, on a `Host`.
--   Shutdown    crates/heeler-server/src/shutdown.rs: `wait_for_signal` over the polls of its `select!`.
--   Bench       crates/heeler-server/src/bench.rs: the operations and the report of `run`.
--   Common      numbers, lists, results and machine words; Examples concrete inputs.
--
-- State is passed explicitly. A lock or an atomic counter is a field of the state, and tasks that run
-- concurrently are some sequence of events, each of which is one whole handler. Time is an argument:
-- an `Instant` is a number of nanoseconds, and a clock's readings come from its state or from the
-- caller. Machine integers are natural numbers or integers with the wrap-around of a release build
-- written out, where it can happen. Loops are recursions on lists, or on the number of rounds that the
-- code gives them. The one that uses fuel writes the digits of a number: twenty are enough for 64 bits,
-- and Common.Decimal shows that they are read back.
--
-- What the operating system does is a parameter: the calls of libc with what they document (`IsPosix`),
-- the sockets that can be bound, the files that can be read, the resolver, the datagram that comes back.
--
-- Not modelled: the runtime; the TOML and command-line parsers; logging; how floating
-- point numbers are computed and written, which only texts and the clock's precision depend on; what
-- the benchmark measures. The ipnet crate's prefixes are a parameter, `IpNets`.
pub mod Access
pub mod Bench
pub mod Cli
pub mod Client
pub mod Clock
pub mod Common
pub mod Config
pub mod Errors
pub mod Examples
pub mod Inspect
pub mod Launch
pub mod Metrics
pub mod Packet
pub mod Privilege
pub mod RateLimit
pub mod Response
pub mod Server
pub mod Shutdown
pub mod Timestamp
pub mod Validation
