-- ===== src/Launch/Served.antt =====
-- main.rs, `serve`: what holds of a server that has started.
use heeler.Common.{◌+◌, ◌*◌, ◌≡◌, ◌≢◌, true, some, List, ok, inl, inr, arith}
use heeler.Common.Int.{pos_part}
use heeler.Common.Words.{IsI8}
use heeler.Access.{IpNets}
use heeler.Clock.Jumps.{system_clock_source, check_jump-HasReference, new-HasReference}
use heeler.Clock.Precision.{measure_system_range}
use heeler.Server.Loop.{Event, run}
use heeler.Server.Runs.{Balanced, recv_failures}
use heeler.Server.Sound.{IsSoundState}
use heeler.Server.Start.{new-run}
use heeler.Config.{Config}
use heeler.Privilege.Drop.{IsPosix}
use heeler.Privilege.Success.{drop_privileges-unprivileged}
use heeler.Launch.{
  load_config, dropped_by, World, ServeArgs, Effect, Running, precision_of, serve, jump_check,
}
use heeler.Launch.Laws.{serve-order}

precision_of-IsI8 : (w : World) → IsI8 (precision_of w)
precision_of-IsI8 w =
    let (_, _, lo, hi) = measure_system_range w.measuring w.log2_floor in omega (arith, lo, hi)

module _ (nets : IpNets) where
  -- A server that starts keeps its invariant over any sequence of datagrams, failed receives and ticks,
  -- and its counters balance.
  pub serve-run :
      (w : World) (args : ServeArgs) (log : List Effect) (l : Running nets w) (es : List Event)
      → serve nets w args ≡ (log, ok l)
      → let st = (run (system_clock_source w.readings) nets (some jump_check) l es).server in
        IsSoundState (system_clock_source w.readings) nets st
        × Balanced st.metrics (recv_failures es + 0)
  unfolding system_clock_source
  serve-run w args log l es e =
      let (c, v, clock, _, _, valid, _, _, accepted, same) = serve-order nets w args log l e in
      let (sound, precise) =
        new-HasReference v.jump_policy (pos_part c.protocol.root_dispersion_ms * 1_000_000)
          (precision_of w) w.wall w.mono clock accepted in
      rw same (
        new-run (system_clock_source w.readings) nets (some jump_check)
          (λ tick s h. check_jump-HasReference s tick.wall tick.mono h) c v clock w.mono es valid
          sound (rw precise (precision_of-IsI8 w)))

  -- Where libc does what it documents, a server that starts, and is configured to drop privileges,
  -- serves with an effective uid other than 0.
  pub serve-unprivileged :
      (w : World) (args : ServeArgs) (c : Config) (log : List Effect) (l : Running nets w)
      → IsPosix w.kernel
      → load_config w args.config (some args) ≡ ok c
      → c.security.drop_privileges ≡ true
      → serve nets w args ≡ (log, ok l)
      → (w.kernel.credentials (dropped_by w c).1).effective_uid ≢ 0
  serve-unprivileged w args c log l posix loaded configured e =
      let (d, _, _, _, again, _, drop, _, _, _) = serve-order nets w args log l e in
      let same : d ≡ c = ground (arith, loaded, again) in
      elim drop [
        | inl (off, _) ↦ ground (arith, same, off, configured)
        | inr (_, outcome, dropped, _) ↦
            drop_privileges-unprivileged w.kernel posix w.files c.security.user c.security.group _
              outcome w.process (rw same at dropped)
      ]
