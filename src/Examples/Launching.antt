-- ===== src/Examples/Launching.antt =====
-- The results on the start of the server and on its end, at one site.
use heeler.Common.{
  ℕ, ◌+◌, ◌*◌, ◌^◌, ◌≡◌, ◌≢◌, refl, true, some, List, [], ◌∷◌, ◌++◌, ok, err, codes, map,
}
use heeler.Access.{v4, SocketAddr}
use heeler.Config.{Config}
use heeler.Privilege.{targets}
use heeler.Privilege.Drop.{dropped_to, drop_privileges-dropped}
use heeler.Config.Env.{apply_env_overrides, env_var}
use heeler.Examples.Data.{prefixes, events}
use heeler.Common.Int.{pos_part}
use heeler.Clock.System
use heeler.Clock.System.{SystemClockSource, default_jump_policy}
use heeler.Config.Validate
use heeler.Config.Validate.{ValidatedConfig}
use heeler.Config.Binds.{is_public_address}
use heeler.Launch.Laws.{serve-order, serve-public_bind}
use heeler.Launch.Stages.{IsDrop, listens_of}
use heeler.Launch.Served.{serve-run, serve-unprivileged}
use heeler.Launch.Precedence.{IsFinal, load_config-IsFinal}
use heeler.Config.Precedence.{Settings, IsChosen}
use heeler.Clock.Jumps.{system_clock_source}
use heeler.Server.Loop.{run}
use heeler.Server.Runs.{Balanced, recv_failures}
use heeler.Server.Sound.{IsSoundState}
use heeler.Launch.{
  LaunchError, base_config, jump_check, dropped_by, bound, precision_of, serving, apply_args, World,
  Effect, load_config, serve, started,
}
use heeler.Examples.Site.{
  kernel, kernel-IsPosix, root, files, service, dropped_run, here, on_file, args, no_variables,
  world, final, loads, valid, accepted, log, serves,
}

drop_privileges-dropped_example :
    (root.effective_uid ≡ 0)
    × (targets files service [] ≡ ok (77, 78))
    × (◌≢◌ {A = ℕ} 77 0)
    × (dropped_to 77 78 ≡ dropped_to 77 78)
drop_privileges-dropped_example =
    drop_privileges-dropped kernel kernel-IsPosix files service [] (some (codes "/var")) 77 78 root
      (dropped_to 77 78) dropped_run

serve-run_example :
    let start = started prefixes world valid accepted in
    let st =
      (run (system_clock_source world.readings) prefixes (some jump_check) start events).server in
    IsSoundState (system_clock_source world.readings) prefixes st
    × Balanced st.metrics (recv_failures events + 0)
serve-run_example =
    serve-run prefixes world args log (started prefixes world valid accepted) events serves

serve-unprivileged_example : (dropped_by world final).1.effective_uid ≢ 0
serve-unprivileged_example =
    serve-unprivileged prefixes world args final log (started prefixes world valid accepted)
      kernel-IsPosix loads refl serves

serve-order_example :
    (c : Config) × (v : ValidatedConfig prefixes) × (clock : SystemClockSource) × (drops : List
      Effect)
    × (load_config world args.config (some args) ≡ ok c)
    × (Validate.validate prefixes c ≡ ok v)
    × IsDrop world c drops
    × (log ≡ map bound c.server.bind ++ (drops ++ (listens_of c ++ (serving ∷ []))))
    × (System.new v.jump_policy
          (pos_part c.protocol.root_dispersion_ms * 1_000_000)
          (precision_of world)
          world.wall
          world.mono
        ≡ ok clock)
    × (started prefixes world valid accepted ≡ started prefixes world v clock)
serve-order_example =
    serve-order prefixes world args log (started prefixes world valid accepted) serves

-- The same, but the file asks for a public address as well.
abbrev outside : SocketAddr
outside = record { ip = v4 (8 * 2 ^ 24 + 8); port = 123 }

abbrev exposed : World
exposed = record world {
  parse_toml = λ text.
      some (record on_file { server = record on_file.server { bind = here ∷ outside ∷ [] } });
}

abbrev exposed_final : Config
exposed_final = record final { server = record final.server { bind = here ∷ outside ∷ [] } }

exposed_loads : load_config exposed args.config (some args) ≡ ok exposed_final
unfolding load_config apply_args apply_env_overrides env_var
exposed_loads = refl

is_outside : is_public_address outside.ip ≡ true
unfolding is_public_address
is_outside = refl

serve-public_bind_example : (e : LaunchError) × (serve prefixes exposed args ≡ ([], err e))
serve-public_bind_example =
    serve-public_bind prefixes exposed args exposed_final (here ∷ []) [] outside exposed_loads refl
      refl refl is_outside

load_config-IsFinal_example :
    (base : Config) × (s : Settings) × (base_config world args.config ≡ ok base)
    × IsChosen world.parse_addr no_variables base s
    × IsFinal args base s final
load_config-IsFinal_example = load_config-IsFinal world args.config args final loads
