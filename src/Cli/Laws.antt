-- ===== src/Cli/Laws.antt =====
-- main.rs, `main`: when it prints, when it panics, and how its commands agree.
use heeler.Common.{
  ℕ, ◌≡◌, ◌≢◌, ◌⊎◌, refl, false, Option, none, some, List, [], ◌∷◌, ok, err, map_err, Result-cases,
  Bool-cases, inl, inr,
}
use heeler.Access.{IpNets}
use heeler.Config.Env.{apply_env_overrides}
use heeler.Config.Validate.{ValidatedConfig}
use heeler.Client
use heeler.Launch
use heeler.Launch.{
  World, ServeArgs, LaunchError, load_config, apply_args, base_config, serve_valid, fail,
  bad_variable,
}
use heeler.Cli.Timeout.{F64}
use heeler.Cli.{Command, serve, check_config, Host, success, panicked, written, main, Exit, failure}

-- `heeler serve --config path`, or `heeler serve`, with no other option.
abbrev pub only_config : Option (List ℕ) → ServeArgs
only_config path = record {
  config = path;
  bind = [];
  log_level = none;
  log_format = none;
  stratum = none;
  metrics = false;
  metrics_bind = none;
  public_bind_acknowledged = false;
}

module _ (nets : IpNets) (w : World) where
  load_config-only_config :
      (path : Option (List ℕ))
      → load_config w path (some (only_config path)) ≡ load_config w path none
  unfolding load_config apply_args
  load_config-only_config path = elim (Result-cases (base_config w path)) [
    | inr (e, b) ↦ rw b refl
    | inl (base, b) ↦
        elim (Result-cases
          (map_err bad_variable (apply_env_overrides w.parse_addr w.variables base))) [
            | inr (e, o) ↦ rw b (rw o refl)
            | inl (c, o) ↦ rw b (rw o refl)
          ]
  ]

  -- What `heeler check-config` accepts, `heeler serve` on the same file and with no option starts from,
  -- with the same validated configuration; what it refuses, `serve` refuses with the same error, before
  -- it has done anything.
  pub serve-check_config :
      (path : Option (List ℕ))
      → ((v : ValidatedConfig nets) × (Launch.check_config nets w path ≡ ok v)
          × (Launch.serve nets w (only_config path) ≡ serve_valid nets w v))
        ⊎ ((e : LaunchError) × (Launch.check_config nets w path ≡ err e)
            × (Launch.serve nets w (only_config path) ≡ ([], err e)))
  unfolding Launch.serve Launch.check_config
  serve-check_config path =
      let same = load_config-only_config path in
      elim (Result-cases (Launch.check_config nets w path)) [
        | inl (v, e) ↦ inl (v, e, rw (same, Launch.serve) (rw e refl))
        | inr (x, e) ↦ inr (x, e, rw (same, Launch.serve) (rw e refl))
      ]

module _ (nets : IpNets) (f : F64) (host : Host f) where
  written-printed :
      (text : List ℕ) (exit : Exit)
      → (written nets f host text exit).exit ≢ success
      → (written nets f host text exit).printed ≡ []
  written-printed [] success n = refl
  written-printed (c ∷ text) success n = elim (Bool-cases host.stdout_ok) [
    | inl e ↦ absurd (n (rw e refl))
    | inr e ↦ rw e refl
  ]
  written-printed text failure n = refl
  written-printed text panicked n = refl

  -- A command that does not succeed prints nothing to the standard output.
  pub main-printed :
      (c : Command f) → (main nets f host c).exit ≢ success → (main nets f host c).printed ≡ []
  unfolding main
  main-printed c n = written-printed _ _ n
