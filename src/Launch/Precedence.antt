-- ===== src/Launch/Precedence.antt =====
-- main.rs, `load_config`: the command line over the environment over the file over the defaults.
use heeler.Common.{
  ℕ, ◌≡◌, refl, Bool, ◌||◌, true, false, Option, some, List, Result, ok, err, map_err, >>=-eq-ok,
  arith, if◌then◌else◌,
}
use heeler.Config.{Config}
use heeler.Config.Env.{apply_env_overrides}
use heeler.Config.Precedence.{Settings, IsChosen, with_settings, apply_env_overrides-IsChosen}
use heeler.Launch.{
  World, ServeArgs, bad_variable, apply_args, base_config, load_config, choose, choose_binds, given,
}

map_err-ok {ℓ κ μ} :
    {E : Type ℓ} {F : Type κ} {A : Type μ} (f : E → F) (r : Result E A) {value : A}
    → map_err f r ≡ ok value
    → r ≡ ok value
map_err-ok f (ok a) e = ground (arith, e)
map_err-ok f (err x) e = ground (arith, e)

-- What is on the command line wins over what was chosen before.
pub record IsFinal (args : ServeArgs) (base : Config) (s : Settings) (c : Config) : Type 0 where
  pub bind_final : c.server.bind ≡ choose_binds args.bind s.binds
  pub level_final : c.logging.level ≡ choose args.log_level s.level
  pub format_final : c.logging.format ≡ choose args.log_format s.format
  pub stratum_final : c.protocol.stratum ≡ choose args.stratum s.stratum
  pub metrics_final :
      c.metrics.enabled ≡ (args.metrics || (given args.metrics_bind || s.metrics_enabled))
  pub metrics_bind_final : c.metrics.bind ≡ choose args.metrics_bind s.metrics_bind
  pub acknowledged_final :
      c.server.public_bind_acknowledged ≡ (args.public_bind_acknowledged || s.acknowledged)
  pub reference_id_final : c.protocol.reference_id ≡ s.reference_id
  pub rate_limit_final : c.rate_limit.enabled ≡ s.rate_limit_enabled
  pub access_final : c.access ≡ base.access
  pub clock_final : c.clock ≡ base.clock
  pub security_final : c.security ≡ base.security

if-or : (a b : Bool) → (if a then true else b) ≡ (a || b)
if-or true b = refl
if-or false b = refl

if-or_3 : (a b c : Bool) → (if a || b then true else c) ≡ (a || (b || c))
if-or_3 true b c = refl
if-or_3 false b c = if-or b c

apply_args-IsFinal :
    (args : ServeArgs) (base : Config) (s : Settings)
    → IsFinal args base s (apply_args args (with_settings s base))
unfolding apply_args
apply_args-IsFinal args base s = record {
  bind_final = refl;
  level_final = refl;
  format_final = refl;
  stratum_final = refl;
  metrics_final = if-or_3 args.metrics (given args.metrics_bind) s.metrics_enabled;
  metrics_bind_final = refl;
  acknowledged_final = if-or args.public_bind_acknowledged s.acknowledged;
  reference_id_final = refl;
  rate_limit_final = refl;
  access_final = refl;
  clock_final = refl;
  security_final = refl;
}

-- A configuration that is loaded starts from the named file, or else the system's file if it exists, or
-- else the defaults. Each setting with a variable that is set and not empty is read from it; over that,
-- each option that is on the command line wins. Access, clock and security stay as they started.
pub load_config-IsFinal :
    (w : World) (path : Option (List ℕ)) (args : ServeArgs) (c : Config)
    → load_config w path (some args) ≡ ok c
    → (base : Config) × (s : Settings) × (base_config w path ≡ ok base)
      × IsChosen w.parse_addr w.variables base s
      × IsFinal args base s c
unfolding load_config
load_config-IsFinal w path args c e =
    let (base, first, rest) = >>=-eq-ok (base_config w path) _ e in
    let (overridden, second, last) =
      >>=-eq-ok (map_err bad_variable (apply_env_overrides w.parse_addr w.variables base))
        (λ o. ok (apply_args args o)) rest in
    let (s, chosen, same) =
      apply_env_overrides-IsChosen w.parse_addr w.variables base overridden
        (map_err-ok bad_variable _ second) in
    let loaded : c ≡ apply_args args (with_settings s base) = ground (arith, last, same) in
    (base, s, first, chosen, rw loaded (apply_args-IsFinal args base s))
