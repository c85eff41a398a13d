-- ===== src/Config/Precedence.antt =====
-- config.rs, `apply_env_overrides`: which value a setting has after the variables were applied.
use heeler.Common.{
  ℕ, ◌≡◌, ◌≢◌, refl, ◌∙◌, Bool, Option, List, [], Result, ok, map, codes, >>=-eq-ok, arith, ◌>>=◌,
}
use heeler.Common.Text.{split, trim, parse_u8}
use heeler.Access.{SocketAddr}
use heeler.Config.{Config}
use heeler.Config.Env.{
  EnvError, parse_bool, env_var, override, bind_name, parse_binds, set_binds, change_bind,
  apply_env_overrides,
}
use heeler.Config.Chosen.{Chosen, IsParsed, IsText, then_set, then_parsed, then_plain, >>=-ok_lem}

-- The settings that have a variable.
pub record Settings : Type 0 where
  pub binds : List SocketAddr
  pub level : List ℕ
  pub format : List ℕ
  pub stratum : ℕ
  pub reference_id : List ℕ
  pub metrics_enabled : Bool
  pub metrics_bind : SocketAddr
  pub rate_limit_enabled : Bool
  pub acknowledged : Bool

-- A configuration with these settings, and nothing else changed.
abbrev pub with_settings : Settings → Config → Config
with_settings s c = record c {
  server = record c.server { bind = s.binds; public_bind_acknowledged = s.acknowledged };
  protocol = record c.protocol { stratum = s.stratum; reference_id = s.reference_id };
  rate_limit = record c.rate_limit { enabled = s.rate_limit_enabled };
  logging = record c.logging { format = s.format; level = s.level };
  metrics = record c.metrics { enabled = s.metrics_enabled; bind = s.metrics_bind };
}

abbrev ReadsBinds : (List ℕ → Option SocketAddr) → List ℕ → List SocketAddr → Type 0
ReadsBinds parse_addr text binds =
    (parse_binds parse_addr (map trim (split b',' text)) ≡ ok binds) × (binds ≢ [])

-- Each setting comes from its variable, where that is set, and else from the configuration.
pub record IsChosen (parse_addr : List ℕ → Option SocketAddr) (vars : List ℕ → Option (List ℕ))
    (c : Config) (s : Settings) : Type 0 where
  pub binds_chosen :
      Chosen (ReadsBinds parse_addr) c.server.bind (env_var vars (codes "HEELER_BIND")) s.binds
  pub level_chosen : Chosen IsText c.logging.level (env_var vars (codes "HEELER_LOG_LEVEL")) s.level
  pub format_chosen :
      Chosen IsText c.logging.format (env_var vars (codes "HEELER_LOG_FORMAT")) s.format
  pub stratum_chosen :
      Chosen
        (IsParsed parse_u8)
        c.protocol.stratum
        (env_var vars (codes "HEELER_STRATUM"))
        s.stratum
  pub reference_id_chosen :
      Chosen IsText c.protocol.reference_id
        (env_var vars (codes "HEELER_REFERENCE_ID"))
        s.reference_id
  pub metrics_enabled_chosen :
      Chosen
        (IsParsed parse_bool)
        c.metrics.enabled
        (env_var vars (codes "HEELER_METRICS_ENABLED"))
        s.metrics_enabled
  pub metrics_bind_chosen :
      Chosen
        (IsParsed parse_addr)
        c.metrics.bind
        (env_var vars (codes "HEELER_METRICS_BIND"))
        s.metrics_bind
  pub rate_limit_enabled_chosen :
      Chosen
        (IsParsed parse_bool)
        c.rate_limit.enabled
        (env_var vars (codes "HEELER_RATE_LIMIT_ENABLED"))
        s.rate_limit_enabled
  pub acknowledged_chosen :
      Chosen
        (IsParsed parse_bool)
        c.server.public_bind_acknowledged
        (env_var vars (codes "HEELER_PUBLIC_BIND_ACKNOWLEDGED"))
        s.acknowledged

module _ (parse_addr : List ℕ → Option SocketAddr) (vars : List ℕ → Option (List ℕ)) where
  bind_sets :
      (text : List ℕ) (c c' : Config)
      → change_bind parse_addr text c ≡ ok c'
      → (value : List SocketAddr) × ReadsBinds parse_addr text value
        × (c' ≡ record c { server = record c.server { bind = value } })
  bind_sets text c c' e =
      let (value, reads, set) =
        >>=-eq-ok (parse_binds parse_addr (map trim (split b',' text))) (λ s. set_binds text s c)
          e in
      (value, (reads, λ z. ground (arith, z, set)), ground (arith, set))

  then_bind :
      (c : Config) (next : Config → Result EnvError Config) (result : Config)
      → (override vars bind_name (change_bind parse_addr) c >>= next) ≡ ok result
      → (value : List SocketAddr) × Chosen
          (ReadsBinds parse_addr)
          c.server.bind
          (env_var vars bind_name)
          value
        × (next (record c { server = record c.server { bind = value } }) ≡ ok result)
  then_bind =
      then_set vars bind_name (ReadsBinds parse_addr) (λ c. c.server.bind)
        (λ value c. record c { server = record c.server { bind = value } }) (change_bind parse_addr)
        bind_sets (λ c. refl)

  -- Where the variables are accepted, every setting that has one is read from it if it is set and not
  -- empty, and stays as it was if not; nothing else of the configuration changes.
  pub apply_env_overrides-IsChosen :
      (c c' : Config)
      → apply_env_overrides parse_addr vars c ≡ ok c'
      → (s : Settings) × IsChosen parse_addr vars c s × (c' ≡ with_settings s c)
  unfolding apply_env_overrides
  apply_env_overrides-IsChosen c c' e =
      let (binds, chosen1, e1) = then_bind c _ c' e in
      let (level, chosen2, e2) =
        then_plain vars (codes "HEELER_LOG_LEVEL") _ _ c' (λ d. d.logging.level)
          (λ value d. record d { logging = record d.logging { level = value } }) (λ d. refl) e1 in
      let (format, chosen3, e3) =
        then_plain vars (codes "HEELER_LOG_FORMAT") _ _ c' (λ d. d.logging.format)
          (λ value d. record d { logging = record d.logging { format = value } }) (λ d. refl) e2 in
      let (stratum, chosen4, e4) =
        then_parsed vars (codes "HEELER_STRATUM") _ _ c' parse_u8 (λ d. d.protocol.stratum)
          (λ value d. record d { protocol = record d.protocol { stratum = value } }) (λ d. refl)
          e3 in
      let (reference_id, chosen5, e5) =
        then_plain vars (codes "HEELER_REFERENCE_ID") _ _ c' (λ d. d.protocol.reference_id)
          (λ value d. record d { protocol = record d.protocol { reference_id = value } })
          (λ d. refl) e4 in
      let (metrics_enabled, chosen6, e6) =
        then_parsed vars (codes "HEELER_METRICS_ENABLED") _ _ c' parse_bool (λ d. d.metrics.enabled)
          (λ value d. record d { metrics = record d.metrics { enabled = value } }) (λ d. refl) e5 in
      let (metrics_bind, chosen7, e7) =
        then_parsed vars (codes "HEELER_METRICS_BIND") _ _ c' parse_addr (λ d. d.metrics.bind)
          (λ value d. record d { metrics = record d.metrics { bind = value } }) (λ d. refl) e6 in
      let (rate_limit_enabled, chosen8, e8) =
        then_parsed vars (codes "HEELER_RATE_LIMIT_ENABLED") _ _ c' parse_bool
          (λ d. d.rate_limit.enabled)
          (λ value d. record d { rate_limit = record d.rate_limit { enabled = value } }) (λ d. refl)
          e7 in
      let (acknowledged, chosen9, e9) =
        then_parsed vars (codes "HEELER_PUBLIC_BIND_ACKNOWLEDGED") ok _ c' parse_bool
          (λ d. d.server.public_bind_acknowledged)
          (λ value d. record d { server = record d.server { public_bind_acknowledged = value } })
          (λ d. refl) (>>=-ok_lem _ ∙ e8) in
      let s : Settings = record {
        binds = binds;
        level = level;
        format = format;
        stratum = stratum;
        reference_id = reference_id;
        metrics_enabled = metrics_enabled;
        metrics_bind = metrics_bind;
        rate_limit_enabled = rate_limit_enabled;
        acknowledged = acknowledged;
      } in
      let chosen : IsChosen parse_addr vars c s = record {
        binds_chosen = chosen1;
        level_chosen = chosen2;
        format_chosen = chosen3;
        stratum_chosen = chosen4;
        reference_id_chosen = chosen5;
        metrics_enabled_chosen = chosen6;
        metrics_bind_chosen = chosen7;
        rate_limit_enabled_chosen = chosen8;
        acknowledged_chosen = chosen9;
      } in
      (s, chosen, ground (arith, e9))
