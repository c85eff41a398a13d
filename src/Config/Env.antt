-- ===== src/Config/Env.antt =====
-- config.rs, `Config::apply_env_overrides`: the `HEELER_*` variables. The environment is a function of
-- the name, `none` where the variable is unset or is no Unicode text; std's parser of socket addresses
-- is an argument. The reason of an error is left out.
use heeler.Common.{
  ℕ, Bool, true, false, if◌then◌else◌, Option, none, some, List, [], ◌∷◌, Result, ok, err, ok_or,
  codes, bytes_eq, map, ◌>>=◌,
}
use heeler.Common.Text.{split, trim, parse_u8}
use heeler.Access.{SocketAddr}
use heeler.Config.{Config}

pub record EnvError : Type 0 where
  pub name : List ℕ
  pub value : List ℕ

-- `bool::from_str`.
unfoldable pub parse_bool : List ℕ → Option Bool
parse_bool text =
    if bytes_eq text (codes "true")
    then some true
    else if bytes_eq text (codes "false")
    then some false
    else none

-- `env_var`: an empty variable counts as unset.
unfoldable pub env_var : (List ℕ → Option (List ℕ)) → List ℕ → Option (List ℕ)
env_var vars name = elim (vars name) [ none ↦ none | some [] ↦ none | some (c ∷ v) ↦ some (c ∷ v) ]

abbrev pub parsed {ℓ} : {A : Type ℓ} → List ℕ → List ℕ → Option A → Result EnvError A
parsed name value result = ok_or result (record { name = name; value = value })

-- A variable that is set changes the configuration by its value; an unset one leaves it.
abbrev pub override :
    (List ℕ → Option (List ℕ))
    → List ℕ
    → (List ℕ → Config → Result EnvError Config)
    → Config
    → Result EnvError Config
override vars name change c = elim (env_var vars name) [ none ↦ ok c | some v ↦ change v c ]

abbrev pub bind_name : List ℕ
bind_name = codes "HEELER_BIND"

-- The parts between commas, trimmed, the empty ones left out, each a socket address.
unfoldable pub parse_binds :
    (List ℕ → Option SocketAddr) → List (List ℕ) → Result EnvError (List SocketAddr)
parse_binds parse_addr [] = ok []
parse_binds parse_addr ([] ∷ parts) = parse_binds parse_addr parts
parse_binds parse_addr ((c ∷ part) ∷ parts) = do
  addr ← parsed bind_name (c ∷ part) (parse_addr (c ∷ part))
  rest ← parse_binds parse_addr parts
  ok (addr ∷ rest)

abbrev pub set_binds : List ℕ → List SocketAddr → Config → Result EnvError Config
set_binds v [] c = err (record { name = bind_name; value = v })
set_binds v (addr ∷ addrs) c = ok (record c { server = record c.server { bind = addr ∷ addrs } })

abbrev pub change_bind : (List ℕ → Option SocketAddr) → List ℕ → Config → Result EnvError Config
change_bind parse_addr v c = do
  binds ← parse_binds parse_addr (map trim (split b',' v))
  set_binds v binds c

abbrev pub change_level : List ℕ → Config → Result EnvError Config
change_level v c = ok (record c { logging = record c.logging { level = v } })

abbrev pub change_format : List ℕ → Config → Result EnvError Config
change_format v c = ok (record c { logging = record c.logging { format = v } })

abbrev pub change_stratum : List ℕ → Config → Result EnvError Config
change_stratum v c = do
  stratum ← parsed (codes "HEELER_STRATUM") v (parse_u8 v)
  ok (record c { protocol = record c.protocol { stratum = stratum } })

abbrev pub change_reference_id : List ℕ → Config → Result EnvError Config
change_reference_id v c = ok (record c { protocol = record c.protocol { reference_id = v } })

abbrev pub change_metrics_enabled : List ℕ → Config → Result EnvError Config
change_metrics_enabled v c = do
  enabled ← parsed (codes "HEELER_METRICS_ENABLED") v (parse_bool v)
  ok (record c { metrics = record c.metrics { enabled = enabled } })

abbrev pub change_metrics_bind :
    (List ℕ → Option SocketAddr) → List ℕ → Config → Result EnvError Config
change_metrics_bind parse_addr v c = do
  bind ← parsed (codes "HEELER_METRICS_BIND") v (parse_addr v)
  ok (record c { metrics = record c.metrics { bind = bind } })

abbrev pub change_rate_limit : List ℕ → Config → Result EnvError Config
change_rate_limit v c = do
  enabled ← parsed (codes "HEELER_RATE_LIMIT_ENABLED") v (parse_bool v)
  ok (record c { rate_limit = record c.rate_limit { enabled = enabled } })

abbrev pub change_acknowledged : List ℕ → Config → Result EnvError Config
change_acknowledged v c = do
  acknowledged ← parsed (codes "HEELER_PUBLIC_BIND_ACKNOWLEDGED") v (parse_bool v)
  ok (record c { server = record c.server { public_bind_acknowledged = acknowledged } })

unfoldable pub apply_env_overrides :
    (List ℕ → Option SocketAddr) → (List ℕ → Option (List ℕ)) → Config → Result EnvError Config
unfolding env_var parse_binds split trim parse_bool parse_u8
apply_env_overrides parse_addr vars c = do
  c1 ← override vars bind_name (change_bind parse_addr) c
  c2 ← override vars (codes "HEELER_LOG_LEVEL") change_level c1
  c3 ← override vars (codes "HEELER_LOG_FORMAT") change_format c2
  c4 ← override vars (codes "HEELER_STRATUM") change_stratum c3
  c5 ← override vars (codes "HEELER_REFERENCE_ID") change_reference_id c4
  c6 ← override vars (codes "HEELER_METRICS_ENABLED") change_metrics_enabled c5
  c7 ← override vars (codes "HEELER_METRICS_BIND") (change_metrics_bind parse_addr) c6
  c8 ← override vars (codes "HEELER_RATE_LIMIT_ENABLED") change_rate_limit c7
  override vars (codes "HEELER_PUBLIC_BIND_ACKNOWLEDGED") change_acknowledged c8
