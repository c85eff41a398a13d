-- ===== src/RateLimit.antt =====
-- crates/heeler-server/src/rate_limit.rs: token buckets for each client and for all clients, in a
-- bounded table. An `Instant` and a `Duration` are numbers of nanoseconds. The mutex is left out:
-- each operation runs under it, takes the state and returns the new one. The `HashMap` is an
-- association list, since the code uses no order of it.
pub mod Bucket
pub mod Client
pub mod Table
pub mod Cases
pub mod Bounds
pub mod Isolation
pub mod Global
pub mod Refinement
pub mod Keys
pub mod Forgetting
use heeler.Common.{
  ℕ, ◌+◌, ◌-◌, ◌*◌, ◌≤◌, ◌<◌, Bool, true, false, not, ltb, leb, if◌then◌else◌, Option, none, some,
  List, [], ◌∷◌, length, filter,
}
use heeler.Access.{IpAddr}
use Client.{RateLimitSettings, RateDecision, ClientEntry, check_entry}

pub record LimiterState : Type 0 where
  pub clients : List (IpAddr × ClientEntry)
  pub global : Bucket.TokenBucket
  pub last_forced_sweep : ℕ

unfoldable pub new : RateLimitSettings → ℕ → LimiterState
unfolding Bucket.new
new settings now = record {
  clients = [];
  global = Bucket.new settings.global_burst now;
  last_forced_sweep = now;
}

-- The entries seen less than the time to live ago: the `retain` of both sweeps.
unfoldable pub retain_live : ℕ → ℕ → List (IpAddr × ClientEntry) → List (IpAddr × ClientEntry)
retain_live ttl now = filter (λ kv. ltb (now - kv.1.last_seen) ttl)

-- The global bucket pays first; a rate of 0 disables it.
unfoldable pub take_global : RateLimitSettings → LimiterState → ℕ → Bool × LimiterState
take_global settings s now =
    if ltb 0 settings.global_requests_per_second
    then (let (taken, bucket) =
          Bucket.try_take s.global settings.global_requests_per_second settings.global_burst now in
        (taken, record s { global = bucket }))
    else (true, s)

-- A full table is swept, at most once a second.
unfoldable pub force_sweep : RateLimitSettings → LimiterState → ℕ → LimiterState
force_sweep settings s now =
    if leb 1_000_000_000 (now - s.last_forced_sweep)
    then record s {
      last_forced_sweep = now;
      clients = retain_live settings.client_entry_ttl now s.clients;
    }
    else s

-- The first packet of a client spends a token of a fresh bucket and is answered in any case: the
-- code only asserts, in debug builds, that the bucket had a token.
unfoldable pub admit : RateLimitSettings → LimiterState → IpAddr → ℕ → RateDecision × LimiterState
admit settings s source now =
    let fresh = Bucket.new settings.burst now in
    let (_, bucket) = Bucket.try_take fresh settings.requests_per_second settings.burst now in
    let entry : ClientEntry = record { bucket = bucket; last_seen = now; limited_count = 0 } in
    (Client.allowed, record s { clients = (source, entry) ∷ s.clients })

unfoldable pub check_new :
    RateLimitSettings → LimiterState → IpAddr → ℕ → RateDecision × LimiterState
check_new settings s source now =
    if leb settings.max_client_entries (length s.clients)
    then (let swept = force_sweep settings s now in
        if leb settings.max_client_entries (length swept.clients)
        then (Client.table_full, swept)
        else admit settings swept source now)
    else admit settings s source now

unfoldable pub check_client :
    RateLimitSettings → LimiterState → IpAddr → ℕ → RateDecision × LimiterState
check_client settings s source now = elim (Table.lookup source s.clients) [
  | some entry ↦
      let (decision, entry') = check_entry settings entry now in
      (decision, record s { clients = Table.replace source entry' s.clients })
  | none ↦ check_new settings s source now
]

unfoldable pub check : RateLimitSettings → LimiterState → IpAddr → ℕ → RateDecision × LimiterState
check settings s source now =
    if not settings.enabled
    then (Client.allowed, s)
    else let (taken, s') = take_global settings s now in
      if taken then check_client settings s' source now else (Client.limited_global, s')

unfoldable pub sweep : RateLimitSettings → LimiterState → ℕ → LimiterState
sweep settings s now = record s { clients = retain_live settings.client_entry_ttl now s.clients }

unfoldable pub active_entries : LimiterState → ℕ
active_entries s = length s.clients
