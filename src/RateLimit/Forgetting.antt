-- ===== src/RateLimit/Forgetting.antt =====
-- rate_limit.rs, `check` and `sweep`: a limiter that sweeps its table against one that never forgets.
-- The latter, the abstract limiter, is the global bucket and an entry for every address seen, in no
-- table.
pub mod Agrees
pub mod Promise
pub mod Independence
use heeler.Common.{
  ℕ, suc, ◌+◌, ◌-◌, ◌*◌, ◌^◌, ◌≤◌, ◌<◌, ◌≡◌, refl, ◌∙◌, ap, sym, Bool, true, false, ltb, ◌⊎◌, inl,
  inr, if◌then◌else◌, Option, none, some, List, [], ◌∷◌, length, arith, Bool-cases, Option-cases,
}
use heeler.Access.{IpAddr, ip_eq}
use heeler.RateLimit.Bucket
use heeler.RateLimit.Bucket.{TokenBucket, try_take, refilled, refill, try_take-le_burst}
use heeler.RateLimit.Client
use heeler.RateLimit.Client.{RateLimitSettings, RateDecision, ClientEntry, check_entry}
use heeler.RateLimit.Refinement.{Clients, update, first_entry, decide}
use heeler.RateLimit.Keys.{is_among}
use heeler.RateLimit.Bounds.{Call, checks, sweeps}

pub record Abstract : Type 0 where
  pub global : TokenBucket
  pub clients : Clients

module _ (settings : RateLimitSettings) where
  abbrev pub pay : TokenBucket → ℕ → Bool × TokenBucket
  pay bucket now =
      if ltb 0 settings.global_requests_per_second
      then try_take bucket settings.global_requests_per_second settings.global_burst now
      else (true, bucket)

  -- Before any packet.
  abbrev pub unseen : ℕ → Abstract
  unseen start = record { global = Bucket.new settings.global_burst start; clients = λ k. none }

  unfoldable pub consider : Abstract → IpAddr → ℕ → RateDecision × Abstract
  consider a source now =
      let (taken, bucket) = pay a.global now in
      let (decision, entry) = decide settings (a.clients source) now in
      if taken
      then (decision, record { global = bucket; clients = update source entry a.clients })
      else (Client.limited_global, record a { global = bucket })

  unfoldable pub promised : Abstract → List (Call settings) → List RateDecision
  unfolding consider
  promised a [] = []
  promised a (checks source now ∷ calls) =
      let (decision, after) = consider a source now in decision ∷ promised after calls
  promised a (sweeps now ∷ calls) = promised a calls

  -- An entry that has been idle so long that its bucket is full again is as good as none.
  refill_full :
      (elapsed rate burst : ℕ)
      → 1000 * (burst * Bucket.micro) ≤ elapsed * rate
      → elapsed * rate < 1000 * 2 ^ 64
      → burst * Bucket.micro ≤ refill elapsed rate
  unfolding refill
  refill_full elapsed rate burst lo hi = omega arith

  pub check_entry_idle :
      (entry : ClientEntry) (now : ℕ)
      → 1 ≤ settings.burst
      → settings.burst < 2 ^ 32
      → 1000 * (settings.burst * Bucket.micro)
        ≤ (now - entry.bucket.last_refill) * settings.requests_per_second
      → (now - entry.bucket.last_refill) * settings.requests_per_second < 1000 * 2 ^ 64
      → check_entry settings entry now ≡ (Client.allowed, first_entry settings now)
  unfolding check_entry try_take refilled Bucket.new
  check_entry_idle entry now one small lo hi = ground (
    arith,
    refill_full (now - entry.bucket.last_refill) settings.requests_per_second settings.burst lo hi,
  )

  -- What the table may hold of an address, at an instant: the entry that the abstract limiter has, or
  -- nothing, if there is none or it has been idle for its time to live.
  abbrev pub Tracks : ℕ → Option ClientEntry → Option ClientEntry → Type 0
  Tracks now found none = found ≡ none
  Tracks now found (some entry) =
      (entry.bucket.last_refill ≡ entry.last_seen)
      × (entry.last_seen ≤ now)
      × ((found ≡ some entry)
          ⊎ ((found ≡ none) × (settings.client_entry_ttl ≤ now - entry.last_seen)))

  -- Calls at instants that do not go back, from `start` up to `horizon`.
  abbrev pub Timely : ℕ → ℕ → List (Call settings) → Type 0
  Timely start horizon [] = start ≤ horizon
  Timely start horizon (checks source now ∷ calls) = (start ≤ now) × Timely now horizon calls
  Timely start horizon (sweeps now ∷ calls) = (start ≤ now) × Timely now horizon calls

  -- Packets from these addresses only.
  abbrev pub From : List IpAddr → List (Call settings) → Type 0
  From known [] = Unit {0}
  From known (checks source now ∷ calls) = (is_among known source ≡ true) × From known calls
  From known (sweeps now ∷ calls) = From known calls

  pub Timely-le :
      (start horizon : ℕ) (calls : List (Call settings))
      → Timely start horizon calls
      → start ≤ horizon
  Timely-le start horizon [] h = h
  Timely-le start horizon (checks source now ∷ calls) (le, h) =
      omega (arith, le, Timely-le now horizon calls h)
  Timely-le start horizon (sweeps now ∷ calls) (le, h) =
      omega (arith, le, Timely-le now horizon calls h)

  pub later-Tracks :
      (now later : ℕ) (found known : Option ClientEntry)
      → now ≤ later
      → Tracks now found known
      → Tracks later found known
  later-Tracks now later found none le h = h
  later-Tracks now later found (some entry) le (same, seen, inl e) = (same, omega arith, inl e)
  later-Tracks now later found (some entry) le (same, seen, inr (e, idle)) =
      (same, omega arith, inr (e, omega arith))

  -- The entry after a packet was refilled and seen just then.
  pub decide_seen :
      (known : Option ClientEntry) (now : ℕ)
      → let entry = (decide settings known now).1 in
        (entry.bucket.last_refill ≡ entry.last_seen) × (entry.last_seen ≡ now)
  unfolding check_entry
  decide_seen none now = ground (
    arith,
    try_take-le_burst (Bucket.new settings.burst now) settings.requests_per_second settings.burst
        now,
  )
  decide_seen (some entry) now =
      ground (arith, try_take-le_burst entry.bucket settings.requests_per_second settings.burst now)
