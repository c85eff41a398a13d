-- ===== src/RateLimit/Bounds.antt =====
-- rate_limit.rs: the limiter's memory and its buckets stay bounded through any history.
use heeler.Common.{
  ℕ, ◌-◌, ◌*◌, ◌≤◌, ◌<◌, ◌≡◌, inl, inr, ltb, leb, none, List, [], ◌∷◌, length, length-filter-le,
  arith, Bool-cases, Option-cases,
}
use native.Mathlib.Nat.{le_trans}
use heeler.Access.{IpAddr}
use heeler.RateLimit.Bucket.{TokenBucket, try_take-le_burst}
use heeler.RateLimit.Bucket
use heeler.RateLimit.Client.{RateLimitSettings, ClientEntry, check_entry}
use heeler.RateLimit.Table.{
  lookup, replace, Distinct, Entries, length-replace, filter-Distinct, replace-Distinct,
  filter-Entries, replace-Entries, lookup-filter-none,
}
use heeler.RateLimit.Cases.{check_disabled, check_taken, check_exhausted}
use heeler.RateLimit.{
  LimiterState, new, retain_live, take_global, force_sweep, admit, check_new, check_client, check,
  sweep,
}

-- No bucket holds more than its burst.
abbrev pub Full : RateLimitSettings → ClientEntry → Type 0
Full settings entry = entry.bucket.micro_tokens ≤ settings.burst * Bucket.micro

-- At most the configured number of clients, each once, and no bucket above its burst.
pub record IsBounded (settings : RateLimitSettings) (s : LimiterState) : Type 0 where
  pub within : length s.clients ≤ settings.max_client_entries
  pub distinct : Distinct s.clients
  pub buckets : Entries (Full settings) s.clients
  pub global_full : s.global.micro_tokens ≤ settings.global_burst * Bucket.micro

module _ (settings : RateLimitSettings) where
  pub new-IsBounded : (now : ℕ) → IsBounded settings (new settings now)
  unfolding new
  new-IsBounded now = record {
    within = omega arith;
    distinct = tt;
    buckets = tt;
    global_full = omega arith;
  }

  take_global-IsBounded :
      (s : LimiterState) (now : ℕ)
      → IsBounded settings s
      → IsBounded settings (take_global settings s now).1
  unfolding take_global
  take_global-IsBounded s now h = elim (Bool-cases (ltb 0 settings.global_requests_per_second)) [
    | inl e ↦ rw e (record {
      within = h.within;
      distinct = h.distinct;
      buckets = h.buckets;
      global_full = (try_take-le_burst s.global _ settings.global_burst now).0;
    })
    | inr e ↦ rw e h
  ]

  swept-IsBounded :
      (s : LimiterState) (now mark : ℕ)
      → IsBounded settings s
      → IsBounded settings (record s {
        clients = retain_live settings.client_entry_ttl now s.clients;
        last_forced_sweep = mark;
      })
  unfolding retain_live
  swept-IsBounded s now mark h = record {
    within = le_trans (length-filter-le _ s.clients) h.within;
    distinct = filter-Distinct _ s.clients h.distinct;
    buckets = filter-Entries (Full settings) _ s.clients h.buckets;
    global_full = h.global_full;
  }

  check_entry-Full :
      (entry : ClientEntry) (now : ℕ) → Full settings (check_entry settings entry now).1
  unfolding check_entry
  check_entry-Full entry now =
      ground (arith, try_take-le_burst entry.bucket settings.requests_per_second settings.burst now)

  admit-IsBounded :
      (s : LimiterState) (source : IpAddr) (now : ℕ)
      → length s.clients < settings.max_client_entries
      → lookup source s.clients ≡ none
      → IsBounded settings s
      → IsBounded settings (admit settings s source now).1
  unfolding admit
  admit-IsBounded s source now l n h = record {
    within = omega arith;
    distinct = (n, h.distinct);
    buckets = ((try_take-le_burst _ settings.requests_per_second settings.burst now).0, h.buckets);
    global_full = h.global_full;
  }

  force_sweep-IsBounded :
      (s : LimiterState) (now : ℕ)
      → IsBounded settings s
      → IsBounded settings (force_sweep settings s now)
  unfolding force_sweep
  force_sweep-IsBounded s now h =
      elim (Bool-cases (leb 1_000_000_000 (now - s.last_forced_sweep))) [
        | inl e ↦ rw e (swept-IsBounded s now now h)
        | inr e ↦ rw e h
      ]

  force_sweep-lookup-none :
      (s : LimiterState) (source : IpAddr) (now : ℕ)
      → lookup source s.clients ≡ none
      → lookup source (force_sweep settings s now).clients ≡ none
  unfolding force_sweep
  force_sweep-lookup-none s source now n =
      elim (Bool-cases (leb 1_000_000_000 (now - s.last_forced_sweep))) [
        | inl e ↦ rw e (unfold retain_live in lookup-filter-none _ source s.clients n)
        | inr e ↦ rw e n
      ]

  check_new-IsBounded :
      (s : LimiterState) (source : IpAddr) (now : ℕ)
      → lookup source s.clients ≡ none
      → IsBounded settings s
      → IsBounded settings (check_new settings s source now).1
  unfolding check_new
  check_new-IsBounded s source now n h =
      let swept = force_sweep settings s now in
      elim (Bool-cases (leb settings.max_client_entries (length s.clients))) [
        | inr e ↦ rw (e, check_new) (admit-IsBounded s source now (ground (arith, e)) n h)
        | inl e ↦ elim (Bool-cases (leb settings.max_client_entries (length swept.clients))) [
          | inl f ↦ rw (e, f, check_new) (force_sweep-IsBounded s now h)
          | inr f ↦
              rw (e, f, check_new)
                (admit-IsBounded swept source now (ground (arith, f))
                  (force_sweep-lookup-none s source now n) (force_sweep-IsBounded s now h))
        ]
      ]

  check_client-IsBounded :
      (s : LimiterState) (source : IpAddr) (now : ℕ)
      → IsBounded settings s
      → IsBounded settings (check_client settings s source now).1
  unfolding check_client
  check_client-IsBounded s source now h = elim (Option-cases (lookup source s.clients)) [
    | inl n ↦ rw (n, check_client) (check_new-IsBounded s source now n h)
    | inr (entry, e) ↦ rw (e, check_client) (known entry)
  ]
    where
      known :
          (entry : ClientEntry)
          → IsBounded settings
              (record s { clients = replace source (check_entry settings entry now).1 s.clients })
      known entry =
          let entry' = (check_entry settings entry now).1 in
          record {
            within = rw (length-replace source entry' s.clients) h.within;
            distinct = replace-Distinct source entry' s.clients h.distinct;
            buckets =
                replace-Entries (Full settings) source entry' s.clients (check_entry-Full entry now)
                  h.buckets;
            global_full = h.global_full;
          }

  pub check-IsBounded :
      (s : LimiterState) (source : IpAddr) (now : ℕ)
      → IsBounded settings s
      → IsBounded settings (check settings s source now).1
  check-IsBounded s source now h = elim (Bool-cases settings.enabled) [
    | inr off ↦ rw (check_disabled settings s source now off) h
    | inl on ↦
        let g = take_global-IsBounded s now h in
        elim (Bool-cases (take_global settings s now).0) [
          | inl e ↦
              rw (check_taken settings s source now on e) (check_client-IsBounded _ source now g)
          | inr e ↦ rw (check_exhausted settings s source now on e) g
        ]
  ]

  pub sweep-IsBounded :
      (s : LimiterState) (now : ℕ)
      → IsBounded settings s
      → IsBounded settings (sweep settings s now)
  unfolding sweep
  sweep-IsBounded s now h = swept-IsBounded s now s.last_forced_sweep h

  -- What the server does to the limiter: it checks packets, and sweeps now and then.
  pub data Call : Type 0 where
    checks : IpAddr → ℕ → Call
    sweeps : ℕ → Call

  abbrev pub call : LimiterState → Call → LimiterState
  call s (checks source now) = (check settings s source now).1
  call s (sweeps now) = sweep settings s now

  unfoldable pub run : LimiterState → List Call → LimiterState
  run s [] = s
  run s (c ∷ cs) = run (call s c) cs

  run-IsBounded :
      (s : LimiterState) (cs : List Call) → IsBounded settings s → IsBounded settings (run s cs)
  unfolding run
  run-IsBounded s [] h = h
  run-IsBounded s (checks source now ∷ cs) h =
      run-IsBounded (check settings s source now).1 cs (check-IsBounded s source now h)
  run-IsBounded s (sweeps now ∷ cs) h =
      run-IsBounded (sweep settings s now) cs (sweep-IsBounded s now h)

  -- Memory is bounded: after any history of checks and sweeps, at any instants and from any
  -- addresses, a new limiter tracks at most the configured number of clients, each once, and no
  -- bucket, a client's or the global one, holds more than its burst.
  pub run-new-IsBounded :
      (start : ℕ) (cs : List Call) → IsBounded settings (run (new settings start) cs)
  run-new-IsBounded start cs = run-IsBounded (new settings start) cs (new-IsBounded start)
