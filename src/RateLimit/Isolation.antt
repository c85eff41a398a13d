-- ===== src/RateLimit/Isolation.antt =====
-- rate_limit.rs: what a packet of one client does to the entries of the others, and how the limiter
-- fails closed when its table is full.
use heeler.Common.{
  ℕ, ◌-◌, ◌≤◌, ◌<◌, ◌≡◌, ◌≢◌, refl, Bool, true, false, ltb, leb, ◌⊎◌, inl, inr, none, some, length,
  arith, Bool-cases, Option-cases,
}
use heeler.Access.{IpAddr}
use heeler.RateLimit.Client
use heeler.RateLimit.Client.{RateLimitSettings, ClientEntry, check_entry}
use heeler.RateLimit.Table.{
  Table, lookup, Distinct, lookup-replace_ne, lookup-filter, lookup-filter-none, ip_eq_iff,
}
use heeler.RateLimit.Cases.{check_disabled, check_taken, check_exhausted}
use heeler.RateLimit.{
  LimiterState, retain_live, take_global, force_sweep, admit, check_new, check_client, check,
}

module _ (settings : RateLimitSettings) (other : IpAddr) (now : ℕ) where
  -- The other client's entry is as before, or it had expired and is gone.
  abbrev pub Untouched : Table → Table → Type 0
  Untouched before after =
      (lookup other after ≡ lookup other before)
      ⊎ ((entry : ClientEntry) × (lookup other before ≡ some entry)
          × (settings.client_entry_ttl ≤ now - entry.last_seen)
          × (lookup other after ≡ none))

  retain_live-Untouched :
      (t : Table) → Distinct t → Untouched t (retain_live settings.client_entry_ttl now t)
  unfolding retain_live
  retain_live-Untouched t d = elim (Option-cases (lookup other t)) [
    | inl e ↦ inl (rw e (lookup-filter-none _ other t e))
    | inr (entry, e) ↦ by_age entry e (ltb (now - entry.last_seen) settings.client_entry_ttl) refl
  ]
    where
      by_age :
          (entry : ClientEntry)
          → lookup other t ≡ some entry
          → (live : Bool) → ltb (now - entry.last_seen) settings.client_entry_ttl ≡ live
          → Untouched t (retain_live settings.client_entry_ttl now t)
      by_age entry e true l = inl (rw (lookup-filter _ other entry t d e, l, e) refl)
      by_age entry e false l =
          inr (entry, e, ground arith, rw (lookup-filter _ other entry t d e, l) refl)

  force_sweep-Untouched :
      (s : LimiterState)
      → Distinct s.clients
      → Untouched s.clients (force_sweep settings s now).clients
  unfolding force_sweep
  force_sweep-Untouched s d = elim (Bool-cases (leb 1_000_000_000 (now - s.last_forced_sweep))) [
    | inl e ↦ rw e (retain_live-Untouched s.clients d)
    | inr e ↦ rw e (inl refl)
  ]

  module _ (source : IpAddr) (ne : source ≢ other) where
    admit-lookup :
        (s : LimiterState)
        → lookup other (admit settings s source now).1.clients ≡ lookup other s.clients
    unfolding admit lookup
    admit-lookup s = ground (arith, ip_eq_iff source other)

    check_new-Untouched :
        (s : LimiterState)
        → Distinct s.clients
        → Untouched s.clients (check_new settings s source now).1.clients
    unfolding check_new
    check_new-Untouched s d =
        let swept = force_sweep settings s now in
        elim (Bool-cases (leb settings.max_client_entries (length s.clients))) [
          | inr e ↦ rw (e, check_new) (inl (admit-lookup s))
          | inl e ↦ elim (Bool-cases (leb settings.max_client_entries (length swept.clients))) [
            | inl f ↦ rw (e, f, check_new) (force_sweep-Untouched s d)
            | inr f ↦ rw (e, f, check_new, admit-lookup swept) (force_sweep-Untouched s d)
          ]
        ]

    check_client-Untouched :
        (s : LimiterState)
        → Distinct s.clients
        → Untouched s.clients (check_client settings s source now).1.clients
    unfolding check_client
    check_client-Untouched s d = elim (Option-cases (lookup source s.clients)) [
      | inl e ↦ rw (e, check_client) (check_new-Untouched s d)
      | inr (entry, e) ↦
          rw (e, check_client)
            (inl (lookup-replace_ne source other (check_entry settings entry now).1 s.clients ne))
    ]

    take_global-clients : (s : LimiterState) → (take_global settings s now).1.clients ≡ s.clients
    unfolding take_global
    take_global-clients s = ground arith

    -- A check for one address leaves the entry of every other address as it was, bucket, counter
    -- and all, unless that entry had been idle for its time to live and a forced sweep removed it.
    pub check-Untouched :
        (s : LimiterState)
        → Distinct s.clients
        → Untouched s.clients (check settings s source now).1.clients
    check-Untouched s d = elim (Bool-cases settings.enabled) [
      | inr off ↦ rw (check_disabled settings s source now off) (inl refl)
      | inl on ↦
          let c = take_global-clients s in
          elim (Bool-cases (take_global settings s now).0) [
            | inl e ↦
                rw (check_taken settings s source now on e)
                  (rw c at (check_client-Untouched (take_global settings s now).1 (rw c d)))
            | inr e ↦ rw (check_exhausted settings s source now on e, c) (inl refl)
          ]
    ]

-- A packet that gets past the global bucket, from an address without an entry, while the table is full
-- and was swept less than a second ago, is refused as `TableFull`, and the table stays as it is.
pub check_new_full :
    (settings : RateLimitSettings) (s : LimiterState) (source : IpAddr) (now : ℕ)
    → lookup source s.clients ≡ none
    → settings.max_client_entries ≤ length s.clients
    → now - s.last_forced_sweep < 1_000_000_000
    → check_client settings s source now ≡ (Client.table_full, s)
unfolding check_client check_new force_sweep
check_new_full settings s source now n full recent = ground arith
