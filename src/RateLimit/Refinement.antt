-- ===== src/RateLimit/Refinement.antt =====
-- rate_limit.rs, `check`: the table implements one bucket for each address, as long as it has room.
use heeler.Common.{
  ℕ, suc, ◌+◌, ◌≤◌, ◌≡◌, refl, ◌∙◌, ap, sym, Bool, true, if◌then◌else◌, Option, none, some, List,
  [], ◌∷◌, length, arith, Bool-cases, Option-cases, inl, inr,
}
use heeler.Access.{IpAddr, ip_eq}
use heeler.RateLimit
use heeler.RateLimit.Bucket
use heeler.RateLimit.Client
use heeler.RateLimit.Client.{RateLimitSettings, RateDecision, ClientEntry, check_entry}
use heeler.RateLimit.Table.{
  lookup, replace, ip_eq_iff, lookup-replace_self, lookup-replace_ne, length-replace,
}
use heeler.RateLimit.Cases.{check_taken}
use heeler.RateLimit.{LimiterState, take_global, admit, check_new, check_client, check}

-- The abstract limiter: what is known of each address. It has no table, no limit and no sweep.
abbrev pub Clients : Type 0
Clients = IpAddr → Option ClientEntry

abbrev pub update : IpAddr → ClientEntry → Clients → Clients
update k v clients j = if ip_eq k j then some v else clients j

-- An address that is seen for the first time is allowed, and starts with a burst less one token.
abbrev pub first_entry : RateLimitSettings → ℕ → ClientEntry
first_entry settings now = record {
  bucket =
      (Bucket.try_take (Bucket.new settings.burst now) settings.requests_per_second settings.burst
        now).1;
  last_seen = now;
  limited_count = 0;
}

abbrev pub decide : RateLimitSettings → Option ClientEntry → ℕ → RateDecision × ClientEntry
decide settings none now = (Client.allowed, first_entry settings now)
decide settings (some entry) now = check_entry settings entry now

unfoldable pub decisions : RateLimitSettings → Clients → List (IpAddr × ℕ) → List RateDecision
unfolding check_entry
decisions settings clients [] = []
decisions settings clients ((source, now) ∷ packets) =
    let (decision, entry) = decide settings (clients source) now in
    decision ∷ decisions settings (update source entry clients) packets

-- The limiter on a sequence of packets.
unfoldable pub checks :
    RateLimitSettings → LimiterState → List (IpAddr × ℕ) → List RateDecision × LimiterState
unfolding check
checks settings s [] = ([], s)
checks settings s ((source, now) ∷ packets) =
    let (decision, s1) = check settings s source now in
    let (rest, s2) = checks settings s1 packets in (decision ∷ rest, s2)

module _ (settings : RateLimitSettings) (on : settings.enabled ≡ true)
    (no_global : settings.global_requests_per_second ≡ 0) where
  -- The table holds what the abstract limiter knows.
  abbrev pub Implements : LimiterState → Clients → Type 0
  Implements s clients = (k : IpAddr) → lookup k s.clients ≡ clients k

  not_global : (s : LimiterState) (now : ℕ) → take_global settings s now ≡ (true, s)
  unfolding take_global
  not_global s now = rw no_global refl

  check-check_client :
      (s : LimiterState) (source : IpAddr) (now : ℕ)
      → check settings s source now ≡ check_client settings s source now
  check-check_client s source now =
      check_taken settings s source now on
        (ap (λ (x : Bool × LimiterState). x.0) (not_global s now))
      ∙ rw (not_global s now) refl

  replace-Implements :
      (s : LimiterState) (clients : Clients) (source : IpAddr) (old entry : ClientEntry)
      → Implements s clients
      → clients source ≡ some old
      → Implements
          (record s { clients = replace source entry s.clients })
          (update source entry clients)
  replace-Implements s clients source old entry h known k = elim (Bool-cases (ip_eq source k)) [
    | inl e ↦
        let same = (ip_eq_iff source k).0 e in
        rw (e, sym same) (lookup-replace_self source entry old s.clients (h source ∙ known))
    | inr e ↦ rw e (
        lookup-replace_ne source k entry s.clients
          (λ same. ground (arith, e, (ip_eq_iff source k).1 same))
        ∙ h k)
  ]

  insert-Implements :
      (s : LimiterState) (clients : Clients) (source : IpAddr) (entry : ClientEntry)
      → Implements s clients
      → Implements
          (record s { clients = (source, entry) ∷ s.clients })
          (update source entry clients)
  unfolding lookup
  insert-Implements s clients source entry h k = rw (h k) refl

  check_new-room :
      (s : LimiterState) (source : IpAddr) (now : ℕ)
      → suc (length s.clients) ≤ settings.max_client_entries
      → check_new settings s source now
        ≡ (Client.allowed, record s { clients = (source, first_entry settings now) ∷ s.clients })
  unfolding check_new admit
  check_new-room s source now room = ground (arith, room)

  -- One packet, with room in the table: the decision is the abstract one, and the table holds the new
  -- entry and no more than one key more.
  check-Implements :
      (s : LimiterState) (clients : Clients) (source : IpAddr) (now : ℕ)
      → Implements s clients
      → suc (length s.clients) ≤ settings.max_client_entries
      → let (decision, entry) = decide settings (clients source) now in
        let (decided, after) = check settings s source now in
        (decided ≡ decision)
        × Implements after (update source entry clients)
        × (length after.clients ≤ suc (length s.clients))
  unfolding check_client
  check-Implements s clients source now h room = elim (Option-cases (clients source)) [
    | inl n ↦
        rw
          (
            check-check_client s source now,
            n,
            h source ∙ n,
            check_client,
            check_new-room s source now room,
          )
          (refl, insert-Implements s clients source (first_entry settings now) h, omega arith)
    | inr (entry, e) ↦
        rw (check-check_client s source now, e, h source ∙ e, check_client)
          (
            refl,
            replace-Implements s clients source entry _ h e,
            omega (arith, length-replace source (check_entry settings entry now).1 s.clients),
          )
  ]

  -- With the limiter enabled and no global limit, packets that the table has room for are decided as by
  -- the abstract limiter, one bucket for each address, where no sweep stands between them.
  pub checks-refines :
      (packets : List (IpAddr × ℕ)) (s : LimiterState) (clients : Clients)
      → Implements s clients
      → length s.clients + length packets ≤ settings.max_client_entries
      → (checks settings s packets).0 ≡ decisions settings clients packets
  unfolding checks decisions
  checks-refines [] s clients h room = refl
  checks-refines ((source, now) ∷ packets) s clients h room =
      let (same, next, grown) = check-Implements s clients source now h (omega (arith, room)) in
      let (decision, entry) = decide settings (clients source) now in
      let rest =
        checks-refines packets (check settings s source now).1 (update source entry clients) next
          (omega (arith, room, grown)) in
      cc (same, rest)

  new-Implements : (now : ℕ) → Implements (RateLimit.new settings now) (λ k. none)
  unfolding RateLimit.new lookup
  new-Implements now k = refl

  -- So does a new limiter, if no more packets come than it has entries.
  pub new-refines :
      (start : ℕ) (packets : List (IpAddr × ℕ))
      → length packets ≤ settings.max_client_entries
      → (checks settings (RateLimit.new settings start) packets).0
        ≡ decisions settings (λ k. none) packets
  unfolding RateLimit.new
  new-refines start packets room =
      checks-refines packets (RateLimit.new settings start) (λ k. none) (new-Implements start)
        (omega (arith, room))
