-- ===== src/RateLimit/Global.antt =====
-- rate_limit.rs: the global bucket bounds what all clients together are answered.
use heeler.Common.{
  ℕ, suc, ◌+◌, ◌-◌, ◌*◌, ◌≤◌, ◌<◌, ◌≡◌, refl, ap, ◌∙◌, Bool, true, false, List, [], ◌∷◌, map, arith,
  Bool-cases, inl, inr, Option-cases,
}
use heeler.Access.{IpAddr}
use heeler.RateLimit.Bucket.{
  TokenBucket, try_take, admitted, admitted-le, Ascending, last_of, count_taken,
}
use heeler.RateLimit.Client
use heeler.RateLimit.Client.{RateLimitSettings, RateDecision, check_entry}
use heeler.RateLimit.Table.{lookup}
use heeler.RateLimit.Cases.{check_taken, check_exhausted}
use heeler.RateLimit.{
  LimiterState, new, take_global, force_sweep, admit, check_new, check_client, check,
}

abbrev pub count_past_global : RateDecision → ℕ → ℕ
count_past_global Client.limited_global n = n
count_past_global _ n = suc n

module _ (settings : RateLimitSettings) where
  -- How many packets of a history get past the global bucket.
  unfoldable pub past_global : LimiterState → List (IpAddr × ℕ) → ℕ
  past_global s [] = 0
  past_global s ((source, now) ∷ rest) =
      let (decision, s') = check settings s source now in
      count_past_global decision (past_global s' rest)

  -- What follows the global bucket does not touch it, and never answers for it.
  force_sweep-global : (s : LimiterState) (now : ℕ) → (force_sweep settings s now).global ≡ s.global
  unfolding force_sweep
  force_sweep-global s now = ground arith

  check_new-global :
      (s : LimiterState) (source : IpAddr) (now : ℕ)
      → let (decision, s') = check_new settings s source now in
        (s'.global ≡ s.global) × ((n : ℕ) → count_past_global decision n ≡ suc n)
  unfolding check_new admit
  check_new-global s source now = (ground (arith, force_sweep-global s now), λ n. ground arith)

  check_client-global :
      (s : LimiterState) (source : IpAddr) (now : ℕ)
      → let (decision, s') = check_client settings s source now in
        (s'.global ≡ s.global) × ((n : ℕ) → count_past_global decision n ≡ suc n)
  unfolding check_client
  check_client-global s source now = elim (Option-cases (lookup source s.clients)) [
    | inl e ↦ rw (e, check_client) (check_new-global s source now)
    | inr (entry, e) ↦ rw (e, check_client) (refl, λ n. unfold check_entry in ground arith)
  ]

  module _ (on : settings.enabled ≡ true) (limits : 0 < settings.global_requests_per_second) where
    abbrev take : TokenBucket → ℕ → Bool × TokenBucket
    take bucket now = try_take bucket settings.global_requests_per_second settings.global_burst now

    take_global_lem :
        (s : LimiterState) (now : ℕ)
        → take_global settings s now
          ≡ ((take s.global now).0, record s { global = (take s.global now).1 })
    unfolding take_global
    take_global_lem s now = ground arith

    -- One check pays the global bucket, whatever comes of the packet.
    check-global :
        (s : LimiterState) (source : IpAddr) (now : ℕ)
        → let (decision, s') = check settings s source now in
          (s'.global ≡ (take s.global now).1)
          × ((n : ℕ) → count_past_global decision n ≡ count_taken (take s.global now).0 n)
    check-global s source now = elim (Bool-cases (take s.global now).0) [
      | inl e ↦
          let g = take_global_lem s now in
          let c = check_client-global (record s { global = (take s.global now).1 }) source now in
          let t : (take_global settings s now).0 ≡ true = ap (λ p. p.0) g ∙ e in
          rw (check_taken settings s source now on t, g, e) (c.0, λ n. c.1 n)
      | inr e ↦
          let g = take_global_lem s now in
          let t : (take_global settings s now).0 ≡ false = ap (λ p. p.0) g ∙ e in
          rw (check_exhausted settings s source now on t, g, e) (refl, λ n. refl)
    ]

    past_global-admitted :
        (s : LimiterState) (packets : List (IpAddr × ℕ))
        → past_global s packets
          ≡ admitted settings.global_requests_per_second settings.global_burst s.global
              (map (λ p. p.1) packets)
    unfolding past_global admitted
    past_global-admitted s [] = refl
    past_global-admitted s ((source, now) ∷ rest) =
        let s' = (check settings s source now).1 in
        let (g, c) = check-global s source now in
        c (past_global s' rest)
        ∙ ap (count_taken (take s.global now).0) (rw g at (past_global-admitted s' rest))

    -- With a global rate, the packets that get past the global bucket, over any history of checks at
    -- instants that do not go back, are at most the global burst and what the global rate earns in the
    -- time passed: no set of clients, spoofed or not, has more of its packets considered.
    pub past_global-le :
        (start : ℕ) (packets : List (IpAddr × ℕ))
        → Ascending start (map (λ p. p.1) packets)
        → past_global (new settings start) packets * 1_000_000_000
          ≤ settings.global_burst * 1_000_000_000
            + (last_of start (map (λ p. p.1) packets) - start) * settings.global_requests_per_second
    unfolding new
    past_global-le start packets h = rw (past_global-admitted (new settings start) packets) (
        admitted-le settings.global_requests_per_second settings.global_burst start
          (map (λ p. p.1) packets) h)
