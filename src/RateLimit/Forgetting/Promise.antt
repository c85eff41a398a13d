-- ===== src/RateLimit/Forgetting/Promise.antt =====
-- rate_limit.rs, `check` and `sweep`: the limiter with its sweeps keeps the promise of the abstract one.
use heeler.Common.{
  ℕ, ◌-◌, ◌*◌, ◌^◌, ◌≤◌, ◌<◌, ◌≡◌, refl, ◌∙◌, ap, sym, Bool, true, inl, inr, Option, none, some,
  List, [], ◌∷◌, length, arith, Bool-cases, Option-cases,
}
use native.Mathlib.Nat.{mul-le-mul_right}
use heeler.Access.{IpAddr}
use heeler.RateLimit
use heeler.RateLimit.Bucket
use heeler.RateLimit.Bucket.{TokenBucket}
use heeler.RateLimit.Client
use heeler.RateLimit.Client.{RateLimitSettings, RateDecision, ClientEntry, check_entry}
use heeler.RateLimit.Table.{lookup, replace, replace-Distinct}
use heeler.RateLimit.Keys.{is_among, empty-Known}
use heeler.RateLimit.Refinement.{update, first_entry, decide}
use heeler.RateLimit.Bounds.{Call, checks, sweeps}
use heeler.RateLimit.Cases.{check_taken, check_exhausted}
use heeler.RateLimit.Forgetting.Agrees.{
  Agrees, later-Agrees, sweep-Agrees, entry-Agrees, lookup-replace, check_new-room,
}
use heeler.RateLimit.Forgetting.{
  Abstract, pay, unseen, consider, promised, check_entry_idle, Tracks, Timely, From, Timely-le,
  decide_seen,
}
use heeler.RateLimit.{
  LimiterState, retain_live, take_global, admit, check_new, check_client, check, sweep,
}

module _ (settings : RateLimitSettings) where
  -- What the limiter decides about the packets of a history.
  unfoldable pub decided : LimiterState → List (Call settings) → List RateDecision
  unfolding check sweep
  decided s [] = []
  decided s (checks source now ∷ calls) =
      let (decision, after) = check settings s source now in decision ∷ decided after calls
  decided s (sweeps now ∷ calls) = decided (sweep settings s now) calls

  take_global-pay :
      (s : LimiterState) (now : ℕ)
      → take_global settings s now
        ≡ ((pay settings s.global now).0, record s { global = (pay settings s.global now).1 })
  unfolding take_global
  take_global-pay s now = ground arith

  module _ (known : List IpAddr) (room : length known ≤ settings.max_client_entries)
      (one : 1 ≤ settings.burst) (small : settings.burst < 2 ^ 32)
      (covers : 1000 * (settings.burst * Bucket.micro)
        ≤ settings.client_entry_ttl * settings.requests_per_second) where
    -- An address that is not in the table is treated as one that was never seen.
    decide_absent :
        (now : ℕ) (found : Option ClientEntry)
        → now * settings.requests_per_second < 1000 * 2 ^ 64
        → Tracks settings now none found
        → decide settings found now ≡ (Client.allowed, first_entry settings now)
    decide_absent now none fits h = refl
    decide_absent now (some entry) fits (same, seen, inl e) = cc
    decide_absent now (some entry) fits (same, seen, inr (e, idle)) =
        let rate = settings.requests_per_second in
        check_entry_idle settings entry now one small
          (rw same (omega (arith, covers, mul-le-mul_right rate idle)))
          (rw same (
            omega (
              arith,
              fits,
              mul-le-mul_right {m = now - entry.last_seen} {n = now} rate (omega arith),
            )))

    check_client-Agrees :
        (now : ℕ) (s : LimiterState) (a : Abstract) (source : IpAddr)
        → is_among known source ≡ true
        → now * settings.requests_per_second < 1000 * 2 ^ 64
        → Agrees settings known room now s a
        → let (decision, entry) = decide settings (a.clients source) now in
          let (made, after) = check_client settings s source now in
          (made ≡ decision)
          × Agrees settings known room now after
              (record a { clients = update source entry a.clients })
    unfolding check_client
    check_client-Agrees now s a source here fits h = elim (Option-cases (lookup source s.clients)) [
      | inl n ↦
          let absent = decide_absent now (a.clients source) fits (rw n at (h.tracked source)) in
          let seen = decide_seen settings none now in
          rw (n, check_client, check_new-room settings known room s a source now here n h, absent)
            (
              refl,
              entry-Agrees settings known room now s a source (first_entry settings now)
                  ((source, first_entry settings now) ∷ s.clients) here seen (n, h.distinct)
                  (λ k. unfold lookup in refl) h,
            )
      | inr (entry, e) ↦
          let found = known_entry entry (a.clients source) (rw e at (h.tracked source)) in
          let next = (check_entry settings entry now).1 in
          let seen = decide_seen settings (some entry) now in
          rw (e, check_client, found)
            (
              refl,
              entry-Agrees settings known room now s a source next (replace source next s.clients)
                  here seen (replace-Distinct source next s.clients h.distinct)
                  (lookup-replace settings known room source entry next s.clients e) h,
            )
    ]
      where
        known_entry :
            (entry : ClientEntry) (found : Option ClientEntry)
            → Tracks settings now (some entry) found
            → found ≡ some entry
        known_entry entry none t = cc
        known_entry entry (some other) (_, _, inl e) = sym e
        known_entry entry (some other) (_, _, inr (e, _)) = cc

    module _ (on : settings.enabled ≡ true) where
      check-Agrees :
          (now : ℕ) (s : LimiterState) (a : Abstract) (source : IpAddr)
          → is_among known source ≡ true
          → now * settings.requests_per_second < 1000 * 2 ^ 64
          → Agrees settings known room now s a
          → let (decision, next) = consider settings a source now in
            let (made, after) = check settings s source now in
            (made ≡ decision) × Agrees settings known room now after next
      unfolding consider
      check-Agrees now s a source here fits h =
          let (taken, bucket) = pay settings a.global now in
          let paid : take_global settings s now ≡ (taken, record s { global = bucket }) =
            rw (take_global-pay s now, h.same_global) refl in
          let h' : Agrees settings known room now (record s { global = bucket })
              (record a { global = bucket }) =
            record {
              same_global = refl;
              distinct = h.distinct;
              keys = h.keys;
              tracked = h.tracked;
            } in
          elim (Bool-cases taken) [
            | inl e ↦
                rw
                  (
                    check_taken settings s source now on
                        (ap (λ (p : Bool × LimiterState). p.0) paid ∙ e),
                    paid,
                    e,
                  )
                  (check_client-Agrees now (record s { global = bucket })
                    (record a { global = bucket }) source here fits h')
            | inr e ↦
                rw
                  (
                    check_exhausted settings s source now on
                        (ap (λ (p : Bool × LimiterState). p.0) paid ∙ e),
                    paid,
                    e,
                  )
                  (refl, h')
          ]

      decided-promised :
          (horizon : ℕ) (calls : List (Call settings)) (start : ℕ) (s : LimiterState) (a : Abstract)
          → horizon * settings.requests_per_second < 1000 * 2 ^ 64
          → Timely settings start horizon calls
          → From settings known calls
          → Agrees settings known room start s a
          → decided s calls ≡ promised settings a calls
      unfolding decided promised
      decided-promised horizon [] start s a fits t f h = refl
      decided-promised horizon (checks source now ∷ calls) start s a fits (le, t) (here, f) h =
          let reaches = Timely-le settings now horizon calls t in
          let (same, next) =
            check-Agrees now s a source here
              (omega (arith, fits, mul-le-mul_right settings.requests_per_second reaches))
              (later-Agrees settings known room start now s a le h) in
          let rest =
            decided-promised horizon calls now (check settings s source now).1
              (consider settings a source now).1 fits t f next in
          cc (same, rest)
      decided-promised horizon (sweeps now ∷ calls) start s a fits (le, t) f h =
          decided-promised horizon calls now (sweep settings s now) a fits t f (
            sweep-Agrees settings known room now s a
              (later-Agrees settings known room start now s a le h))

-- An enabled limiter, new at `start`, decides a history of checks and sweeps as the abstract limiter
-- does: the global bucket first, then one bucket for each address, which nothing but that address's
-- packets touches; its sweeps change no decision. This holds, at instants that do not go back, where
-- the packets come from no more addresses than the table has room for, however many packets there are;
-- where the burst is positive and a u32; where the time to live earns a whole burst; and where the
-- micro-tokens earned up to the last instant fit a u64.
pub decided-new :
    (settings : RateLimitSettings) (known : List IpAddr) (start horizon : ℕ)
    (calls : List (Call settings))
    → settings.enabled ≡ true
    → length known ≤ settings.max_client_entries
    → 1 ≤ settings.burst
    → settings.burst < 2 ^ 32
    → 1000 * (settings.burst * Bucket.micro)
      ≤ settings.client_entry_ttl * settings.requests_per_second
    → horizon * settings.requests_per_second < 1000 * 2 ^ 64
    → Timely settings start horizon calls
    → From settings known calls
    → decided settings (RateLimit.new settings start) calls
      ≡ promised settings (unseen settings start) calls
unfolding RateLimit.new
decided-new settings known start horizon calls on room one small covers fits timely from =
    decided-promised settings known room one small covers on horizon calls start
      (RateLimit.new settings start) (unseen settings start) fits timely from
      (record {
        same_global = refl;
        distinct = tt;
        keys = empty-Known known;
        tracked = λ k. unfold lookup in refl;
      })
