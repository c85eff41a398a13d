-- ===== src/RateLimit/Forgetting/Independence.antt =====
-- rate_limit.rs, `check` and `sweep`: what one address is decided does not depend on the others.
use heeler.Common.{
  ℕ, ◌*◌, ◌^◌, ◌≤◌, ◌<◌, ◌≡◌, refl, ◌∙◌, ap, sym, true, false, inl, inr, if◌then◌else◌, List, [],
  ◌∷◌, length, arith, Bool-cases,
}
use heeler.Access.{IpAddr, ip_eq}
use heeler.RateLimit
use heeler.RateLimit.Bucket
use heeler.RateLimit.Client.{RateLimitSettings, RateDecision}
use heeler.RateLimit.Table.{ip_eq_iff}
use heeler.RateLimit.Refinement.{decide, update}
use heeler.RateLimit.Bounds.{Call, checks, sweeps}
use heeler.RateLimit.Forgetting.{Abstract, unseen, consider, promised, Timely, From}
use heeler.RateLimit.Forgetting.Promise.{decided, decided-new}

module _ (settings : RateLimitSettings) (client : IpAddr) where
  -- The decisions on a client's packets, among those on all packets.
  abbrev pub decisions_for : List (Call settings) → List RateDecision → List RateDecision
  decisions_for [] decisions = []
  decisions_for (sweeps now ∷ calls) decisions = decisions_for calls decisions
  decisions_for (checks source now ∷ calls) [] = []
  decisions_for (checks source now ∷ calls) (decision ∷ decisions) =
      let rest = decisions_for calls decisions in
      if ip_eq client source then decision ∷ rest else rest

  -- The history in which only that client sends.
  abbrev pub alone : List (Call settings) → List (Call settings)
  alone [] = []
  alone (sweeps now ∷ calls) = sweeps now ∷ alone calls
  alone (checks source now ∷ calls) =
      let rest = alone calls in if ip_eq client source then checks source now ∷ rest else rest

  start_earlier :
      (start now horizon : ℕ) (calls : List (Call settings))
      → start ≤ now
      → Timely settings now horizon calls
      → Timely settings start horizon calls
  start_earlier start now horizon [] le h = omega (arith, le, h)
  start_earlier start now horizon (checks source t ∷ calls) le (first, h) =
      (omega (arith, le, first), h)
  start_earlier start now horizon (sweeps t ∷ calls) le (first, h) = (omega (arith, le, first), h)

  alone-Timely :
      (start horizon : ℕ) (calls : List (Call settings))
      → Timely settings start horizon calls
      → Timely settings start horizon (alone calls)
  alone-Timely start horizon [] h = h
  alone-Timely start horizon (sweeps now ∷ calls) (le, h) = (le, alone-Timely now horizon calls h)
  alone-Timely start horizon (checks source now ∷ calls) (le, h) =
      let rest = alone-Timely now horizon calls h in
      elim (Bool-cases (ip_eq client source)) [
        | inl e ↦ rw e (le, rest)
        | inr e ↦ rw e (start_earlier start now horizon (alone calls) le rest)
      ]

  alone-From :
      (known : List IpAddr) (calls : List (Call settings))
      → From settings known calls
      → From settings known (alone calls)
  alone-From known [] h = tt
  alone-From known (sweeps now ∷ calls) h = alone-From known calls h
  alone-From known (checks source now ∷ calls) (here, h) =
      let rest = alone-From known calls h in
      elim (Bool-cases (ip_eq client source)) [ inl e ↦ rw e (here, rest) | inr e ↦ rw e rest ]

  module _ (no_global : settings.global_requests_per_second ≡ 0) where
    consider_ungated :
        (a : Abstract) (source : IpAddr) (now : ℕ)
        → consider settings a source now ≡ (
          (decide settings (a.clients source) now).0,
          record a { clients = update source (decide settings (a.clients source) now).1 a.clients },
        )
    unfolding consider
    consider_ungated a source now = rw no_global refl

    -- A packet of the client is decided by what is known of it, which stays alike.
    consider-mine :
        (a b : Abstract) (now : ℕ)
        → a.clients client ≡ b.clients client
        → let (decision, after) = consider settings a client now in
          let (other, later) = consider settings b client now in
          (decision ≡ other) × (after.clients client ≡ later.clients client)
    consider-mine a b now same =
        rw (consider_ungated a client now, consider_ungated b client now, same) (refl, refl)

    -- A packet of another leaves it as it is.
    consider-other :
        (a : Abstract) (source : IpAddr) (now : ℕ)
        → ip_eq client source ≡ false
        → (consider settings a source now).1.clients client ≡ a.clients client
    consider-other a source now e =
        let apart : ip_eq source client ≡ false =
          ground (arith, e, ip_eq_iff source client, ip_eq_iff client source) in
        rw (consider_ungated a source now, apart) refl

    -- Two states of the abstract limiter that know the same of the client.
    promised-alone :
        (calls : List (Call settings)) (a b : Abstract)
        → a.clients client ≡ b.clients client
        → decisions_for calls (promised settings a calls) ≡ promised settings b (alone calls)
    unfolding promised
    promised-alone [] a b same = refl
    promised-alone (sweeps now ∷ calls) a b same = promised-alone calls a b same
    promised-alone (checks source now ∷ calls) a b same = elim (Bool-cases (ip_eq client source)) [
      | inl e ↦
          let it_is : source ≡ client = sym ((ip_eq_iff client source).0 e) in
          let (first, next) = consider-mine a b now same in
          let rest =
            promised-alone calls (consider settings a client now).1
              (consider settings b client now).1 next in
          rw e (rw it_is (cc (first, rest)))
      | inr e ↦ rw e (
          promised-alone calls (consider settings a source now).1 b
            (consider-other a source now e ∙ same))
    ]

-- Clients do not interfere: without a global limit, what an enabled limiter, new at `start`, decides on
-- a client's packets is what it would decide if no other client sent anything, whatever the others send
-- and whenever the table is swept. The conditions are those under which sweeps change no decision: the
-- packets come from no more addresses than the table has room for, the burst is positive and a u32, the
-- time to live earns a whole burst, instants do not go back, and what is earned up to the last one fits
-- a u64.
pub decided-alone :
    (settings : RateLimitSettings) (client : IpAddr) (known : List IpAddr) (start horizon : ℕ)
    (calls : List (Call settings))
    → settings.enabled ≡ true
    → settings.global_requests_per_second ≡ 0
    → length known ≤ settings.max_client_entries
    → 1 ≤ settings.burst
    → settings.burst < 2 ^ 32
    → 1000 * (settings.burst * Bucket.micro)
      ≤ settings.client_entry_ttl * settings.requests_per_second
    → horizon * settings.requests_per_second < 1000 * 2 ^ 64
    → Timely settings start horizon calls
    → From settings known calls
    → decisions_for settings client calls (decided settings (RateLimit.new settings start) calls)
      ≡ decided settings (RateLimit.new settings start) (alone settings client calls)
decided-alone settings client known start horizon calls on no_global room one small covers fits
      timely from =
    let whole =
      decided-new settings known start horizon calls on room one small covers fits timely from in
    let part =
      decided-new settings known start horizon (alone settings client calls) on room one small
        covers fits (alone-Timely settings client start horizon calls timely)
        (alone-From settings client known calls from) in
    ap (decisions_for settings client calls) whole
    ∙ promised-alone settings client no_global calls (unseen settings start) (unseen settings start)
        refl
    ∙ sym part
