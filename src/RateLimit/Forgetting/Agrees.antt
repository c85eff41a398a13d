-- ===== src/RateLimit/Forgetting/Agrees.antt =====
-- rate_limit.rs, `check` and `sweep`: how the table relates to the abstract limiter, and what keeps it so.
use heeler.Common.{
  ℕ, ◌-◌, ◌≤◌, ◌≡◌, refl, sym, Bool, true, ltb, inl, inr, if◌then◌else◌, Option, none, some, List,
  ◌∷◌, length, filter, arith, Bool-cases, Option-cases,
}
use heeler.Access.{IpAddr, ip_eq}
use heeler.RateLimit.Client
use heeler.RateLimit.Client.{RateLimitSettings, RateDecision, ClientEntry, check_entry}
use heeler.RateLimit.Table.{
  Table, lookup, replace, Distinct, ip_eq_iff, filter-Distinct, lookup-filter, lookup-filter-none,
  lookup-replace_self, lookup-replace_ne,
}
use heeler.RateLimit.Keys.{is_among, Known, length-le-Known}
use heeler.RateLimit.Refinement.{update, first_entry}
use heeler.RateLimit.Forgetting.{Abstract, Tracks, later-Tracks}
use heeler.RateLimit.{LimiterState, retain_live, admit, check_new, sweep}

module _ (settings : RateLimitSettings) where
  retain_live-Tracks :
      (now : ℕ) (k : IpAddr) (t : Table) (known : Option ClientEntry)
      → Distinct t
      → Tracks settings now (lookup k t) known
      → Tracks settings now (lookup k (retain_live settings.client_entry_ttl now t)) known
  unfolding retain_live
  retain_live-Tracks now k t none d h = lookup-filter-none _ k t h
  retain_live-Tracks now k t (some entry) d (same, seen, inr (e, idle)) =
      (same, seen, inr (lookup-filter-none _ k t e, idle))
  retain_live-Tracks now k t (some entry) d (same, seen, inl e) =
      let kept =
        lookup-filter (λ kv. ltb (now - kv.1.last_seen) settings.client_entry_ttl) k entry t d e in
      elim (Bool-cases (ltb (now - entry.last_seen) settings.client_entry_ttl)) [
        | inl l ↦ (same, seen, inl (rw l at kept))
        | inr l ↦ (same, seen, inr (rw l at kept, ground (arith, l)))
      ]

  module _ (known : List IpAddr) (room : length known ≤ settings.max_client_entries) where
    pub record Agrees (now : ℕ) (s : LimiterState) (a : Abstract) : Type 0 where
      pub same_global : s.global ≡ a.global
      pub distinct : Distinct s.clients
      pub keys : Known known s.clients
      pub tracked : (k : IpAddr) → Tracks settings now (lookup k s.clients) (a.clients k)

    pub later-Agrees :
        (now later : ℕ) (s : LimiterState) (a : Abstract)
        → now ≤ later
        → Agrees now s a
        → Agrees later s a
    later-Agrees now later s a le h = record {
      same_global = h.same_global;
      distinct = h.distinct;
      keys = h.keys;
      tracked = λ k. later-Tracks settings now later _ _ le (h.tracked k);
    }

    filter-Known :
        (p : IpAddr × ClientEntry → Bool) (t : Table)
        → Distinct t
        → Known known t
        → Known known (filter p t)
    filter-Known p t d h k v e = elim (Option-cases (lookup k t)) [
      | inl n ↦ ground (arith, lookup-filter-none p k t n, e)
      | inr (w, f) ↦ h k w f
    ]

    pub sweep-Agrees :
        (now : ℕ) (s : LimiterState) (a : Abstract)
        → Agrees now s a
        → Agrees now (sweep settings s now) a
    unfolding sweep
    sweep-Agrees now s a h = record {
      same_global = h.same_global;
      distinct = unfold retain_live in filter-Distinct _ s.clients h.distinct;
      keys = unfold retain_live in filter-Known _ s.clients h.distinct h.keys;
      tracked = λ k. retain_live-Tracks now k s.clients (a.clients k) h.distinct (h.tracked k);
    }

    -- A table that holds the packet's entry, and else what was there.
    pub entry-Agrees :
        (now : ℕ) (s : LimiterState) (a : Abstract) (source : IpAddr) (entry : ClientEntry)
        (t : Table)
        → is_among known source ≡ true
        → (entry.bucket.last_refill ≡ entry.last_seen) × (entry.last_seen ≡ now)
        → Distinct t
        → ((k : IpAddr) → lookup k t ≡ (if ip_eq source k then some entry else lookup k s.clients))
        → Agrees now s a
        → Agrees now
            (record s { clients = t })
            (record a { clients = update source entry a.clients })
    entry-Agrees now s a source entry t here (same, seen) d look h = record {
      same_global = h.same_global;
      distinct = d;
      keys = λ k v e. ground (arith, ip_eq_iff source k, look k, h.keys k v, here);
      tracked = tracks;
    }
      where
        tracks : (k : IpAddr) → Tracks settings now (lookup k t) (update source entry a.clients k)
        tracks k = elim (Bool-cases (ip_eq source k)) [
          | inl e ↦ rw (look k, e) (same, omega (arith, seen), inl refl)
          | inr e ↦ rw (look k, e) (h.tracked k)
        ]

    pub lookup-replace :
        (source : IpAddr) (old entry : ClientEntry) (t : Table)
        → lookup source t ≡ some old
        → (k : IpAddr)
        → lookup k (replace source entry t) ≡ (if ip_eq source k then some entry else lookup k t)
    lookup-replace source old entry t e k = elim (Bool-cases (ip_eq source k)) [
      | inl f ↦
          let same = (ip_eq_iff source k).0 f in
          rw (f, sym same) (lookup-replace_self source entry old t e)
      | inr f ↦ rw f (
          lookup-replace_ne source k entry t
            (λ same. ground (arith, f, (ip_eq_iff source k).1 same)))
    ]

    insert-Known :
        (source : IpAddr) (entry : ClientEntry) (t : Table)
        → is_among known source ≡ true
        → Known known t
        → Known known ((source, entry) ∷ t)
    unfolding lookup
    insert-Known source entry t here h k v e = ground (arith, ip_eq_iff source k, h k v, here, e)

    -- A packet from an address that is not in the table finds room there.
    pub check_new-room :
        (s : LimiterState) (a : Abstract) (source : IpAddr) (now : ℕ)
        → is_among known source ≡ true
        → lookup source s.clients ≡ none
        → Agrees now s a
        → check_new settings s source now
          ≡ (Client.allowed, record s { clients = (source, first_entry settings now) ∷ s.clients })
    unfolding check_new admit
    check_new-room s a source now here n h =
        let more =
          length-le-Known known ((source, first_entry settings now) ∷ s.clients) (n, h.distinct)
            (insert-Known source (first_entry settings now) s.clients here h.keys) in
        ground (arith, more, room)
