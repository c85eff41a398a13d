-- ===== src/Access/Longest.antt =====
-- access.rs, `evaluate`: the most specific matching rule decides, and deny wins ties.
use heeler.Common.{
  ℕ, ◌+◌, ◌*◌, ◌^◌, ◌≤◌, ◌<◌, ◌≡◌, refl, ap, Bool, true, false, ◌⊎◌, inl, inr, none, some, List, [],
  ◌∷◌, All, arith, Bool-cases,
}
use native.Mathlib.Decide.{dec_le}
use heeler.Access.{
  IpAddr, v4, v6, IpNets, AccessControl, allowed, denied, maximum, longer, longest_match,
  canonicalise, evaluate,
}

abbrev pub In : {A : Type 0} → A → List A → Type 0
In x [] = ⊥
In x (y ∷ ys) = (x ≡ y) ⊎ In x ys

module _ (nets : IpNets) where
  open nets use {IpNet, net_contains, prefix_len}

  -- No rule of the list contains the address.
  abbrev pub NoMatch : List IpNet → IpAddr → Type 0
  NoMatch rules ip = All (λ n. net_contains n ip ≡ false) rules

  -- The rule is in the list, contains the address, and no rule that does is longer.
  abbrev pub Longest : IpNet → List IpNet → IpAddr → Type 0
  Longest net rules ip =
      In net rules
      × (net_contains net ip ≡ true)
      × All (λ n. net_contains n ip ≡ true → prefix_len n ≤ prefix_len net) rules

  abbrev Answer : List IpNet → IpAddr → Type 0
  Answer rules ip =
      ((longest_match nets rules ip ≡ none) × NoMatch rules ip)
      ⊎ ((net : IpNet) × (longest_match nets rules ip ≡ some (prefix_len net))
          × In net rules
          × (net_contains net ip ≡ true)
          × All (λ n. net_contains n ip ≡ true → prefix_len n ≤ prefix_len net) rules)

  longest_match-hit :
      (r : IpNet) (rs : List IpNet) (ip : IpAddr)
      → net_contains r ip ≡ true
      → longest_match nets (r ∷ rs) ip ≡ longer (prefix_len r) (longest_match nets rs ip)
  unfolding longest_match maximum
  longest_match-hit r rs ip h = rw h

  longest_match-miss :
      (r : IpNet) (rs : List IpNet) (ip : IpAddr)
      → net_contains r ip ≡ false
      → longest_match nets (r ∷ rs) ip ≡ longest_match nets rs ip
  unfolding longest_match maximum
  longest_match-miss r rs ip h = rw h

  All-imply :
      (P Q : IpNet → Type 0) (rs : List IpNet) (ip : IpAddr)
      → ((n : IpNet) → P n → Q n)
      → All (λ n. net_contains n ip ≡ true → P n) rs
      → All (λ n. net_contains n ip ≡ true → Q n) rs
  All-imply P Q [] ip f a = tt
  All-imply P Q (r ∷ rs) ip f (a, as') = (λ e. f r (a e), All-imply P Q rs ip f as')

  All-vacuous :
      (P : IpNet → Type 0) (rs : List IpNet) (ip : IpAddr)
      → NoMatch rs ip
      → All (λ n. net_contains n ip ≡ true → P n) rs
  All-vacuous P [] ip a = tt
  All-vacuous P (r ∷ rs) ip (a, as') = (λ e. cc, All-vacuous P rs ip as')

  -- With a first rule that matches: it is the longest, or the longest of the others is.
  Answer-hit :
      (r : IpNet) (rs : List IpNet) (ip : IpAddr)
      → net_contains r ip ≡ true
      → Answer rs ip
      → Answer (r ∷ rs) ip
  Answer-hit r rs ip h (inl (e, no_match)) = inr (
    r,
    rw (longest_match-hit r rs ip h, e) refl,
    inl refl,
    h,
    (λ _. omega arith, All-vacuous (λ n. prefix_len n ≤ prefix_len r) rs ip no_match),
  )
  Answer-hit r rs ip h (inr (net, e, i, c, a)) = elim (dec_le (prefix_len net) (prefix_len r)) [
    | yes le ↦ inr (
      r,
      rw (longest_match-hit r rs ip h, e) (ap some (omega arith)),
      inl refl,
      h,
      (
        λ _. omega arith,
        All-imply _ (λ n. prefix_len n ≤ prefix_len r) rs ip (λ n p. omega arith) a,
      ),
    )
    | no gt ↦ inr (
      net,
      rw (longest_match-hit r rs ip h, e) (ap some (omega arith)),
      inr i,
      c,
      (λ _. omega arith, a),
    )
  ]

  Answer-miss :
      (r : IpNet) (rs : List IpNet) (ip : IpAddr)
      → net_contains r ip ≡ false
      → Answer rs ip
      → Answer (r ∷ rs) ip
  Answer-miss r rs ip h (inl (e, n)) = inl (rw (longest_match-miss r rs ip h) e, (h, n))
  Answer-miss r rs ip h (inr (net, e, i, c, a)) =
      inr (net, rw (longest_match-miss r rs ip h) e, inr i, c, (λ x. cc, a))

  -- The longest match is none exactly where no rule contains the address, and otherwise the prefix
  -- length of a rule that does and that none exceeds.
  pub longest_match-Answer : (rules : List IpNet) (ip : IpAddr) → Answer rules ip
  longest_match-Answer [] ip = inl (unfold longest_match maximum in refl, tt)
  longest_match-Answer (r ∷ rs) ip = elim (Bool-cases (net_contains r ip)) [
    | inl h ↦ Answer-hit r rs ip h (longest_match-Answer rs ip)
    | inr h ↦ Answer-miss r rs ip h (longest_match-Answer rs ip)
  ]

  module _ (acl : AccessControl nets) (source : IpAddr) where
    open acl use {allow, deny, default_allow}

    -- No rule matches, and the default action is the given one.
    abbrev pub ByDefault : Bool → Type 0
    ByDefault action =
        NoMatch allow (canonicalise source)
        × NoMatch deny (canonicalise source)
        × (default_allow ≡ action)

    -- The two outcomes of `evaluate`, each with what holds of the rules.
    abbrev pub Verdict : Type 0
    Verdict =
        ((evaluate nets acl source ≡ denied)
          × (((d : IpNet) × Longest d deny (canonicalise source)
                × All
                    (λ n. net_contains n (canonicalise source) ≡ true → prefix_len n ≤ prefix_len d)
                    allow)
              ⊎ ByDefault false))
        ⊎ ((evaluate nets acl source ≡ allowed)
            × (((a : IpNet) × Longest a allow (canonicalise source)
                  × All
                      (λ n.
                        net_contains n (canonicalise source) ≡ true → prefix_len n < prefix_len a)
                      deny)
                ⊎ ByDefault true))

    by_answers : Answer allow (canonicalise source) → Answer deny (canonicalise source) → Verdict
    unfolding evaluate
    by_answers (inl (ea, na)) (inl (ed, nd)) = elim (Bool-cases default_allow) [
      | inl t ↦ inr (rw (ea, ed, t, evaluate) refl, inr (na, nd, t))
      | inr f ↦ inl (rw (ea, ed, f, evaluate) refl, inr (na, nd, f))
    ]
    by_answers (inl (ea, na)) (inr (d, ed, i, c, s)) = inl (
      rw (ea, ed, evaluate) refl,
      inl (d, (i, c, s), All-vacuous (λ n. prefix_len n ≤ prefix_len d) allow _ na),
    )
    by_answers (inr (a, ea, i, c, s)) (inl (ed, nd)) = inr (
      rw (ea, ed, evaluate) refl,
      inl (a, (i, c, s), All-vacuous (λ n. prefix_len n < prefix_len a) deny _ nd),
    )
    by_answers (inr (a, ea, i, c, s)) (inr (d, ed, j, k, t)) =
        elim (dec_le (prefix_len a) (prefix_len d)) [
          | yes le ↦ inl (
            rw (ea, ed, evaluate) (ground arith),
            inl (
              d,
              (j, k, t),
              All-imply _ (λ n. prefix_len n ≤ prefix_len d) allow _ (λ n p. omega arith) s,
            ),
          )
          | no gt ↦ inr (
            rw (ea, ed, evaluate) (ground arith),
            inl (
              a,
              (i, c, s),
              All-imply _ (λ n. prefix_len n < prefix_len a) deny _ (λ n p. omega arith) t,
            ),
          )
        ]

    -- The most specific matching rule decides across both lists. An address is denied exactly if a
    -- longest matching deny rule is at least as long as every matching allow rule, or no rule matches
    -- and the default is deny; it is allowed exactly if a longest matching allow rule is longer than
    -- every matching deny rule, or no rule matches and the default is allow. Addresses are compared
    -- in canonical form.
    pub evaluate_longest_wins : Verdict
    evaluate_longest_wins =
        by_answers (longest_match-Answer allow (canonicalise source))
          (longest_match-Answer deny (canonicalise source))

  -- An IPv4-mapped IPv6 address is decided as the IPv4 address in it.
  pub evaluate-mapped :
      (acl : AccessControl nets) (a : ℕ)
      → a < 2 ^ 32
      → evaluate nets acl (v6 (0xffff * 2 ^ 32 + a)) ≡ evaluate nets acl (v4 a)
  unfolding evaluate
  evaluate-mapped acl a h =
      let e : canonicalise (v6 (0xffff * 2 ^ 32 + a)) ≡ canonicalise (v4 a) =
        unfold canonicalise in ground arith in
      rw e
