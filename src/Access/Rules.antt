-- ===== src/Access/Rules.antt =====
-- access.rs, `from_rules`: which rule texts compile, and the first error.
use heeler.Common.{
  ℕ, ◌≡◌, Bool, true, false, ◌⊎◌, none, List, [], ◌∷◌, ◌++◌, map, ok, err, codes, bytes_eq_iff,
  arith, ap, >>=-eq-ok,
}
use heeler.Access.{
  IpNets, AccessControl, invalid_rule, parse_rule, parse_rules, parse_default_action, from_rules,
}

default_action_ok :
    (action : List ℕ) (allow : Bool)
    → parse_default_action action ≡ ok allow
    → ((action ≡ codes "allow") × (allow ≡ true)) ⊎ ((action ≡ codes "deny") × (allow ≡ false))
unfolding parse_default_action
default_action_ok action allow e =
    ground (arith, bytes_eq_iff action (codes "allow"), bytes_eq_iff action (codes "deny"))

module _ (nets : IpNets) where
  open nets use {IpNet, parse_net, parse_addr}

  parse_rules-cons :
      (rule : List ℕ) (rules : List (List ℕ)) (compiled : List IpNet)
      → parse_rules nets (rule ∷ rules) ≡ ok compiled
      → (net : IpNet) × (rest : List IpNet) × (parse_rule nets rule ≡ ok net)
        × (parse_rules nets rules ≡ ok rest)
        × (compiled ≡ net ∷ rest)
  unfolding parse_rules
  parse_rules-cons rule rules compiled e =
      let (net, r, f) = >>=-eq-ok (parse_rule nets rule) _ e in
      let (rest, s, g) = >>=-eq-ok (parse_rules nets rules) _ f in (net, rest, r, s, cc)

  -- Compiled rules are those of the texts, in order: each text's result is the rule at its place.
  pub parse_rules_ok :
      (rules : List (List ℕ)) (compiled : List IpNet)
      → parse_rules nets rules ≡ ok compiled
      → map (parse_rule nets) rules ≡ map ok compiled
  parse_rules_ok [] compiled e = let n : compiled ≡ [] = unfold parse_rules in cc in rw n
  parse_rules_ok (rule ∷ rules) compiled e =
      let (net, rest, r, s, c) = parse_rules-cons rule rules compiled e in
      rw (c, r) (ap (◌∷◌ (ok net)) (parse_rules_ok rules rest s))

  -- The first text that is neither a prefix nor an address is the error, whatever follows it.
  pub parse_rules_first_error :
      (before : List (List ℕ)) (compiled : List IpNet) (bad : List ℕ) (after : List (List ℕ))
      → parse_rules nets before ≡ ok compiled
      → parse_net bad ≡ none
      → parse_addr bad ≡ none
      → parse_rules nets (before ++ (bad ∷ after)) ≡ err (invalid_rule bad)
  unfolding parse_rules parse_rule
  parse_rules_first_error [] compiled bad after e n a = rw (n, a)
  parse_rules_first_error (rule ∷ before) compiled bad after e n a =
      let (net, rest, r, s, c) = parse_rules-cons rule before compiled e in
      rw (r, parse_rules_first_error before rest bad after s n a)

  -- A table that is built holds the rules of both lists, every one compiled and in order, and its
  -- default is the action's, which is the text `allow` or `deny`.
  pub from_rules_ok :
      (allow deny : List (List ℕ)) (action : List ℕ) (acl : AccessControl nets)
      → from_rules nets allow deny action ≡ ok acl
      → (map (parse_rule nets) allow ≡ map ok acl.allow)
        × (map (parse_rule nets) deny ≡ map ok acl.deny)
        × (((action ≡ codes "allow") × (acl.default_allow ≡ true))
            ⊎ ((action ≡ codes "deny") × (acl.default_allow ≡ false)))
  unfolding from_rules
  from_rules_ok allow deny action acl e =
      let (d, p, f) = >>=-eq-ok (parse_default_action action) _ e in
      let (a, q, g) = >>=-eq-ok (parse_rules nets allow) _ f in
      let (n, r, h) = >>=-eq-ok (parse_rules nets deny) _ g in
      let ea : a ≡ acl.allow = cc in
      let en : n ≡ acl.deny = cc in
      let ed : d ≡ acl.default_allow = cc in
      (
        rw (← ea) (parse_rules_ok allow a q),
        rw (← en) (parse_rules_ok deny n r),
        rw (← ed) (default_action_ok action d p),
      )
