-- ===== src/Access.antt =====
-- crates/heeler-server/src/access.rs: CIDR access control. Prefixes are the `IpNet` of the ipnet
-- crate, a parameter: its containment test, its prefix length and its parser. Of std's `IpAddr` the
-- code uses the two families and the mapping of `::ffff:a.b.c.d` to IPv4, which is modelled: an
-- address is the number of its bits. Text is the list of its bytes.
pub mod Longest
pub mod Rules
use heeler.Common.{
  ℕ, ◌+◌, ◌-◌, ◌*◌, ◌/◌, ◌%◌, ◌^◌, ◌≤◌, ◌<◌, Bool, true, false, ◌&&◌, leb, ltb, ◌==◌, if◌then◌else◌,
  Option, none, some, List, [], ◌∷◌, map, filter, Result, ok, err, map_err, ◌>>=◌, codes, bytes_eq,
  max, arith,
}

pub data IpAddr : Type 0 where
  v4 : ℕ → IpAddr
  v6 : ℕ → IpAddr

-- std's socket address.
pub record SocketAddr : Type 0 where
  pub ip : IpAddr
  pub port : ℕ

-- The derived equality of addresses.
abbrev pub ip_eq : IpAddr → IpAddr → Bool
ip_eq (v4 a) (v4 b) = a == b
ip_eq (v4 a) (v6 b) = false
ip_eq (v6 a) (v4 b) = false
ip_eq (v6 a) (v6 b) = a == b

-- What the code uses of ipnet and of std's address parser.
pub record IpNets : Type 1 where
  pub IpNet : Type 0
  pub net_contains : IpNet → IpAddr → Bool
  pub prefix_len : IpNet → ℕ
  pub parse_net : List ℕ → Option IpNet
  pub parse_addr : List ℕ → Option IpAddr
  pub net_of_addr : IpAddr → IpNet

pub data AccessError : Type 0 where
  invalid_rule : List ℕ → AccessError
  invalid_default_action : List ℕ → AccessError

pub data AccessDecision : Type 0 where
  allowed denied : AccessDecision

-- `to_ipv4_mapped`: the high 80 bits are 0 and the next 16 are ones.
unfoldable pub canonicalise : IpAddr → IpAddr
canonicalise (v6 a) = if a / 2 ^ 32 == 0xffff then v4 (a % 2 ^ 32) else v6 a
canonicalise (v4 a) = v4 a

abbrev pub longer : ℕ → Option ℕ → Option ℕ
longer n none = some n
longer n (some m) = some (max n m)

-- `Iterator::max`.
unfoldable pub maximum : List ℕ → Option ℕ
maximum [] = none
maximum (n ∷ ns) = longer n (maximum ns)

unfoldable pub parse_default_action : List ℕ → Result AccessError Bool
parse_default_action action =
    if bytes_eq action (codes "allow")
    then ok true
    else if bytes_eq action (codes "deny")
    then ok false
    else err (invalid_default_action action)

module _ (nets : IpNets) where
  open nets use {IpNet, net_contains, prefix_len, parse_net, parse_addr, net_of_addr}

  pub record AccessControl : Type 0 where
    pub allow : List IpNet
    pub deny : List IpNet
    pub default_allow : Bool

  unfoldable pub longest_match : List IpNet → IpAddr → Option ℕ
  unfolding maximum
  longest_match rules ip = maximum (map prefix_len (filter (λ net. net_contains net ip) rules))

  abbrev or_address : List ℕ → Option IpNet → Option IpAddr → Result AccessError IpNet
  or_address rule (some net) addr = ok net
  or_address rule none (some addr) = ok (net_of_addr addr)
  or_address rule none none = err (invalid_rule rule)

  unfoldable pub parse_rule : List ℕ → Result AccessError IpNet
  parse_rule rule = or_address rule (parse_net rule) (parse_addr rule)

  -- The first rule that is neither a prefix nor an address is the error.
  unfoldable pub parse_rules : List (List ℕ) → Result AccessError (List IpNet)
  parse_rules [] = ok []
  parse_rules (rule ∷ rules) = do net ← parse_rule rule; rest ← parse_rules rules; ok (net ∷ rest)

  unfoldable pub from_rules :
      List (List ℕ) → List (List ℕ) → List ℕ → Result AccessError AccessControl
  from_rules allow deny default_action = do
    default_allow ← parse_default_action default_action
    allow_nets ← parse_rules allow
    deny_nets ← parse_rules deny
    ok (record { allow = allow_nets; deny = deny_nets; default_allow = default_allow })

  abbrev pub decide : Bool → Option ℕ → Option ℕ → AccessDecision
  decide default_allow (some allow) (some deny) = if leb allow deny then denied else allowed
  decide default_allow (some allow) none = allowed
  decide default_allow none (some deny) = denied
  decide default_allow none none = if default_allow then allowed else denied

  unfoldable pub evaluate : AccessControl → IpAddr → AccessDecision
  evaluate acl source =
      let source' = canonicalise source in
      decide acl.default_allow (longest_match acl.allow source') (longest_match acl.deny source')
