-- ===== src/Config/Laws.antt =====
-- config.rs: what a validated configuration guarantees to the rest of the server.
use heeler.Common.{
  ℕ, ◌≤◌, ◌<◌, ◌≡◌, ◌⊎◌, true, false, List, [], ◌∷◌, ok, arith, zero, suc, all, get_or, IsByte, All,
}
use heeler.Common.Int.{ℤ, pos, negsuc, ◌≤ℤ◌}
use heeler.Common.Words.{IsI32, IsU32}
use heeler.Response.Laws.{IsIdentity}
use heeler.Packet.{packet_size}
use heeler.Packet.Stratum
use heeler.Packet.Short
use heeler.Packet.ReferenceId
use heeler.Access.{IpNets, from_rules}
use heeler.Config.{Config}
use heeler.Config.Validate.{ValidatedConfig, validate, check_versions}

module _ (nets : IpNets) where
  packet_size_lem :
      (c : Config) (v : ValidatedConfig nets)
      → validate nets c ≡ ok v
      → (packet_size ≤ c.server.max_packet_size) × (c.server.max_packet_size ≤ 1024)
  unfolding validate
  packet_size_lem c v e = ground arith

  stratum_lem :
      (c : Config) (v : ValidatedConfig nets)
      → validate nets c ≡ ok v
      → (v.identity.stratum ≡ c.protocol.stratum)
        × (1 ≤ v.identity.stratum)
        × (v.identity.stratum ≤ 15)
  unfolding validate Stratum.for_server
  stratum_lem c v e = ground arith

  pub copied_lem :
      (c : Config) (v : ValidatedConfig nets)
      → validate nets c ≡ ok v
      → (v.config ≡ c)
        × (v.validation_policy.supported_versions ≡ c.protocol.versions)
        × (from_rules nets c.access.allow c.access.deny c.access.default_action ≡ ok v.access)
        × (Short.signed_from_millis c.protocol.root_delay_ms ≡ ok v.identity.root_delay)
        × (Short.unsigned_from_millis c.protocol.root_dispersion_ms ≡ ok v.identity.root_dispersion)
        × (ReferenceId.from_config c.protocol.reference_id ≡ ok v.identity.reference_id)
        × (check_versions c.protocol.versions ≡ ok tt)
  unfolding validate
  copied_lem c v e = ground arith

  limits_lem :
      (c : Config) (v : ValidatedConfig nets)
      → validate nets c ≡ ok v
      → (0 < v.jump_policy.max_backward)
        × (0 < v.jump_policy.max_forward)
        × ((c.rate_limit.enabled ≡ false)
            ⊎ ((0 < c.rate_limit.requests_per_second)
                × (0 < c.rate_limit.burst)
                × (0 < c.rate_limit.max_client_entries)
                × (0 < c.rate_limit.client_entry_ttl_seconds)))
  unfolding validate
  limits_lem c v e = ground arith

  precision_lem :
      (c : Config) (v : ValidatedConfig nets)
      → validate nets c ≡ ok v
      → (negsuc 29 ≤ℤ v.identity.precision) × (v.identity.precision ≤ℤ pos 0)
  unfolding validate
  precision_lem c v e = ground arith

signed_from_millis-IsI32 : (z : ℤ) (w : ℤ) → Short.signed_from_millis z ≡ ok w → IsI32 w
unfolding Short.signed_from_millis
signed_from_millis-IsI32 z w e = (ground arith, ground arith)

unsigned_from_millis-IsU32 : (z : ℤ) (w : ℕ) → Short.unsigned_from_millis z ≡ ok w → IsU32 w
unfolding Short.unsigned_from_millis
unsigned_from_millis-IsU32 z w e = ground arith

printable_or_zero :
    (text : List ℕ) (k : ℕ) → all ReferenceId.printable text ≡ true → IsByte (get_or text k 0)
printable_or_zero [] k h = ground arith
printable_or_zero (x ∷ xs) zero h = ground arith
printable_or_zero (x ∷ xs) (suc k) h = printable_or_zero xs k (ground arith)

from_config-IsReferenceId :
    (text : List ℕ) (r : ReferenceId.ReferenceId)
    → ReferenceId.from_config text ≡ ok r
    → ReferenceId.IsReferenceId r
unfolding ReferenceId.from_config ReferenceId.from_bytes
from_config-IsReferenceId text r e =
    let p : all ReferenceId.printable text ≡ true = ground arith in
    let shape : r
        ≡ ReferenceId.from_bytes (get_or text 0 0) (get_or text 1 0) (get_or text 2 0)
            (get_or text 3 0) =
      ground arith in
    rw shape (record {
      first = printable_or_zero text 0 p;
      second = printable_or_zero text 1 p;
      third = printable_or_zero text 2 p;
      fourth = printable_or_zero text 3 p;
    })

check_versions_lem : (vs : List ℕ) → check_versions vs ≡ ok tt → All (λ w. (3 ≤ w) × (w ≤ 4)) vs
unfolding check_versions
check_versions_lem [] e = tt
check_versions_lem (w ∷ vs) e = (ground arith, check_versions_lem vs (ground arith))

-- What the server relies on: an identity whose fields fit a packet and whose stratum is that of a
-- server, served versions among 3 and 4, a datagram limit that admits a packet, and positive limits.
pub record IsServable (nets : IpNets) (v : ValidatedConfig nets) : Type 0 where
  pub identity_fits : IsIdentity v.identity
  pub stratum_positive : 1 ≤ v.identity.stratum
  pub stratum_at_most : v.identity.stratum ≤ 15
  pub versions_served : All (λ w. (3 ≤ w) × (w ≤ 4)) v.validation_policy.supported_versions
  pub packet_fits : packet_size ≤ v.config.server.max_packet_size
  pub size_bounded : v.config.server.max_packet_size ≤ 1024
  pub backward_positive : 0 < v.jump_policy.max_backward
  pub forward_positive : 0 < v.jump_policy.max_forward
  pub rate_positive :
      (v.config.rate_limit.enabled ≡ false)
      ⊎ ((0 < v.config.rate_limit.requests_per_second)
          × (0 < v.config.rate_limit.burst)
          × (0 < v.config.rate_limit.max_client_entries)
          × (0 < v.config.rate_limit.client_entry_ttl_seconds))

-- A configuration that passes validation is kept as it is, its access rules compile to the served
-- ones, and what is derived from it is fit to serve: an identity whose fields fit a packet, a stratum
-- from 1 to 15, versions among 3 and 4, a datagram limit from 48 to 1024, positive jump thresholds,
-- and positive limits where rate limiting is on.
pub validate-IsServable :
    (nets : IpNets) (c : Config) (v : ValidatedConfig nets)
    → validate nets c ≡ ok v
    → (v.config ≡ c)
      × (from_rules nets c.access.allow c.access.deny c.access.default_action ≡ ok v.access)
      × IsServable nets v
validate-IsServable nets c v e =
    let (kept, policy, access, delay, dispersion, refid, versions) = copied_lem nets c v e in
    let (_, low, high) = stratum_lem nets c v e in
    let (size_low, size_high) = packet_size_lem nets c v e in
    let (backward, forward, rate) = limits_lem nets c v e in
    let (p_low, p_high) = precision_lem nets c v e in
    (
      kept,
      access,
      record {
        identity_fits = record {
          stratum_fits = omega (arith, high);
          reference_id_fits = from_config-IsReferenceId c.protocol.reference_id _ refid;
          precision_fits = omega (arith, p_low, p_high);
          root_delay_fits = signed_from_millis-IsI32 c.protocol.root_delay_ms _ delay;
          root_dispersion_fits =
              unsigned_from_millis-IsU32 c.protocol.root_dispersion_ms _ dispersion;
        };
        stratum_positive = low;
        stratum_at_most = high;
        versions_served = rw policy (check_versions_lem c.protocol.versions versions);
        packet_fits = rw kept size_low;
        size_bounded = rw kept size_high;
        backward_positive = backward;
        forward_positive = forward;
        rate_positive = rw kept rate;
      },
    )
