-- ===== src/Config/Validate.antt =====
-- config.rs, `Config::validate`: the checks in their order, and the derived values. An error's text is
-- a constructor, with the values that the text shows.
use heeler.Common.{
  ℕ, ◌*◌, Bool, true, false, not, ◌&&◌, ◌||◌, ltb, leb, ◌==◌, Option, none, some, List, [], ◌∷◌,
  codes, bytes_eq, Result, ok, map_err, reject_if, unwrap_or, ◌>>=◌, ◌>>◌,
}
use heeler.Common.Int.{ℤ, pos, negsuc, leb_ℤ}
use heeler.Errors.{ConfigError}
use heeler.Packet.{packet_size}
use heeler.Packet.LeapIndicator
use heeler.Packet.Stratum
use heeler.Packet.Short.{signed_from_millis, unsigned_from_millis}
use heeler.Packet.ReferenceId
use heeler.Response.{ServerIdentity}
use heeler.Validation.{ValidationPolicy}
use heeler.Clock.System.{JumpPolicy}
use heeler.Access.{IpNets, AccessControl, AccessError, from_rules}
use heeler.Config.{Config}

pub data Invalid : Type 0 where
  bind_empty : Invalid
  workers_unsupported : ℕ → Invalid
  max_packet_size_range : ℕ → Invalid
  versions_empty : Invalid
  version_unserved : ℕ → Invalid
  bad_stratum : ConfigError → Invalid
  bad_reference_id : ConfigError → Invalid
  primary_unnamed : Invalid
  bad_leap_indicator : ConfigError → Invalid
  poll_range : ℤ → Invalid
  precision_range : ℤ → Invalid
  bad_root_delay : ConfigError → Invalid
  bad_root_dispersion : ConfigError → Invalid
  clock_source_unsupported : List ℕ → Invalid
  jump_thresholds : Invalid
  bad_access : AccessError → Invalid
  rate_not_positive : Invalid
  entries_not_positive : Invalid
  ttl_not_positive : Invalid
  bad_log_format : List ℕ → Invalid
  user_missing : Invalid

unfoldable pub check_versions : List ℕ → Result Invalid (Unit {0})
check_versions [] = ok tt
check_versions (v ∷ vs) = do
  reject_if (not (leb 3 v && leb v 4)) (version_unserved v)
  check_versions vs

abbrev bad_precision : Option ℤ → Result Invalid (Unit {0})
bad_precision none = ok tt
bad_precision (some p) =
    reject_if (not (leb_ℤ (negsuc 29) p && leb_ℤ p (pos 0))) (precision_range p)

abbrev is_some : Option ℤ → Bool
is_some none = false
is_some (some _) = true

abbrev is_format : List ℕ → Bool
is_format format =
    bytes_eq (codes "pretty") format
    || (bytes_eq (codes "compact") format || bytes_eq (codes "json") format)

abbrev is_empty {ℓ} : {A : Type ℓ} → List A → Bool
is_empty [] = true
is_empty (_ ∷ _) = false

module _ (nets : IpNets) where
  pub record ValidatedConfig : Type 0 where
    pub config : Config
    pub identity : ServerIdentity
    pub precision_configured : Bool
    pub access : AccessControl nets
    pub validation_policy : ValidationPolicy
    pub jump_policy : JumpPolicy

  unfoldable pub validate : Config → Result Invalid ValidatedConfig
  unfolding check_versions Stratum.for_server ReferenceId.from_config LeapIndicator.from_config
  validate c = do
    reject_if (is_empty c.server.bind) bind_empty
    reject_if (not (c.server.workers == 1)) (workers_unsupported c.server.workers)
    reject_if (ltb c.server.max_packet_size packet_size || ltb 1024 c.server.max_packet_size)
        (max_packet_size_range c.server.max_packet_size)
    reject_if (is_empty c.protocol.versions) versions_empty
    check_versions c.protocol.versions
    stratum ← map_err bad_stratum (Stratum.for_server c.protocol.stratum)
    reference_id ← map_err bad_reference_id (ReferenceId.from_config c.protocol.reference_id)
    reject_if (c.protocol.stratum == 1 && bytes_eq c.protocol.reference_id (codes "HLER"))
        primary_unnamed
    leap ← map_err bad_leap_indicator (LeapIndicator.from_config c.protocol.leap_indicator)
    reject_if (not (leb_ℤ (pos 0) c.protocol.poll && leb_ℤ c.protocol.poll (pos 17)))
        (poll_range c.protocol.poll)
    bad_precision c.protocol.precision
    root_delay ← map_err bad_root_delay (signed_from_millis c.protocol.root_delay_ms)
    root_dispersion ←
        map_err bad_root_dispersion (unsigned_from_millis c.protocol.root_dispersion_ms)
    reject_if (not (bytes_eq c.clock.source (codes "system")))
        (clock_source_unsupported c.clock.source)
    reject_if (c.clock.max_backward_jump_ms == 0 || c.clock.max_forward_jump_ms == 0)
        jump_thresholds
    access ←
        map_err bad_access (from_rules nets c.access.allow c.access.deny c.access.default_action)
    reject_if
        (c.rate_limit.enabled && (c.rate_limit.requests_per_second == 0 || c.rate_limit.burst == 0))
        rate_not_positive
    reject_if (c.rate_limit.enabled && c.rate_limit.max_client_entries == 0) entries_not_positive
    reject_if (c.rate_limit.enabled && c.rate_limit.client_entry_ttl_seconds == 0) ttl_not_positive
    reject_if (not (is_format c.logging.format)) (bad_log_format c.logging.format)
    reject_if (c.security.drop_privileges && is_empty c.security.user) user_missing
    let identity : ServerIdentity = record {
      stratum = stratum;
      reference_id = reference_id;
      precision = unwrap_or c.protocol.precision (negsuc 19);
      root_delay = root_delay;
      root_dispersion = root_dispersion;
      default_poll = c.protocol.poll;
      leap = leap;
    }
    let policy : ValidationPolicy = record {
      supported_versions = c.protocol.versions;
      require_nonzero_transmit_timestamp = c.protocol.require_nonzero_transmit_timestamp;
      allow_trailing_data = c.protocol.allow_trailing_data;
    }
    let jumps : JumpPolicy = record {
      max_backward = c.clock.max_backward_jump_ms * 1_000_000;
      max_forward = c.clock.max_forward_jump_ms * 1_000_000;
      mark_unsynchronised_on_jump = c.clock.mark_unsynchronised_on_jump;
    }
    ok (record {
      config = c;
      identity = identity;
      precision_configured = is_some c.protocol.precision;
      access = access;
      validation_policy = policy;
      jump_policy = jumps;
    })
