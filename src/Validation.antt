-- ===== src/Validation.antt =====
-- crates/heeler-core/src/validation.rs: which parsed packets are answerable client requests.
use heeler.Common.{
  ℕ, ◌≡◌, Bool, true, false, not, ◌&&◌, ltb, ◌↔◌, ◌⊎◌, List, [], ◌∷◌, Result, ok, err, reject_if,
  ◌>>◌, contains, arith,
}
use heeler.Packet.{ParsedPacket}
use heeler.Packet.Mode.{Mode, mode_eq, mode_eq_iff}
use heeler.Timestamp.{is_zero}

pub data RequestRejection : Type 0 where
  trailing_data : ℕ → RequestRejection
  unsupported_version : ℕ → RequestRejection
  unsupported_mode : Mode → RequestRejection
  zero_transmit_timestamp : RequestRejection

pub record ValidationPolicy : Type 0 where
  pub supported_versions : List ℕ
  pub require_nonzero_transmit_timestamp : Bool
  pub allow_trailing_data : Bool

-- `ValidationPolicy::default()`.
abbrev pub default_policy : ValidationPolicy
default_policy = record {
  supported_versions = 3 ∷ 4 ∷ [];
  require_nonzero_transmit_timestamp = false;
  allow_trailing_data = false;
}

unfoldable pub validate : ValidationPolicy → ParsedPacket → Result RequestRejection (Unit {0})
validate policy parsed = do
  let packet = parsed.packet
  reject_if (ltb 0 parsed.trailing_bytes && not policy.allow_trailing_data)
      (trailing_data parsed.trailing_bytes)
  reject_if (not (mode_eq packet.mode Mode.client)) (unsupported_mode packet.mode)
  reject_if (not (contains policy.supported_versions packet.version))
      (unsupported_version packet.version)
  reject_if (policy.require_nonzero_transmit_timestamp && is_zero packet.transmit_timestamp)
      zero_transmit_timestamp
  ok tt

-- What an accepted request satisfies, as a predicate of the packet and the policy.
pub record IsAnswerable (policy : ValidationPolicy) (parsed : ParsedPacket) : Type 0 where
  pub trailing_allowed : (parsed.trailing_bytes ≡ 0) ⊎ (policy.allow_trailing_data ≡ true)
  pub client_mode : parsed.packet.mode ≡ Mode.client
  pub version_served : contains policy.supported_versions parsed.packet.version ≡ true
  pub transmit_ok :
      (policy.require_nonzero_transmit_timestamp ≡ false)
      ⊎ (is_zero parsed.packet.transmit_timestamp ≡ false)

-- A packet is accepted exactly if it carries no trailing bytes that the policy forbids, is a client
-- request of a served version, and has a transmit timestamp where the policy wants one.
pub validate_iff :
    (policy : ValidationPolicy) (parsed : ParsedPacket)
    → (validate policy parsed ≡ ok tt) ↔ IsAnswerable policy parsed
unfolding validate
validate_iff policy parsed = (
  λ e. ground (arith, mode_eq_iff parsed.packet.mode Mode.client),
  λ a. ground (arith, mode_eq_iff parsed.packet.mode Mode.client),
)

-- The checks run in the order trailing bytes, mode, version, timestamp: a packet without trailing
-- bytes that is no client request is refused for its mode, whatever its version and timestamp.
pub validate_mode_first :
    (policy : ValidationPolicy) (parsed : ParsedPacket)
    → parsed.trailing_bytes ≡ 0
    → (parsed.packet.mode ≡ Mode.client → ⊥)
    → validate policy parsed ≡ err (unsupported_mode parsed.packet.mode)
unfolding validate
validate_mode_first policy parsed t m = ground (arith, mode_eq_iff parsed.packet.mode Mode.client)
