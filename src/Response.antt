-- ===== src/Response.antt =====
-- crates/heeler-core/src/response.rs: responses to clients and Kiss-o'-Death packets.
pub mod Laws
use heeler.Common.{ℕ, ◌≤◌, ◌≡◌, Bool, ◌&&◌, if◌then◌else◌}
use heeler.Common.Int.{ℤ, pos, ltb_ℤ, leb_ℤ}
use heeler.Packet.{NtpPacket}
use heeler.Packet.LeapIndicator
use heeler.Packet.LeapIndicator.{LeapIndicator}
use heeler.Packet.Mode
use heeler.Packet.Stratum
use heeler.Packet.ReferenceId
use heeler.Packet.ReferenceId.{ReferenceId, KissCode}
use heeler.Timestamp.{NtpTimestamp, zero_timestamp}

-- `ClockStatus`, of crates/heeler-core/src/clock.rs.
pub data ClockStatus : Type 0 where
  synchronised unsynchronised : ClockStatus

abbrev pub min_poll : ℤ
min_poll = pos 4

abbrev pub max_poll : ℤ
max_poll = pos 17

pub record ServerIdentity : Type 0 where
  pub stratum : ℕ
  pub reference_id : ReferenceId
  pub precision : ℤ
  pub root_delay : ℤ
  pub root_dispersion : ℕ
  pub default_poll : ℤ
  pub leap : LeapIndicator

-- `Ord::clamp`.
abbrev clamp : ℤ → ℤ → ℤ → ℤ
clamp z lo hi = if ltb_ℤ z lo then lo else if ltb_ℤ hi z then hi else z

unfoldable pub echo_poll : ℤ → ℤ → ℤ
echo_poll client_poll default_poll =
    if leb_ℤ min_poll client_poll && leb_ℤ client_poll max_poll
    then client_poll
    else clamp default_poll min_poll max_poll

abbrev pub served_leap : ServerIdentity → ClockStatus → LeapIndicator
served_leap identity synchronised = identity.leap
served_leap identity unsynchronised = LeapIndicator.unsynchronised

abbrev pub served_stratum : ServerIdentity → ClockStatus → ℕ
served_stratum identity synchronised = identity.stratum
served_stratum identity unsynchronised = Stratum.unsynchronised

unfoldable pub build_response :
    NtpPacket → ServerIdentity → ClockStatus → NtpTimestamp → NtpTimestamp → NtpPacket
unfolding echo_poll
build_response request identity clock_status reference_timestamp receive_timestamp = record {
  leap = served_leap identity clock_status;
  version = request.version;
  mode = Mode.server;
  stratum = served_stratum identity clock_status;
  poll = echo_poll request.poll identity.default_poll;
  precision = identity.precision;
  root_delay = identity.root_delay;
  root_dispersion = identity.root_dispersion;
  reference_id = identity.reference_id;
  reference_timestamp = reference_timestamp;
  origin_timestamp = request.transmit_timestamp;
  receive_timestamp = receive_timestamp;
  transmit_timestamp = zero_timestamp;
}

unfoldable pub build_kiss_of_death : NtpPacket → KissCode → NtpTimestamp → NtpPacket
unfolding echo_poll
build_kiss_of_death request code receive_timestamp = record {
  leap = LeapIndicator.unsynchronised;
  version = request.version;
  mode = Mode.server;
  stratum = Stratum.kiss_of_death;
  poll = echo_poll request.poll min_poll;
  precision = pos 0;
  root_delay = pos 0;
  root_dispersion = 0;
  reference_id = ReferenceId.reference_id code;
  reference_timestamp = zero_timestamp;
  origin_timestamp = request.transmit_timestamp;
  receive_timestamp = receive_timestamp;
  transmit_timestamp = zero_timestamp;
}

unfoldable pub finalize_transmit_timestamp : NtpPacket → NtpTimestamp → NtpPacket
finalize_transmit_timestamp response transmit_timestamp = record response {
  transmit_timestamp = transmit_timestamp;
}
