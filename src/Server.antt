-- ===== src/Server.antt =====
-- crates/heeler-server/src/server.rs: one datagram from receipt to reply, and the housekeeping tick.
-- The state is explicit; the environment gives the monotonic instant of the rate limiter, the time
-- that building took, and whether `send_to` succeeded. A handler returns the datagram that it hands
-- to `send_to`, if any. Logging is left out.
pub mod Accounting
pub mod Replies
pub mod Loop
pub mod Runs
pub mod Sound
pub mod Answers
pub mod Start
pub mod Tasks
pub mod Awaits
pub mod Setup
pub mod Shutdown
use heeler.Common.{
  ℕ, ◌+◌, ◌*◌, ◌%◌, Bool, true, false, ◌&&◌, ltb, ◌==◌, if◌then◌else◌, Option, none, some, List, [],
  ◌∷◌, ◌++◌, length, Result, ok, err, unwrap_or,
}
use heeler.Common.Int.{ℤ}
use heeler.Timestamp.{NtpTimestamp, zero_timestamp}
use heeler.Packet.{NtpPacket, ParsedPacket, parse, encode}
use heeler.Packet.ReferenceId
use heeler.Packet.ReferenceId.{KissCode}
use heeler.Validation.{
  ValidationPolicy, validate, RequestRejection, trailing_data, unsupported_version,
  unsupported_mode, zero_transmit_timestamp,
}
use heeler.Response.{
  ServerIdentity, ClockStatus, synchronised, unsynchronised, build_response, build_kiss_of_death,
  finalize_transmit_timestamp,
}
use heeler.Clock.{ClockSource, ClockReading, ClockError}
use heeler.Clock.System.{ClockJump}
use heeler.Access.{
  IpAddr, SocketAddr, IpNets, AccessControl, AccessDecision, allowed, denied, evaluate,
}
use heeler.RateLimit
use heeler.RateLimit.{LimiterState}
use heeler.RateLimit.Client
use heeler.RateLimit.Client.{RateLimitSettings, RateDecision}
use heeler.Metrics
use heeler.Metrics.{Metrics, bump, observe_build_duration}

pub record Arrival : Type 0 where
  pub data_bytes : List ℕ
  pub source : SocketAddr
  pub limiter_now : ℕ
  pub build_nanos : ℕ
  pub send_ok : Bool

-- The counters of the handler.
abbrev pub count_request : Metrics → Metrics
count_request m = record m { requests_total = bump m.requests_total }

abbrev pub count_dropped : Metrics → Metrics
count_dropped m = record m { packets_dropped_total = bump m.packets_dropped_total }

abbrev pub count_malformed : Metrics → Metrics
count_malformed m = record m { malformed_packets_total = bump m.malformed_packets_total }

abbrev pub count_denied : Metrics → Metrics
count_denied m = record m { access_denied_total = bump m.access_denied_total }

abbrev pub count_limited : Metrics → Metrics
count_limited m = record m { rate_limited_total = bump m.rate_limited_total }

abbrev pub count_clock_error : Metrics → Metrics
count_clock_error m = record m { clock_errors_total = bump m.clock_errors_total }

abbrev pub count_response : Metrics → Metrics
count_response m = record m { responses_total = bump m.responses_total }

abbrev pub count_socket_error : Metrics → Metrics
count_socket_error m = record m { socket_errors_total = bump m.socket_errors_total }

abbrev pub count_kod : Metrics → Metrics
count_kod m = record m { kod_sent_total = bump m.kod_sent_total }

abbrev pub count_rejection : RequestRejection → Metrics → Metrics
count_rejection (unsupported_version _) m = record m {
  unsupported_version_total = bump m.unsupported_version_total;
}
count_rejection (unsupported_mode _) m = record m {
  unsupported_mode_total = bump m.unsupported_mode_total;
}
count_rejection (trailing_data _) m = count_malformed m
count_rejection zero_transmit_timestamp m = count_malformed m

-- The limiter's settings stand in the server's state, beside the limiter's own.
pub record ServerState (S : Type 0) (nets : IpNets) : Type 0 where
  pub identity : ServerIdentity
  pub clock : S
  pub access : AccessControl nets
  pub settings : RateLimitSettings
  pub limiter : LimiterState
  pub metrics : Metrics
  pub policy : ValidationPolicy
  pub max_packet_size : ℕ
  pub send_kod_on_rate_limit : Bool
  pub send_kod_on_policy_deny : Bool

module _ {S : Type 0} (clock_source : ClockSource S) (nets : IpNets) where
  abbrev pub State : Type 0
  State = ServerState S nets

  -- The state after a datagram, and the datagram handed to `send_to`.
  abbrev pub Step : Type 0
  Step = State × Option (List ℕ × SocketAddr)

  abbrev pub counted : (Metrics → Metrics) → State → State
  counted f st = record st { metrics = f st.metrics }

  abbrev pub dropped : State → Step
  dropped st = (counted count_dropped st, none)

  abbrev after_send : (Metrics → Metrics) → Bool → Metrics → Metrics
  after_send on_success true m = count_response (on_success m)
  after_send on_success false m = count_socket_error m

  -- `send_to`, with what success counts besides the response.
  abbrev sent : (Metrics → Metrics) → State → Arrival → NtpPacket → Step
  sent on_success st a packet =
      (counted (after_send on_success a.send_ok) st, some (encode packet, a.source))

  abbrev kod_transmit : Result ClockError ClockReading → NtpTimestamp
  kod_transmit (ok reading) = reading.timestamp
  kod_transmit (err _) = zero_timestamp

  unfoldable pub send_kod : State → Arrival → KissCode → NtpTimestamp → Step
  unfolding validate build_kiss_of_death finalize_transmit_timestamp
  send_kod st a code receive_timestamp = elim (parse a.data_bytes) [
    | err _ ↦ dropped st
    | ok parsed ↦ elim (validate st.policy parsed) [
      | err _ ↦ dropped st
      | ok _ ↦
          let kod = build_kiss_of_death parsed.packet code receive_timestamp in
          let (reading, clock) = clock_source.now st.clock in
          sent count_kod (record st { clock = clock }) a
            (finalize_transmit_timestamp kod (kod_transmit reading))
    ]
  ]

  -- Steps 6 to 9 of the handler: the response, its transmit timestamp, and the sending.
  unfoldable pub respond : State → Arrival → NtpTimestamp → NtpPacket → Step
  unfolding build_response finalize_transmit_timestamp observe_build_duration
  respond st a receive_timestamp request =
      let status = clock_source.status st.clock in
      let reference = unwrap_or (clock_source.reference_timestamp st.clock) zero_timestamp in
      let response = build_response request st.identity status reference receive_timestamp in
      let observed = counted (λ m. observe_build_duration m a.build_nanos) st in
      let (reading, clock) = clock_source.now st.clock in
      let ticked = record observed { clock = clock } in
      elim reading [
        | ok r ↦ sent (λ m. m) ticked a (finalize_transmit_timestamp response r.timestamp)
        | err _ ↦ dropped (counted count_clock_error ticked)
      ]

  -- Steps 4 and 5: parsing and validation.
  unfoldable pub answer : State → Arrival → NtpTimestamp → Step
  unfolding validate respond
  answer st a receive_timestamp = elim (parse a.data_bytes) [
    | err _ ↦ dropped (counted count_malformed st)
    | ok parsed ↦ elim (validate st.policy parsed) [
      | err rejection ↦ dropped (counted (count_rejection rejection) st)
      | ok _ ↦ respond st a receive_timestamp parsed.packet
    ]
  ]

  -- Step 3: what the limiter decides.
  abbrev pub by_decision : RateDecision → State → Arrival → NtpTimestamp → Step
  by_decision Client.allowed st a t = answer st a t
  by_decision (Client.limited_per_client kod) st a t =
      if kod && st.send_kod_on_rate_limit
      then send_kod (counted count_limited st) a ReferenceId.rate t
      else dropped (counted count_limited st)
  by_decision Client.limited_global st a t = dropped (counted count_limited st)
  by_decision Client.table_full st a t = dropped (counted count_limited st)

  unfoldable pub limit : State → Arrival → NtpTimestamp → Step
  unfolding RateLimit.check answer send_kod
  limit st a receive_timestamp =
      let (decision, limiter) = RateLimit.check st.settings st.limiter a.source.ip a.limiter_now in
      by_decision decision (record st { limiter = limiter }) a receive_timestamp

  abbrev deny : State → Arrival → NtpTimestamp → Step
  deny st a receive_timestamp =
      if st.send_kod_on_policy_deny
      then send_kod (counted count_denied st) a ReferenceId.deny receive_timestamp
      else dropped (counted count_denied st)

  abbrev pub by_access : AccessDecision → State → Arrival → NtpTimestamp → Step
  by_access denied st a t = deny st a t
  by_access allowed st a t = limit st a t

  unfoldable pub handle_datagram : State → Arrival → NtpTimestamp → Step
  unfolding limit send_kod evaluate
  handle_datagram st a receive_timestamp =
      let received = counted count_request st in
      if ltb st.max_packet_size (length a.data_bytes)
      then dropped (counted count_malformed received)
      else by_access (evaluate nets st.access a.source.ip) received a receive_timestamp
