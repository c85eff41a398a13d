-- ===== src/Client.antt =====
-- crates/heeler-server/src/client.rs: the diagnostic query. What the operating system does is an
-- environment: the resolver, whether the socket could be set up and the request sent, what came back,
-- and the two readings of the wall clock. The report's text is in Report.
pub mod Measure
pub mod Exchange
pub mod Report
pub mod ReadReport
use heeler.Common.{
  ℕ, zero, suc, ◌+◌, ◌*◌, ◌%◌, Bool, true, false, not, ◌&&◌, ◌||◌, ◌==◌, if◌then◌else◌, Option,
  none, some, List, [], ◌∷◌, ◌++◌, take, Result, ok, err, map_err, ok_or, reject_if, codes, ◌>>=◌,
  ◌>>◌,
}
use heeler.Common.Int.{ℤ, pos, negsuc, ◌+ℤ◌, ◌-ℤ◌, div_trunc}
use heeler.Common.Text.{count_byte, contains_text, strip_prefix}
use heeler.Errors.{ParseError}
use heeler.Timestamp.{
  NtpTimestamp, NtpInstant, TimestampError, zero_timestamp, from_system_time, to_timestamp,
  unfold_era, nanos_since,
}
use heeler.Packet.{NtpPacket, ParsedPacket, version_from_bits, parse, encode}
use heeler.Packet.LeapIndicator
use heeler.Packet.Mode
use heeler.Packet.Mode.{Mode, mode_eq}
use heeler.Packet.ReferenceId
use heeler.Access.{SocketAddr}

pub record QueryOptions : Type 0 where
  pub server : List ℕ
  pub version : ℕ
  pub timeout : ℕ

pub record QueryReport : Type 0 where
  pub server : SocketAddr
  pub t1 : NtpInstant
  pub t2 : NtpInstant
  pub t3 : NtpInstant
  pub t4 : NtpInstant
  pub delay_nanos : ℤ
  pub offset_nanos : ℤ
  pub response : NtpPacket
  pub origin_matched : Bool

pub data QueryError : Type 0 where
  unresolved : List ℕ → QueryError
  io : QueryError
  timed_out_after : ℕ → QueryError
  malformed : ParseError → QueryError
  unexpected_mode : Mode → QueryError
  clock : TimestampError → QueryError

-- `socket.recv`: the bytes of one datagram, no datagram in time, or another error.
pub data Received : Type 0 where
  datagram : List ℕ → Received
  timed_out : Received
  failed : Received

-- `parse_addr` and `to_socket_addrs` are std's. `socket_ok` is false if binding, setting the timeout
-- or connecting failed. `answer` is what comes back for the datagram that is sent.
pub record Environment : Type 0 where
  pub is_socket_addr : List ℕ → Bool
  pub to_socket_addrs : List ℕ → Option (List SocketAddr)
  pub socket_ok : Bool
  pub t1_wall : ℤ
  pub send_ok : Bool
  pub answer : List ℕ → Received
  pub t4_wall : ℤ

-- `]:` in what follows an opening bracket, or exactly one colon.
unfoldable pub has_port : List ℕ → Bool
has_port server = elim (strip_prefix (codes "[") server) [
  | some rest ↦ contains_text (codes "]:") rest
  | none ↦ count_byte b':' server == 1
]

abbrev pub candidate : Environment → List ℕ → List ℕ
candidate env server =
    if env.is_socket_addr server || has_port server then server else server ++ codes ":123"

abbrev first_of : List ℕ → Option (List SocketAddr) → Result QueryError SocketAddr
first_of server none = err (unresolved server)
first_of server (some []) = err (unresolved server)
first_of server (some (address ∷ _)) = ok address

unfoldable pub resolve : Environment → List ℕ → Result QueryError SocketAddr
unfolding has_port
resolve env server = first_of server (env.to_socket_addrs (candidate env server))

unfoldable pub build_request : ℕ → NtpTimestamp → NtpPacket
unfolding version_from_bits ReferenceId.from_bytes
build_request version t1_wire = record {
  leap = LeapIndicator.no_warning;
  version = version_from_bits version;
  mode = Mode.client;
  stratum = 0;
  poll = pos 6;
  precision = negsuc 19;
  root_delay = pos 0;
  root_dispersion = 0;
  reference_id = ReferenceId.from_bytes 0 0 0 0;
  reference_timestamp = zero_timestamp;
  origin_timestamp = zero_timestamp;
  receive_timestamp = zero_timestamp;
  transmit_timestamp = t1_wire;
}

abbrev pub stamp_eq : NtpTimestamp → NtpTimestamp → Bool
stamp_eq a b = a.seconds == b.seconds && a.fraction == b.fraction

-- delay = (T4 - T1) - (T3 - T2), offset = ((T2 - T1) + (T3 - T4)) / 2.
unfoldable pub delay : NtpInstant → NtpInstant → NtpInstant → NtpInstant → ℤ
delay t1 t2 t3 t4 = nanos_since t4 t1 -ℤ nanos_since t3 t2

unfoldable pub offset : NtpInstant → NtpInstant → NtpInstant → NtpInstant → ℤ
offset t1 t2 t3 t4 = div_trunc (nanos_since t2 t1 +ℤ nanos_since t3 t4) 2

unfoldable pub reported :
    SocketAddr → NtpInstant → NtpTimestamp → NtpInstant → NtpPacket → QueryReport
unfolding delay offset
reported server t1 t1_wire t4 response =
    let t2 = unfold_era response.receive_timestamp t1 in
    let t3 = unfold_era response.transmit_timestamp t1 in
    record {
      server = server;
      t1 = t1;
      t2 = t2;
      t3 = t3;
      t4 = t4;
      delay_nanos = delay t1 t2 t3 t4;
      offset_nanos = offset t1 t2 t3 t4;
      response = response;
      origin_matched = stamp_eq response.origin_timestamp t1_wire;
    }

-- What follows the receipt of a datagram.
unfoldable pub report :
    SocketAddr → NtpInstant → NtpTimestamp → NtpInstant → List ℕ → Result QueryError QueryReport
unfolding reported
report server t1 t1_wire t4 bytes = do
  parsed ← map_err malformed (parse bytes)
  let response = parsed.packet
  reject_if (not (mode_eq response.mode Mode.server)) (unexpected_mode response.mode)
  ok (reported server t1 t1_wire t4 response)

-- The buffer holds 512 bytes; what is longer is cut off.
abbrev pub received_bytes : QueryOptions → Received → Result QueryError (List ℕ)
received_bytes options (datagram bytes) = ok (take 512 bytes)
received_bytes options timed_out = err (timed_out_after options.timeout)
received_bytes options failed = err io

unfoldable pub query : Environment → QueryOptions → Result QueryError QueryReport
unfolding resolve report build_request encode
query env options = do
  server ← resolve env options.server
  reject_if (not env.socket_ok) io
  let t1 = from_system_time env.t1_wall
  t1_wire ← map_err clock (to_timestamp t1)
  reject_if (not env.send_ok) io
  bytes ← received_bytes options (env.answer (encode (build_request options.version t1_wire)))
  report server t1 t1_wire (from_system_time env.t4_wall) bytes
