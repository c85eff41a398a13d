-- ===== src/Server/Replies.antt =====
-- server.rs: what the server sends, to whom, and in answer to what.
use heeler.Common.{
  ℕ, ◌≤◌, ◌≡◌, refl, ◌⊎◌, inl, inr, ltb, ap, sym, ◌∙◌, Option, none, some, List, length, ok,
  Result-cases, if-both, ◌&&◌, arith,
}
use heeler.Timestamp.{NtpTimestamp}
use heeler.Packet.{NtpPacket, ParsedPacket, parse, encode, packet_size}
use heeler.Packet.LeapIndicator
use heeler.Packet.Mode
use heeler.Packet.Stratum
use heeler.Packet.Shape.{length-encode}
use heeler.Packet.ReferenceId
use heeler.Packet.ReferenceId.{KissCode}
use heeler.Validation.{ValidationPolicy, validate}
use heeler.Response.{
  ClockStatus, synchronised, unsynchronised, served_stratum, served_leap, ServerIdentity,
  build_response, build_kiss_of_death, finalize_transmit_timestamp,
}
use heeler.Clock.{ClockSource}
use heeler.Access.{SocketAddr, IpNets, AccessDecision, allowed, denied, evaluate}
use heeler.RateLimit
use heeler.RateLimit.Client
use heeler.RateLimit.Client.{RateDecision}
use heeler.Server.{
  Arrival, State, Step, counted, count_request, count_limited, count_denied, send_kod, respond,
  answer, by_decision, limit, by_access, handle_datagram,
}

-- A reply: one encoded server packet, to the sender of a datagram that parsed and passed validation.
-- It mirrors the version, echoes the request's transmit timestamp and carries the receive
-- timestamp; while the clock was unsynchronised, it says so or is a Kiss-o'-Death.
pub record IsReply (policy : ValidationPolicy) (status : ClockStatus) (a : Arrival)
    (t : NtpTimestamp) (out : List ℕ × SocketAddr) : Type 0 where
  pub request : ParsedPacket
  pub packet : NtpPacket
  pub parsed : parse a.data_bytes ≡ ok request
  pub valid : validate policy request ≡ ok tt
  pub bytes : out.0 ≡ encode packet
  pub to_source : out.1 ≡ a.source
  pub mode : packet.mode ≡ Mode.server
  pub version : packet.version ≡ request.packet.version
  pub origin : packet.origin_timestamp ≡ request.packet.transmit_timestamp
  pub received : packet.receive_timestamp ≡ t
  pub honest :
      (status ≡ synchronised)
      ⊎ ((packet.leap ≡ LeapIndicator.unsynchronised)
          × ((packet.stratum ≡ Stratum.unsynchronised) ⊎ (packet.stratum ≡ Stratum.kiss_of_death)))

-- What holds of the datagram handed to `send_to`, if there is one.
abbrev pub Replies :
    ValidationPolicy → ClockStatus → Arrival → NtpTimestamp → Option (List ℕ × SocketAddr) → Type 0
Replies policy status a t none = Unit
Replies policy status a t (some out) = IsReply policy status a t out

parse-length : (bytes : List ℕ) (p : ParsedPacket) → parse bytes ≡ ok p → packet_size ≤ length bytes
unfolding parse
parse-length bytes p e = ground arith

served_honest :
    (identity : ServerIdentity) (status : ClockStatus)
    → (status ≡ synchronised)
      ⊎ ((served_leap identity status ≡ LeapIndicator.unsynchronised)
          × ((served_stratum identity status ≡ Stratum.unsynchronised)
              ⊎ (served_stratum identity status ≡ Stratum.kiss_of_death)))
served_honest identity synchronised = inl refl
served_honest identity unsynchronised = inr (refl, inl refl)

module _ {S : Type 0} (clock_source : ClockSource S) (nets : IpNets) where
  -- The same of a step from a state.
  abbrev StepReplies :
      State clock_source nets → Arrival → NtpTimestamp → Step clock_source nets → Type 0
  StepReplies st a t step = Replies st.policy (clock_source.status st.clock) a t step.1

  send_kod-Replies :
      (st : State clock_source nets) (a : Arrival) (code : KissCode) (t : NtpTimestamp)
      → StepReplies st a t (send_kod clock_source nets st a code t)
  unfolding send_kod build_kiss_of_death finalize_transmit_timestamp
  send_kod-Replies st a code t = elim (Result-cases (parse a.data_bytes)) [
    | inr (e, p) ↦ rw (p, send_kod) tt
    | inl (request, p) ↦ elim (Result-cases (validate st.policy request)) [
      | inr (e, v) ↦ rw (p, v, send_kod) tt
      | inl (_, v) ↦
          rw (p, v, send_kod)
            (record {
              request = request;
              packet = _;
              parsed = p;
              valid = v;
              bytes = refl;
              to_source = refl;
              mode = refl;
              version = refl;
              origin = refl;
              received = refl;
              honest = inr (refl, inr refl);
            })
    ]
  ]

  respond-Replies :
      (st : State clock_source nets) (a : Arrival) (t : NtpTimestamp) (request : ParsedPacket)
      → parse a.data_bytes ≡ ok request
      → validate st.policy request ≡ ok tt
      → StepReplies st a t (respond clock_source nets st a t request.packet)
  unfolding respond build_response finalize_transmit_timestamp
  respond-Replies st a t request p v = elim (Result-cases (clock_source.now st.clock).0) [
    | inr (e, c) ↦ rw (c, respond) tt
    | inl (r, c) ↦
        rw (c, respond)
          (record {
            request = request;
            packet = _;
            parsed = p;
            valid = v;
            bytes = refl;
            to_source = refl;
            mode = refl;
            version = refl;
            origin = refl;
            received = refl;
            honest = served_honest st.identity (clock_source.status st.clock);
          })
  ]

  answer-Replies :
      (st : State clock_source nets) (a : Arrival) (t : NtpTimestamp)
      → StepReplies st a t (answer clock_source nets st a t)
  unfolding answer
  answer-Replies st a t = elim (Result-cases (parse a.data_bytes)) [
    | inr (e, p) ↦ rw (p, answer) tt
    | inl (request, p) ↦ elim (Result-cases (validate st.policy request)) [
      | inr (e, v) ↦ rw (p, v, answer) tt
      | inl (_, v) ↦ rw (p, v, answer) (respond-Replies st a t request p v)
    ]
  ]

  by_decision-Replies :
      (d : RateDecision) (st : State clock_source nets) (a : Arrival) (t : NtpTimestamp)
      → StepReplies st a t (by_decision clock_source nets d st a t)
  by_decision-Replies Client.allowed st a t = answer-Replies st a t
  by_decision-Replies (Client.limited_per_client kod) st a t =
      if-both (StepReplies st a t) (kod && st.send_kod_on_rate_limit)
        (send_kod-Replies (counted clock_source nets count_limited st) a ReferenceId.rate t) tt
  by_decision-Replies Client.limited_global st a t = tt
  by_decision-Replies Client.table_full st a t = tt

  limit-Replies :
      (st : State clock_source nets) (a : Arrival) (t : NtpTimestamp)
      → StepReplies st a t (limit clock_source nets st a t)
  unfolding limit
  limit-Replies st a t =
      let (d, l) = RateLimit.check st.settings st.limiter a.source.ip a.limiter_now in
      by_decision-Replies d (record st { limiter = l }) a t

  by_access-Replies :
      (d : AccessDecision) (st : State clock_source nets) (a : Arrival) (t : NtpTimestamp)
      → StepReplies st a t (by_access clock_source nets d st a t)
  by_access-Replies allowed st a t = limit-Replies st a t
  by_access-Replies denied st a t =
      if-both (StepReplies st a t) st.send_kod_on_policy_deny
        (send_kod-Replies (counted clock_source nets count_denied st) a ReferenceId.deny t) tt

  -- If the handler hands a datagram to `send_to`, then the one it received parses and passes the
  -- validation policy, and what is sent is one encoded server packet, to its sender, that mirrors the
  -- version, echoes the transmit timestamp as origin and carries the receive timestamp. Unless the
  -- clock was synchronised, that packet has leap indicator 3, and stratum 16 or 0.
  pub handle_datagram-Replies :
      (st : State clock_source nets) (a : Arrival) (t : NtpTimestamp)
      → Replies st.policy
          (clock_source.status st.clock)
          a
          t
          (handle_datagram clock_source nets st a t).1
  unfolding handle_datagram
  handle_datagram-Replies st a t =
      if-both (StepReplies st a t) (ltb st.max_packet_size (length a.data_bytes)) tt (
        by_access-Replies (evaluate nets st.access a.source.ip)
          (counted clock_source nets count_request st) a t)

  -- A reply is one datagram of 48 bytes to the sender, no longer than the datagram it answers: the
  -- server amplifies no traffic.
  pub handle_datagram-no_amplification :
      (st : State clock_source nets) (a : Arrival) (t : NtpTimestamp) (out : List ℕ × SocketAddr)
      → (handle_datagram clock_source nets st a t).1 ≡ some out
      → (out.1 ≡ a.source) × (length out.0 ≡ packet_size) × (length out.0 ≤ length a.data_bytes)
  handle_datagram-no_amplification st a t out e =
      let reply = rw e at (handle_datagram-Replies st a t) in
      let size = ap length reply.bytes ∙ length-encode reply.packet in
      (
        reply.to_source,
        size,
        rw (sym size) at (parse-length a.data_bytes reply.request reply.parsed),
      )
