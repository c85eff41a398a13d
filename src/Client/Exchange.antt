-- ===== src/Client/Exchange.antt =====
-- client.rs against server.rs: a query that the server answers.
use mathlib.Core.Option.{some-injective}
use heeler.Common.{
  ℕ, zero, suc, ◌≤◌, ◌<◌, ◌≡◌, refl, sym, ap, inl, inr, Option-cases, ◌∙◌, true, some, List, [],
  ◌∷◌, take, length, ok, unwrap_or, arith, IsByte,
}
use heeler.Common.Words.{mask_seven}
use heeler.Timestamp.{
  NtpTimestamp, NtpInstant, IsTimestamp, zero_timestamp, to_timestamp, from_system_time, unfold_era,
}
use heeler.Timestamp.Instants.{to_timestamp-IsTimestamp}
use heeler.Packet.{NtpPacket, IsPacket, parse, encode, packet_size, version_from_bits}
use heeler.Packet.Mode
use heeler.Packet.Mode.{mode_eq}
use heeler.Packet.Shape.{length-encode}
use heeler.Packet.ReferenceId
use heeler.Validation.{validate}
use heeler.Response.{build_response, finalize_transmit_timestamp}
use heeler.Response.Laws.{IsIdentity, parse-response, decoded}
use heeler.Clock.{ClockSource, ClockReading}
use heeler.Access.{IpNets, SocketAddr, allowed, evaluate}
use heeler.RateLimit
use heeler.RateLimit.Client as Limits
use heeler.Server.{Arrival, State, handle_datagram}
use heeler.Server.Answers.{handle_datagram-answers}
use heeler.Client.{
  Environment, QueryOptions, QueryReport, datagram, resolve, build_request, report, reported, query,
  stamp_eq, delay, offset,
}

take-all : (n : ℕ) (xs : List ℕ) → length xs ≤ n → take n xs ≡ xs
take-all zero [] h = refl
take-all zero (x ∷ xs) h = absurd (omega arith)
take-all (suc n) [] h = refl
take-all (suc n) (x ∷ xs) h = ap (λ l. x ∷ l) (take-all n xs (omega arith))

version_from_bits-lt : (v : ℕ) → IsByte v → version_from_bits v < 8
unfolding version_from_bits
version_from_bits-lt v h = omega (arith, mask_seven v h)

-- Whatever byte is given as the version, the request is a packet.
pub build_request-IsPacket :
    (version : ℕ) (t : NtpTimestamp)
    → IsByte version
    → IsTimestamp t
    → IsPacket (build_request version t)
unfolding build_request version_from_bits ReferenceId.from_bytes
build_request-IsPacket version t v h = record {
  version_fits = version_from_bits-lt version v;
  stratum_fits = omega arith;
  poll_fits = (omega arith, omega arith);
  precision_fits = (omega arith, omega arith);
  root_delay_fits = (omega arith, omega arith);
  root_dispersion_fits = omega arith;
  reference_id_fits = record {
    first = omega arith;
    second = omega arith;
    third = omega arith;
    fourth = omega arith;
  };
  reference_timestamp_fits = record { seconds_fit = omega arith; fraction_fit = omega arith };
  origin_timestamp_fits = record { seconds_fit = omega arith; fraction_fit = omega arith };
  receive_timestamp_fits = record { seconds_fit = omega arith; fraction_fit = omega arith };
  transmit_timestamp_fits = h;
}

stamp_eq_refl : (t : NtpTimestamp) → stamp_eq t t ≡ true
stamp_eq_refl t = ground arith

-- The report of a server packet that is decoded from what was received.
report-decoded :
    (server : SocketAddr) (t1 t4 : NtpInstant) (w1 : NtpTimestamp) (bytes : List ℕ) (q : NtpPacket)
    → parse bytes ≡ ok (record { packet = q; trailing_bytes = 0 })
    → q.mode ≡ Mode.server
    → report server t1 w1 t4 bytes ≡ ok (reported server t1 w1 t4 q)
unfolding report mode_eq
report-decoded server t1 t4 w1 bytes q p m = rw (p, m, report) refl

-- A query with nothing failing reports what is received.
query-report :
    (env : Environment) (options : QueryOptions) (server : SocketAddr) (w1 : NtpTimestamp)
    (bytes : List ℕ)
    → resolve env options.server ≡ ok server
    → env.socket_ok ≡ true
    → env.send_ok ≡ true
    → to_timestamp (from_system_time env.t1_wall) ≡ ok w1
    → env.answer (encode (build_request options.version w1)) ≡ datagram bytes
    → query env options
      ≡ report server
          (from_system_time env.t1_wall)
          w1
          (from_system_time env.t4_wall)
          (take 512 bytes)
unfolding query
query-report env options server w1 bytes name socket send stamped answered =
    ground (arith, name, stamped, answered)

module _ {S : Type 0} (clock_source : ClockSource S) (nets : IpNets) where
  -- A server in a state that answers: the conditions of `handle_datagram-answers` for one datagram
  -- from the client, and fields that fit a packet.
  pub record Serves (st : State clock_source nets) (a : Arrival) (t : NtpTimestamp)
      (request : NtpPacket) (r : ClockReading) : Type 0 where
    pub identity_fits : IsIdentity st.identity
    pub clock_sound : clock_source.IsSound st.clock
    pub receive_fits : IsTimestamp t
    pub admits : packet_size ≤ st.max_packet_size
    pub sends : a.data_bytes ≡ encode request
    pub access : evaluate nets st.access a.source.ip ≡ allowed
    pub rate : (RateLimit.check st.settings st.limiter a.source.ip a.limiter_now).0 ≡ Limits.allowed
    pub valid : validate st.policy (record { packet = request; trailing_bytes = 0 }) ≡ ok tt
    pub reads : (clock_source.now st.clock).0 ≡ ok r

  reference_of : (st : State clock_source nets) → NtpTimestamp
  reference_of st = unwrap_or (clock_source.reference_timestamp st.clock) zero_timestamp

  reference_of-IsTimestamp :
      (st : State clock_source nets) → clock_source.IsSound st.clock → IsTimestamp (reference_of st)
  unfolding reference_of
  reference_of-IsTimestamp st k = elim (Option-cases (clock_source.reference_timestamp st.clock)) [
    | inl e ↦ rw e (record { seconds_fit = omega arith; fraction_fit = omega arith })
    | inr (u, e) ↦ rw e (clock_source.reference_fits st.clock u k e)
  ]

  -- What such a server sends, the client reads: a server packet with its two timestamps that echoes
  -- the request's.
  reply-read :
      (st : State clock_source nets) (a : Arrival) (t : NtpTimestamp) (request : NtpPacket)
      (r : ClockReading)
      → IsPacket request
      → Serves st a t request r
      → (out : List ℕ × SocketAddr) × (q : NtpPacket) × ((handle_datagram clock_source nets st a
            t).1
          ≡ some out)
        × (take 512 out.0 ≡ out.0)
        × (parse out.0 ≡ ok (record { packet = q; trailing_bytes = 0 }))
        × (q.mode ≡ Mode.server)
        × (q.origin_timestamp ≡ request.transmit_timestamp)
        × (q.receive_timestamp ≡ t)
        × (q.transmit_timestamp ≡ r.timestamp)
  unfolding reference_of
  reply-read st a t request r fits s =
      let status = clock_source.status st.clock in
      let (q, parsed, mode, _, origin, received, transmitted, _, _) =
        parse-response request fits st.identity status (reference_of st) t r.timestamp
          s.identity_fits (reference_of-IsTimestamp st s.clock_sound) s.receive_fits
          (clock_source.now_fits st.clock r s.reads) in
      let sent =
        handle_datagram-answers clock_source nets st a t
          (record { packet = request; trailing_bytes = 0 }) r
          (rw s.sends (omega (arith, length-encode request, s.admits))) s.access s.rate
          (rw s.sends (decoded request fits)) s.valid s.reads in
      (
        _,
        q,
        sent,
        take-all 512 _ (
            omega (
              arith,
              length-encode (
                  finalize_transmit_timestamp
                    (build_response request st.identity status (reference_of st) t) r.timestamp),
            )),
        parsed,
        mode,
        origin,
        received,
        transmitted,
      )

  -- A server whose clock can be read and which allows, does not limit and finds valid a client's
  -- request is queried with success, if the name resolves, the socket works and what the client receives
  -- is what that server sends: the report's origin timestamp matches, T2 and T3 are the server's two
  -- timestamps in the era of T1, and the delay and the offset are those of the four.
  pub query-answered :
      (env : Environment) (options : QueryOptions) (server : SocketAddr) (w1 : NtpTimestamp)
      (st : State clock_source nets) (a : Arrival) (t : NtpTimestamp) (r : ClockReading)
      (out : List ℕ × SocketAddr)
      → IsByte options.version
      → resolve env options.server ≡ ok server
      → env.socket_ok ≡ true
      → env.send_ok ≡ true
      → to_timestamp (from_system_time env.t1_wall) ≡ ok w1
      → Serves st a t (build_request options.version w1) r
      → (handle_datagram clock_source nets st a t).1 ≡ some out
      → env.answer (encode (build_request options.version w1)) ≡ datagram out.0
      → let t1 = from_system_time env.t1_wall in
        let t4 = from_system_time env.t4_wall in
        (rep : QueryReport) × (query env options ≡ ok rep)
        × (rep.origin_matched ≡ true)
        × (rep.t2 ≡ unfold_era t t1)
        × (rep.t3 ≡ unfold_era r.timestamp t1)
        × (rep.delay_nanos ≡ delay t1 rep.t2 rep.t3 t4)
        × (rep.offset_nanos ≡ offset t1 rep.t2 rep.t3 t4)
  unfolding reported build_request
  query-answered env options server w1 st a t r out v name socket send stamped s sent answered =
      let t1 = from_system_time env.t1_wall in
      let t4 = from_system_time env.t4_wall in
      let fits =
        build_request-IsPacket options.version w1 v (to_timestamp-IsTimestamp t1 w1 stamped) in
      let (o, q, sent', short, parsed, mode, origin, received, transmitted) =
        reply-read st a t (build_request options.version w1) r fits s in
      let same = some-injective _ _ (sym sent' ∙ sent) in
      (
        reported server t1 w1 t4 q,
        query-report env options server w1 out.0 name socket send stamped answered
            ∙ rw (← same, short) (report-decoded server t1 t4 w1 o.0 q parsed mode),
        rw origin (stamp_eq_refl w1),
        ap (λ x. unfold_era x t1) received,
        ap (λ x. unfold_era x t1) transmitted,
        refl,
        refl,
      )
