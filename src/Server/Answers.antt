-- ===== src/Server/Answers.antt =====
-- server.rs: when a datagram gets a time response, and what a denied address gets.
use heeler.Common.{
  ◌≤◌, ◌≡◌, refl, ◌⊎◌, inl, inr, ap, true, ltb, none, some, length, ok, unwrap_or, arith, ◌∙◌,
  if-false, if-both, Result-cases, Bool-cases,
}
use heeler.Timestamp.{NtpTimestamp, zero_timestamp}
use heeler.Packet.{ParsedPacket, parse, encode}
use heeler.Packet.ReferenceId
use heeler.Packet.ReferenceId.{KissCode}
use heeler.Validation.{validate}
use heeler.Response.{build_response, finalize_transmit_timestamp}
use heeler.Clock.{ClockSource, ClockReading}
use heeler.Access.{IpNets, allowed, denied, evaluate}
use heeler.RateLimit
use heeler.RateLimit.Client
use heeler.RateLimit.Client.{RateDecision}
use heeler.Server.{
  Arrival, State, Step, counted, count_request, count_denied, send_kod, respond, answer,
  by_decision, limit, by_access, handle_datagram,
}

module _ {S : Type 0} (clock_source : ClockSource S) (nets : IpNets) where
  fits_by_access :
      (st : State clock_source nets) (a : Arrival) (t : NtpTimestamp)
      → length a.data_bytes ≤ st.max_packet_size
      → handle_datagram clock_source nets st a t
        ≡ by_access clock_source nets
            (evaluate nets st.access a.source.ip)
            (counted clock_source nets count_request st)
            a
            t
  unfolding handle_datagram
  fits_by_access st a t size =
      if-false (ltb st.max_packet_size (length a.data_bytes)) _ _ (ground arith)

  answer_valid :
      (st : State clock_source nets) (a : Arrival) (t : NtpTimestamp) (request : ParsedPacket)
      → parse a.data_bytes ≡ ok request
      → validate st.policy request ≡ ok tt
      → answer clock_source nets st a t ≡ respond clock_source nets st a t request.packet
  unfolding answer
  answer_valid st a t request p v = rw (p, v, answer) refl

  respond_ok :
      (st : State clock_source nets) (a : Arrival) (t : NtpTimestamp) (request : ParsedPacket)
      (r : ClockReading)
      → (clock_source.now st.clock).0 ≡ ok r
      → (respond clock_source nets st a t request.packet).1
        ≡ some (
          encode (
              finalize_transmit_timestamp
                (build_response request.packet st.identity
                  (clock_source.status st.clock)
                  (unwrap_or (clock_source.reference_timestamp st.clock) zero_timestamp)
                  t)
                r.timestamp),
          a.source,
        )
  unfolding respond
  respond_ok st a t request r e = rw (e, respond) refl

  send_kod-limiter :
      (st : State clock_source nets) (a : Arrival) (code : KissCode) (t : NtpTimestamp)
      → (send_kod clock_source nets st a code t).0.limiter ≡ st.limiter
  unfolding send_kod
  send_kod-limiter st a code t = elim (Result-cases (parse a.data_bytes)) [
    | inr (e, p) ↦ rw (p, send_kod) refl
    | inl (request, p) ↦ elim (Result-cases (validate st.policy request)) [
      | inr (e, v) ↦ rw (p, v, send_kod) refl
      | inl (_, v) ↦ rw (p, v, send_kod) refl
    ]
  ]

  denied_quiet :
      (st : State clock_source nets) (a : Arrival) (t : NtpTimestamp)
      → let (st', out) = by_access clock_source nets denied st a t in
        (st'.limiter ≡ st.limiter) × ((st.send_kod_on_policy_deny ≡ true) ⊎ (out ≡ none))
  denied_quiet st a t = (
    if-both (λ (s : Step clock_source nets). s.0.limiter ≡ st.limiter) st.send_kod_on_policy_deny
        (send_kod-limiter (counted clock_source nets count_denied st) a ReferenceId.deny t) refl,
    elim (Bool-cases st.send_kod_on_policy_deny) [
      | inl on ↦ inl on
      | inr off ↦
          inr
            (ap (λ (s : Step clock_source nets). s.1) (if-false st.send_kod_on_policy_deny _ _ off))
    ],
  )

  -- A datagram that fits, from an allowed address, within its rate, that parses and is answerable,
  -- gets a time response whenever the clock can be read: built from the request and the receive
  -- timestamp, and stamped with that reading of the clock.
  pub handle_datagram-answers :
      (st : State clock_source nets) (a : Arrival) (t : NtpTimestamp) (request : ParsedPacket)
      (r : ClockReading)
      → length a.data_bytes ≤ st.max_packet_size
      → evaluate nets st.access a.source.ip ≡ allowed
      → (RateLimit.check st.settings st.limiter a.source.ip a.limiter_now).0 ≡ Client.allowed
      → parse a.data_bytes ≡ ok request
      → validate st.policy request ≡ ok tt
      → (clock_source.now st.clock).0 ≡ ok r
      → (handle_datagram clock_source nets st a t).1
        ≡ some (
          encode (
              finalize_transmit_timestamp
                (build_response request.packet st.identity
                  (clock_source.status st.clock)
                  (unwrap_or (clock_source.reference_timestamp st.clock) zero_timestamp)
                  t)
                r.timestamp),
          a.source,
        )
  unfolding limit
  handle_datagram-answers st a t request r size access rate p v c =
      let limited = RateLimit.check st.settings st.limiter a.source.ip a.limiter_now in
      let ready = record (counted clock_source nets count_request st) { limiter = limited.1 } in
      ap (λ (s : Step clock_source nets). s.1)
        (fits_by_access st a t size
          ∙ ap (λ d. by_access clock_source nets d (counted clock_source nets count_request st) a t)
              access
          ∙ ap (λ d. by_decision clock_source nets d ready a t) rate
          ∙ answer_valid ready a t request p v)
      ∙ respond_ok ready a t request r c

  -- A denied address consumes no token and no place in the limiter's table, and gets no answer unless
  -- the server is configured to send Kiss-o'-Death packets to denied addresses.
  pub handle_datagram-denied :
      (st : State clock_source nets) (a : Arrival) (t : NtpTimestamp)
      → evaluate nets st.access a.source.ip ≡ denied
      → let (st', out) = handle_datagram clock_source nets st a t in
        (st'.limiter ≡ st.limiter) × ((st.send_kod_on_policy_deny ≡ true) ⊎ (out ≡ none))
  unfolding handle_datagram
  handle_datagram-denied st a t access =
      let received = counted clock_source nets count_request st in
      if-both
        (λ (s : Step clock_source nets).
          (s.0.limiter ≡ st.limiter) × ((st.send_kod_on_policy_deny ≡ true) ⊎ (s.1 ≡ none)))
        (ltb st.max_packet_size (length a.data_bytes)) (refl, inr refl)
        (rw access (denied_quiet received a t))
