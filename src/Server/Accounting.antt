-- ===== src/Server/Accounting.antt =====
-- server.rs: every datagram is counted once as received and once as answered, dropped or failed.
use heeler.Common.{
  ℕ, ◌≡◌, refl, ◌⊎◌, inl, inr, Bool, true, false, ltb, Option, none, some, List, length,
  Result-cases, Bool-cases, if-both, ◌&&◌,
}
use heeler.Timestamp.{NtpTimestamp}
use heeler.Packet.{NtpPacket, parse}
use heeler.Packet.ReferenceId
use heeler.Packet.ReferenceId.{KissCode}
use heeler.Validation.{
  validate, RequestRejection, trailing_data, unsupported_version, unsupported_mode,
  zero_transmit_timestamp,
}
use heeler.Clock.{ClockSource}
use heeler.Access.{SocketAddr, IpNets, AccessDecision, allowed, denied, evaluate}
use heeler.RateLimit
use heeler.RateLimit.Client
use heeler.RateLimit.Client.{RateDecision}
use heeler.Metrics.{Metrics, bump}
use heeler.Server.{
  Arrival, State, Step, counted, dropped, count_request, count_limited, count_denied,
  count_rejection, send_kod, respond, answer, by_decision, limit, by_access, handle_datagram,
}

-- How the counters of an outcome differ from the old ones: exactly one of responses, drops and
-- socket errors is one higher, the first or the last if a datagram was handed to `send_to`.
abbrev pub Settled : Metrics → Bool → Metrics → Option (List ℕ × SocketAddr) → Type 0
Settled m send_ok m' out =
    ((packet : List ℕ × SocketAddr) × (out ≡ some packet)
      × (send_ok ≡ true)
      × (m'.responses_total ≡ bump m.responses_total)
      × (m'.packets_dropped_total ≡ m.packets_dropped_total)
      × (m'.socket_errors_total ≡ m.socket_errors_total))
    ⊎ ((out ≡ none)
        × (m'.responses_total ≡ m.responses_total)
        × (m'.packets_dropped_total ≡ bump m.packets_dropped_total)
        × (m'.socket_errors_total ≡ m.socket_errors_total))
    ⊎ ((packet : List ℕ × SocketAddr) × (out ≡ some packet)
        × (send_ok ≡ false)
        × (m'.responses_total ≡ m.responses_total)
        × (m'.packets_dropped_total ≡ m.packets_dropped_total)
        × (m'.socket_errors_total ≡ bump m.socket_errors_total))

module _ {S : Type 0} (clock_source : ClockSource S) (nets : IpNets) where
  -- A part of the handler settles what it is given, and does not count a request.
  abbrev pub Settles : State clock_source nets → Bool → Step clock_source nets → Type 0
  Settles st send_ok (st', out) =
      (st'.metrics.requests_total ≡ st.metrics.requests_total)
      × Settled st.metrics send_ok st'.metrics out

  dropped-Settles :
      (st : State clock_source nets) (send_ok : Bool)
      → Settles st send_ok (dropped clock_source nets st)
  dropped-Settles st send_ok = (refl, inr (inl (refl, refl, refl, refl)))

  send_kod-Settles :
      (st : State clock_source nets) (a : Arrival) (code : KissCode) (t : NtpTimestamp)
      → Settles st a.send_ok (send_kod clock_source nets st a code t)
  unfolding send_kod
  send_kod-Settles st a code t = elim (Result-cases (parse a.data_bytes)) [
    | inr (e, p) ↦ rw (p, send_kod) (dropped-Settles st a.send_ok)
    | inl (parsed, p) ↦ elim (Result-cases (validate st.policy parsed)) [
      | inr (e, v) ↦ rw (p, v, send_kod) (dropped-Settles st a.send_ok)
      | inl (_, v) ↦ elim (Bool-cases a.send_ok) [
        | inl s ↦ rw (p, v, s, send_kod) (refl, inl (_, refl, refl, refl, refl, refl))
        | inr s ↦ rw (p, v, s, send_kod) (refl, inr (inr (_, refl, refl, refl, refl, refl)))
      ]
    ]
  ]

  respond-Settles :
      (st : State clock_source nets) (a : Arrival) (t : NtpTimestamp) (request : NtpPacket)
      → Settles st a.send_ok (respond clock_source nets st a t request)
  unfolding respond
  respond-Settles st a t request = elim (Result-cases (clock_source.now st.clock).0) [
    | inr (e, c) ↦ rw (c, respond) (refl, inr (inl (refl, refl, refl, refl)))
    | inl (r, c) ↦ elim (Bool-cases a.send_ok) [
      | inl s ↦ rw (c, s, respond) (refl, inl (_, refl, refl, refl, refl, refl))
      | inr s ↦ rw (c, s, respond) (refl, inr (inr (_, refl, refl, refl, refl, refl)))
    ]
  ]

  rejected-Settles :
      (st : State clock_source nets) (send_ok : Bool) (e : RequestRejection)
      → Settles st send_ok
          (dropped clock_source nets (counted clock_source nets (count_rejection e) st))
  rejected-Settles st send_ok (trailing_data _) = dropped-Settles st send_ok
  rejected-Settles st send_ok (unsupported_version _) = dropped-Settles st send_ok
  rejected-Settles st send_ok (unsupported_mode _) = dropped-Settles st send_ok
  rejected-Settles st send_ok zero_transmit_timestamp = dropped-Settles st send_ok

  answer-Settles :
      (st : State clock_source nets) (a : Arrival) (t : NtpTimestamp)
      → Settles st a.send_ok (answer clock_source nets st a t)
  unfolding answer
  answer-Settles st a t = elim (Result-cases (parse a.data_bytes)) [
    | inr (e, p) ↦ rw (p, answer) (dropped-Settles st a.send_ok)
    | inl (parsed, p) ↦ elim (Result-cases (validate st.policy parsed)) [
      | inr (e, v) ↦ rw (p, v, answer) (rejected-Settles st a.send_ok e)
      | inl (_, v) ↦ rw (p, v, answer) (respond-Settles st a t parsed.packet)
    ]
  ]

  by_decision-Settles :
      (d : RateDecision) (st : State clock_source nets) (a : Arrival) (t : NtpTimestamp)
      → Settles st a.send_ok (by_decision clock_source nets d st a t)
  by_decision-Settles Client.allowed st a t = answer-Settles st a t
  by_decision-Settles (Client.limited_per_client kod) st a t =
      if-both (Settles st a.send_ok) (kod && st.send_kod_on_rate_limit)
        (send_kod-Settles (counted clock_source nets count_limited st) a ReferenceId.rate t)
        (dropped-Settles st a.send_ok)
  by_decision-Settles Client.limited_global st a t = dropped-Settles st a.send_ok
  by_decision-Settles Client.table_full st a t = dropped-Settles st a.send_ok

  limit-Settles :
      (st : State clock_source nets) (a : Arrival) (t : NtpTimestamp)
      → Settles st a.send_ok (limit clock_source nets st a t)
  unfolding limit
  limit-Settles st a t =
      let (d, l) = RateLimit.check st.settings st.limiter a.source.ip a.limiter_now in
      by_decision-Settles d (record st { limiter = l }) a t

  by_access-Settles :
      (d : AccessDecision) (st : State clock_source nets) (a : Arrival) (t : NtpTimestamp)
      → Settles st a.send_ok (by_access clock_source nets d st a t)
  by_access-Settles allowed st a t = limit-Settles st a t
  by_access-Settles denied st a t =
      if-both (Settles st a.send_ok) st.send_kod_on_policy_deny
        (send_kod-Settles (counted clock_source nets count_denied st) a ReferenceId.deny t)
        (dropped-Settles st a.send_ok)

  abbrev pub Handled : State clock_source nets → Bool → Step clock_source nets → Type 0
  Handled st send_ok (st', out) =
      (st'.metrics.requests_total ≡ bump st.metrics.requests_total)
      × Settled st.metrics send_ok st'.metrics out

  -- Every datagram is counted once as a request and settled once: as a response when a reply was
  -- sent, as a socket error when sending it failed, and as dropped when there was no reply.
  pub handle_datagram-Settled :
      (st : State clock_source nets) (a : Arrival) (t : NtpTimestamp)
      → Handled st a.send_ok (handle_datagram clock_source nets st a t)
  unfolding handle_datagram
  handle_datagram-Settled st a t =
      if-both (Handled st a.send_ok) (ltb st.max_packet_size (length a.data_bytes))
        (refl, inr (inl (refl, refl, refl, refl)))
        (let (r, d) =
            by_access-Settles (evaluate nets st.access a.source.ip)
              (counted clock_source nets count_request st) a t in
          (r, d))
