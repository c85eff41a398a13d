-- ===== src/Server/Sound.antt =====
-- server.rs: the invariant of the server's state, kept by every event.
use heeler.Common.{
  ◌+◌, ◌%◌, ◌^◌, ◌≡◌, refl, Option, List, [], ◌∷◌, Result-cases, if-both, length, ltb, ◌==◌, ◌&&◌,
  inl, inr,
}
use heeler.Timestamp.{NtpTimestamp}
use heeler.Packet.{NtpPacket, parse}
use heeler.Packet.ReferenceId
use heeler.Packet.ReferenceId.{KissCode}
use heeler.Validation.{validate}
use heeler.Response.Laws.{IsIdentity}
use heeler.Clock.{ClockSource}
use heeler.Clock.System.{ClockJump}
use heeler.Access.{IpNets, AccessDecision, allowed, denied, evaluate}
use heeler.RateLimit
use heeler.RateLimit.Client
use heeler.RateLimit.Client.{RateDecision}
use heeler.RateLimit.Bounds.{IsBounded, check-IsBounded, sweep-IsBounded}
use heeler.Server.{
  Arrival, State, Step, counted, handle_datagram, send_kod, respond, answer, by_decision, limit,
  by_access, count_request, count_limited, count_denied,
}
use heeler.Server.Loop.{
  Tick, Event, received, recv_failed, ticked, LoopState, receive, housekeeping, step, run,
  check_jump,
}

module _ {S : Type 0} (clock_source : ClockSource S) (nets : IpNets) where
  -- The limiter is within its bounds, the clock keeps its own invariant, and the identity fits the
  -- fields of a packet.
  pub record IsSoundState (st : State clock_source nets) : Type 0 where
    pub bounded : IsBounded st.settings st.limiter
    pub clock_sound : clock_source.IsSound st.clock
    pub identity_fits : IsIdentity st.identity

  abbrev Keeps : State clock_source nets → Step clock_source nets → Type 0
  Keeps st s = IsSoundState st → IsSoundState s.0

  with_clock :
      (st : State clock_source nets) (c : S)
      → clock_source.IsSound c
      → IsSoundState st
      → IsSoundState (record st { clock = c })
  with_clock st c k h = record {
    bounded = h.bounded;
    clock_sound = k;
    identity_fits = h.identity_fits;
  }

  -- Counters are no part of the invariant.
  recount :
      (st st' : State clock_source nets)
      → st'.settings ≡ st.settings
      → st'.limiter ≡ st.limiter
      → st'.clock ≡ st.clock
      → st'.identity ≡ st.identity
      → IsSoundState st
      → IsSoundState st'
  recount st st' a b c d h = record {
    bounded = rw (a, b) h.bounded;
    clock_sound = rw c h.clock_sound;
    identity_fits = rw d h.identity_fits;
  }

  read_clock :
      (st : State clock_source nets)
      → IsSoundState st
      → clock_source.IsSound (clock_source.now st.clock).1
  read_clock st h = clock_source.now_sound st.clock h.clock_sound

  send_kod-Keeps :
      (st : State clock_source nets) (a : Arrival) (code : KissCode) (t : NtpTimestamp)
      → Keeps st (send_kod clock_source nets st a code t)
  unfolding send_kod
  send_kod-Keeps st a code t h = elim (Result-cases (parse a.data_bytes)) [
    | inr (e, p) ↦ rw (p, send_kod) (recount st _ refl refl refl refl h)
    | inl (request, p) ↦ elim (Result-cases (validate st.policy request)) [
      | inr (e, v) ↦ rw (p, v, send_kod) (recount st _ refl refl refl refl h)
      | inl (_, v) ↦
          rw (p, v, send_kod)
            (recount (record st { clock = (clock_source.now st.clock).1 }) _ refl refl refl refl
              (with_clock st _ (read_clock st h) h))
    ]
  ]

  respond-Keeps :
      (st : State clock_source nets) (a : Arrival) (t : NtpTimestamp) (request : NtpPacket)
      → Keeps st (respond clock_source nets st a t request)
  unfolding respond
  respond-Keeps st a t request h =
      let k = with_clock st _ (read_clock st h) h in
      elim (Result-cases (clock_source.now st.clock).0) [
        | inr (e, c) ↦
            rw (c, respond)
              (recount (record st { clock = (clock_source.now st.clock).1 }) _ refl refl refl refl
                k)
        | inl (r, c) ↦
            rw (c, respond)
              (recount (record st { clock = (clock_source.now st.clock).1 }) _ refl refl refl refl
                k)
      ]

  answer-Keeps :
      (st : State clock_source nets) (a : Arrival) (t : NtpTimestamp)
      → Keeps st (answer clock_source nets st a t)
  unfolding answer
  answer-Keeps st a t h = elim (Result-cases (parse a.data_bytes)) [
    | inr (e, p) ↦ rw (p, answer) (recount st _ refl refl refl refl h)
    | inl (request, p) ↦ elim (Result-cases (validate st.policy request)) [
      | inr (e, v) ↦ rw (p, v, answer) (recount st _ refl refl refl refl h)
      | inl (_, v) ↦ rw (p, v, answer) (respond-Keeps st a t request.packet h)
    ]
  ]

  by_decision-Keeps :
      (d : RateDecision) (st : State clock_source nets) (a : Arrival) (t : NtpTimestamp)
      → Keeps st (by_decision clock_source nets d st a t)
  by_decision-Keeps Client.allowed st a t h = answer-Keeps st a t h
  by_decision-Keeps (Client.limited_per_client kod) st a t h =
      let k = recount st (counted clock_source nets count_limited st) refl refl refl refl h in
      if-both (λ (s : Step clock_source nets). IsSoundState s.0) (kod && st.send_kod_on_rate_limit)
        (send_kod-Keeps (counted clock_source nets count_limited st) a ReferenceId.rate t k)
        (recount st _ refl refl refl refl h)
  by_decision-Keeps Client.limited_global st a t h = recount st _ refl refl refl refl h
  by_decision-Keeps Client.table_full st a t h = recount st _ refl refl refl refl h

  limit-Keeps :
      (st : State clock_source nets) (a : Arrival) (t : NtpTimestamp)
      → Keeps st (limit clock_source nets st a t)
  unfolding limit
  limit-Keeps st a t h =
      let (d, l) = RateLimit.check st.settings st.limiter a.source.ip a.limiter_now in
      by_decision-Keeps d (record st { limiter = l }) a t
        (record {
          bounded = check-IsBounded st.settings st.limiter a.source.ip a.limiter_now h.bounded;
          clock_sound = h.clock_sound;
          identity_fits = h.identity_fits;
        })

  by_access-Keeps :
      (d : AccessDecision) (st : State clock_source nets) (a : Arrival) (t : NtpTimestamp)
      → Keeps st (by_access clock_source nets d st a t)
  by_access-Keeps allowed st a t h = limit-Keeps st a t h
  by_access-Keeps denied st a t h =
      let k = recount st (counted clock_source nets count_denied st) refl refl refl refl h in
      if-both (λ (s : Step clock_source nets). IsSoundState s.0) st.send_kod_on_policy_deny
        (send_kod-Keeps (counted clock_source nets count_denied st) a ReferenceId.deny t k)
        (recount st _ refl refl refl refl h)

  pub handle_datagram-Keeps :
      (st : State clock_source nets) (a : Arrival) (t : NtpTimestamp)
      → Keeps st (handle_datagram clock_source nets st a t)
  unfolding handle_datagram
  handle_datagram-Keeps st a t h =
      let k = recount st (counted clock_source nets count_request st) refl refl refl refl h in
      if-both (λ (s : Step clock_source nets). IsSoundState s.0)
        (ltb st.max_packet_size (length a.data_bytes)) (recount st _ refl refl refl refl h)
        (by_access-Keeps (evaluate nets st.access a.source.ip)
          (counted clock_source nets count_request st) a t k)

  module _ (system_clock : Option (Tick → S → Option ClockJump × S)) where
    receive-Keeps :
        (st : State clock_source nets) (a : Arrival)
        → Keeps st (receive clock_source nets system_clock st a)
    unfolding receive
    receive-Keeps st a h =
        let k = with_clock st _ (read_clock st h) h in
        elim (Result-cases (clock_source.now st.clock).0) [
          | inl (r, e) ↦ rw (e, receive) (handle_datagram-Keeps _ _ r.timestamp k)
          | inr (x, e) ↦
              rw (e, receive)
                (recount (record st { clock = (clock_source.now st.clock).1 }) _ refl refl refl refl
                  k)
        ]

    housekeeping-Keeps :
        (l : LoopState clock_source nets system_clock) (tick : Tick)
        → clock_source.IsSound
            (check_jump clock_source nets system_clock system_clock tick l.server.clock).1
        → IsSoundState l.server
        → IsSoundState (housekeeping clock_source nets system_clock l tick).server
    unfolding housekeeping
    housekeeping-Keeps l tick c h = record {
      bounded =
          if-both (IsBounded l.server.settings) ((l.ticks + 1) % 2 ^ 64 % 30 == 0)
            (sweep-IsBounded l.server.settings l.server.limiter tick.sweep_now h.bounded) h.bounded;
      clock_sound = c;
      identity_fits = h.identity_fits;
    }

    -- Where the jump check keeps the clock's invariant, any sequence of datagrams, failed receives and
    -- ticks keeps the server's: at most the configured number of clients, each once, no bucket above
    -- its burst, and a sound clock.
    pub run-IsSoundState :
        ((tick : Tick) (c : S)
          → clock_source.IsSound c
          → clock_source.IsSound (check_jump clock_source nets system_clock system_clock tick c).1)
        → (l : LoopState clock_source nets system_clock) (es : List Event) → IsSoundState l.server
        → IsSoundState (run clock_source nets system_clock l es).server
    unfolding run step
    run-IsSoundState k l [] h = h
    run-IsSoundState k l (received a ∷ es) h =
        run-IsSoundState k (step clock_source nets system_clock l (received a)).0 es
          (receive-Keeps l.server a h)
    run-IsSoundState k l (recv_failed ∷ es) h =
        run-IsSoundState k (step clock_source nets system_clock l (recv_failed)).0 es
          (recount l.server _ refl refl refl refl h)
    run-IsSoundState k l (ticked tick ∷ es) h =
        run-IsSoundState k (step clock_source nets system_clock l (ticked tick)).0 es
          (housekeeping-Keeps l tick (k tick l.server.clock h.clock_sound) h)
