-- ===== src/Server/Runs.antt =====
-- server.rs: what holds after any sequence of datagrams, failed receives and ticks.
use heeler.Common.{
  ℕ, suc, ◌+◌, ◌≡◌, refl, inl, inr, Bool, Option, none, some, List, [], ◌∷◌, Result-cases, arith,
}
use heeler.Common.Words.{wrap_u64}
use heeler.Clock.{ClockSource}
use heeler.Clock.System.{ClockJump}
use heeler.Access.{IpNets}
use heeler.Metrics.{Metrics}
use heeler.Server.{Arrival, State, Step}
use heeler.Server.Accounting.{Handled, handle_datagram-Settled}
use heeler.Server.Loop.{
  Tick, Event, received, recv_failed, ticked, LoopState, receive, housekeeping, step, run,
  count_jump, check_jump,
}

-- Every request has been answered, dropped or has failed to be sent; failed receives, `failures` of
-- them, are counted as socket errors too. The counters wrap around.
abbrev pub Balanced : Metrics → ℕ → Type 0
Balanced m failures =
    wrap_u64 (m.requests_total + failures)
    ≡ wrap_u64 (m.responses_total + m.packets_dropped_total + m.socket_errors_total)

unfoldable pub recv_failures : List Event → ℕ
recv_failures [] = 0
recv_failures (recv_failed ∷ es) = suc (recv_failures es)
recv_failures (received _ ∷ es) = recv_failures es
recv_failures (ticked _ ∷ es) = recv_failures es

module _ {S : Type 0} (clock_source : ClockSource S) (nets : IpNets)
    (system_clock : Option (Tick → S → Option ClockJump × S)) where
  Handled-Balanced :
      (st : State clock_source nets) (send_ok : Bool) (s : Step clock_source nets) (n : ℕ)
      → Handled clock_source nets st send_ok s
      → Balanced st.metrics n
      → Balanced s.0.metrics n
  Handled-Balanced st send_ok s n (r, inl (_, _, _, x, y, z)) h = omega arith
  Handled-Balanced st send_ok s n (r, inr (inl (_, x, y, z))) h = omega arith
  Handled-Balanced st send_ok s n (r, inr (inr (_, _, _, x, y, z))) h = omega arith

  receive-Handled :
      (st : State clock_source nets) (a : Arrival)
      → Handled clock_source nets st a.send_ok (receive clock_source nets system_clock st a)
  unfolding receive
  receive-Handled st a = elim (Result-cases (clock_source.now st.clock).0) [
    | inl (r, e) ↦ rw (e, receive) (handle_datagram-Settled clock_source nets _ _ r.timestamp)
    | inr (x, e) ↦ rw (e, receive) (refl, inr (inl (refl, refl, refl, refl)))
  ]

  count_jump-Balanced :
      (jump : Option ClockJump) (m : Metrics) (n : ℕ)
      → Balanced m n
      → Balanced (count_jump jump m) n
  count_jump-Balanced none m n h = h
  count_jump-Balanced (some _) m n h = h

  housekeeping-Balanced :
      (l : LoopState clock_source nets system_clock) (tick : Tick) (n : ℕ)
      → Balanced l.server.metrics n
      → Balanced (housekeeping clock_source nets system_clock l tick).server.metrics n
  unfolding housekeeping
  housekeeping-Balanced l tick n h =
      count_jump-Balanced
        (check_jump clock_source nets system_clock system_clock tick l.server.clock).0
        l.server.metrics n h

  -- Whatever is received, in whatever order with failures and ticks, if the counters were balanced
  -- they stay so: modulo 2^64, requests and failed receives add up to responses, drops and socket
  -- errors.
  pub run-Balanced :
      (l : LoopState clock_source nets system_clock) (es : List Event) (n : ℕ)
      → Balanced l.server.metrics n
      → Balanced (run clock_source nets system_clock l es).server.metrics (recv_failures es + n)
  unfolding run step recv_failures
  run-Balanced l [] n h = omega (arith, h)
  run-Balanced l (received a ∷ es) n h =
      run-Balanced (step clock_source nets system_clock l (received a)).0 es n (
        Handled-Balanced l.server a.send_ok (receive clock_source nets system_clock l.server a) n
          (receive-Handled l.server a) h)
  run-Balanced l (recv_failed ∷ es) n h =
      let next = (step clock_source nets system_clock l recv_failed).0 in
      omega (arith, run-Balanced next es (suc n) (omega (arith, h)))
  run-Balanced l (ticked tick ∷ es) n h =
      run-Balanced (step clock_source nets system_clock l (ticked tick)).0 es n
        (housekeeping-Balanced l tick n h)
