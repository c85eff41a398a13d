-- ===== src/Server/Loop.antt =====
-- server.rs, `recv_loop` and `housekeeping_loop`: the server as a sequence of events. One event is a
-- datagram, a failed receive, or a tick of the housekeeping timer; the tasks of the runtime interleave
-- as some such sequence. The shared `system_clock` is an operation on the one clock state.
use heeler.Common.{
  ℕ, ◌+◌, ◌%◌, ◌^◌, ◌==◌, if◌then◌else◌, Option, none, some, List, [], ◌∷◌, take, ok, err,
}
use heeler.Common.Int.{ℤ}
use heeler.Response.{ClockStatus, synchronised, unsynchronised}
use heeler.Clock.{ClockSource}
use heeler.Clock.System.{ClockJump}
use heeler.Access.{SocketAddr, IpNets}
use heeler.RateLimit
use heeler.Metrics.{Metrics, bump}
use heeler.Server.{
  Arrival, State, Step, counted, dropped, count_request, count_clock_error, handle_datagram,
  count_socket_error,
}

-- The readings of the wall and the monotonic clock of one tick.
pub record Tick : Type 0 where
  pub wall : ℤ
  pub mono : ℕ
  pub sweep_now : ℕ

pub data Event : Type 0 where
  received : Arrival → Event
  recv_failed : Event
  ticked : Tick → Event

abbrev status_gauge : ClockStatus → ℕ
status_gauge synchronised = 1
status_gauge unsynchronised = 0

abbrev pub count_jump : Option ClockJump → Metrics → Metrics
count_jump none m = m
count_jump (some _) m = record m { clock_jumps_total = bump m.clock_jumps_total }

module _ {S : Type 0} (clock_source : ClockSource S) (nets : IpNets)
    (system_clock : Option (Tick → S → Option ClockJump × S)) where
  -- The server's state and the housekeeping task's counter of ticks.
  pub record LoopState : Type 0 where
    pub server : State clock_source nets
    pub ticks : ℕ

  -- A datagram is cut off at the buffer's length, one byte above the largest that is accepted, and
  -- stamped with the clock before anything else.
  unfoldable pub receive : State clock_source nets → Arrival → Step clock_source nets
  unfolding handle_datagram
  receive st a =
      let cut = record a { data_bytes = take (st.max_packet_size + 1) a.data_bytes } in
      let (reading, clock) = clock_source.now st.clock in
      let read = record st { clock = clock } in
      elim reading [
        | ok r ↦ handle_datagram clock_source nets read cut r.timestamp
        | err _ ↦
            dropped clock_source nets
              (counted clock_source nets (λ m. count_request (count_clock_error m)) read)
      ]

  abbrev pub check_jump : Option (Tick → S → Option ClockJump × S) → Tick → S → Option ClockJump × S
  check_jump none tick clock = (none, clock)
  check_jump (some f) tick clock = f tick clock

  unfoldable pub housekeeping : LoopState → Tick → LoopState
  unfolding RateLimit.active_entries RateLimit.sweep
  housekeeping l tick =
      let st = l.server in
      let ticks = (l.ticks + 1) % 2 ^ 64 in
      let (jump, clock) = check_jump system_clock tick st.clock in
      let m = count_jump jump st.metrics in
      let gauges = record m {
        clock_synchronised = status_gauge (clock_source.status clock);
        active_rate_limit_entries = RateLimit.active_entries st.limiter;
      } in
      let limiter =
        if ticks % 30 == 0
        then RateLimit.sweep st.settings st.limiter tick.sweep_now
        else st.limiter in
      record {
        server = record st { clock = clock; metrics = gauges; limiter = limiter };
        ticks = ticks;
      }

  abbrev sent_by : LoopState → Step clock_source nets → LoopState × Option (List ℕ × SocketAddr)
  sent_by l (st, out) = (record l { server = st }, out)

  unfoldable pub step : LoopState → Event → LoopState × Option (List ℕ × SocketAddr)
  unfolding receive housekeeping
  step l (received a) = sent_by l (receive l.server a)
  step l recv_failed =
      (record l { server = counted clock_source nets count_socket_error l.server }, none)
  step l (ticked tick) = (housekeeping l tick, none)

  unfoldable pub run : LoopState → List Event → LoopState
  unfolding step
  run l [] = l
  run l (e ∷ es) = run (step l e).0 es
