-- ===== src/Examples/Tools.antt =====
-- The results on the query client, the inspection, the limiter's table, the tasks and the metrics.
use heeler.Inspect.Cleaned.{zero_x}
use heeler.Common.Text.{is_whitespace}
use heeler.Common.{
  not, filter, all, err, ◌++◌, ℕ, ◌+◌, ◌^◌, ◌<◌, ◌≡◌, ◌≢◌, ◌↔◌, refl, true, false, ◌⊎◌, none, some,
  List, [], ◌∷◌, ok, codes, arith, map, All, IsByte,
}
use heeler.Common.Int.{pos, ◌+ℤ◌, ◌≤ℤ◌, div_euclid, rem_euclid}
use heeler.Timestamp.{NtpInstant, NtpTimestamp, to_timestamp, unfold_era, fraction_from_nanos}
use heeler.Timestamp.{from_system_time, zero_timestamp}
use heeler.Packet.{encode, version_from_bits}
use heeler.Packet.ReferenceId
use heeler.Response.{build_response, finalize_transmit_timestamp, synchronised}
use heeler.Client.{
  delay, offset, QueryOptions, QueryReport, Environment, datagram, resolve, build_request, query,
}
use heeler.Client.Exchange.{Serves, query-answered}
use heeler.Examples.Serving.{
  host_allowed, rate_allowed, request_valid, clock_reads, reply_sent, reading, clock-IsSound,
}
use heeler.Client.Measure.{IsExchange, IsNear, exchange_measured}
use heeler.Inspect.{to_digit, decode_hex, civil_from_days}
use heeler.Inspect.Calendar.{day_after}
use heeler.Inspect.Days.{civil_from_days-suc}
use heeler.Inspect.Hex.{nibbles, decode_hex_iff}
use heeler.Access.{IpAddr, v4, SocketAddr}
use heeler.Clock.Mock.{mock_clock_source}
use heeler.Server.Tasks.{SocketSetup, SetupError, Wake, flag_changed, woken, set_up, run_server}
use heeler.Server.Setup.{is_set_up}
use heeler.Server.Shutdown.{sees_flag, run_server_returns}
use heeler.Server.Loop.{LoopState, recv_failed, ticked}
use heeler.Metrics
use heeler.Metrics.{Metrics}
use heeler.Metrics.Render.{render}
use heeler.Metrics.Scrape.{scrape, named_counters, scrape-render}
use heeler.Examples.Data.{
  prefixes, state, stamp, stamp-IsTimestamp, request, identity, identity-IsIdentity, from_host,
  loopback,
}

civil_from_days-suc_example :
    (civil_from_days (pos 20_000 +ℤ pos 1) ≡ day_after (civil_from_days (pos 20_000)))
    × (civil_from_days (pos 0) ≡ record { year = pos 1970; month = 1; day = 1 })
unfolding ◌+ℤ◌
civil_from_days-suc_example = civil_from_days-suc (pos 20_000) (omega arith) (omega arith)

decode_hex_iff_example :
    let input = codes " 0x1b 0C" in
    let bytes : List ℕ = 0x1b ∷ 0x0c ∷ [] in
    (decode_hex input ≢ none)
    × ((decode_hex input ≡ some (ok bytes)) ↔ (
        (pre : List ℕ) × (n : ℕ) × (body : List ℕ) × (input ≡ pre ++ (zero_x n ++ body))
        × (all is_whitespace pre ≡ true)
        × (map to_digit (filter (λ c. not (is_whitespace c)) body) ≡ map some (nibbles bytes))
        × All IsByte bytes))
decode_hex_iff_example = decode_hex_iff (codes " 0x1b 0C") (0x1b ∷ 0x0c ∷ [])

abbrev packets : List (IpAddr × ℕ)
packets = (v4 1, 10) ∷ (v4 2, 20) ∷ (v4 1, 30) ∷ []

-- One socket: a failed receive, a tick, and the flag for each of the two tasks.
abbrev loop : LoopState mock_clock_source prefixes none
loop = record { server = state; ticks = 0 }

abbrev set_up_socket : SocketSetup
set_up_socket = record { nonblocking_ok = true; from_std_ok = true; local_addr_ok = true }

abbrev wakes : List (ℕ × Wake)
wakes =
    (0, woken recv_failed)
    ∷ (0, flag_changed true)
    ∷ (1, woken (ticked (record { wall = pos 0; mono = 0; sweep_now = 0 })))
    ∷ (1, flag_changed true)
    ∷ []

run_server_returns_example :
    let result = run_server mock_clock_source prefixes none loop (set_up_socket ∷ []) wakes in
    ((all is_set_up (set_up_socket ∷ []) ≡ true)
      × ((result ≡ none) ⊎ (result ≡ some (ok tt)))
      × ((result ≡ some (ok tt)) ↔ ((i : ℕ) → (1 < i) ⊎ (sees_flag i wakes ≡ true))))
    ⊎ ((before : List SocketSetup) × (s : SocketSetup) × (later : List SocketSetup) × (set_up_socket
            ∷ []
          ≡ before ++ (s ∷ later))
        × (all is_set_up before ≡ true)
        × (e : SetupError) × (set_up s ≡ err e)
        × (result ≡ some (err e)))
run_server_returns_example =
    run_server_returns mock_clock_source prefixes none loop (set_up_socket ∷ []) wakes

abbrev seconds_text : ℕ → List ℕ
seconds_text nanos = codes "0.5"

abbrev counted : Metrics
counted = record Metrics.new { requests_total = 123; responses_total = 45; kod_sent_total = 6 }

counted_small : All (λ (nv : List ℕ × ℕ). nv.1 < 2 ^ 64) (named_counters counted)
unfolding Metrics.new
counted_small = ground arith

scrape-render_example :
    All
      (λ (nv : List ℕ × ℕ). scrape nv.0 (render seconds_text counted 7) ≡ some nv.1)
      (named_counters counted)
scrape-render_example = scrape-render seconds_text (λ n. refl) counted 7 counted_small

-- A request stamped at T1 that takes a second each way, and a server 100 ms ahead.
abbrev t1 : NtpInstant
t1 = record { nanos = pos 3_900_000_000_500_000_000 }

abbrev i2 : NtpInstant
i2 = record { nanos = pos 3_900_000_001_600_000_000 }

abbrev t4 : NtpInstant
t4 = record { nanos = pos 3_900_000_002_500_000_000 }

abbrev w2 : NtpTimestamp
w2 = record { seconds = 3_900_000_001; fraction = 2_576_980_377 }

exchange : IsExchange t1 i2 i2 t4 (pos 100_000_000) 1_000_000_000 1_000_000_000
unfolding ◌+ℤ◌
exchange = record { there = refl; back = refl }

near : IsNear i2 t1
unfolding ◌+ℤ◌
near = record { not_after = omega arith; not_before = omega arith }

i2_stamped : to_timestamp i2 ≡ ok w2
unfolding to_timestamp div_euclid rem_euclid fraction_from_nanos
i2_stamped = refl

exchange_measured_example :
    let t2 = unfold_era w2 t1 in
    let d = delay t1 t2 t2 t4 in
    let o = offset t1 t2 t2 t4 in
    (d ≤ℤ pos 2_000_000_001)
    × (pos 2_000_000_000 ≤ℤ d +ℤ pos 1)
    × (o +ℤ o +ℤ pos 1_000_000_000 ≤ℤ pos 100_000_000 +ℤ pos 100_000_000 +ℤ pos 1_000_000_001)
    × (pos 100_000_000 +ℤ pos 100_000_000 +ℤ pos 1_000_000_000 ≤ℤ o +ℤ o +ℤ pos 1_000_000_003)
exchange_measured_example =
    exchange_measured t1 i2 i2 t4 (pos 100_000_000) 1_000_000_000 1_000_000_000 w2 w2 exchange near
      near i2_stamped i2_stamped

abbrev options : QueryOptions
options = record { server = codes "time.local"; version = 4; timeout = 1_000_000_000 }

abbrev there : SocketAddr
there = record { ip = v4 (loopback + 7); port = 123 }

abbrev reply : List ℕ
reply = encode (
    finalize_transmit_timestamp (build_response request identity synchronised zero_timestamp stamp)
      stamp)

abbrev env : Environment
env = record {
  is_socket_addr = λ text. false;
  to_socket_addrs = λ text. some (there ∷ []);
  socket_ok = true;
  t1_wall = pos 1_691_011_200_500_000_000;
  send_ok = true;
  answer = λ bytes. datagram reply;
  t4_wall = pos 1_691_011_201_500_000_000;
}

abbrev asked : NtpInstant
asked = from_system_time env.t1_wall

resolved : resolve env options.server ≡ ok there
unfolding resolve
resolved = refl

asked_at : to_timestamp asked ≡ ok stamp
unfolding to_timestamp from_system_time ◌+ℤ◌ div_euclid rem_euclid
asked_at = refl

is_served :
    Serves mock_clock_source prefixes state
      (from_host 1)
      stamp
      (build_request options.version stamp)
      reading
unfolding build_request version_from_bits ReferenceId.from_bytes
is_served = record {
  identity_fits = identity-IsIdentity;
  clock_sound = clock-IsSound;
  receive_fits = stamp-IsTimestamp;
  admits = omega arith;
  sends = refl;
  access = host_allowed;
  rate = rate_allowed;
  valid = request_valid;
  reads = clock_reads;
}

query-answered_example :
    let back = from_system_time env.t4_wall in
    (rep : QueryReport) × (query env options ≡ ok rep)
    × (rep.origin_matched ≡ true)
    × (rep.t2 ≡ unfold_era stamp asked)
    × (rep.t3 ≡ unfold_era stamp asked)
    × (rep.delay_nanos ≡ delay asked rep.t2 rep.t3 back)
    × (rep.offset_nanos ≡ offset asked rep.t2 rep.t3 back)
query-answered_example =
    query-answered mock_clock_source prefixes env options there stamp state (from_host 1) stamp
      reading (reply, (from_host 1).source) (omega arith) resolved refl refl asked_at is_served
      reply_sent refl
