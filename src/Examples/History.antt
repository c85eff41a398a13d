-- ===== src/Examples/History.antt =====
-- The results on histories, on measuring and on texts, each at a concrete input.
use heeler.Common.{
  ℕ, ◌*◌, ◌≤◌, ◌≡◌, refl, List, [], ◌∷◌, ◌++◌, some, ok, arith, none, true, false, any, codes, ◌⊎◌,
}
use heeler.Common.Int.{pos, negsuc, ◌≤ℤ◌}
use heeler.Access.{v4}
use heeler.Clock.Precision.{IsMeasured, measure_steps, measure_system, measure_system_range}
use heeler.Shutdown.{Poll, is_ready, Names, wait_for_signal, wait_for_signal_exact}
use heeler.Metrics
use heeler.Metrics.Serve.{
  bytes_read, Accept, accept_failed, accepted, flag_changed, serve_metrics, serve_metrics-oblivious,
}
use heeler.RateLimit
use heeler.RateLimit.Client.{RateLimitSettings}
use heeler.RateLimit.Forgetting.Independence.{decisions_for, alone, decided-alone}
use heeler.RateLimit.Bounds.{Call, checks, sweeps}
use heeler.RateLimit.Forgetting.{unseen, promised}
use heeler.RateLimit.Forgetting.Promise.{decided, decided-new}
use heeler.Common.Lines.{show_hex}
use heeler.Common.Text.{starts_with, strip_prefix, trim, trim_start, is_whitespace}
use heeler.Common.Words.{u32_to_be, as_u8, as_u32}
use heeler.Packet.{encode, flags_byte}
use heeler.Packet.LeapIndicator
use heeler.Packet.Mode
use heeler.Packet.ReferenceId.{as_bytes}
use heeler.Timestamp
use heeler.Inspect.{decode_hex, cleaned, trim_prefixes, byte_len, decode_pairs, to_digit}
use heeler.Inspect.Render.{inspect_text}
use heeler.Inspect.ReadBack.{read_packet, inspect_text-read_packet}
use heeler.Examples.Data.{settings, request, request-IsPacket}

-- A clock that moves by a microsecond at each reading.
measure_system_range_example :
    let m = measure_steps (λ k. pos (k * 1000)) in
    (m.reads ≤ 1_600_016)
    × IsMeasured (λ k. pos (k * 1000)) m
    × (negsuc 29 ≤ℤ measure_system (λ n. negsuc 19) (λ k. pos (k * 1000)))
    × (measure_system (λ n. negsuc 19) (λ k. pos (k * 1000)) ≤ℤ pos 0)
measure_system_range_example = measure_system_range (λ k. pos (k * 1000)) (λ n. negsuc 19)

-- Two clients; the sweep forgets both, and the first comes back.
abbrev late : ℕ
late = 700_000_000_000

abbrev history : List (Call settings)
history =
    checks (v4 1) 5 ∷ checks (v4 2) 6 ∷ checks (v4 1) 7 ∷ sweeps late ∷ checks (v4 1) late ∷ []

decided-new_example :
    decided settings (RateLimit.new settings 0) history
    ≡ promised settings (unseen settings 0) history
decided-new_example =
    decided-new settings (v4 1 ∷ v4 2 ∷ []) 0 late history refl (omega arith) (omega arith)
      (omega arith) (omega arith) (omega arith)
      (omega arith, (omega arith, (omega arith, (omega arith, (omega arith, omega arith)))))
      (refl, (refl, (refl, (refl, tt))))

-- A request and two bytes more, in hexadecimal; seconds are written as nothing.
abbrev dump : List ℕ → List ℕ
dump [] = []
dump (b ∷ bytes) = show_hex 2 b ++ dump bytes

abbrev extra : List ℕ
extra = 1 ∷ 2 ∷ []

dumped : decode_hex (dump (encode request ++ extra)) ≡ some (ok (encode request ++ extra))
unfolding decode_hex cleaned trim trim_start is_whitespace trim_prefixes byte_len decode_pairs
    to_digit encode flags_byte LeapIndicator.to_bits Mode.to_bits u32_to_be as_u8 as_u32 as_bytes
    Timestamp.to_be_bytes show_hex
dumped = refl

inspect_text-read_packet_example :
    (text : List ℕ) × (inspect_text
        (λ z. [])
        (dump (encode request ++ extra))
        (record { nanos = pos 0 })
      ≡ some (ok text))
    × (read_packet request.reference_id text ≡ some request)
inspect_text-read_packet_example =
    inspect_text-read_packet (λ z. []) (λ z. refl) request extra (dump (encode request ++ extra))
      (record { nanos = pos 0 }) request-IsPacket dumped

-- SIGTERM, which is not listened for, and then both at once.
abbrev polls : List Poll
polls =
    record { interrupted = false; terminated = true; ctrl_c_first = false }
    ∷ record { interrupted = true; terminated = true; ctrl_c_first = false }
    ∷ []

wait_for_signal_exact_example :
    ((any (is_ready true false) polls ≡ false) × (wait_for_signal true false polls ≡ none))
    ⊎ ((before : List Poll) × (p : Poll) × (later : List Poll) × (polls ≡ before ++ (p ∷ later))
        × (any (is_ready true false) before ≡ false)
        × (is_ready true false p ≡ true)
        × Names true false p (wait_for_signal true false polls))
wait_for_signal_exact_example = wait_for_signal_exact true false polls

-- Two requests for the metrics that differ after the path, and a failed accept.
abbrev asking : List ℕ → List Accept
asking text =
    accepted (record {
      metrics = Metrics.new;
      uptime = 9;
      read = bytes_read (codes "GET /metrics " ++ text);
    })
    ∷ accept_failed
    ∷ flag_changed true
    ∷ []

serve_metrics-oblivious_example :
    serve_metrics (λ n. []) (asking (codes "HTTP/1.1"))
    ≡ serve_metrics (λ n. []) (asking (codes "secret"))
unfolding starts_with strip_prefix
serve_metrics-oblivious_example =
    serve_metrics-oblivious (λ n. []) (asking (codes "HTTP/1.1")) (asking (codes "secret")) refl

-- No global limit; what the first of the two clients is decided.
abbrev ungated : RateLimitSettings
ungated = record settings { global_requests_per_second = 0 }

abbrev mixed : List (Call ungated)
mixed = checks (v4 1) 5 ∷ checks (v4 2) 6 ∷ checks (v4 1) 7 ∷ sweeps late ∷ checks (v4 1) late ∷ []

decided-alone_example :
    decisions_for ungated (v4 1) mixed (decided ungated (RateLimit.new ungated 0) mixed)
    ≡ decided ungated (RateLimit.new ungated 0) (alone ungated (v4 1) mixed)
decided-alone_example =
    decided-alone ungated (v4 1) (v4 1 ∷ v4 2 ∷ []) 0 late mixed refl refl (omega arith)
      (omega arith) (omega arith) (omega arith) (omega arith)
      (omega arith, (omega arith, (omega arith, (omega arith, (omega arith, omega arith)))))
      (refl, (refl, (refl, (refl, tt))))
