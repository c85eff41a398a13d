-- ===== src/Bench.antt =====
-- crates/heeler-server/src/bench.rs: the operations that `heeler bench` repeats, and its report. The
-- result of an operation is thrown away, so that a repetition is its elapsed time only; how std writes
-- the nanoseconds of one operation, to one place and in eight columns, is an argument.
use Prim.Native.String.{String}
use heeler.Common.{
  ℕ, ◌≡◌, refl, Bool, true, false, ◌==◌, List, [], ◌∷◌, ◌++◌, codes, get_or, replicate, Result, ok,
  err,
}
use heeler.Common.Int.{ℤ, pos, negsuc, ltb_ℤ, ◌+ℤ◌, div_euclid, rem_euclid}
use heeler.Common.Lines.{Line, unlines}
use heeler.Timestamp.{from_system_time, from_unix_nanos, to_timestamp, from_be_bytes, to_be_bytes}
use heeler.Packet.{
  NtpPacket, ParsedPacket, version_from_bits, decode_fields, flags_byte, parse, encode,
}
use heeler.Packet.Mode
use heeler.Common.Words.{as_i8, as_u8, as_i32, as_u32, u32_from_be, u32_to_be}
use heeler.Packet.LeapIndicator
use heeler.Packet.ReferenceId.{from_bytes, as_bytes}
use heeler.Response.{ServerIdentity, synchronised, build_response, echo_poll}

abbrev pub request : List ℕ
request =
    0x23 ∷ 0 ∷ 0x06 ∷ 0xec ∷ (replicate 36 0 ++ (0xe3 ∷ 0xb0 ∷ 0xf2 ∷ 0xac ∷ 0x80 ∷ 0 ∷ 0 ∷ 0 ∷ []))

abbrev pub is_ok {ℓ κ} : {E : Type ℓ} {A : Type κ} → Result E A → Bool
is_ok (ok _) = true
is_ok (err _) = false

-- `ReferenceId::DEFAULT` is `HLER`.
abbrev identity : ServerIdentity
identity = record {
  stratum = 2;
  reference_id = from_bytes b'H' b'L' b'E' b'R';
  precision = negsuc 19;
  root_delay = pos 0;
  root_dispersion = 327;
  default_poll = pos 6;
  leap = LeapIndicator.no_warning;
}

abbrev pub parse_op : Bool
parse_op = is_ok (parse request)

abbrev pub encode_op : NtpPacket → Bool
encode_op packet = get_or (encode packet) 0 0 == 0x23

abbrev pub clock_op : ℤ → Bool
clock_op wall = ltb_ℤ (pos 0) (from_system_time wall).nanos

abbrev pub convert_op : Bool
convert_op = is_ok (to_timestamp (from_unix_nanos (pos 1_700_000_000_123_456_789)))

abbrev is_six : ℤ → Bool
is_six (pos n) = n == 6
is_six (negsuc n) = false

abbrev pub build_op : NtpPacket → Bool
build_op packet =
    is_six
      (build_response packet identity synchronised (record { seconds = 0xe3b0f000; fraction = 0 })
        (record { seconds = 0xe3b0f2ad; fraction = 0x10000000 })).poll

-- The elapsed nanoseconds of each million of repetitions.
pub record Timings : Type 0 where
  pub parse_elapsed : ℕ
  pub encode_elapsed : ℕ
  pub clock_elapsed : ℕ
  pub convert_elapsed : ℕ
  pub build_elapsed : ℕ

abbrev pub iterations : ℕ
iterations = 1_000_000

module _ (show_per_op : ℕ → ℕ → List ℕ) where
  abbrev rate : String → ℕ → Line
  rate label elapsed = codes label ++ (show_per_op elapsed iterations ++ codes " ns/op")

  -- The last line has no line break.
  abbrev pub bench_report : Timings → List ℕ
  bench_report t =
      unlines (
        codes "Heeler micro-benchmarks (software cost only)"
        ∷ []
        ∷ rate "packet parse               " t.parse_elapsed
        ∷ rate "packet encode              " t.encode_elapsed
        ∷ rate "system clock read          " t.clock_elapsed
        ∷ rate "timestamp conversion       " t.convert_elapsed
        ∷ rate "response build             " t.build_elapsed
        ∷ []
        ∷ codes "note: these measure CPU cost, not time accuracy. Served accuracy is"
        ∷ codes "bounded by host clock quality and synchronisation, kernel scheduling,"
        ∷ [])
      ++ codes "network latency and asymmetry, virtualisation, and CPU power management."

  abbrev reported {ℓ} : {E : Type ℓ} → Timings → Result E ParsedPacket → List ℕ
  reported t (err _) = codes "internal error: benchmark request invalid"
  reported t (ok _) = bench_report t

  unfoldable pub run : Timings → List ℕ
  unfolding parse
  run t = reported t (parse request)

  -- The request of the benchmark is valid, so that the report is never that of the internal error.
  pub run_lem : (t : Timings) → run t ≡ bench_report t
  unfolding run parse
  run_lem t = refl

-- Every repetition does what it is to measure: the request parses, the packet's encoding starts with the
-- request's first byte, the conversion succeeds, and the response has the poll of the request.
pub operations_lem :
    let packet = decode_fields request in
    (parse request ≡ ok (record { packet = packet; trailing_bytes = 0 }))
    × (parse_op ≡ true)
    × (encode_op packet ≡ true)
    × (convert_op ≡ true)
    × (build_op packet ≡ true)
unfolding parse decode_fields version_from_bits LeapIndicator.from_bits LeapIndicator.to_bits
    Mode.from_bits Mode.to_bits as_i8 as_u8 as_i32 as_u32 u32_from_be u32_to_be from_bytes as_bytes
    from_be_bytes to_be_bytes flags_byte encode build_response echo_poll to_timestamp
    from_unix_nanos ◌+ℤ◌ div_euclid rem_euclid
operations_lem = (refl, refl, refl, refl, refl)
