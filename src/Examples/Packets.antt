-- ===== src/Examples/Packets.antt =====
-- The results on packets, validation and responses, at a concrete request.
use heeler.Common.{◌+◌, ◌<◌, ◌≡◌, ◌⊎◌, [], ◌∷◌, ◌++◌, ok, err, arith, take}
use heeler.Errors.{too_short}
use heeler.Packet.{NtpPacket, ParsedPacket, IsPacket, parse, encode, packet_size}
use heeler.Packet.LeapIndicator
use heeler.Packet.Mode
use heeler.Packet.Stratum
use heeler.Packet.RoundTrip.{parse-encode, parse_cases}
use heeler.Response.{synchronised, unsynchronised, build_response, finalize_transmit_timestamp}
use heeler.Response.Laws.{parse-response}
use heeler.Examples.Data.{
  request, request-IsPacket, identity, identity-IsIdentity, stamp, stamp-IsTimestamp,
}

parse-encode_example :
    parse (encode request ++ (1 ∷ 2 ∷ [])) ≡ ok (record { packet = request; trailing_bytes = 2 })
parse-encode_example = parse-encode request (1 ∷ 2 ∷ []) request-IsPacket

parse_cases_example :
    ((3 < packet_size) × (parse (27 ∷ 0 ∷ 6 ∷ []) ≡ err (too_short 3)))
    ⊎ ((q : ParsedPacket) × (parse (27 ∷ 0 ∷ 6 ∷ []) ≡ ok q)
        × IsPacket q.packet
        × (encode q.packet ≡ take packet_size (27 ∷ 0 ∷ 6 ∷ []))
        × (q.trailing_bytes + packet_size ≡ 3))
parse_cases_example = parse_cases (27 ∷ 0 ∷ 6 ∷ []) (omega arith, (omega arith, (omega arith, tt)))

parse-response_example :
    let response = build_response request identity unsynchronised stamp stamp in
    (q : NtpPacket) × (parse (encode (finalize_transmit_timestamp response stamp))
      ≡ ok (record { packet = q; trailing_bytes = 0 }))
    × (q.mode ≡ Mode.server)
    × (q.version ≡ 4)
    × (q.origin_timestamp ≡ stamp)
    × (q.receive_timestamp ≡ stamp)
    × (q.transmit_timestamp ≡ stamp)
    × (q.reference_timestamp ≡ stamp)
    × ((unsynchronised ≡ unsynchronised
          × q.stratum ≡ Stratum.unsynchronised
          × q.leap ≡ LeapIndicator.unsynchronised)
        ⊎ (unsynchronised ≡ synchronised × q.stratum ≡ 2 × q.leap ≡ LeapIndicator.no_warning))
parse-response_example =
    parse-response request request-IsPacket identity unsynchronised stamp stamp stamp
      identity-IsIdentity stamp-IsTimestamp stamp-IsTimestamp stamp-IsTimestamp
