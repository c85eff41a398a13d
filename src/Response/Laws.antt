-- ===== src/Response/Laws.antt =====
-- response.rs: what a client reads from a response, and that responses are well formed.
use heeler.Common.{◌≡◌, ◌⊎◌, inl, inr, refl, [], ok, arith, IsByte}
use mathlib.Core.List.{append-nil}
use heeler.Common.Int.{ℤ, pos, ◌≤ℤ◌, ◌+ℤ◌}
use heeler.Common.Words.{IsI8, IsI32, IsU32}
use heeler.Packet.{NtpPacket, IsPacket, parse, encode}
use heeler.Packet.LeapIndicator
use heeler.Packet.Mode
use heeler.Packet.Stratum
use heeler.Packet.ReferenceId
use heeler.Packet.ReferenceId.{ReferenceId, IsReferenceId, KissCode}
use heeler.Packet.RoundTrip.{parse-encode}
use heeler.Timestamp.{NtpTimestamp, IsTimestamp, zero_timestamp}
use heeler.Response.{
  ServerIdentity, ClockStatus, synchronised, unsynchronised, echo_poll, build_response,
  build_kiss_of_death, finalize_transmit_timestamp, min_poll, max_poll, served_stratum, served_leap,
}

pub record IsIdentity (i : ServerIdentity) : Type 0 where
  pub stratum_fits : IsByte i.stratum
  pub reference_id_fits : IsReferenceId i.reference_id
  pub precision_fits : IsI8 i.precision
  pub root_delay_fits : IsI32 i.root_delay
  pub root_dispersion_fits : IsU32 i.root_dispersion

-- The poll exponent of a response lies between 4 and 17; it is the client's if that does.
pub echo_poll_bounds :
    (client default : ℤ)
    → (min_poll ≤ℤ echo_poll client default)
      × (echo_poll client default ≤ℤ max_poll)
      × ((echo_poll client default ≡ client)
          ⊎ (client +ℤ pos 1 ≤ℤ min_poll)
          ⊎ (max_poll +ℤ pos 1 ≤ℤ client))
unfolding echo_poll ◌+ℤ◌
echo_poll_bounds client default = (ground arith, ground arith, ground arith)

echo_poll-IsI8 : (client default : ℤ) → IsI8 (echo_poll client default)
echo_poll-IsI8 client default = let (lo, hi, _) = echo_poll_bounds client default in omega arith

zero_timestamp-IsTimestamp : IsTimestamp zero_timestamp
zero_timestamp-IsTimestamp = omega arith

served_stratum-IsByte :
    (i : ServerIdentity) (s : ClockStatus) → IsByte i.stratum → IsByte (served_stratum i s)
served_stratum-IsByte i synchronised h = h
served_stratum-IsByte i unsynchronised h = omega arith

reference_id-IsReferenceId : (code : KissCode) → IsReferenceId (ReferenceId.reference_id code)
unfolding ReferenceId.reference_id
reference_id-IsReferenceId ReferenceId.rate = omega arith
reference_id-IsReferenceId ReferenceId.deny = omega arith
reference_id-IsReferenceId ReferenceId.restrict = omega arith

-- What is encoded alone is decoded alone.
pub decoded :
    (p : NtpPacket) → IsPacket p → parse (encode p) ≡ ok (record { packet = p; trailing_bytes = 0 })
decoded p h = rw append-nil at (parse-encode p [] h)

module _ (request : NtpPacket) (fits : IsPacket request) where
  build_response-IsPacket :
      (identity : ServerIdentity) (status : ClockStatus) (reference receive transmit : NtpTimestamp)
      → IsIdentity identity
      → IsTimestamp reference
      → IsTimestamp receive
      → IsTimestamp transmit
      → IsPacket (
          finalize_transmit_timestamp
            (build_response request identity status reference receive)
            transmit)
  unfolding build_response finalize_transmit_timestamp
  build_response-IsPacket identity status reference receive transmit i r2 r3 r4 = record {
    version_fits = fits.version_fits;
    stratum_fits = served_stratum-IsByte identity status i.stratum_fits;
    poll_fits = echo_poll-IsI8 request.poll identity.default_poll;
    precision_fits = i.precision_fits;
    root_delay_fits = i.root_delay_fits;
    root_dispersion_fits = i.root_dispersion_fits;
    reference_id_fits = i.reference_id_fits;
    reference_timestamp_fits = r2;
    origin_timestamp_fits = fits.transmit_timestamp_fits;
    receive_timestamp_fits = r3;
    transmit_timestamp_fits = r4;
  }

  build_kiss_of_death-IsPacket :
      (code : KissCode) (receive transmit : NtpTimestamp)
      → IsTimestamp receive
      → IsTimestamp transmit
      → IsPacket (finalize_transmit_timestamp (build_kiss_of_death request code receive) transmit)
  unfolding build_kiss_of_death finalize_transmit_timestamp
  build_kiss_of_death-IsPacket code receive transmit r3 r4 = record {
    version_fits = fits.version_fits;
    stratum_fits = omega arith;
    poll_fits = echo_poll-IsI8 request.poll min_poll;
    precision_fits = omega arith;
    root_delay_fits = omega arith;
    root_dispersion_fits = omega arith;
    reference_id_fits = reference_id-IsReferenceId code;
    reference_timestamp_fits = zero_timestamp-IsTimestamp;
    origin_timestamp_fits = fits.transmit_timestamp_fits;
    receive_timestamp_fits = r3;
    transmit_timestamp_fits = r4;
  }

  -- The client decodes a response to one server packet without trailing bytes that mirrors the
  -- request's version, echoes the request's transmit timestamp as origin, and carries the server's
  -- receive and transmit timestamps. While the clock is unsynchronised it says stratum 16 and leap
  -- indicator 3, whatever is configured; otherwise it says what is configured.
  pub parse-response :
      (identity : ServerIdentity) (status : ClockStatus) (reference receive transmit : NtpTimestamp)
      → IsIdentity identity
      → IsTimestamp reference
      → IsTimestamp receive
      → IsTimestamp transmit
      → let response = build_response request identity status reference receive in
        (q : NtpPacket) × (parse (encode (finalize_transmit_timestamp response transmit))
          ≡ ok (record { packet = q; trailing_bytes = 0 }))
        × (q.mode ≡ Mode.server)
        × (q.version ≡ request.version)
        × (q.origin_timestamp ≡ request.transmit_timestamp)
        × (q.receive_timestamp ≡ receive)
        × (q.transmit_timestamp ≡ transmit)
        × (q.reference_timestamp ≡ reference)
        × ((status ≡ unsynchronised
              × q.stratum ≡ Stratum.unsynchronised
              × q.leap ≡ LeapIndicator.unsynchronised)
            ⊎ (status ≡ synchronised × q.stratum ≡ identity.stratum × q.leap ≡ identity.leap))
  unfolding build_response finalize_transmit_timestamp
  parse-response identity status reference receive transmit i r1 r2 r3 = (
    finalize_transmit_timestamp (build_response request identity status reference receive) transmit,
    decoded _ (build_response-IsPacket identity status reference receive transmit i r1 r2 r3),
    refl,
    refl,
    refl,
    refl,
    refl,
    refl,
    by_status status,
  )
    where
      by_status :
          (s : ClockStatus)
          → (s ≡ unsynchronised
              × served_stratum identity s ≡ Stratum.unsynchronised
              × served_leap identity s ≡ LeapIndicator.unsynchronised)
            ⊎ (s ≡ synchronised
                × served_stratum identity s ≡ identity.stratum
                × served_leap identity s ≡ identity.leap)
      by_status unsynchronised = inl (refl, refl, refl)
      by_status synchronised = inr (refl, refl, refl)
