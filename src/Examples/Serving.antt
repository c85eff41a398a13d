-- ===== src/Examples/Serving.antt =====
-- The results on the server and its configuration, at concrete datagrams and events.
use heeler.Common.{◌+◌, ◌≤◌, ◌≡◌, refl, true, none, some, ok, arith, length}
use heeler.Timestamp.{zero_timestamp, to_timestamp}
use heeler.Packet.{ParsedPacket, parse, encode, packet_size}
use heeler.Packet.Shape.{length-encode}
use heeler.Response.{build_response, finalize_transmit_timestamp, synchronised}
use heeler.Response.Laws.{decoded}
use heeler.Packet.Mode.{mode_eq}
use heeler.Common.Int.{pos, div_euclid, rem_euclid}
use heeler.Validation.{validate, default_policy}
use heeler.Clock.{from_instant, ClockReading}
use heeler.Clock.Mock.{mock_clock_source}
use heeler.Access.{v4, evaluate, allowed, denied}
use heeler.RateLimit
use heeler.RateLimit.Client
use heeler.RateLimit.Bounds.{new-IsBounded}
use heeler.Metrics
use heeler.Server.{handle_datagram}
use heeler.Server.Accounting.{Handled, handle_datagram-Settled}
use heeler.Server.Replies.{Replies, handle_datagram-Replies, handle_datagram-no_amplification}
use heeler.Server.Answers.{handle_datagram-answers}
use heeler.Server.Loop.{LoopState}
use heeler.Server.Runs.{Balanced}
use heeler.Server.Sound.{IsSoundState}
use heeler.Config.Laws.{IsServable, validate-IsServable}
use heeler.Access.{from_rules, longest_match, canonicalise}
use heeler.RateLimit.Bucket.{try_take, refilled, refill}
use heeler.RateLimit.Table.{lookup}
use heeler.Examples.Data.{
  config, validated, config_valid, prefixes, acl, loopback, request-IsPacket, identity-IsIdentity,
  state, from_host, stamp, request, identity, clock, settings,
}

handle_datagram-Replies_example :
    Replies default_policy synchronised
      (from_host 1)
      stamp
      (handle_datagram mock_clock_source prefixes state (from_host 1) stamp).1
unfolding mock_clock_source
handle_datagram-Replies_example =
    handle_datagram-Replies mock_clock_source prefixes state (from_host 1) stamp

handle_datagram-Settled_example :
    Handled mock_clock_source prefixes state true
      (handle_datagram mock_clock_source prefixes state (from_host 9) stamp)
handle_datagram-Settled_example =
    handle_datagram-Settled mock_clock_source prefixes state (from_host 9) stamp

abbrev start : LoopState mock_clock_source prefixes none
start = record { server = state; ticks = 0 }

new-Balanced : Balanced state.metrics 0
unfolding Metrics.new
new-Balanced = refl

state-IsSoundState : IsSoundState mock_clock_source prefixes state
unfolding mock_clock_source RateLimit.new
state-IsSoundState = record {
  bounded = new-IsBounded settings 0;
  clock_sound = λ t e. cc;
  identity_fits = identity-IsIdentity;
}

abbrev pub reading : ClockReading
reading = record { instant = record { nanos = pos 3_900_000_000_500_000_000 }; timestamp = stamp }

abbrev parsed : ParsedPacket
parsed = record { packet = request; trailing_bytes = 0 }

request_parses : parse (encode request) ≡ ok parsed
request_parses = decoded request request-IsPacket

pub request_valid : validate default_policy parsed ≡ ok tt
unfolding validate mode_eq
request_valid = refl

pub host_allowed : evaluate prefixes acl (v4 (loopback + 1)) ≡ allowed
unfolding evaluate longest_match canonicalise
host_allowed = refl

pub rate_allowed :
    (RateLimit.check settings (RateLimit.new settings 0) (v4 (loopback + 1)) 1000).0
    ≡ Client.allowed
unfolding RateLimit.check RateLimit.take_global try_take refilled RateLimit.new refill
    RateLimit.check_client lookup RateLimit.check_new RateLimit.admit
rate_allowed = refl

pub clock_reads : (mock_clock_source.now clock).0 ≡ ok reading
unfolding mock_clock_source from_instant to_timestamp div_euclid rem_euclid
clock_reads = refl

pub reply_sent :
    (handle_datagram mock_clock_source prefixes state (from_host 1) stamp).1
    ≡ some (
      encode (
          finalize_transmit_timestamp
            (build_response request identity synchronised zero_timestamp stamp)
            stamp),
      (from_host 1).source,
    )
unfolding mock_clock_source
reply_sent =
    handle_datagram-answers mock_clock_source prefixes state (from_host 1) stamp parsed reading
      (omega (arith, length-encode request)) host_allowed rate_allowed request_parses request_valid
      clock_reads

handle_datagram-no_amplification_example :
    let reply = encode (
      finalize_transmit_timestamp
        (build_response request identity synchronised zero_timestamp stamp)
        stamp) in
    ((from_host 1).source ≡ (from_host 1).source)
    × (length reply ≡ packet_size)
    × (length reply ≤ length (encode request))
handle_datagram-no_amplification_example =
    handle_datagram-no_amplification mock_clock_source prefixes state (from_host 1) stamp _
      reply_sent

host_denied : evaluate prefixes acl (v4 (loopback + 9)) ≡ denied
unfolding evaluate longest_match canonicalise
host_denied = refl

validate-IsServable_example :
    (config ≡ config)
    × (from_rules prefixes config.access.allow config.access.deny config.access.default_action
        ≡ ok acl)
    × IsServable prefixes validated
validate-IsServable_example = validate-IsServable prefixes config validated config_valid

pub clock-IsSound : mock_clock_source.IsSound clock
unfolding mock_clock_source
clock-IsSound t e = cc
