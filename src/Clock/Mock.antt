-- ===== src/Clock/Mock.antt =====
-- clock.rs, `MockClockSource`: scripted readings in order, the last one repeated at the end.
use heeler.Common.{
  ℕ, ◌≡◌, refl, Option, none, some, List, [], ◌∷◌, ◌++◌, Result, ok, err, ok_or, ◌>>=◌,
}
use heeler.Common.Int.{ℤ, negsuc}
use heeler.Timestamp.{NtpInstant, NtpTimestamp, IsTimestamp}
use heeler.Response.{ClockStatus, synchronised}
use heeler.Clock.{
  ClockError, mock_exhausted, ClockReading, ClockSource, from_instant, from_instant-IsTimestamp,
}

pub record MockClockSource : Type 0 where
  pub queue : List (Result ClockError NtpInstant)
  pub last : Option (Result ClockError NtpInstant)
  pub mock_status : ClockStatus
  pub reference : Option NtpTimestamp
  pub precision : ℤ
  pub root_dispersion : ℕ

abbrev pub new : List (Result ClockError NtpInstant) → MockClockSource
new readings = record {
  queue = readings;
  last = none;
  mock_status = synchronised;
  reference = none;
  precision = negsuc 19;
  root_dispersion = 5_000_000;
}

-- One reading, which is repeated once the script is exhausted.
unfoldable pub fixed : NtpInstant → MockClockSource
unfolding new
fixed instant = new (ok instant ∷ [])

unfoldable pub set_status : MockClockSource → ClockStatus → MockClockSource
set_status s status = record s { mock_status = status }

unfoldable pub set_reference_timestamp : MockClockSource → Option NtpTimestamp → MockClockSource
set_reference_timestamp s ts = record s { reference = ts }

unfoldable pub push_reading : MockClockSource → Result ClockError NtpInstant → MockClockSource
push_reading s reading = record s { queue = s.queue ++ (reading ∷ []) }

abbrev flatten : Result ClockError (Result ClockError NtpInstant) → Result ClockError ClockReading
flatten r = do next ← r; instant ← next; from_instant instant

next_reading :
    List (Result ClockError NtpInstant)
    → MockClockSource
    → Result ClockError ClockReading × MockClockSource
next_reading [] s = (flatten (ok_or s.last mock_exhausted), s)
next_reading (reading ∷ rest) s =
    (flatten (ok reading), record s { queue = rest; last = some reading })

unfoldable pub now : MockClockSource → Result ClockError ClockReading × MockClockSource
unfolding next_reading
now s = next_reading s.queue s

abbrev pub HasReference : MockClockSource → Type 0
HasReference s = (t : NtpTimestamp) → s.reference ≡ some t → IsTimestamp t

flatten-IsTimestamp :
    (q : Result ClockError (Result ClockError NtpInstant)) (r : ClockReading)
    → flatten q ≡ ok r
    → IsTimestamp r.timestamp
flatten-IsTimestamp (ok (ok i)) r e = from_instant-IsTimestamp i r e
flatten-IsTimestamp (ok (err x)) r e = cc
flatten-IsTimestamp (err x) r e = cc

next_reading-IsTimestamp :
    (q : List (Result ClockError NtpInstant)) (s : MockClockSource) (r : ClockReading)
    → (next_reading q s).0 ≡ ok r
    → IsTimestamp r.timestamp
unfolding next_reading
next_reading-IsTimestamp [] s r e = flatten-IsTimestamp (ok_or s.last mock_exhausted) r e
next_reading-IsTimestamp (reading ∷ rest) s r e = flatten-IsTimestamp (ok reading) r e

next_reading-reference :
    (q : List (Result ClockError NtpInstant)) (s : MockClockSource)
    → (next_reading q s).1.reference ≡ s.reference
unfolding next_reading
next_reading-reference [] s = refl
next_reading-reference (reading ∷ rest) s = refl

pub mock_now_fits :
    (s : MockClockSource) (r : ClockReading) → (now s).0 ≡ ok r → IsTimestamp r.timestamp
unfolding now
mock_now_fits s r e = next_reading-IsTimestamp s.queue s r e

pub mock_now_sound : (s : MockClockSource) → HasReference s → HasReference (now s).1
unfolding now
mock_now_sound s h t e = h t (rw (next_reading-reference s.queue s) at e)

unfoldable pub mock_clock_source : ClockSource MockClockSource
unfolding now
mock_clock_source = record {
  now = now;
  status = λ s. s.mock_status;
  reference_timestamp = λ s. s.reference;
  estimated_precision = λ s. s.precision;
  estimated_root_dispersion = λ s. s.root_dispersion;
  IsSound = HasReference;
  now_sound = mock_now_sound;
  now_fits = mock_now_fits;
  reference_fits = λ s t h e. h t e;
}
