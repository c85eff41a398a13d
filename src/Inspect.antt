-- ===== src/Inspect.antt =====
-- crates/heeler-server/src/inspect.rs: reading hexadecimal, and the calendar date of an instant. Text
-- is the list of its code points. What is printed of a packet is in Render.
pub mod Hex
pub mod Cleaned
pub mod Trimmed
pub mod Calendar
pub mod Days
pub mod Fields
pub mod Format
pub mod Render
pub mod Lines
pub mod Reader
pub mod ReadBack
use heeler.Common.{
  ℕ, zero, suc, ◌+◌, ◌-◌, ◌*◌, ◌/◌, ◌%◌, ◌^◌, Bool, true, false, not, ◌&&◌, ◌||◌, leb, ltb, ◌==◌,
  if◌then◌else◌, Option, none, some, List, [], ◌∷◌, ◌++◌, filter, Result, ok, err, ok_or, map_err,
  ◌>>=◌,
}
use heeler.Common.Text.{within, is_whitespace, trim}
use heeler.Common.Int.{ℤ, pos, ◌+ℤ◌, ◌*ℤ◌, div_euclid, rem_euclid}
use heeler.Common.Words.{wrap_i64}
use heeler.Errors.{ParseError}
use heeler.Packet.{ParsedPacket, parse}
use heeler.Timestamp.{NtpInstant, as_unix_nanos}

pub data InspectError : Type 0 where
  invalid_hex : ℕ → InspectError
  odd_length : InspectError
  unparsed : ParseError → InspectError

-- `char::to_digit(16)`.
unfoldable pub to_digit : ℕ → Option ℕ
to_digit c =
    if within b'0' b'9' c
    then some (c - b'0')
    else if within b'a' b'f' c
    then some (c - b'a' + 10)
    else if within b'A' b'F' c
    then some (c - b'A' + 10)
    else none

-- The length of a character in UTF-8, and of a text: `String::len`.
abbrev pub char_len : ℕ → ℕ
char_len c = if ltb c 0x80 then 1 else if ltb c 0x800 then 2 else if ltb c 0x10000 then 3 else 4

unfoldable pub byte_len : List ℕ → ℕ
byte_len [] = 0
byte_len (c ∷ text) = char_len c + byte_len text

-- `trim_start_matches("0x")` removes the prefix as often as it stands there.
unfoldable pub trim_prefixes : List ℕ → List ℕ
trim_prefixes [] = []
trim_prefixes (c ∷ []) = c ∷ []
trim_prefixes (c ∷ d ∷ text) =
    let rest = trim_prefixes text in if c == b'0' && d == b'x' then rest else c ∷ d ∷ text

-- Trimmed, without the prefix, and without the white space that is left.
unfoldable pub cleaned : List ℕ → List ℕ
unfolding is_whitespace trim trim_prefixes
cleaned input = filter (λ c. not (is_whitespace c)) (trim_prefixes (trim input))

-- `chunks(2)` from the i-th pair. `none` is the panic of `pair[1]` on a single digit.
unfoldable pub decode_pairs : ℕ → List ℕ → Option (Result InspectError (List ℕ))
decode_pairs i [] = some (ok [])
decode_pairs i (c ∷ []) = elim (to_digit c) [
  | none ↦ some (err (invalid_hex (i * 2)))
  | some _ ↦ none
]
decode_pairs i (c ∷ d ∷ digits) = elim (to_digit c) [
  | none ↦ some (err (invalid_hex (i * 2)))
  | some hi ↦ elim (to_digit d) [
    | none ↦ some (err (invalid_hex (i * 2 + 1)))
    | some lo ↦ elim (decode_pairs (suc i) digits) [
      | none ↦ none
      | some (err e) ↦ some (err e)
      | some (ok bytes) ↦ some (ok ((hi * 16 + lo) % 256 ∷ bytes))
    ]
  ]
]

unfoldable pub decode_hex : List ℕ → Option (Result InspectError (List ℕ))
unfolding cleaned byte_len decode_pairs
decode_hex input =
    let digits = cleaned input in
    let decoded = decode_pairs 0 digits in
    if not (byte_len digits % 2 == 0) then some (err odd_length) else decoded

abbrev parse_decoded :
    Option (Result InspectError (List ℕ)) → Option (Result InspectError ParsedPacket)
parse_decoded none = none
parse_decoded (some r) = some (r >>= λ bytes. map_err unparsed (parse bytes))

-- `inspect`, up to the rendering, which Render adds.
unfoldable pub inspect : List ℕ → Option (Result InspectError ParsedPacket)
unfolding decode_hex
inspect input = parse_decoded (decode_hex input)

pub record Civil : Type 0 where
  pub year : ℤ
  pub month : ℕ
  pub day : ℕ

-- The part of `civil_from_days` within an era of 400 years, from the day of the era: the year of the
-- era and the day of that year, both counted from March.
unfoldable pub year_of_era : ℕ → ℕ
year_of_era doe = (doe - doe / 1460 + doe / 36_524 - doe / 146_096) / 365

unfoldable pub day_of_year : ℕ → ℕ
unfolding year_of_era
day_of_year doe = let yoe = year_of_era doe in doe - (365 * yoe + yoe / 4 - yoe / 100)

unfoldable pub month_index : ℕ → ℕ
month_index doy = (5 * doy + 2) / 153

-- The date of a day of an era.
unfoldable pub civil_of_era : ℤ → ℕ → Civil
unfolding year_of_era day_of_year month_index
civil_of_era era doe =
    let doy = day_of_year doe in
    let mp = month_index doy in
    let year = pos (year_of_era doe) +ℤ era *ℤ pos 400 in
    let month = if ltb mp 10 then mp + 3 else mp - 9 in
    record {
      year = if leb month 2 then year +ℤ pos 1 else year;
      month = month;
      day = doy - (153 * mp + 2) / 5 + 1;
    }

-- The first addition is on i64; what follows does not overflow.
unfoldable pub civil_from_days : ℤ → Civil
unfolding civil_of_era
civil_from_days days =
    let z = wrap_i64 (days +ℤ pos 719_468) in
    civil_of_era (div_euclid z 146_097) (rem_euclid z 146_097)

pub record Moment : Type 0 where
  pub date : Civil
  pub hour : ℕ
  pub minute : ℕ
  pub second : ℕ
  pub nanos : ℕ

-- What `format_instant` prints, field by field.
unfoldable pub moment : NtpInstant → Moment
unfolding civil_from_days
moment instant =
    let unix_nanos = as_unix_nanos instant in
    let seconds = div_euclid unix_nanos 1_000_000_000 in
    let days = div_euclid seconds 86_400 in
    let secs_of_day = rem_euclid seconds 86_400 in
    record {
      date = civil_from_days (wrap_i64 days);
      hour = secs_of_day / 3600;
      minute = secs_of_day % 3600 / 60;
      second = secs_of_day % 60;
      nanos = rem_euclid unix_nanos 1_000_000_000;
    }
