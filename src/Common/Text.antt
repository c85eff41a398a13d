-- ===== src/Common/Text.antt =====
-- Text as a list of numbers: bytes, or code points where the program walks characters.
use Prim.Native.Nat.{ℕ, suc, ◌+◌, ◌-◌, ◌*◌, ◌^◌}
use mathlib.Core.Bool.{Bool, true, false, ◌&&◌, ◌||◌}
use mathlib.Core.Option.{Option, none, some}
use mathlib.Core.List.{List, [], ◌∷◌, ◌++◌, map}
use heeler.Common.Tests.{leb, ltb, ◌==◌, if◌then◌else◌}

abbrev pub reverse : List ℕ → List ℕ
reverse [] = []
reverse (c ∷ text) = reverse text ++ (c ∷ [])

-- `str::strip_prefix`.
unfoldable pub strip_prefix : List ℕ → List ℕ → Option (List ℕ)
strip_prefix [] text = some text
strip_prefix (p ∷ prefix) [] = none
strip_prefix (p ∷ prefix) (c ∷ text) = if p == c then strip_prefix prefix text else none

abbrev is_some : Option (List ℕ) → Bool
is_some none = false
is_some (some _) = true

unfoldable pub starts_with : List ℕ → List ℕ → Bool
unfolding strip_prefix
starts_with prefix text = is_some (strip_prefix prefix text)

-- `str::contains` of a nonempty text.
unfoldable pub contains_text : List ℕ → List ℕ → Bool
unfolding starts_with
contains_text part [] = false
contains_text part (c ∷ text) = starts_with part (c ∷ text) || contains_text part text

unfoldable pub count_byte : ℕ → List ℕ → ℕ
count_byte b [] = 0
count_byte b (c ∷ text) = if c == b then suc (count_byte b text) else count_byte b text

abbrev pub within : ℕ → ℕ → ℕ → Bool
within lo hi c = leb lo c && leb c hi

-- `char::is_whitespace`, Unicode's White_Space.
unfoldable pub is_whitespace : ℕ → Bool
is_whitespace c =
    within 9 13 c
    || c == 0x20
    || c == 0x85
    || c == 0xa0
    || c == 0x1680
    || within 0x2000 0x200a c
    || within 0x2028 0x2029 c
    || c == 0x202f
    || c == 0x205f
    || c == 0x3000

unfoldable pub trim_start : List ℕ → List ℕ
trim_start [] = []
trim_start (c ∷ text) = if is_whitespace c then trim_start text else c ∷ text

-- `str::trim`, both ends.
unfoldable pub trim : List ℕ → List ℕ
unfolding trim_start
trim text = reverse (trim_start (reverse (trim_start text)))

-- `str::split` at a character: one part more than there are separators.
abbrev onto_first : ℕ → List (List ℕ) → List (List ℕ)
onto_first c [] = (c ∷ []) ∷ []
onto_first c (part ∷ parts) = (c ∷ part) ∷ parts

unfoldable pub split : ℕ → List ℕ → List (List ℕ)
split sep [] = [] ∷ []
split sep (c ∷ text) =
    let parts = split sep text in if c == sep then [] ∷ parts else onto_first c parts

-- `str::lines`: a last empty part is no line, and a carriage return at a line's end goes.
abbrev chomp : List ℕ → List ℕ
chomp line = elim (reverse line) [ [] ↦ [] | c ∷ rest ↦ if c == b'\r' then reverse rest else line ]

unfoldable pub drop_last_empty : List (List ℕ) → List (List ℕ)
drop_last_empty [] = []
drop_last_empty ([] ∷ []) = []
drop_last_empty ((c ∷ part) ∷ []) = (c ∷ part) ∷ []
drop_last_empty (part ∷ q ∷ parts) = part ∷ drop_last_empty (q ∷ parts)

unfoldable pub lines : List ℕ → List (List ℕ)
unfolding split drop_last_empty
lines text = map chomp (drop_last_empty (split b'\n' text))

-- `parse` of an unsigned integer below `limit`: an optional plus sign and decimal digits.
unfoldable pub parse_digits : ℕ → ℕ → List ℕ → Option ℕ
parse_digits limit value [] = some value
parse_digits limit value (c ∷ text) =
    let next = value * 10 + (c - b'0') in
    let rest = parse_digits limit next text in
    if within b'0' b'9' c && ltb next limit then rest else none

unfoldable pub parse_unsigned : ℕ → List ℕ → Option ℕ
unfolding parse_digits
parse_unsigned limit [] = none
parse_unsigned limit (c ∷ []) = parse_digits limit 0 (c ∷ [])
parse_unsigned limit (c ∷ d ∷ text) =
    if c == b'+' then parse_digits limit 0 (d ∷ text) else parse_digits limit 0 (c ∷ d ∷ text)

unfoldable pub parse_u32 : List ℕ → Option ℕ
unfolding parse_unsigned
parse_u32 = parse_unsigned (2 ^ 32)

unfoldable pub parse_u8 : List ℕ → Option ℕ
unfolding parse_unsigned
parse_u8 = parse_unsigned 256
