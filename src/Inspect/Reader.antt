-- ===== src/Inspect/Reader.antt =====
-- inspect.rs, `render`: a reader of the text that it prints, by the positions of its fields, and what
-- it reads back.
use heeler.Common.{
  ℕ, zero, suc, ◌+◌, ◌*◌, ◌/◌, ◌%◌, ◌^◌, ◌<◌, ◌≡◌, refl, ◌∙◌, ap, Option, none, some, List, [], ◌∷◌,
  ◌++◌, codes, drop, get_or, All, arith,
}
use mathlib.Core.List.{append_assoc}
use native.Mathlib.Numerals.{unary_clauses}
use heeler.Common.Int.{ℤ, pos, negsuc}
use heeler.Common.Words.{IsI8}
use heeler.Common.Text.{split, strip_prefix, parse_unsigned}
use heeler.Common.Decimal.{show, show-digits, IsDigit, parse_unsigned-show}
use heeler.Common.Lines.{
  show-IsFree, show_int, show_int-IsFree, show_hex, hex_digit, split-part, split-whole,
}
use heeler.Inspect.{to_digit}
use heeler.Inspect.Render.{power_of_two}

abbrev pub and_then {ℓ κ} : {A : Type ℓ} {B : Type κ} → Option A → (A → Option B) → Option B
and_then none next = none
and_then (some a) next = next a

-- The characters up to the first space.
abbrev first_word : List ℕ → List ℕ
first_word text = get_or (split b' ' text) 0 []

unfoldable pub read_number : List ℕ → Option ℕ
unfolding split parse_unsigned
read_number text = parse_unsigned 256 (first_word text)

abbrev negated : ℕ → Option ℤ
negated zero = none
negated (suc n) = some (negsuc n)

unfoldable read_word : List ℕ → Option ℤ
unfolding strip_prefix parse_unsigned
read_word word = elim (strip_prefix (b'-' ∷ []) word) [
  | some digits ↦ and_then (parse_unsigned 256 digits) negated
  | none ↦ and_then (parse_unsigned 256 word) (λ n. some (pos n))
]

unfoldable pub read_int : List ℕ → Option ℤ
unfolding split read_word
read_int text = read_word (first_word text)

-- Exactly so many hexadecimal digits, after those read.
unfoldable pub read_digits : ℕ → ℕ → List ℕ → Option ℕ
unfolding to_digit
read_digits zero n text = some n
read_digits (suc k) n [] = none
read_digits (suc k) n (c ∷ text) = and_then (to_digit c) (λ d. read_digits k (n * 16 + d) text)

-- After `0x`.
unfoldable pub read_hex : ℕ → List ℕ → Option ℕ
unfolding read_digits
read_hex width text = read_digits width 0 (drop 2 text)

to_digit-hex_digit : (d : ℕ) → d < 16 → to_digit (hex_digit d) ≡ some d
unfolding to_digit
to_digit-hex_digit d h = ground (arith, h)

read_digits_one :
    (k n d : ℕ) (text : List ℕ)
    → d < 16
    → read_digits (suc k) n (hex_digit d ∷ text) ≡ read_digits k (n * 16 + d) text
unfolding read_digits
read_digits_one k n d text h = rw (to_digit-hex_digit d h) refl

read_digits-show_hex :
    (width k n : ℕ) (rest : List ℕ)
    → n < 16 ^ width
    → read_digits (width + k) 0 (show_hex width n ++ rest) ≡ read_digits k n rest
unfolding show_hex
read_digits-show_hex zero k n rest h =
    let none_left : n ≡ 0 = omega (arith, simp unary_clauses at h) in
    let same : zero + k ≡ k = omega arith in rw (none_left, same) refl
read_digits-show_hex (suc width) k n rest h =
    let last = hex_digit (n % 16) in
    let ih =
      read_digits-show_hex width (suc k) (n / 16) (last ∷ rest)
        (omega (arith, simp unary_clauses at h)) in
    let same : suc width + k ≡ width + suc k = omega arith in
    let whole : n / 16 * 16 + n % 16 ≡ n = omega arith in
    rw (same, append_assoc (show_hex width (n / 16)) (last ∷ []) rest)
      (ih
        ∙ read_digits_one k (n / 16) (n % 16) rest (omega arith)
        ∙ ap (λ m. read_digits k m rest) whole)

pub read_hex-show_hex :
    (width n : ℕ) (rest : List ℕ)
    → n < 16 ^ width
    → read_hex width (codes "0x" ++ (show_hex width n ++ rest)) ≡ some n
unfolding read_hex
read_hex-show_hex width n rest h =
    let same : width ≡ width + 0 = omega arith in
    ap (λ w. read_digits w 0 (show_hex width n ++ rest)) same
    ∙ read_digits-show_hex width 0 n rest h
    ∙ unfold read_digits in refl

pub read_number-show :
    (n : ℕ) (rest : List ℕ) → n < 256 → read_number (show n ++ (b' ' ∷ rest)) ≡ some n
unfolding read_number
read_number-show n rest h =
    rw (split-part b' ' (show n) rest (show-IsFree b' ' n (omega arith)))
      (parse_unsigned-show 256 n h (omega (arith, h)))

pub read_number-show_all : (n : ℕ) → n < 256 → read_number (show n) ≡ some n
unfolding read_number
read_number-show_all n h =
    rw (split-whole b' ' (show n) (show-IsFree b' ' n (omega arith)))
      (parse_unsigned-show 256 n h (omega (arith, h)))

no_sign : (l : List ℕ) → All IsDigit l → strip_prefix (b'-' ∷ []) l ≡ none
unfolding strip_prefix
no_sign [] h = refl
no_sign (c ∷ l) ((low, high), h) = ground (arith, low)

strip_sign : (digits : List ℕ) → strip_prefix (b'-' ∷ []) (b'-' ∷ digits) ≡ some digits
unfolding strip_prefix
strip_sign digits = refl

read_word-show_int : (z : ℤ) → IsI8 z → read_word (show_int z) ≡ some z
unfolding read_word
read_word-show_int (pos n) (lo, hi) = ground (
  arith,
  no_sign (show n) (show-digits n),
  parse_unsigned-show 256 n (omega (arith, hi)) (omega (arith, hi)),
)
read_word-show_int (negsuc n) (lo, hi) = ground (
  arith,
  strip_sign (show (suc n)),
  parse_unsigned-show 256 (suc n) (omega (arith, lo)) (omega (arith, lo)),
)

first_word-show_int :
    (z : ℤ) (rest : List ℕ) → first_word (show_int z ++ (b' ' ∷ rest)) ≡ show_int z
first_word-show_int z rest =
    rw (split-part b' ' (show_int z) rest (show_int-IsFree b' ' z (omega arith))) refl

pub read_int-power_of_two : (z : ℤ) → IsI8 z → read_int (power_of_two z) ≡ some z
unfolding read_int
read_int-power_of_two z h =
    ap read_word (first_word-show_int z (codes "(2^" ++ (show_int z ++ codes " s)")))
    ∙ read_word-show_int z h
