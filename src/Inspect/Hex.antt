-- ===== src/Inspect/Hex.antt =====
-- inspect.rs, `decode_hex`: what is decoded, what is refused, and that it never panics.
use heeler.Common.{
  true, not, ◌++◌, filter, all, ap, ◌∙◌, ℕ, suc, ◌/◌, ◌%◌, ◌<◌, ◌≡◌, ◌≢◌, refl, ◌==◌, none, some,
  List, [], ◌∷◌, map, ok, All, IsByte, arith, inl, inr, Option-cases, Bool-cases, ◌↔◌, ==_iff,
}
use heeler.Common.Text.{is_whitespace}
use heeler.Inspect.Cleaned.{zero_x, cleaned_lem}
use heeler.Inspect.Trimmed.{cleaned_split, is_body_of_digits}
use heeler.Inspect.{to_digit, byte_len, cleaned, char_len, decode_pairs, decode_hex}

-- A hexadecimal digit is one byte long and below 16.
to_digit_lem : (c v : ℕ) → to_digit c ≡ some v → (v < 16) × (c < 128)
unfolding to_digit
to_digit_lem c v e = ground arith

-- The digits of bytes, the high one first.
abbrev pub nibbles : List ℕ → List ℕ
nibbles [] = []
nibbles (b ∷ bytes) = b / 16 ∷ b % 16 ∷ nibbles bytes

digit_len : (c v : ℕ) → to_digit c ≡ some v → char_len c ≡ 1
digit_len c v e = ground (arith, to_digit_lem c v e)

-- An even number of bytes never ends in a single digit.
decode_pairs_total :
    (i : ℕ) (digits : List ℕ) → byte_len digits % 2 ≡ 0 → decode_pairs i digits ≢ none
unfolding decode_pairs byte_len
decode_pairs_total i [] h e = cc
decode_pairs_total i (c ∷ []) h e = elim (Option-cases (to_digit c)) [
  | inl n ↦ ground (arith, n)
  | inr (v, f) ↦ omega (arith, digit_len c v f)
]
decode_pairs_total i (c ∷ d ∷ digits) h e = elim (Option-cases (to_digit c)) [
  | inl n ↦ ground (arith, n)
  | inr (v, f) ↦ elim (Option-cases (to_digit d)) [
    | inl n ↦ ground (arith, f, n)
    | inr (w, g) ↦
        let rest : byte_len digits % 2 ≡ 0 = omega (arith, digit_len c v f, digit_len d w g) in
        ground (arith, f, g, decode_pairs_total (suc i) digits rest)
  ]
]

-- The pairs decode to these bytes exactly if their values are the digits of the bytes.
decode_pairs_iff :
    (i : ℕ) (digits bytes : List ℕ)
    → (decode_pairs i digits ≡ some (ok bytes))
      ↔ ((map to_digit digits ≡ map some (nibbles bytes)) × All IsByte bytes)
unfolding decode_pairs
decode_pairs_iff i [] [] = (λ e. (refl, tt), λ h. refl)
decode_pairs_iff i [] (b ∷ bytes) = (λ e. cc, λ h. cc)
decode_pairs_iff i (c ∷ []) [] = (λ e. ground arith, λ h. cc)
decode_pairs_iff i (c ∷ []) (b ∷ bytes) = (λ e. ground arith, λ h. ground arith)
decode_pairs_iff i (c ∷ d ∷ digits) [] = (λ e. ground arith, λ h. cc)
decode_pairs_iff i (c ∷ d ∷ digits) (b ∷ bytes) = (
  λ e. elim (Option-cases (to_digit c)) [
    | inl n ↦ ground (arith, n)
    | inr (v, f) ↦ elim (Option-cases (to_digit d)) [
      | inl n ↦ ground (arith, f, n)
      | inr (w, g) ↦
          let rest = (decode_pairs_iff (suc i) digits bytes).0 in
          ground (arith, f, g, to_digit_lem c v f, to_digit_lem d w g, rest)
    ]
  ],
  λ h. ground (arith, (decode_pairs_iff (suc i) digits bytes).1),
)

digits_even :
    (digits bytes : List ℕ)
    → map to_digit digits ≡ map some (nibbles bytes)
    → byte_len digits % 2 ≡ 0
unfolding byte_len
digits_even [] [] h = refl
digits_even [] (b ∷ bytes) h = cc
digits_even (c ∷ digits) [] h = cc
digits_even (c ∷ []) (b ∷ bytes) h = ground arith
digits_even (c ∷ d ∷ digits) (b ∷ bytes) h =
    let first : to_digit c ≡ some (b / 16) = ground arith in
    let second : to_digit d ≡ some (b % 16) = ground arith in
    let rest : map to_digit digits ≡ map some (nibbles bytes) = ground arith in
    omega (arith, digit_len c _ first, digit_len d _ second, digits_even digits bytes rest)

-- What is decoded is what is left of the text.
decode_hex-cleaned :
    (input bytes : List ℕ)
    → (decode_hex input ≢ none)
      × ((decode_hex input ≡ some (ok bytes))
          ↔ ((map to_digit (cleaned input) ≡ map some (nibbles bytes)) × All IsByte bytes))
unfolding decode_hex
decode_hex-cleaned input bytes = elim (Bool-cases (byte_len (cleaned input) % 2 == 0)) [
  | inl even ↦
      let two = (==_iff _ _).0 even in
      rw (even, decode_hex)
        (decode_pairs_total 0 (cleaned input) two, decode_pairs_iff 0 (cleaned input) bytes)
  | inr odd ↦
      rw (odd, decode_hex)
        (
          λ e. cc,
          (λ e. cc, λ h. absurd (cc (odd, (==_iff _ _).1 (digits_even (cleaned input) bytes h.0)))),
        )
]

-- Whatever the text, `decode_hex` returns: it never indexes past the last digit. It yields bytes
-- exactly if the text is white space, then `0x` any number of times, and then hexadecimal digits, with
-- white space anywhere among them, whose values are the halves of those bytes, the high half first.
pub decode_hex_iff :
    (input bytes : List ℕ)
    → (decode_hex input ≢ none)
      × ((decode_hex input ≡ some (ok bytes)) ↔ (
          (pre : List ℕ) × (n : ℕ) × (body : List ℕ) × (input ≡ pre ++ (zero_x n ++ body))
          × (all is_whitespace pre ≡ true)
          × (map to_digit (filter (λ c. not (is_whitespace c)) body) ≡ map some (nibbles bytes))
          × All IsByte bytes))
decode_hex_iff input bytes =
    let (total, decoded) = decode_hex-cleaned input bytes in
    (
      total,
      (
        λ e.
            let (digits, are_bytes) = decoded.0 e in
            let (pre, n, body, same, white, rest) = cleaned_split input in
            (pre, n, body, same, white, ap (map to_digit) rest ∙ digits, are_bytes),
        λ (pre, n, body, same, white, digits, are_bytes).
            let rest =
              ap cleaned same
              ∙ cleaned_lem pre n body white (is_body_of_digits body (nibbles bytes) digits) in
            decoded.1 (ap (map to_digit) rest ∙ digits, are_bytes),
      ),
    )
