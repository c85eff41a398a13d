-- ===== src/Inspect/Fields.antt =====
-- inspect.rs, `format_instant`: fields of a fixed width, padded with zeros, and a reader of them.
use heeler.Common.{
  ℕ, zero, suc, ◌+◌, ◌-◌, ◌/◌, ◌%◌, ◌^◌, ◌≤◌, ◌<◌, ◌≡◌, refl, ◌∙◌, ap, Option, none, some, List, [],
  ◌∷◌, ◌++◌, length, take, drop, All, replicate, arith, inl, inr,
}
use native.Mathlib.Numerals.{unary_clauses}
use heeler.Common.Text.{parse_unsigned, parse_digits}
use heeler.Common.Decimal.{
  show, parse_unsigned-digits, parse_digits-show, show-digits, IsDigit, split_at, digits_before,
  digits_before_none, digits_before_one, digits_before_more,
}

-- `{:0w}` of an unsigned number.
abbrev pub padded : ℕ → List ℕ → List ℕ
padded width text = replicate (width - length text) b'0' ++ text

length-digits_before :
    (fuel width n : ℕ) (text : List ℕ)
    → n < 10 ^ (suc width)
    → length (digits_before fuel n text) ≤ suc width + length text
length-digits_before zero width n text small = rw (digits_before_none n text) (omega arith)
length-digits_before (suc fuel) zero n text small =
    rw (digits_before_one fuel n text (omega (arith, small))) (omega arith)
length-digits_before (suc fuel) (suc width) n text small = elim (split_at n 10) [
  | inl one ↦ rw (digits_before_one fuel n text one) (omega arith)
  | inr more ↦
      let fewer =
        length-digits_before fuel width (n / 10) ((b'0' + n % 10) ∷ text)
          (omega (arith, simp unary_clauses at small)) in
      rw (digits_before_more fuel n text more) (omega (arith, fewer))
]

length-show : (width n : ℕ) → n < 10 ^ (suc width) → length (show n) ≤ suc width
unfolding show
length-show width n small = omega (arith, length-digits_before 20 width n [] small)

length-replicate : (k c : ℕ) (text : List ℕ) → length (replicate k c ++ text) ≡ k + length text
length-replicate zero c text = omega arith
length-replicate (suc k) c text = omega (arith, length-replicate k c text)

length-padded :
    (width n : ℕ) → n < 10 ^ (suc width) → length (padded (suc width) (show n)) ≡ suc width
length-padded width n small =
    let l = length-show width n small in
    let r = length-replicate (suc width - length (show n)) b'0' (show n) in omega (arith, l, r)

parse_digits-zeros :
    (k limit : ℕ) (text : List ℕ)
    → 0 < limit
    → parse_digits limit 0 (replicate k b'0' ++ text) ≡ parse_digits limit 0 text
unfolding parse_digits
parse_digits-zeros zero limit text h = refl
parse_digits-zeros (suc k) limit text h = ground (arith, h, parse_digits-zeros k limit text h)

take-append :
    (k : ℕ) (xs ys : List ℕ) → length xs ≡ k → (take k (xs ++ ys) ≡ xs) × (drop k (xs ++ ys) ≡ ys)
take-append zero [] ys e = (refl, refl)
take-append zero (x ∷ xs) ys e = absurd (omega (arith, e))
take-append (suc k) [] ys e = absurd (omega (arith, e))
take-append (suc k) (x ∷ xs) ys e =
    let (t, d) = take-append k xs ys (omega (arith, e)) in (ap (λ z. x ∷ z) t, d)

pub padded-digits : (width n : ℕ) → All IsDigit (padded width (show n))
padded-digits width n = zeros (width - length (show n))
  where
    zeros : (k : ℕ) → All IsDigit (replicate k b'0' ++ show n)
    zeros zero = show-digits n
    zeros (suc k) = ((omega arith, omega arith), zeros k)

parse_unsigned-padded :
    (width n : ℕ)
    → n < 10 ^ (suc width)
    → n < 10 ^ 19
    → parse_unsigned (2 ^ 64) (padded (suc width) (show n)) ≡ some n
parse_unsigned-padded width n small fits =
    parse_unsigned-digits (2 ^ 64) (padded (suc width) (show n)) (padded-digits (suc width) n)
      (λ e. absurd (omega (arith, length-padded width n small, ap (λ (t : List ℕ). length t) e)))
    ∙ parse_digits-zeros (suc width - length (show n)) (2 ^ 64) (show n) (omega arith)
    ∙ parse_digits-show (2 ^ 64) n (omega (arith, fits)) (omega (arith, fits))

-- A field of a fixed width, and what follows the character after it.
abbrev and_rest : Option ℕ → List ℕ → Option (ℕ × List ℕ)
and_rest none text = none
and_rest (some n) text = some (n, text)

unfoldable pub read_field : ℕ → List ℕ → Option (ℕ × List ℕ)
unfolding parse_unsigned
read_field width text =
    and_rest (parse_unsigned (2 ^ 64) (take width text)) (drop 1 (drop width text))

pub read_field-padded :
    (width n c : ℕ) (rest : List ℕ)
    → n < 10 ^ (suc width)
    → n < 10 ^ 19
    → read_field (suc width) (padded (suc width) (show n) ++ (c ∷ rest)) ≡ some (n, rest)
unfolding read_field
read_field-padded width n c rest small fits =
    let (t, d) =
      take-append (suc width) (padded (suc width) (show n)) (c ∷ rest)
        (length-padded width n small) in
    rw (t, d, parse_unsigned-padded width n small fits) refl
