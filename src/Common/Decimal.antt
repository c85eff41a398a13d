-- ===== src/Common/Decimal.antt =====
-- Decimal digits, as `Display` writes an unsigned integer, with fuel for the number of digits.
use Prim.Native.Nat.{ℕ, zero, suc, ◌+◌, ◌-◌, ◌*◌, ◌/◌, ◌%◌, ◌^◌, ◌≤◌, ◌<◌}
use mathlib.Core.Path.{◌≡◌, refl, ◌∙◌, ap}
use mathlib.Core.Option.{some}
use mathlib.Core.List.{List, [], ◌∷◌}
use mathlib.Core.Logic.{◌≢◌, ◌⊎◌, inl, inr}
use native.Mathlib.Omega.{arith}
use native.Mathlib.Numerals.{unary_clauses}
use heeler.Common.Tests.{ltb, if◌then◌else◌}
use heeler.Common.Lists.{All}
use heeler.Common.Text.{parse_digits, parse_unsigned}

-- The digits of n before those already written.
unfoldable pub digits_before : ℕ → ℕ → List ℕ → List ℕ
digits_before zero n text = text
digits_before (suc fuel) n text =
    let digit = b'0' + n % 10 in
    let more = digits_before fuel (n / 10) (digit ∷ text) in if ltb n 10 then digit ∷ text else more

-- Twenty digits are enough for 64 bits.
unfoldable pub show : ℕ → List ℕ
show n = digits_before 20 n []

abbrev pub IsDigit : ℕ → Type 0
IsDigit c = (b'0' ≤ c) × (c ≤ b'9')

pub split_at : (n k : ℕ) → (n < k) ⊎ (k ≤ n)
split_at n k = ground arith

parse_digit :
    (limit value d : ℕ) (text : List ℕ)
    → d < 10
    → value * 10 + d < limit
    → parse_digits limit value ((b'0' + d) ∷ text) ≡ parse_digits limit (value * 10 + d) text
unfolding parse_digits
parse_digit limit value d text small fits =
    let same : value * 10 + (b'0' + d - b'0') ≡ value * 10 + d = omega arith in
    ground (arith, same, small, fits)

pub digits_before_none : (n : ℕ) (text : List ℕ) → digits_before 0 n text ≡ text
unfolding digits_before
digits_before_none n text = refl

pub digits_before_one :
    (fuel n : ℕ) (text : List ℕ) → n < 10 → digits_before (suc fuel) n text ≡ (b'0' + n) ∷ text
unfolding digits_before
digits_before_one fuel n text one =
    let same : n % 10 ≡ n = omega (arith, one) in ground (arith, one, same)

pub digits_before_more :
    (fuel n : ℕ) (text : List ℕ)
    → 10 ≤ n
    → digits_before (suc fuel) n text ≡ digits_before fuel (n / 10) ((b'0' + n % 10) ∷ text)
unfolding digits_before
digits_before_more fuel n text more = ground (arith, more)

pub parse_digits-digits_before :
    (fuel n limit : ℕ) (text : List ℕ)
    → n < 10 ^ fuel
    → n < limit
    → parse_digits limit 0 (digits_before fuel n text) ≡ parse_digits limit n text
parse_digits-digits_before zero n limit text small fits =
    let none_left : n ≡ 0 = omega (arith, simp unary_clauses at small) in
    rw (none_left, digits_before_none 0 text) refl
parse_digits-digits_before (suc fuel) n limit text small fits = elim (split_at n 10) [
  | inl one ↦
      let start : 0 * 10 + n ≡ n = omega arith in
      rw (digits_before_one fuel n text one) (
        parse_digit limit 0 n text one (omega (arith, fits))
        ∙ ap (λ k. parse_digits limit k text) start)
  | inr more ↦
      let digit = b'0' + n % 10 in
      let rest =
        parse_digits-digits_before fuel (n / 10) limit (digit ∷ text)
          (omega (arith, simp unary_clauses at small)) (omega (arith, fits)) in
      let last = parse_digit limit (n / 10) (n % 10) text (omega arith) (omega (arith, fits)) in
      let whole : n / 10 * 10 + n % 10 ≡ n = omega arith in
      rw (digits_before_more fuel n text more)
        (rest ∙ last ∙ ap (λ k. parse_digits limit k text) whole)
]

digits_before-digits :
    (fuel n : ℕ) (text : List ℕ) → All IsDigit text → All IsDigit (digits_before fuel n text)
digits_before-digits zero n text h = rw (digits_before_none n text) h
digits_before-digits (suc fuel) n text h = elim (split_at n 10) [
  | inl one ↦ rw (digits_before_one fuel n text one) ((omega arith, omega (arith, one)), h)
  | inr more ↦
      rw (digits_before_more fuel n text more) (
        digits_before-digits fuel (n / 10) ((b'0' + n % 10) ∷ text) ((omega arith, omega arith), h))
]

digits_before-nonempty : (fuel n c : ℕ) (text : List ℕ) → digits_before fuel n (c ∷ text) ≢ []
digits_before-nonempty zero n c text e = ground (arith, digits_before_none n (c ∷ text), e)
digits_before-nonempty (suc fuel) n c text e = elim (split_at n 10) [
  | inl one ↦ ground (arith, digits_before_one fuel n (c ∷ text) one, e)
  | inr more ↦
      digits_before-nonempty fuel (n / 10) (b'0' + n % 10) (c ∷ text)
        (rw (digits_before_more fuel n (c ∷ text) more) at e)
]

digits_before-nonempty_start : (fuel n : ℕ) → digits_before (suc fuel) n [] ≢ []
digits_before-nonempty_start fuel n e = elim (split_at n 10) [
  | inl one ↦ ground (arith, digits_before_one fuel n [] one, e)
  | inr more ↦
      digits_before-nonempty fuel (n / 10) (b'0' + n % 10) []
        (rw (digits_before_more fuel n [] more) at e)
]

-- Digits have no sign in front.
pub parse_unsigned-digits :
    (limit : ℕ) (text : List ℕ)
    → All IsDigit text
    → text ≢ []
    → parse_unsigned limit text ≡ parse_digits limit 0 text
unfolding parse_unsigned
parse_unsigned-digits limit [] h n = absurd (n refl)
parse_unsigned-digits limit (c ∷ []) h n = refl
parse_unsigned-digits limit (c ∷ d ∷ text) ((low, high), h) n = ground (arith, low, high)

parse_unsigned-digits_before :
    (fuel n limit : ℕ)
    → n < limit
    → n < 10 ^ (suc fuel)
    → parse_unsigned limit (digits_before (suc fuel) n []) ≡ some n
unfolding parse_digits
parse_unsigned-digits_before fuel n limit fits small =
    let digits = digits_before-digits (suc fuel) n [] tt in
    parse_unsigned-digits limit (digits_before (suc fuel) n []) digits
      (digits_before-nonempty_start fuel n)
    ∙ parse_digits-digits_before (suc fuel) n limit [] small fits

-- A number that is shown is read back, and is digits only.
pub parse_unsigned-show :
    (limit n : ℕ) → n < limit → n < 10 ^ 20 → parse_unsigned limit (show n) ≡ some n
unfolding show
parse_unsigned-show limit n fits small = parse_unsigned-digits_before 19 n limit fits small

pub show-digits : (n : ℕ) → All IsDigit (show n)
unfolding show
show-digits n = digits_before-digits 20 n [] tt

pub parse_digits-show :
    (limit n : ℕ) → n < limit → n < 10 ^ 20 → parse_digits limit 0 (show n) ≡ some n
unfolding show parse_digits
parse_digits-show limit n fits small = parse_digits-digits_before 20 n limit [] small fits
