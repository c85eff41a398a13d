-- ===== src/Inspect/Trimmed.antt =====
-- inspect.rs, `decode_hex`: what a text is made of that is decoded.
use heeler.Common.{
  ℕ, suc, ◌≡◌, refl, true, false, ◌&&◌, ◌==◌, ==_iff, some, List, [], ◌∷◌, ◌++◌, map, all, arith,
  inl, inr, ap, sym, ◌∙◌, Bool-cases,
}
use heeler.Common.Text.{is_whitespace, trim_start, trim}
use heeler.Inspect.{to_digit, trim_prefixes, cleaned}
use heeler.Inspect.Cleaned.{zero_x, is_body, squeezed, trim_end, trim_end_cons}

trim_start_split :
    (text : List ℕ)
    → (pre : List ℕ) × (all is_whitespace pre ≡ true) × (text ≡ pre ++ trim_start text)
unfolding trim_start
trim_start_split [] = ([], refl, refl)
trim_start_split (c ∷ text) = elim (Bool-cases (is_whitespace c)) [
  | inl white ↦
      let (pre, whites, same) = trim_start_split text in
      (c ∷ pre, ground (arith, white, whites), rw (white, trim_start) (ap (λ t. c ∷ t) same))
  | inr e ↦ ([], refl, rw (e, trim_start) refl)
]

trim_end_split :
    (text : List ℕ)
    → (post : List ℕ) × (all is_whitespace post ≡ true) × (text ≡ trim_end text ++ post)
unfolding trim_start
trim_end_split [] = ([], refl, refl)
trim_end_split (c ∷ text) =
    let (post, whites, same) = trim_end_split text in
    elim (trim_end_cons c text) [
      | inl (white, gone, e) ↦ (
        c ∷ post,
        ground (arith, white, whites),
        ap (λ t. c ∷ t) (same ∙ ap (λ t. t ++ post) gone) ∙ ap (λ t. t ++ (c ∷ post)) (sym e),
      )
      | inr e ↦ (post, whites, ap (λ t. c ∷ t) same ∙ ap (λ t. t ++ post) (sym e))
    ]

trim_prefixes_split : (text : List ℕ) → (n : ℕ) × (text ≡ zero_x n ++ trim_prefixes text)
unfolding trim_prefixes
trim_prefixes_split [] = (0, refl)
trim_prefixes_split (c ∷ []) = (0, refl)
trim_prefixes_split (c ∷ d ∷ text) = elim (Bool-cases (c == b'0' && d == b'x')) [
  | inr e ↦ (0, rw (e, trim_prefixes) refl)
  | inl e ↦
      let (n, same) = trim_prefixes_split text in
      let first : c ≡ b'0' = (==_iff c b'0').0 (ground (arith, e)) in
      let second : d ≡ b'x' = (==_iff d b'x').0 (ground (arith, e)) in
      (suc n, rw (first, second) (ap (λ t. b'0' ∷ b'x' ∷ t) same))
]

-- Digits between white space, with white space after them.
squeezed-append :
    (text post : List ℕ) → all is_whitespace post ≡ true → squeezed (text ++ post) ≡ squeezed text
squeezed-append [] [] h = refl
squeezed-append [] (c ∷ post) h = ground (arith, h, squeezed-append [] post (ground (arith, h)))
squeezed-append (c ∷ text) post h = ground (arith, squeezed-append text post h)

append_assoc : (xs ys zs : List ℕ) → xs ++ (ys ++ zs) ≡ (xs ++ ys) ++ zs
append_assoc [] ys zs = refl
append_assoc (x ∷ xs) ys zs = ap (λ t. x ∷ t) (append_assoc xs ys zs)

-- Every text is white space, `0x` some times, and a rest that is cleaned by leaving out white space.
pub cleaned_split :
    (input : List ℕ)
    → (pre : List ℕ) × (n : ℕ) × (body : List ℕ) × (input ≡ pre ++ (zero_x n ++ body))
      × (all is_whitespace pre ≡ true)
      × (squeezed body ≡ cleaned input)
unfolding cleaned trim
cleaned_split input =
    let (pre, white, start) = trim_start_split input in
    let (post, after, end) = trim_end_split (trim_start input) in
    let (n, same) = trim_prefixes_split (trim input) in
    (
      pre,
      n,
      trim_prefixes (trim input) ++ post,
      start
          ∙ ap (λ t. pre ++ t)
              (end
                ∙ ap (λ t. t ++ post) same
                ∙ sym (append_assoc (zero_x n) (trim_prefixes (trim input)) post)),
      white,
      squeezed-append (trim_prefixes (trim input)) post after,
    )

kept : (c : ℕ) (body : List ℕ) → is_whitespace c ≡ false → squeezed (c ∷ body) ≡ c ∷ squeezed body
kept c body e = rw e refl

-- A text whose rest is digits and white space.
pub is_body_of_digits :
    (body values : List ℕ)
    → map to_digit (squeezed body) ≡ map some values
    → all is_body body ≡ true
is_body_of_digits [] values h = refl
is_body_of_digits (c ∷ body) values h = elim (Bool-cases (is_whitespace c)) [
  | inl white ↦ ground (arith, white, is_body_of_digits body values (ground (arith, h, white)))
  | inr e ↦ one_digit (is_body_of_digits body) values (ap (map to_digit) (sym (kept c body e)) ∙ h)
]
  where
    one_digit :
        ((values : List ℕ)
          → map to_digit (squeezed body) ≡ map some values
          → all is_body body ≡ true)
        → (values : List ℕ) → to_digit c ∷ map to_digit (squeezed body) ≡ map some values
        → all is_body (c ∷ body) ≡ true
    one_digit later [] d = cc
    one_digit later (v ∷ values) d =
        let digit : to_digit c ≡ some v = ground arith in
        let rest : map to_digit (squeezed body) ≡ map some values = ground arith in
        ground (arith, digit, later values rest)
