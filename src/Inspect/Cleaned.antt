-- ===== src/Inspect/Cleaned.antt =====
-- inspect.rs, `decode_hex`: what is left of a text that is decoded.
use heeler.Common.{
  ℕ, zero, suc, ◌≡◌, refl, Bool, true, false, not, ◌==◌, ==_iff, none, some, List, [], ◌∷◌, ◌++◌,
  filter, all, arith, ◌⊎◌, ◌||◌, inl, inr, ap, ◌∙◌, Bool-cases,
}
use heeler.Common.Text.{reverse, is_whitespace, trim_start, trim}
use heeler.Inspect.{to_digit, trim_prefixes, cleaned}

abbrev pub zero_x : ℕ → List ℕ
zero_x zero = []
zero_x (suc n) = b'0' ∷ b'x' ∷ zero_x n

abbrev pub is_digit : ℕ → Bool
is_digit c = elim (to_digit c) [ none ↦ false | some v ↦ true ]

-- White space and hexadecimal digits.
abbrev pub is_body : ℕ → Bool
is_body c = is_whitespace c || is_digit c

abbrev pub squeezed : List ℕ → List ℕ
squeezed text = filter (λ c. not (is_whitespace c)) text

reverse-snoc : (text : List ℕ) (c : ℕ) → reverse (text ++ (c ∷ [])) ≡ c ∷ reverse text
reverse-snoc [] c = refl
reverse-snoc (d ∷ text) c = ap (λ t. t ++ (d ∷ [])) (reverse-snoc text c)

abbrev pub trim_end : List ℕ → List ℕ
trim_end text = reverse (trim_start (reverse text))

trim_start-snoc :
    (text : List ℕ) (c : ℕ)
    → ((trim_start text ≡ []) × (trim_start (text ++ (c ∷ [])) ≡ trim_start (c ∷ [])))
      ⊎ (trim_start (text ++ (c ∷ [])) ≡ trim_start text ++ (c ∷ []))
unfolding trim_start
trim_start-snoc [] c = inl (refl, refl)
trim_start-snoc (d ∷ text) c = elim (Bool-cases (is_whitespace d)) [
  | inl white ↦ rw (white, trim_start) (trim_start-snoc text c)
  | inr e ↦ inr (rw (e, trim_start) refl)
]

-- A character at the front stays, or it is white space before nothing else.
pub trim_end_cons :
    (c : ℕ) (text : List ℕ)
    → ((is_whitespace c ≡ true) × (trim_end text ≡ []) × (trim_end (c ∷ text) ≡ []))
      ⊎ (trim_end (c ∷ text) ≡ c ∷ trim_end text)
unfolding trim_start
trim_end_cons c text = elim (trim_start-snoc (reverse text) c) [
  | inr e ↦ inr (ap reverse e ∙ reverse-snoc (trim_start (reverse text)) c)
  | inl (none_left, e) ↦ elim (Bool-cases (is_whitespace c)) [
    | inl white ↦ inl (white, ap reverse none_left, ap reverse e ∙ rw (white, trim_start) refl)
    | inr other ↦ inr (ap reverse e ∙ rw (other, trim_start, none_left) refl)
  ]
]

-- What trimming takes from a body is white space.
trim_end-body :
    (body : List ℕ)
    → all is_body body ≡ true
    → (all is_body (trim_end body) ≡ true) × (squeezed (trim_end body) ≡ squeezed body)
unfolding trim_start
trim_end-body [] h = (refl, refl)
trim_end-body (c ∷ body) h =
    let (bodies, same) = trim_end-body body (ground (arith, h)) in
    elim (trim_end_cons c body) [
      | inl (white, gone, e) ↦ rw e (refl, ground (arith, white, gone, same))
      | inr e ↦ rw e (ground (arith, h, bodies), ground (arith, same))
    ]

trim_start-body :
    (body : List ℕ)
    → all is_body body ≡ true
    → (all is_body (trim_start body) ≡ true) × (squeezed (trim_start body) ≡ squeezed body)
unfolding trim_start
trim_start-body [] h = (refl, refl)
trim_start-body (c ∷ body) h = elim (Bool-cases (is_whitespace c)) [
  | inl white ↦
      let (bodies, same) = trim_start-body body (ground (arith, h)) in
      rw (white, trim_start) (bodies, same)
  | inr e ↦
      let same : trim_start (c ∷ body) ≡ c ∷ body = rw (e, trim_start) refl in rw same (h, refl)
]

trim_start-append :
    (pre text : List ℕ) → all is_whitespace pre ≡ true → trim_start (pre ++ text) ≡ trim_start text
unfolding trim_start
trim_start-append [] text h = refl
trim_start-append (c ∷ pre) text h =
    let white : is_whitespace c ≡ true = ground (arith, h) in
    rw (white, trim_start) (trim_start-append pre text (ground (arith, h)))

prefix_is_no_space : (is_whitespace b'0' ≡ false) × (is_whitespace b'x' ≡ false)
unfolding is_whitespace
prefix_is_no_space = (refl, refl)

trim_end_other :
    (c : ℕ) (text : List ℕ) → is_whitespace c ≡ false → trim_end (c ∷ text) ≡ c ∷ trim_end text
trim_end_other c text other = elim (trim_end_cons c text) [
  | inl (white, _, _) ↦ absurd (cc (white, other))
  | inr e ↦ e
]

trim_end-zero_x : (n : ℕ) (text : List ℕ) → trim_end (zero_x n ++ text) ≡ zero_x n ++ trim_end text
trim_end-zero_x zero text = refl
trim_end-zero_x (suc n) text =
    let (zero_white, x_white) = prefix_is_no_space in
    trim_end_other b'0' (b'x' ∷ (zero_x n ++ text)) zero_white
    ∙ ap (λ t. b'0' ∷ t)
        (trim_end_other b'x' (zero_x n ++ text) x_white
          ∙ ap (λ t. b'x' ∷ t) (trim_end-zero_x n text))

trim_prefixes-zero_x :
    (n : ℕ) (text : List ℕ) → trim_prefixes (zero_x n ++ text) ≡ trim_prefixes text
unfolding trim_prefixes
trim_prefixes-zero_x zero text = refl
trim_prefixes-zero_x (suc n) text = trim_prefixes-zero_x n text

x_is_no_body : is_body b'x' ≡ false
unfolding is_whitespace to_digit
x_is_no_body = refl

trim_prefixes-body : (body : List ℕ) → all is_body body ≡ true → trim_prefixes body ≡ body
unfolding trim_prefixes
trim_prefixes-body [] h = refl
trim_prefixes-body (c ∷ []) h = refl
trim_prefixes-body (c ∷ d ∷ body) h = elim (Bool-cases (d == b'x')) [
  | inl e ↦
      let is_x = (==_iff d b'x').0 e in
      let in_body : is_body d ≡ true = ground (arith, h) in
      absurd (cc (is_x, in_body, x_is_no_body))
  | inr e ↦ ground (arith, e)
]

cleaned_of_start :
    (text : List ℕ) (n : ℕ) (body : List ℕ)
    → trim_start text ≡ zero_x n ++ body
    → all is_body body ≡ true
    → cleaned text ≡ squeezed body
unfolding cleaned trim
cleaned_of_start text n body start h =
    let (bodies, same) = trim_end-body body h in
    ap (λ s. squeezed (trim_prefixes s)) (ap trim_end start ∙ trim_end-zero_x n body)
    ∙ ap squeezed
        (trim_prefixes-zero_x n (trim_end body) ∙ trim_prefixes-body (trim_end body) bodies)
    ∙ same

-- White space before the text, any number of `0x` there, and white space anywhere after them leave no
-- trace.
pub cleaned_lem :
    (pre : List ℕ) (n : ℕ) (body : List ℕ)
    → all is_whitespace pre ≡ true
    → all is_body body ≡ true
    → cleaned (pre ++ (zero_x n ++ body)) ≡ squeezed body
unfolding trim_start
cleaned_lem pre zero body white h =
    let (bodies, same) = trim_start-body body h in
    cleaned_of_start (pre ++ body) 0 (trim_start body) (trim_start-append pre body white) bodies
    ∙ same
cleaned_lem pre (suc n) body white h =
    let text = zero_x (suc n) ++ body in
    cleaned_of_start (pre ++ text) (suc n) body
      (trim_start-append pre text white ∙ rw (prefix_is_no_space.0, trim_start) refl) h
