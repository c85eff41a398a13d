-- ===== src/Cli/Timeout.antt =====
-- main.rs, `query`: the timeout, a floating point number of seconds that the command line gives.
use heeler.Common.{
  ℕ, ◌≤◌, ◌≡◌, Bool, true, false, if◌then◌else◌, Option, none, some, arith, Bool-cases, ◌⊎◌, inl,
  inr,
}

-- f64, as far as the code uses it: the order, and `Duration::from_secs_f64` in nanoseconds, where
-- `none` is its panic.
pub record F64 : Type 1 where
  pub F : Type 0
  pub is_nan : F → Bool
  pub less : F → F → Bool
  pub twentieth : F
  pub three_hundred : F
  pub from_secs_f64 : F → Option ℕ

-- What std and IEEE 754 document of it. A number from 0.05 to 300 converts to that many seconds.
pub record IsDocumented (f : F64) : Type 0 where
  pub nan_below : (x y : f.F) → f.is_nan x ≡ true → f.less x y ≡ false
  pub nan_above : (x y : f.F) → f.is_nan x ≡ true → f.less y x ≡ false
  pub not_below_self : (x : f.F) → f.less x x ≡ false
  pub in_order : f.less f.three_hundred f.twentieth ≡ false
  pub low_is_number : f.is_nan f.twentieth ≡ false
  pub high_is_number : f.is_nan f.three_hundred ≡ false
  pub nan_panics : (x : f.F) → f.is_nan x ≡ true → f.from_secs_f64 x ≡ none
  pub converts :
      (x : f.F)
      → f.is_nan x ≡ false
      → f.less x f.twentieth ≡ false
      → f.less f.three_hundred x ≡ false
      → (d : ℕ) × (f.from_secs_f64 x ≡ some d) × (50_000_000 ≤ d) × (d ≤ 300_000_000_000)

module _ (f : F64) where
  -- `f64::clamp`: two comparisons, which NaN passes.
  unfoldable pub clamp : f.F → f.F
  clamp x =
      let y = if f.less x f.twentieth then f.twentieth else x in
      if f.less f.three_hundred y then f.three_hundred else y

  unfoldable pub query_timeout : f.F → Option ℕ
  unfolding clamp
  query_timeout x = f.from_secs_f64 (clamp x)

  clamp_within :
      (x : f.F) → f.less x f.twentieth ≡ false → f.less f.three_hundred x ≡ false → clamp x ≡ x
  unfolding clamp
  clamp_within x low high = ground (arith, low, high)

  clamp_low :
      (x : f.F)
      → f.less x f.twentieth ≡ true
      → f.less f.three_hundred f.twentieth ≡ false
      → clamp x ≡ f.twentieth
  unfolding clamp
  clamp_low x low order = ground (arith, low, order)

  clamp_high :
      (x : f.F)
      → f.less x f.twentieth ≡ false
      → f.less f.three_hundred x ≡ true
      → clamp x ≡ f.three_hundred
  unfolding clamp
  clamp_high x low high = ground (arith, low, high)

  converted :
      (x y : f.F)
      → IsDocumented f
      → clamp x ≡ y
      → f.is_nan x ≡ false
      → f.is_nan y ≡ false
      → f.less y f.twentieth ≡ false
      → f.less f.three_hundred y ≡ false
      → (f.is_nan x ≡ false)
        × (d : ℕ) × (query_timeout x ≡ some d)
        × (50_000_000 ≤ d)
        × (d ≤ 300_000_000_000)
  unfolding query_timeout
  converted x y h same e number low high =
      let (d, c, lo, hi) = h.converts y number low high in
      (e, d, rw (same, query_timeout) c, lo, hi)

  -- With what std documents of f64: the timeout of `heeler query` is from 0.05 to 300 seconds for every
  -- number, infinities included; NaN passes the clamp, and the conversion panics on it.
  pub query_timeout_exact :
      (x : f.F)
      → IsDocumented f
      → ((f.is_nan x ≡ true) × (query_timeout x ≡ none))
        ⊎ ((f.is_nan x ≡ false)
            × (d : ℕ) × (query_timeout x ≡ some d)
            × (50_000_000 ≤ d)
            × (d ≤ 300_000_000_000))
  unfolding query_timeout
  query_timeout_exact x h = elim (Bool-cases (f.is_nan x)) [
    | inl e ↦
        let same = clamp_within x (h.nan_below x f.twentieth e) (h.nan_above x f.three_hundred e) in
        inl (e, rw (same, query_timeout) (h.nan_panics x e))
    | inr e ↦ elim (Bool-cases (f.less x f.twentieth)) [
      | inl low ↦ inr (
          converted x f.twentieth h (clamp_low x low h.in_order) e h.low_is_number
            (h.not_below_self f.twentieth) h.in_order)
      | inr low ↦ elim (Bool-cases (f.less f.three_hundred x)) [
        | inl high ↦ inr (
            converted x f.three_hundred h (clamp_high x low high) e h.high_is_number h.in_order
              (h.not_below_self f.three_hundred))
        | inr high ↦ inr (converted x x h (clamp_within x low high) e e low high)
      ]
    ]
  ]
