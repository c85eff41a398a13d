-- ===== src/RateLimit/Bucket.antt =====
-- rate_limit.rs, `TokenBucket`: micro-tokens, refilled by elapsed time up to the burst.
use heeler.Common.{
  ℕ, suc, ◌+◌, ◌-◌, ◌*◌, ◌/◌, ◌%◌, ◌^◌, ◌≤◌, ◌<◌, ◌≡◌, Bool, true, false, leb, if◌then◌else◌, List,
  [], ◌∷◌, min, arith, ap,
}

abbrev pub micro : ℕ
micro = 1_000_000

pub record TokenBucket : Type 0 where
  pub micro_tokens : ℕ
  pub last_refill : ℕ

unfoldable pub new : ℕ → ℕ → TokenBucket
new burst now = record { micro_tokens = burst * micro; last_refill = now }

-- The u128 quotient, cast to u64, so modulo 2^64. `now` before the last refill counts as no time.
unfoldable pub refill : ℕ → ℕ → ℕ
refill elapsed rate_per_second = elapsed * rate_per_second / 1000 % 2 ^ 64

-- `saturating_add` on u64, then `min`.
unfoldable pub refilled : TokenBucket → ℕ → ℕ → ℕ → ℕ
refilled bucket rate_per_second burst now =
    let elapsed = now - bucket.last_refill in
    let sum = min (bucket.micro_tokens + refill elapsed rate_per_second) (2 ^ 64 - 1) in
    min sum (burst * micro)

-- Refills for the elapsed time and tries to spend one token.
unfoldable pub try_take : TokenBucket → ℕ → ℕ → ℕ → Bool × TokenBucket
try_take bucket rate_per_second burst now =
    let tokens = refilled bucket rate_per_second burst now in
    if leb micro tokens
    then (true, record { micro_tokens = tokens - micro; last_refill = now })
    else (false, record { micro_tokens = tokens; last_refill = now })

-- A bucket holds at most its burst after any attempt, and was refilled at that instant.
pub try_take-le_burst :
    (bucket : TokenBucket) (rate burst now : ℕ)
    → let after = (try_take bucket rate burst now).1 in
      (after.micro_tokens ≤ burst * micro) × (after.last_refill ≡ now)
unfolding try_take refilled
try_take-le_burst bucket rate burst now = (ground arith, ground arith)

-- A run of attempts at the given instants, and how many of them found a token.
unfoldable pub run : ℕ → ℕ → TokenBucket → List ℕ → TokenBucket
run rate burst bucket [] = bucket
run rate burst bucket (now ∷ rest) = run rate burst (try_take bucket rate burst now).1 rest

abbrev pub count_taken : Bool → ℕ → ℕ
count_taken true n = suc n
count_taken false n = n

unfoldable pub admitted : ℕ → ℕ → TokenBucket → List ℕ → ℕ
admitted rate burst bucket [] = 0
admitted rate burst bucket (now ∷ rest) =
    let (taken, after) = try_take bucket rate burst now in
    count_taken taken (admitted rate burst after rest)

-- Instants that do not go back, from `start` on.
abbrev pub Ascending : ℕ → List ℕ → Type 0
Ascending start [] = Unit {0}
Ascending start (now ∷ rest) = (start ≤ now) × Ascending now rest

abbrev pub last_of : ℕ → List ℕ → ℕ
last_of start [] = start
last_of start (now ∷ rest) = last_of now rest

-- The cast only loses: a refill is never more than the elapsed time earns.
refill-le : (elapsed rate : ℕ) → 1000 * refill elapsed rate ≤ elapsed * rate
unfolding refill
refill-le elapsed rate = omega arith

elapsed_product : (last now rate : ℕ) → last ≤ now → (now - last) * rate + last * rate ≡ now * rate
elapsed_product last now rate h =
    let e : now - last + last ≡ now = omega arith in omega (arith, ap (λ (t : ℕ). t * rate) e)

-- What one attempt costs and gains, in thousandths of a micro-token.
step_budget :
    (bucket : TokenBucket) (rate burst now : ℕ)
    → bucket.last_refill ≤ now
    → let (taken, after) = try_take bucket rate burst now in
      count_taken taken 0 * (1000 * micro) + 1000 * after.micro_tokens + bucket.last_refill * rate
      ≤ 1000 * bucket.micro_tokens + now * rate
unfolding try_take refilled
step_budget bucket rate burst now h =
    let e = elapsed_product bucket.last_refill now rate h in
    let r = refill-le (now - bucket.last_refill) rate in ground arith

count_taken-add : (taken : Bool) (n : ℕ) → count_taken taken n ≡ count_taken taken 0 + n
count_taken-add true n = omega arith
count_taken-add false n = omega arith

admitted_budget :
    (rate burst : ℕ) (bucket : TokenBucket) (times : List ℕ)
    → Ascending bucket.last_refill times
    → admitted rate burst bucket times * (1000 * micro)
        + 1000 * (run rate burst bucket times).micro_tokens
        + bucket.last_refill * rate
      ≤ 1000 * bucket.micro_tokens + last_of bucket.last_refill times * rate
unfolding admitted run
admitted_budget rate burst bucket [] h = omega arith
admitted_budget rate burst bucket (now ∷ rest) (le, h) =
    let after = (try_take bucket rate burst now).1 in
    let (b, t) = try_take-le_burst bucket rate burst now in
    let ih = admitted_budget rate burst after rest (rw t h) in
    let step = step_budget bucket rate burst now le in
    let n = admitted rate burst after rest in
    omega (
      arith,
      step,
      ih,
      t,
      ap (λ (x : ℕ). x * rate) t,
      count_taken-add (try_take bucket rate burst now).0 n,
      last_of_at t,
    )
  where
    last_of_at :
        (try_take bucket rate burst now).1.last_refill ≡ now
        → last_of (try_take bucket rate burst now).1.last_refill rest * rate
          ≡ last_of now rest * rate
    last_of_at t = ap (λ (x : ℕ). last_of x rest * rate) t

-- The token bucket's promise: from a fresh bucket, over any instants that do not go back, the
-- packets admitted are at most the burst and what the rate earns in the time passed, a packet for
-- each second divided by the rate.
pub admitted-le :
    (rate burst start : ℕ) (times : List ℕ)
    → Ascending start times
    → admitted rate burst (new burst start) times * 1_000_000_000
      ≤ burst * 1_000_000_000 + (last_of start times - start) * rate
unfolding new
admitted-le rate burst start times h =
    let b = admitted_budget rate burst (new burst start) times h in
    let m = last_of-le start times h in
    omega (arith, b, elapsed_product start (last_of start times) rate m)
  where
    last_of-le : (s : ℕ) (ts : List ℕ) → Ascending s ts → s ≤ last_of s ts
    last_of-le s [] a = omega arith
    last_of-le s (t ∷ ts) (le, a) = let r = last_of-le t ts a in omega arith

-- A bucket with a burst of at least one finds a token once the time since its last refill has
-- earned one, provided that the earned micro-tokens fit a u64.
pub try_take_after_wait :
    (bucket : TokenBucket) (rate burst now : ℕ)
    → 1 ≤ burst
    → 1000 * micro ≤ (now - bucket.last_refill) * rate
    → (now - bucket.last_refill) * rate < 1000 * 2 ^ 64
    → (try_take bucket rate burst now).0 ≡ true
unfolding try_take refilled refill
try_take_after_wait bucket rate burst now b lo hi = ground arith

-- Where they do not fit, the cast wraps: if the earned micro-tokens are a multiple of 2^64 and a
-- remainder that leaves the bucket short of one token, the packet is refused, however long the wait.
pub try_take_wraps :
    (bucket : TokenBucket) (rate burst now q r : ℕ)
    → (now - bucket.last_refill) * rate / 1000 ≡ q * 2 ^ 64 + r
    → bucket.micro_tokens + r < micro
    → (try_take bucket rate burst now).0 ≡ false
unfolding try_take refilled refill
try_take_wraps bucket rate burst now q r e h = ground arith
