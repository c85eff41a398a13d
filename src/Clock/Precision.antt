-- ===== src/Clock/Precision.antt =====
-- clock.rs, `ClockPrecision`: the precision is measured by spinning until the wall clock moves. A
-- duration is a number of nanoseconds, and the k-th call of `SystemTime::now` returns `wall k`.
-- `log2_floor n`, the floor of the logarithm of n nanoseconds in seconds to the base 2, is floating
-- point: a parameter, on which nothing here depends.
use heeler.Common.{
  ℕ, zero, suc, ◌+◌, ◌*◌, ◌≤◌, ◌<◌, ◌≡◌, refl, ◌⊎◌, inl, inr, Option, none, some, ltb, ◌==◌,
  if◌then◌else◌, max, Bool-cases, arith, Option-cases,
}
use heeler.Common.Int.{ℤ, pos, negsuc, ◌-ℤ◌, ◌≤ℤ◌, ltb_ℤ}

-- `duration_since`, where it is `Ok` and not zero.
abbrev advance : ℤ → Option ℕ
advance (pos n) = if n == 0 then none else some n
advance (negsuc n) = none

unfoldable pub step_since : ℤ → ℤ → Option ℕ
step_since start later = advance (later -ℤ start)

pub record Measured : Type 0 where
  pub smallest : ℕ
  pub reads : ℕ

-- The inner loop, with `spins` readings left.
unfoldable pub spin : (ℕ → ℤ) → ℤ → ℕ → Measured → Measured
unfolding step_since
spin wall start zero m = m
spin wall start (suc spins) m = elim (step_since start (wall m.reads)) [
  | none ↦ spin wall start spins (record m { reads = m.reads + 1 })
  | some step ↦ record {
    smallest = if ltb step m.smallest then step else m.smallest;
    reads = m.reads + 1;
  }
]

-- The outer loop: a reading to start from, then the inner one.
unfoldable pub rounds : (ℕ → ℤ) → ℕ → ℕ → Measured → Measured
unfolding spin
rounds wall spins zero m = m
rounds wall spins (suc n) m =
    rounds wall spins n (spin wall (wall m.reads) spins (record m { reads = m.reads + 1 }))

abbrev pub one_second : ℕ
one_second = 1_000_000_000

unfoldable pub measure_steps : (ℕ → ℤ) → Measured
unfolding rounds
measure_steps wall = rounds wall 100_000 16 (record { smallest = one_second; reads = 0 })

abbrev pub clamp_ℤ : ℤ → ℤ → ℤ → ℤ
clamp_ℤ lo hi a = if ltb_ℤ a lo then lo else if ltb_ℤ hi a then hi else a

-- `from_duration`; the exponent is then a small integer, so the cast to i8 keeps it.
unfoldable pub from_duration : (ℕ → ℤ) → ℕ → ℤ
from_duration log2_floor step = clamp_ℤ (negsuc 29) (pos 0) (log2_floor (max step 1))

unfoldable pub measure_system : (ℕ → ℤ) → (ℕ → ℤ) → ℤ
unfolding measure_steps from_duration
measure_system log2_floor wall = from_duration log2_floor (measure_steps wall).smallest

pub from_duration_range :
    (log2_floor : ℕ → ℤ) (step : ℕ)
    → (negsuc 29 ≤ℤ from_duration log2_floor step) × (from_duration log2_floor step ≤ℤ pos 0)
unfolding from_duration
from_duration_range log2_floor step = (ground arith, ground arith)

-- What is known of the smallest step after some readings: it is a second, or at most that and the
-- distance of two of the readings.
pub record IsMeasured (wall : ℕ → ℤ) (m : Measured) : Type 0 where
  pub positive : 1 ≤ m.smallest
  pub at_most : m.smallest ≤ one_second
  pub seen :
      (m.smallest ≡ one_second)
      ⊎ ((i : ℕ) × (j : ℕ) × (i < j) × (j < m.reads) × (wall j -ℤ wall i ≡ pos m.smallest))

step_since-some :
    (start later : ℤ) (step : ℕ)
    → step_since start later ≡ some step
    → (1 ≤ step) × (later -ℤ start ≡ pos step)
unfolding step_since
step_since-some start later step e = by_sign (later -ℤ start) e
  where
    by_sign : (d : ℤ) → advance d ≡ some step → (1 ≤ step) × (d ≡ pos step)
    by_sign (pos n) h = ground (arith, h)
    by_sign (negsuc n) h = cc

sixteen_rounds : (n : ℕ) → n ≤ 0 + 16 * suc 100_000 → n ≤ 1_600_016
sixteen_rounds n h = omega (arith, h)

module _ (wall : ℕ → ℤ) where
  later-IsMeasured :
      (m : Measured) (n : ℕ)
      → m.reads ≤ n
      → IsMeasured wall m
      → IsMeasured wall (record m { reads = n })
  later-IsMeasured m n le h = record {
    positive = h.positive;
    at_most = h.at_most;
    seen = elim h.seen [
      | inl e ↦ inl e
      | inr (i, j, ij, jm, e) ↦ inr (i, j, ij, omega (arith, le, jm), e)
    ];
  }

  smaller-IsMeasured :
      (m : Measured) (i step : ℕ)
      → i < m.reads
      → step_since (wall i) (wall m.reads) ≡ some step
      → IsMeasured wall m
      → IsMeasured wall (record {
        smallest = if ltb step m.smallest then step else m.smallest;
        reads = m.reads + 1;
      })
  smaller-IsMeasured m i step lt e h =
      let (one, apart) = step_since-some (wall i) (wall m.reads) step e in
      elim (Bool-cases (ltb step m.smallest)) [
        | inr f ↦ rw f (later-IsMeasured m (m.reads + 1) (omega arith) h)
        | inl f ↦ rw f (record {
          positive = one;
          at_most = ground (arith, f, h.at_most);
          seen = inr (i, m.reads, lt, omega arith, apart);
        })
      ]

  spin-IsMeasured :
      (spins i : ℕ) (m : Measured)
      → i < m.reads
      → IsMeasured wall m
      → let after = spin wall (wall i) spins m in
        IsMeasured wall after × (m.reads ≤ after.reads) × (after.reads ≤ m.reads + spins)
  unfolding spin
  spin-IsMeasured zero i m lt h = (h, omega arith, omega arith)
  spin-IsMeasured (suc spins) i m lt h = elim (Option-cases (step_since (wall i) (wall m.reads))) [
    | inl e ↦
        let next = record m { reads = m.reads + 1 } in
        let (ih, lo, hi) =
          spin-IsMeasured spins i next (omega arith)
            (later-IsMeasured m (m.reads + 1) (omega arith) h) in
        rw (e, spin) (ih, omega (arith, lo), omega (arith, hi))
    | inr (step, e) ↦ rw (e, spin) (smaller-IsMeasured m i step lt e h, omega arith, omega arith)
  ]

  rounds-IsMeasured :
      (spins n : ℕ) (m : Measured)
      → IsMeasured wall m
      → let after = rounds wall spins n m in
        IsMeasured wall after × (after.reads ≤ m.reads + n * suc spins)
  unfolding rounds
  rounds-IsMeasured spins zero m h = (h, omega arith)
  rounds-IsMeasured spins (suc n) m h =
      let next = record m { reads = m.reads + 1 } in
      let (spun, _, hi) =
        spin-IsMeasured spins m.reads next (omega arith)
          (later-IsMeasured m (m.reads + 1) (omega arith) h) in
      let after = spin wall (wall m.reads) spins next in
      let (ih, bound) = rounds-IsMeasured spins n after spun in (ih, omega (arith, bound, hi))

  measure_steps-IsMeasured :
      let m = measure_steps wall in IsMeasured wall m × (m.reads ≤ 0 + 16 * suc 100_000)
  unfolding measure_steps
  measure_steps-IsMeasured =
      rounds-IsMeasured 100_000 16 (record { smallest = one_second; reads = 0 })
        (record { positive = omega arith; at_most = omega arith; seen = inl refl })

  -- Whatever the wall clock does, it moving back or standing still included, the measurement ends after
  -- at most sixteen times 100,001 readings, with a step of 1 to 10^9 nanoseconds. That step is a full
  -- second, or the distance from one of the readings to a later one; and the precision that goes out in
  -- the packets lies from -30 to 0, for any logarithm.
  pub measure_system_range :
      (log2_floor : ℕ → ℤ)
      → let m = measure_steps wall in
        (m.reads ≤ 1_600_016)
        × IsMeasured wall m
        × (negsuc 29 ≤ℤ measure_system log2_floor wall)
        × (measure_system log2_floor wall ≤ℤ pos 0)
  unfolding measure_system
  measure_system_range log2_floor =
      let (measured, bound) = measure_steps-IsMeasured in
      let (lo, hi) = from_duration_range log2_floor (measure_steps wall).smallest in
      (sixteen_rounds (measure_steps wall).reads bound, measured, lo, hi)
