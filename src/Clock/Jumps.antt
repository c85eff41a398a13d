-- ===== src/Clock/Jumps.antt =====
-- clock.rs, `check_jump`: what a history of periodic checks detects, and what it leaves alone.
use heeler.Common.{
  ℕ, ◌+◌, ◌-◌, ◌*◌, ◌≤◌, ◌≡◌, refl, Bool, true, false, ◌⊎◌, inl, inr, Option, none, some, List, [],
  ◌∷◌, ok, length, arith, if◌then◌else◌, Bool-cases, Result-cases, ◌∙◌, ap,
}
use heeler.Common.Int.{ℤ, pos, ◌+ℤ◌, ◌-ℤ◌, ◌≤ℤ◌, int_laws}
use heeler.Timestamp.{
  NtpInstant, NtpTimestamp, IsTimestamp, from_system_time, to_timestamp, nanos_since,
}
use heeler.Timestamp.Instants.{to_timestamp-IsTimestamp}
use heeler.Response.{unsynchronised}
use heeler.Clock.{ClockReading, ClockSource, from_instant-IsTimestamp}
use heeler.Clock.System.{
  SystemClockSource, JumpPolicy, check_jump, drift_since, is_jump, new, refreshed, now, status,
}

abbrev pub Within : JumpPolicy → ℤ → Type 0
Within policy drift =
    (pos 0 ≤ℤ drift +ℤ pos policy.max_backward) × (drift ≤ℤ pos policy.max_forward)

abbrev pub Outside : JumpPolicy → ℤ → Type 0
Outside policy drift =
    (drift +ℤ pos policy.max_backward +ℤ pos 1 ≤ℤ pos 0)
    ⊎ (pos policy.max_forward +ℤ pos 1 ≤ℤ drift)

is_jump-cases :
    (policy : JumpPolicy) (drift : ℤ)
    → ((is_jump policy drift ≡ false) × Within policy drift)
      ⊎ ((is_jump policy drift ≡ true) × Outside policy drift)
unfolding is_jump ◌+ℤ◌
is_jump-cases policy drift = ground arith

check_jump_split :
    (s : SystemClockSource) (wall : ℤ) (mono : ℕ)
    → let (jump, after) = check_jump s wall mono in
      let drift = drift_since s wall mono in
      (after.last_wall ≡ from_system_time wall)
      × (after.last_mono ≡ mono)
      × (((jump ≡ none) × Within s.policy drift × (after.is_synchronised ≡ s.is_synchronised))
          ⊎ ((jump
                ≡ some (record {
                  drift_nanos = drift;
                  marked_unsynchronised = s.policy.mark_unsynchronised_on_jump;
                }))
              × Outside s.policy drift
              × (after.is_synchronised
                  ≡ (if s.policy.mark_unsynchronised_on_jump then false else s.is_synchronised))
              × (after.reference ≡ s.reference)))
unfolding check_jump
check_jump_split s wall mono = elim (is_jump-cases s.policy (drift_since s wall mono)) [
  | inl (e, w) ↦ rw (e, check_jump) (refl, refl, inl (refl, w, refl))
  | inr (e, o) ↦ rw (e, check_jump) (refl, refl, inr (refl, o, refl, refl))
]

-- The drift is what the wall clock gained since the last check, less the time that the monotonic clock
-- measured. A check reports a jump exactly if the wall clock fell behind by more than `max_backward` or
-- ran ahead by more than `max_forward`, with that drift and the policy's mark. A jump leaves the
-- reference timestamp alone, and makes the clock unsynchronised if the policy marks jumps; a check
-- without a jump leaves the status alone. Either way the next check starts from here.
pub check_jump_exact :
    (s : SystemClockSource) (wall : ℤ) (mono : ℕ)
    → let (jump, after) = check_jump s wall mono in
      let now = from_system_time wall in
      let drift = now.nanos -ℤ s.last_wall.nanos -ℤ pos (mono - s.last_mono) in
      (after.last_wall ≡ now)
      × (after.last_mono ≡ mono)
      × (((jump ≡ none) × Within s.policy drift × (after.is_synchronised ≡ s.is_synchronised))
          ⊎ ((jump
                ≡ some (record {
                  drift_nanos = drift;
                  marked_unsynchronised = s.policy.mark_unsynchronised_on_jump;
                }))
              × Outside s.policy drift
              × (after.is_synchronised
                  ≡ (if s.policy.mark_unsynchronised_on_jump then false else s.is_synchronised))
              × (after.reference ≡ s.reference)))
unfolding drift_since nanos_since
check_jump_exact s wall mono = check_jump_split s wall mono

-- The checks of the housekeeping task, each at a wall reading and a monotonic instant.
unfoldable pub run_checks : SystemClockSource → List (ℤ × ℕ) → SystemClockSource
run_checks s [] = s
run_checks s ((wall, mono) ∷ rest) = run_checks (check_jump s wall mono).1 rest

check_jump-unsynchronised :
    (s : SystemClockSource) (wall : ℤ) (mono : ℕ)
    → s.is_synchronised ≡ false
    → ((check_jump s wall mono).1.is_synchronised ≡ false)
      × ((check_jump s wall mono).1.reference ≡ s.reference)
unfolding check_jump
check_jump-unsynchronised s wall mono e = ground arith

-- Once unsynchronised, no history of checks makes the clock synchronised again, and the reference
-- timestamp stays where it was when it was last valid.
pub run_checks-unsynchronised :
    (s : SystemClockSource) (checks : List (ℤ × ℕ))
    → s.is_synchronised ≡ false
    → (status (run_checks s checks) ≡ unsynchronised)
      × ((run_checks s checks).reference ≡ s.reference)
unfolding run_checks status
run_checks-unsynchronised s [] e = (rw e, refl)
run_checks-unsynchronised s ((wall, mono) ∷ rest) e =
    let (u, r) = check_jump-unsynchronised s wall mono e in
    let (v, t) = run_checks-unsynchronised (check_jump s wall mono).1 rest u in (v, t ∙ r)

-- No check of the history reports a jump.
abbrev pub Quiet : SystemClockSource → List (ℤ × ℕ) → Type 0
Quiet s [] = Unit {0}
Quiet s ((wall, mono) ∷ rest) =
    ((check_jump s wall mono).0 ≡ none)
    × (s.last_mono ≤ mono)
    × Quiet (check_jump s wall mono).1 rest

step_quiet :
    (s : SystemClockSource) (wall : ℤ) (mono : ℕ)
    → (check_jump s wall mono).0 ≡ none
    → s.last_mono ≤ mono
    → let t = (check_jump s wall mono).1 in
      (t.policy ≡ s.policy)
      × (t.last_mono ≡ mono)
      × (t.last_wall.nanos +ℤ pos s.last_mono
          ≤ℤ s.last_wall.nanos +ℤ pos (mono + s.policy.max_forward))
      × (s.last_wall.nanos +ℤ pos mono
          ≤ℤ t.last_wall.nanos +ℤ pos (s.last_mono + s.policy.max_backward))
unfolding check_jump drift_since nanos_since
step_quiet s wall mono e m = elim (is_jump-cases s.policy (drift_since s wall mono)) [
  | inl (j, w) ↦ rw (j, check_jump) (refl, refl, omega int_laws, omega int_laws)
  | inr (j, o) ↦ absurd (ground (arith, j))
]

-- Checks that report no jump, at monotonic instants that do not go back, let the wall clock run
-- ahead of the monotonic clock by at most `max_forward` for each check, and fall behind by at most
-- `max_backward` for each.
pub undetected_drift :
    (s : SystemClockSource) (checks : List (ℤ × ℕ))
    → Quiet s checks
    → let t = run_checks s checks in
      (t.last_wall.nanos +ℤ pos s.last_mono
        ≤ℤ s.last_wall.nanos +ℤ pos (t.last_mono + length checks * s.policy.max_forward))
      × (s.last_wall.nanos +ℤ pos t.last_mono
          ≤ℤ t.last_wall.nanos +ℤ pos (s.last_mono + length checks * s.policy.max_backward))
unfolding run_checks
undetected_drift s [] q = (omega int_laws, omega int_laws)
undetected_drift s ((wall, mono) ∷ rest) (e, m, q) =
    let (p, l, f, b) = step_quiet s wall mono e m in
    let (g, c) = undetected_drift (check_jump s wall mono).1 rest q in
    let pf = ap (λ (x : JumpPolicy). length rest * x.max_forward) p in
    let pb = ap (λ (x : JumpPolicy). length rest * x.max_backward) p in
    (omega (int_laws, f, g, l, pf), omega (int_laws, b, c, l, pb))

-- The clock as the server uses it. It is sound while its reference timestamp is a wire timestamp.
abbrev pub HasReference : SystemClockSource → Type 0
HasReference s = (t : NtpTimestamp) → s.reference ≡ some t → IsTimestamp t

pub system_now_fits :
    (wall : ℕ → ℤ) (s : SystemClockSource) (r : ClockReading)
    → (now wall s).0 ≡ ok r
    → IsTimestamp r.timestamp
unfolding now
system_now_fits wall s r e = from_instant-IsTimestamp _ r e

pub system_now_sound :
    (wall : ℕ → ℤ) (s : SystemClockSource) → HasReference s → HasReference (now wall s).1
unfolding now
system_now_sound wall s h = h

refreshed-IsTimestamp :
    (old : Option NtpTimestamp) (b : Bool) (i : NtpInstant) (t : NtpTimestamp)
    → ((u : NtpTimestamp) → old ≡ some u → IsTimestamp u)
    → (if b then refreshed old (to_timestamp i) else old) ≡ some t
    → IsTimestamp t
refreshed-IsTimestamp old false i t h e = h t e
refreshed-IsTimestamp old true i t h e = elim (Result-cases (to_timestamp i)) [
  | inl (u, f) ↦ to_timestamp-IsTimestamp i t (ground (arith, f))
  | inr (x, f) ↦ h t (rw f at e)
]

-- A check keeps the clock sound.
pub check_jump-HasReference :
    (s : SystemClockSource) (wall : ℤ) (mono : ℕ)
    → HasReference s
    → HasReference (check_jump s wall mono).1
unfolding check_jump
check_jump-HasReference s wall mono h t e =
    elim (Bool-cases (is_jump s.policy (drift_since s wall mono))) [
      | inl j ↦ h t (rw (j, check_jump) at e)
      | inr j ↦
          refreshed-IsTimestamp s.reference s.is_synchronised (from_system_time wall) t h
            (rw (j, check_jump) at e)
    ]

unfoldable pub system_clock_source : (ℕ → ℤ) → ClockSource SystemClockSource
unfolding now status
system_clock_source wall = record {
  now = now wall;
  status = status;
  reference_timestamp = λ s. s.reference;
  estimated_precision = λ s. s.precision;
  estimated_root_dispersion = λ s. s.root_dispersion;
  IsSound = HasReference;
  now_sound = system_now_sound wall;
  now_fits = system_now_fits wall;
  reference_fits = λ s t h e. h t e;
}

-- A source that was accepted is sound, and keeps the precision that was measured.
pub new-HasReference :
    (policy : JumpPolicy) (dispersion : ℕ) (precision wall : ℤ) (mono : ℕ) (s : SystemClockSource)
    → new policy dispersion precision wall mono ≡ ok s
    → HasReference s × (s.precision ≡ precision)
unfolding new
new-HasReference policy dispersion precision wall mono s e =
    elim (Result-cases (to_timestamp (from_system_time wall))) [
      | inr (x, f) ↦ ground (arith, f, e)
      | inl (u, f) ↦ (
        λ t g. to_timestamp-IsTimestamp (from_system_time wall) t (ground (arith, f, e, g)),
        ground (arith, f, e),
      )
    ]
