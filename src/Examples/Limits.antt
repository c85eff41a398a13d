-- ===== src/Examples/Limits.antt =====
-- The results on access control, rate limits and the configuration, at concrete values.
use heeler.Common.{ℕ, ◌+◌, ◌-◌, ◌*◌, ◌^◌, ◌≤◌, ◌≡◌, refl, false, List, [], ◌∷◌, arith, codes}
use heeler.Access.{v4}
use heeler.Access.Longest.{Verdict, evaluate_longest_wins}
use heeler.RateLimit
use heeler.RateLimit.{LimiterState, check, check_client}
use heeler.RateLimit.Bucket
use heeler.RateLimit.Bucket.{
  TokenBucket, admitted, admitted-le, try_take, try_take_after_wait, try_take_wraps,
}
use heeler.RateLimit.Client.{ClientEntry, tally, kods-le}
use heeler.RateLimit.Bounds
use heeler.RateLimit.Bounds.{IsBounded, Call, checks, sweeps, run-new-IsBounded}
use heeler.RateLimit.Global.{past_global, past_global-le}
use heeler.Examples.Data.{prefixes, acl, loopback, settings}

evaluate_longest_wins_example : Verdict prefixes acl (v4 (loopback + 9))
evaluate_longest_wins_example = evaluate_longest_wins prefixes acl (v4 (loopback + 9))

abbrev known : List ℕ
known = codes "127.0.0.0/8"

abbrev times : List ℕ
times = 0 ∷ 1_000_000_000 ∷ 1_000_000_000 ∷ 3_000_000_000 ∷ []

admitted-le_example :
    admitted 1 1 (Bucket.new 1 0) times * 1_000_000_000
    ≤ 1 * 1_000_000_000 + (3_000_000_000 - 0) * 1
admitted-le_example =
    admitted-le 1 1 0 times (omega arith, (omega arith, (omega arith, (omega arith, tt))))

abbrev empty : TokenBucket
empty = record { micro_tokens = 0; last_refill = 0 }

try_take_wraps_example : (try_take empty 1_048_576_000 8 (2 ^ 44)).0 ≡ false
try_take_wraps_example =
    try_take_wraps empty 1_048_576_000 8 (2 ^ 44) 1 0 (omega arith) (omega arith)

abbrev calls : List (Call settings)
calls = checks (v4 1) 5 ∷ checks (v4 2) 6 ∷ checks (v4 3) 7 ∷ sweeps 8 ∷ checks (v4 1) 9 ∷ []

run-new-IsBounded_example :
    IsBounded settings (Bounds.run settings (RateLimit.new settings 0) calls)
run-new-IsBounded_example = run-new-IsBounded settings 0 calls

past_global-le_example :
    past_global settings (RateLimit.new settings 0) ((v4 1, 5) ∷ (v4 2, 9) ∷ []) * 1_000_000_000
    ≤ 20 * 1_000_000_000 + (9 - 0) * 10
past_global-le_example =
    past_global-le settings refl (omega arith) 0 ((v4 1, 5) ∷ (v4 2, 9) ∷ [])
      (omega arith, (omega arith, tt))

abbrev entry : ClientEntry
entry = record { bucket = empty; last_seen = 0; limited_count = 0 }

kods-le_example :
    let t = tally settings entry (1 ∷ 2 ∷ 3 ∷ []) in
    8 * t.kods ≤ t.limited + 7 * t.allowed_count + 7
kods-le_example = kods-le settings entry (1 ∷ 2 ∷ 3 ∷ [])

abbrev tracked : LimiterState
tracked = record {
  clients = (v4 1, entry) ∷ (v4 2, entry) ∷ [];
  global = record { micro_tokens = 20_000_000; last_refill = 0 };
  last_forced_sweep = 0;
}
