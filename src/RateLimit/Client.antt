-- ===== src/RateLimit/Client.antt =====
-- rate_limit.rs, one client's entry: its bucket, and how often a Kiss-o'-Death is suggested.
use heeler.Common.{
  ℕ, suc, ◌+◌, ◌-◌, ◌*◌, ◌%◌, ◌^◌, ◌≤◌, Bool, true, false, ◌==◌, if◌then◌else◌, List, [], ◌∷◌,
  arith,
}
use heeler.RateLimit.Bucket.{TokenBucket, try_take}

abbrev pub kod_interval : ℕ
kod_interval = 8

pub record RateLimitSettings : Type 0 where
  pub enabled : Bool
  pub requests_per_second : ℕ
  pub burst : ℕ
  pub global_requests_per_second : ℕ
  pub global_burst : ℕ
  pub client_entry_ttl : ℕ
  pub max_client_entries : ℕ

pub data RateDecision : Type 0 where
  allowed : RateDecision
  limited_per_client : Bool → RateDecision
  limited_global : RateDecision
  table_full : RateDecision

pub record ClientEntry : Type 0 where
  pub bucket : TokenBucket
  pub last_seen : ℕ
  pub limited_count : ℕ

-- A packet of a known client. The counter is a u32 that wraps.
unfoldable pub check_entry : RateLimitSettings → ClientEntry → ℕ → RateDecision × ClientEntry
check_entry settings entry now =
    let (taken, bucket) = try_take entry.bucket settings.requests_per_second settings.burst now in
    let send_kod = entry.limited_count % kod_interval == 0 in
    if taken then (allowed, record { bucket = bucket; last_seen = now; limited_count = 0 }) else (
      limited_per_client send_kod,
      record {
        bucket = bucket;
        last_seen = now;
        limited_count = (entry.limited_count + 1) % 2 ^ 32;
      },
    )

-- A run of packets from one client: how many were allowed, how many were limited, and for how many
-- of those a Kiss-o'-Death was suggested.
pub record Tally : Type 0 where
  pub allowed_count : ℕ
  pub limited : ℕ
  pub kods : ℕ

abbrev pub count : RateDecision → Tally → Tally
count (limited_per_client true) t = record t { limited = suc t.limited; kods = suc t.kods }
count (limited_per_client false) t = record t { limited = suc t.limited }
count _ t = record t { allowed_count = suc t.allowed_count }

unfoldable pub tally : RateLimitSettings → ClientEntry → List ℕ → Tally
tally settings entry [] = record { allowed_count = 0; limited = 0; kods = 0 }
tally settings entry (now ∷ rest) =
    let (decision, entry') = check_entry settings entry now in
    count decision (tally settings entry' rest)

-- How many limited packets are left before the next suggestion.
abbrev quiet : ℕ → ℕ
quiet c = (kod_interval - c % kod_interval) % kod_interval

tally_potential :
    (settings : RateLimitSettings) (entry : ClientEntry) (times : List ℕ)
    → let t = tally settings entry times in
      8 * t.kods ≤ t.limited + 7 * t.allowed_count + (7 - quiet entry.limited_count)
unfolding tally check_entry
tally_potential settings entry [] = omega arith
tally_potential settings entry (now ∷ rest) =
    ground (arith, tally_potential settings (check_entry settings entry now).1 rest)

-- Kiss-o'-Death suggestions are throttled: over any run of a client's packets, whatever its entry
-- was before, at most one in eight of its limited packets suggests one, but for seven more after
-- the start and after each packet that was allowed, which resets the counter.
pub kods-le :
    (settings : RateLimitSettings) (entry : ClientEntry) (times : List ℕ)
    → let t = tally settings entry times in 8 * t.kods ≤ t.limited + 7 * t.allowed_count + 7
kods-le settings entry times = omega (arith, tally_potential settings entry times)
