-- ===== src/RateLimit/Cases.antt =====
-- rate_limit.rs, `check`: its three ways, as equations.
use heeler.Common.{ℕ, ◌≡◌, true, false, arith}
use heeler.Access.{IpAddr}
use heeler.RateLimit.Client
use heeler.RateLimit.Client.{RateLimitSettings}
use heeler.RateLimit.{LimiterState, take_global, check_client, check}

module _ (settings : RateLimitSettings) (s : LimiterState) (source : IpAddr) (now : ℕ) where
  pub check_disabled : settings.enabled ≡ false → check settings s source now ≡ (Client.allowed, s)
  unfolding check
  check_disabled off = ground arith

  pub check_taken :
      settings.enabled ≡ true
      → (take_global settings s now).0 ≡ true
      → check settings s source now
        ≡ check_client settings (take_global settings s now).1 source now
  unfolding check
  check_taken on taken = ground arith

  pub check_exhausted :
      settings.enabled ≡ true
      → (take_global settings s now).0 ≡ false
      → check settings s source now ≡ (Client.limited_global, (take_global settings s now).1)
  unfolding check
  check_exhausted on exhausted = ground arith
