-- ===== src/RateLimit/Tests.antt =====
-- The theorems on the rate limiter at concrete calls, over buckets that never refill
-- (internal/proxy/ratelimit.go).
use kortex.Common.{String, ◌≢◌, ap, refl, arith, true, some, List, [], ◌∷◌, string_eq}
use kortex.Common.Text.{is_empty}
use kortex.Common.Int.{pos}
use kortex.Api.{RateLimitConfig}
use kortex.RateLimit.{
  RateLimiter, new_rate_limiter, RateCall, asks, removes, rate_run, allow_request,
}
use kortex.Samples.{draining}
use kortex.RateLimit.Sessions.{Charged, of_user, by_user, allow_request-Charged}
use kortex.RateLimit.Removal.{IsTracked, run-new-IsTracked}

abbrev two_per_minute : RateLimitConfig
two_per_minute = record { requests_per_minute = pos 2; per_user = true; user_header = "X-User-ID" }

abbrev two_calls : List RateCall
two_calls =
    asks (λ n. n) "chat" "ann" (some two_per_minute)
    ∷ asks (λ n. n) "embed" "ann" (some two_per_minute)
    ∷ []

abbrev used : RateLimiter draining
used = rate_run draining (new_rate_limiter draining) two_calls

abbrev bob : String
bob = "bob"

bob-IsNamed : bob ≢ ""
unfolding is_empty
bob-IsNamed e = ground (arith, ap is_empty e)

Charged_example :
    Charged draining
      (λ n. n)
      (of_user (pos 2) "chat:bob")
      used
      (allow_request draining (λ n. n) "chat" "bob" (some two_per_minute) used)
      "chat:ann"
Charged_example =
    allow_request-Charged draining (λ n. n) "chat" "bob" used "chat:ann"
      (by_user two_per_minute (omega arith) refl bob-IsNamed)

IsTracked_example :
    IsTracked draining (rate_run draining (new_rate_limiter draining) (removes "chat" ∷ two_calls))
IsTracked_example = run-new-IsTracked draining (removes "chat" ∷ two_calls)
