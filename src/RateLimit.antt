-- ===== src/RateLimit.antt =====
-- The rate limiter (internal/proxy/ratelimit.go). The token buckets of golang.org/x/time/rate are a
-- parameter, `Buckets`; their methods read the clock on their own, so `clock` gives the readings of a
-- call in their order. The lock is held over each call. The loop that calls `cleanup` at every tick
-- is one of the callers.
pub mod Removal
pub mod Sessions
mod Tests
use kortex.Common.{
  ℕ, ◌-◌, ◌*◌, String, Bool, true, false, not, ◌&&◌, Option, none, some, List, [], ◌∷◌, ltb,
  if◌then◌else◌, length, string_eq,
}
use kortex.Common.Int.{ℤ, pos, leb_ℤ}
use kortex.Common.Dict.{lookup, insert, delete}
use kortex.Common.Text.{◌<>◌, is_empty}
use text.Mathlib.Text.{starts_with}
use kortex.Api.{RateLimitConfig}

-- What is used of golang.org/x/time/rate; `per_minute` is `rate.Limit(float64(n) / 60.0)`, and
-- `tokens` is cut to an integer.
pub record Buckets : Type 1 where
  pub Limiter : Type 0
  pub Limit : Type 0
  pub Reservation : Type 0
  pub per_minute : ℤ → Limit
  pub new_limiter : Limit → (burst : ℤ) → Limiter
  pub take : (now : ℕ) → Limiter → Limiter × Bool
  pub reserve : (now : ℕ) → Limiter → Limiter × Reservation
  pub delay : (now : ℕ) → Reservation → ℤ
  pub cancel : (now : ℕ) → Reservation → Limiter → Limiter
  pub tokens : (now : ℕ) → Limiter → ℤ
  pub set_limit : (now : ℕ) → Limit → Limiter → Limiter
  pub set_burst : (now : ℕ) → (burst : ℤ) → Limiter → Limiter

pub record RateLimitResult : Type 0 where
  pub allowed : Bool
  pub limit : ℤ
  pub remaining : ℤ
  pub retry_after : ℤ

abbrev pub minute : ℕ
minute = 60_000_000_000

abbrev pub unlimited : RateLimitResult
unlimited = record { allowed = true; limit = pos 0; remaining = pos 0; retry_after = pos 0 }

abbrev pub user_key : String → String → String
user_key route user = route <> ":" <> user

module _ (b : Buckets) where
  open b use {
    Limiter, per_minute, new_limiter, take, reserve, delay, cancel, tokens, set_limit, set_burst,
  }

  pub record RateLimiter : Type 0 where
    pub route_limiters : List (String × Limiter)
    pub user_limiters : List (String × Limiter)
    pub user_limiter_ttl : ℕ
    pub last_access : List (String × ℕ)

  unfoldable pub new_rate_limiter : RateLimiter
  new_rate_limiter = record {
    route_limiters = [];
    user_limiters = [];
    user_limiter_ttl = 30 * minute;
    last_access = [];
  }

  abbrev pub or_new : ℤ → Option Limiter → Limiter
  or_new rpm none = new_limiter (per_minute rpm) rpm
  or_new rpm (some l) = l

  answer : (clock : ℕ → ℕ) → ℤ → Limiter × Bool → Limiter × RateLimitResult
  answer clock rpm (l, true) = (
    l,
    record { allowed = true; limit = rpm; remaining = tokens (clock 2) l; retry_after = pos 0 },
  )
  answer clock rpm (l, false) =
      let (l', r) = reserve (clock 2) l in
      (
        cancel (clock 4) r l',
        record { allowed = false; limit = rpm; remaining = pos 0; retry_after = delay (clock 3) r },
      )

  -- What a request does to the limiter of its key, and the result.
  unfoldable pub ask : (clock : ℕ → ℕ) → ℤ → Limiter → Limiter × RateLimitResult
  unfolding answer
  ask clock rpm l = answer clock rpm (take (clock 1) l)

  -- `getOrCreateLimiter` and the change through its pointer.
  unfoldable pub ask_in :
      (clock : ℕ → ℕ)
      → ℤ
      → String
      → List (String × Limiter)
      → List (String × Limiter) × RateLimitResult
  ask_in clock rpm key limiters =
      let (l, result) = ask clock rpm (or_new rpm (lookup key limiters)) in
      (insert key l limiters, result)

  unfoldable pub allow_user :
      (clock : ℕ → ℕ) → ℤ → String → RateLimiter → RateLimiter × RateLimitResult
  allow_user clock rpm key r =
      let (users, result) = ask_in clock rpm key r.user_limiters in
      (record r { user_limiters = users; last_access = insert key (clock 0) r.last_access }, result)

  unfoldable pub allow_route :
      (clock : ℕ → ℕ) → ℤ → String → RateLimiter → RateLimiter × RateLimitResult
  allow_route clock rpm key r =
      let (routes, result) = ask_in clock rpm key r.route_limiters in
      (record r { route_limiters = routes }, result)

  -- `Allow`
  unfoldable pub allow_request :
      (clock : ℕ → ℕ)
      → (route user : String) → Option RateLimitConfig
      → RateLimiter
      → RateLimiter × RateLimitResult
  allow_request clock route user none r = (r, unlimited)
  allow_request clock route user (some config) r =
      let rpm = config.requests_per_minute in
      if leb_ℤ rpm (pos 0)
      then (r, unlimited)
      else if config.per_user && not (is_empty user)
      then allow_user clock rpm (user_key route user) r
      else allow_route clock rpm route r

  adjusted : (clock : ℕ → ℕ) → ℤ → Limiter → Limiter
  adjusted clock rpm l = set_burst (clock 1) rpm (set_limit (clock 0) (per_minute rpm) l)

  adjusted_or_new : (clock : ℕ → ℕ) → ℤ → Option Limiter → Limiter
  unfolding adjusted
  adjusted_or_new clock rpm none = new_limiter (per_minute rpm) rpm
  adjusted_or_new clock rpm (some l) = adjusted clock rpm l

  -- `UpdateRouteLimit`
  unfoldable pub update_route_limit :
      (clock : ℕ → ℕ) → String → Option RateLimitConfig → RateLimiter → RateLimiter
  unfolding adjusted_or_new
  update_route_limit clock route none r = record r {
    route_limiters = delete route r.route_limiters;
  }
  update_route_limit clock route (some config) r =
      let rpm = config.requests_per_minute in
      record r {
        route_limiters =
            if leb_ℤ rpm (pos 0)
            then delete route r.route_limiters
            else insert route (adjusted_or_new clock rpm (lookup route r.route_limiters))
                r.route_limiters;
      }

  drop_user : String → RateLimiter → RateLimiter
  drop_user key r = record r {
    user_limiters = delete key r.user_limiters;
    last_access = delete key r.last_access;
  }

  -- The loop over the keys of the users' limiters.
  unfoldable pub drop_users_of : String → List (String × Limiter) → RateLimiter → RateLimiter
  unfolding drop_user
  drop_users_of route [] r = r
  drop_users_of route ((key, l) ∷ entries) r =
      drop_users_of route entries (if starts_with key (route <> ":") then drop_user key r else r)

  -- `RemoveRouteLimit`
  unfoldable pub remove_route_limit : String → RateLimiter → RateLimiter
  remove_route_limit route r =
      drop_users_of route r.user_limiters
        (record r { route_limiters = delete route r.route_limiters })

  unfoldable pub drop_stale : ℕ → List (String × ℕ) → RateLimiter → RateLimiter
  unfolding drop_user
  drop_stale now [] r = r
  drop_stale now ((key, last_used) ∷ entries) r =
      drop_stale now entries
        (if ltb r.user_limiter_ttl (now - last_used) then drop_user key r else r)

  unfoldable pub cleanup : ℕ → RateLimiter → RateLimiter
  cleanup now r = drop_stale now r.last_access r

  pub record RateLimiterStats : Type 0 where
    pub route_count : ℕ
    pub user_count : ℕ

  unfoldable pub get_rate_stats : RateLimiter → RateLimiterStats
  get_rate_stats r = record {
    route_count = length r.route_limiters;
    user_count = length r.user_limiters;
  }

  adjust_all : (clock : String → ℕ → ℕ) → ℤ → List (String × Limiter) → List (String × Limiter)
  unfolding adjusted
  adjust_all clock rpm [] = []
  adjust_all clock rpm ((key, l) ∷ limiters) =
      (key, adjusted (clock key) rpm l) ∷ adjust_all clock rpm limiters

  -- `SetDefaultLimit`; the clock is read anew for each limiter.
  unfoldable pub set_default_limit : (clock : String → ℕ → ℕ) → ℤ → RateLimiter → RateLimiter
  unfolding adjust_all
  set_default_limit clock rpm r =
      if leb_ℤ rpm (pos 0)
      then r
      else record r { route_limiters = adjust_all clock rpm r.route_limiters }

-- The calls that change a rate limiter.
pub data RateCall : Type 0 where
  asks : (clock : ℕ → ℕ) (route user : String) → Option RateLimitConfig → RateCall
  updates : (clock : ℕ → ℕ) (route : String) → Option RateLimitConfig → RateCall
  removes : (route : String) → RateCall
  cleans : (now : ℕ) → RateCall
  sets_default : (clock : String → ℕ → ℕ) → ℤ → RateCall

module _ (b : Buckets) where
  unfoldable pub rate_step : RateLimiter b → RateCall → RateLimiter b
  rate_step r (asks clock route user config) = (allow_request b clock route user config r).0
  rate_step r (updates clock route config) = update_route_limit b clock route config r
  rate_step r (removes route) = remove_route_limit b route r
  rate_step r (cleans now) = cleanup b now r
  rate_step r (sets_default clock rpm) = set_default_limit b clock rpm r

  unfoldable pub rate_run : RateLimiter b → List RateCall → RateLimiter b
  rate_run r [] = r
  rate_run r (c ∷ cs) = rate_run (rate_step r c) cs
