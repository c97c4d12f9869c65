-- ===== src/RateLimit/Sessions.antt =====
-- Whose bucket a request takes from, and what becomes of the bucket (`Allow` of
-- internal/proxy/ratelimit.go).
use kortex.Common.{
  ℕ, ◌≡◌, ◌≢◌, refl, ap, ◌∙◌, String, Bool, true, false, not, ◌&&◌, Option, none, some, List, ◌==◌,
  if◌then◌else◌, string_eq, inl, inr, ◌⊎◌, arith,
}
use kortex.Common.Int.{ℤ, pos, leb_ℤ, ◌≤ℤ◌, ◌<ℤ◌}
use kortex.Common.Dict.{lookup, lookup-insert}
use kortex.Common.Text.{is_empty, ◌<>◌}
use kortex.Api.{RateLimitConfig}
use kortex.RateLimit.{
  Buckets, RateLimiter, RateLimitResult, unlimited, or_new, answer, ask, ask_in, allow_user,
  allow_route, allow_request,
}

-- The bucket that a request is charged to.
pub data Target : Type 0 where
  free : Target
  of_user of_route : (rpm : ℤ) (key : String) → Target

-- When a request of a user on a route is charged to a bucket. The buckets of the users of a route
-- are keyed by the route, a colon and the user.
pub data ChargedTo (route user : String) : Option RateLimitConfig → Target → Type 0 where
  without_limit : ChargedTo route user none free
  not_limiting :
      (config : RateLimitConfig)
      → config.requests_per_minute ≤ℤ pos 0
      → ChargedTo route user (some config) free
  by_user :
      (config : RateLimitConfig)
      → pos 0 <ℤ config.requests_per_minute
      → config.per_user ≡ true
      → user ≢ ""
      → ChargedTo route user
          (some config)
          (of_user config.requests_per_minute (route <> ":" <> user))
  by_route :
      (config : RateLimitConfig)
      → pos 0 <ℤ config.requests_per_minute
      → (config.per_user ≡ false) ⊎ (user ≡ "")
      → ChargedTo route user (some config) (of_route config.requests_per_minute route)

module _ (b : Buckets) where
  open b use {Limiter, Reservation, per_minute, new_limiter, take, reserve, delay, cancel, tokens}

  -- The bucket that is there, or a full one of as many tokens as requests in a minute.
  abbrev pub bucket_of : ℤ → Option Limiter → Limiter
  bucket_of rpm none = new_limiter (per_minute rpm) rpm
  bucket_of rpm (some l) = l

  abbrev reserved : (clock : ℕ → ℕ) → Limiter → Limiter × Reservation
  reserved clock l = reserve (clock 2) l

  -- A bucket behind a try to take a token: the one without it or, where there was none, with a
  -- reservation made and cancelled.
  abbrev pub left : (clock : ℕ → ℕ) → Limiter × Bool → Limiter
  left clock (l, got) =
      if got then l else cancel (clock 4) (reserved clock l).1 (reserved clock l).0

  -- The answer to a request: a token allows it; without one it may come again after the delay of a
  -- reservation.
  abbrev pub verdict : (clock : ℕ → ℕ) → ℤ → Limiter × Bool → RateLimitResult
  verdict clock rpm (l, got) = record {
    allowed = got;
    limit = rpm;
    remaining = if got then tokens (clock 2) l else pos 0;
    retry_after = if got then pos 0 else delay (clock 3) (reserved clock l).1;
  }

  answer-verdict :
      (clock : ℕ → ℕ) (rpm : ℤ) (p : Limiter × Bool)
      → answer b clock rpm p ≡ (left clock p, verdict clock rpm p)
  unfolding answer
  answer-verdict clock rpm (l, true) = refl
  answer-verdict clock rpm (l, false) = refl

  ask-verdict :
      (clock : ℕ → ℕ) (rpm : ℤ) (l : Limiter)
      → ask b clock rpm l ≡ (left clock (take (clock 1) l), verdict clock rpm (take (clock 1) l))
  unfolding ask
  ask-verdict clock rpm l = answer-verdict clock rpm (take (clock 1) l)

  or_new-bucket_of : (rpm : ℤ) (o : Option Limiter) → or_new b rpm o ≡ bucket_of rpm o
  or_new-bucket_of rpm none = refl
  or_new-bucket_of rpm (some l) = refl

  -- The try to take a token from the bucket under a key.
  abbrev pub try_of : (clock : ℕ → ℕ) → ℤ → String → List (String × Limiter) → Limiter × Bool
  try_of clock rpm key m = take (clock 1) (bucket_of rpm (lookup key m))

  -- What becomes of the bucket under `other` when the one of `mine` is asked.
  abbrev pub charged :
      (clock : ℕ → ℕ) → ℤ → (mine other : String) → List (String × Limiter) → Option Limiter
  charged clock rpm mine other m =
      if mine == other then some (left clock (try_of clock rpm mine m)) else lookup other m

  abbrev pub Charged :
      (clock : ℕ → ℕ) → Target → RateLimiter b → RateLimiter b × RateLimitResult → String → Type 0
  Charged clock free r (r', result) other = (r' ≡ r) × (result ≡ unlimited)
  Charged clock (of_user rpm key) r (r', result) other =
      (result ≡ verdict clock rpm (try_of clock rpm key r.user_limiters))
      × (lookup other r'.user_limiters ≡ charged clock rpm key other r.user_limiters)
      × (lookup other r'.last_access
          ≡ (if key == other then some (clock 0) else lookup other r.last_access))
      × (r' ≡ record r { user_limiters = r'.user_limiters; last_access = r'.last_access })
  Charged clock (of_route rpm key) r (r', result) other =
      (result ≡ verdict clock rpm (try_of clock rpm key r.route_limiters))
      × (lookup other r'.route_limiters ≡ charged clock rpm key other r.route_limiters)
      × (r' ≡ record r { route_limiters = r'.route_limiters })

  asked-try_of :
      (clock : ℕ → ℕ) (rpm : ℤ) (key : String) (m : List (String × Limiter))
      → ask b clock rpm (or_new b rpm (lookup key m))
        ≡ (left clock (try_of clock rpm key m), verdict clock rpm (try_of clock rpm key m))
  asked-try_of clock rpm key m =
      ap (ask b clock rpm) (or_new-bucket_of rpm (lookup key m))
      ∙ ask-verdict clock rpm (bucket_of rpm (lookup key m))

  lookup-charged :
      (clock : ℕ → ℕ) (rpm : ℤ) (key other : String) (m : List (String × Limiter))
      → lookup other (ask_in b clock rpm key m).0 ≡ charged clock rpm key other m
  unfolding ask_in
  lookup-charged clock rpm key other m =
      lookup-insert other key _ m
      ∙ ap (λ l. if key == other then some l else lookup other m)
          (ap (λ p. p.0) (asked-try_of clock rpm key m))

  user-Charged :
      (clock : ℕ → ℕ) (rpm : ℤ) (key : String) (r : RateLimiter b) (other : String)
      → Charged clock (of_user rpm key) r (allow_user b clock rpm key r) other
  unfolding allow_user ask_in
  user-Charged clock rpm key r other = (
    ap (λ p. p.1) (asked-try_of clock rpm key r.user_limiters),
    lookup-charged clock rpm key other r.user_limiters,
    lookup-insert other key (clock 0) r.last_access,
    refl,
  )

  route-Charged :
      (clock : ℕ → ℕ) (rpm : ℤ) (key : String) (r : RateLimiter b) (other : String)
      → Charged clock (of_route rpm key) r (allow_route b clock rpm key r) other
  unfolding allow_route ask_in
  route-Charged clock rpm key r other = (
    ap (λ p. p.1) (asked-try_of clock rpm key r.route_limiters),
    lookup-charged clock rpm key other r.route_limiters,
    refl,
  )

  positive : (n : ℤ) → pos 0 <ℤ n → leb_ℤ n (pos 0) ≡ false
  positive n h = ground arith

  not_positive : (n : ℤ) → n ≤ℤ pos 0 → leb_ℤ n (pos 0) ≡ true
  not_positive n h = ground arith

  named : (user : String) → user ≢ "" → is_empty user ≡ false
  unfolding is_empty
  named String.[] h = absurd (h refl)
  named (String.◌∷◌ c s) h = refl

  unnamed :
      (per_user : Bool) (user : String)
      → (per_user ≡ false) ⊎ (user ≡ "")
      → (per_user && not (is_empty user)) ≡ false
  unfolding is_empty
  unnamed per_user user (inl off) = rw off refl
  unnamed per_user user (inr e) = ap (λ u. per_user && not (is_empty u)) e ∙ ground arith

  -- A request on a limited route is answered by the bucket it is charged to: it is let through
  -- exactly when that bucket, made full if it is not there, has a token. The bucket loses it, or has a
  -- reservation made and cancelled; no other bucket changes, and the time of last use is noted for a
  -- user's bucket only. Without a positive limit a request is let through and changes nothing.
  pub allow_request-Charged :
      (clock : ℕ → ℕ) (route user : String) (r : RateLimiter b) (other : String)
      {config : Option RateLimitConfig} {to : Target}
      → ChargedTo route user config to
      → Charged clock to r (allow_request b clock route user config r) other
  unfolding allow_request
  allow_request-Charged clock route user r other without_limit = (refl, refl)
  allow_request-Charged clock route user r other (not_limiting config h) =
      rw (not_positive config.requests_per_minute h) (refl, refl)
  allow_request-Charged clock route user r other (by_user config h per_user some_user) =
      rw (positive config.requests_per_minute h, per_user, named user some_user)
        (user-Charged clock config.requests_per_minute (route <> ":" <> user) r other)
  allow_request-Charged clock route user r other (by_route config h shared) =
      rw (positive config.requests_per_minute h, unnamed config.per_user user shared)
        (route-Charged clock config.requests_per_minute route r other)
