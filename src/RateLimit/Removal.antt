-- ===== src/RateLimit/Removal.antt =====
-- Users' limiters and the times of their last use, and what a removal takes away
-- (internal/proxy/ratelimit.go).
use kortex.Common.{
  ℕ, ◌≡◌, ◌↔◌, refl, ap, String, Bool, true, false, not, ◌&&◌, ◌||◌, ◌∙◌, Option, none, some, List,
  [], ◌∷◌, ◌==◌, if◌then◌else◌, string_eq, arith, ltb, ◌-◌,
}
use text.Mathlib.Text.{starts_with}
use text.Mathlib.TextEquality.{eq_iff}
use kortex.Common.Int.{ℤ, pos, leb_ℤ}
use kortex.Common.Dict.{lookup, delete, lookup-insert, lookup-delete}
use kortex.Common.Text.{is_empty, ◌<>◌}
use kortex.Api.{RateLimitConfig}
use kortex.RateLimit.{
  Buckets, RateLimiter, RateLimitResult, unlimited, ask, or_new, new_rate_limiter, RateCall, asks,
  updates, removes, cleans, sets_default, rate_step, rate_run, user_key, ask_in, allow_user,
  allow_route, allow_request, update_route_limit, drop_user, drop_users_of, remove_route_limit,
  drop_stale, cleanup, set_default_limit,
}

module _ (b : Buckets) where
  open b use {Limiter}

  -- A user's key has a limiter exactly when it has a time of last use.
  abbrev pub IsTracked : RateLimiter b → Type 0
  IsTracked r =
      (key : String) → (lookup key r.user_limiters ≡ none) ↔ (lookup key r.last_access ≡ none)

  drop_user-IsTracked :
      (key : String) (r : RateLimiter b) → IsTracked r → IsTracked (drop_user b key r)
  unfolding drop_user
  drop_user-IsTracked key r h other = ground (
    arith,
    h other,
    lookup-delete other key r.user_limiters,
    lookup-delete other key r.last_access,
  )

  if-IsTracked :
      (c : Bool) (x y : RateLimiter b) → IsTracked x → IsTracked y → IsTracked (if c then x else y)
  if-IsTracked true x y hx hy = hx
  if-IsTracked false x y hx hy = hy

  if-pair-IsTracked :
      (c : Bool) (x y : RateLimiter b × RateLimitResult)
      → IsTracked x.0
      → IsTracked y.0
      → IsTracked (if c then x else y).0
  if-pair-IsTracked true x y hx hy = hx
  if-pair-IsTracked false x y hx hy = hy

  drop_users_of-IsTracked :
      (route : String) (es : List (String × Limiter)) (r : RateLimiter b)
      → IsTracked r
      → IsTracked (drop_users_of b route es r)
  unfolding drop_users_of
  drop_users_of-IsTracked route [] r h = h
  drop_users_of-IsTracked route ((key, l) ∷ es) r h = drop_users_of-IsTracked route es _ (
      if-IsTracked (starts_with key (route <> ":")) (drop_user b key r) r
        (drop_user-IsTracked key r h) h)

  drop_stale-IsTracked :
      (now : ℕ) (es : List (String × ℕ)) (r : RateLimiter b)
      → IsTracked r
      → IsTracked (drop_stale b now es r)
  unfolding drop_stale
  drop_stale-IsTracked now [] r h = h
  drop_stale-IsTracked now ((key, last_used) ∷ es) r h = drop_stale-IsTracked now es _ (
      if-IsTracked (ltb r.user_limiter_ttl (now - last_used)) (drop_user b key r) r
        (drop_user-IsTracked key r h) h)

  allow_user-IsTracked :
      (clock : ℕ → ℕ) (rpm : ℤ) (key : String) (r : RateLimiter b)
      → IsTracked r
      → IsTracked (allow_user b clock rpm key r).0
  unfolding allow_user ask_in
  allow_user-IsTracked clock rpm key r h other =
      let l = (ask b clock rpm (or_new b rpm (lookup key r.user_limiters))).0 in
      ground (
        arith,
        h other,
        lookup-insert other key (clock 0) r.last_access,
        lookup-insert other key l r.user_limiters,
      )

  allow_route-IsTracked :
      (clock : ℕ → ℕ) (rpm : ℤ) (key : String) (r : RateLimiter b)
      → IsTracked r
      → IsTracked (allow_route b clock rpm key r).0
  unfolding allow_route
  allow_route-IsTracked clock rpm key r h = h

  allow_request-IsTracked :
      (clock : ℕ → ℕ) (route user : String) (config : Option RateLimitConfig) (r : RateLimiter b)
      → IsTracked r
      → IsTracked (allow_request b clock route user config r).0
  unfolding allow_request
  allow_request-IsTracked clock route user none r h = h
  allow_request-IsTracked clock route user (some config) r h =
      let rpm = config.requests_per_minute in
      if-pair-IsTracked (leb_ℤ rpm (pos 0)) (r, unlimited) _ h
        (if-pair-IsTracked (config.per_user && not (is_empty user))
          (allow_user b clock rpm (user_key route user) r) (allow_route b clock rpm route r)
          (allow_user-IsTracked clock rpm (user_key route user) r h)
          (allow_route-IsTracked clock rpm route r h))

  step-IsTracked : (r : RateLimiter b) (c : RateCall) → IsTracked r → IsTracked (rate_step b r c)
  unfolding rate_step update_route_limit remove_route_limit cleanup set_default_limit
  step-IsTracked r (asks clock route user config) h =
      allow_request-IsTracked clock route user config r h
  step-IsTracked r (updates clock route none) h = h
  step-IsTracked r (updates clock route (some config)) h = h
  step-IsTracked r (removes route) h = drop_users_of-IsTracked route r.user_limiters _ h
  step-IsTracked r (cleans now) h = drop_stale-IsTracked now r.last_access r h
  step-IsTracked r (sets_default clock rpm) h = if-IsTracked (leb_ℤ rpm (pos 0)) r _ h h

  run-IsTracked :
      (r : RateLimiter b) (cs : List RateCall) → IsTracked r → IsTracked (rate_run b r cs)
  unfolding rate_run
  run-IsTracked r [] h = h
  run-IsTracked r (c ∷ cs) h = run-IsTracked (rate_step b r c) cs (step-IsTracked r c h)

  -- Whatever calls a new rate limiter receives, a user's key has a limiter exactly when it has a time
  -- of last use, so that `cleanup` finds every limiter of a user.
  pub run-new-IsTracked : (cs : List RateCall) → IsTracked (rate_run b (new_rate_limiter b) cs)
  unfolding new_rate_limiter lookup
  run-new-IsTracked cs = run-IsTracked (new_rate_limiter b) cs (λ key. (λ h. refl, λ h. refl))

  has : {V : Type 0} → String → List (String × V) → Bool
  has key [] = false
  has key ((k, v) ∷ m) = k == key || has key m

  same_prefix :
      (route k key : String)
      → k ≡ key
      → starts_with k (route <> ":") ≡ starts_with key (route <> ":")
  same_prefix route k key e = ap (λ x. starts_with x (route <> ":")) e

  lookup-drop_round :
      (route key k : String) (more : Bool) (r : RateLimiter b)
      → (if starts_with key (route <> ":") && more
          then none
          else lookup key
              (if starts_with k (route <> ":") then drop_user b k r else r).user_limiters)
        ≡ (if starts_with key (route <> ":") && (k == key || more)
            then none
            else lookup key r.user_limiters)
  unfolding drop_user
  lookup-drop_round route key k more r =
      ground (arith, lookup-delete key k r.user_limiters, eq_iff k key, same_prefix route k key)

  -- What the loop of the removal leaves under a key.
  lookup-drop_users_of :
      (route key : String) (es : List (String × Limiter)) (r : RateLimiter b)
      → lookup key (drop_users_of b route es r).user_limiters ≡ (
          if starts_with key (route <> ":") && has key es then none else lookup key r.user_limiters)
  unfolding drop_users_of has
  lookup-drop_users_of route key [] r = ground arith
  lookup-drop_users_of route key ((k, l) ∷ es) r =
      lookup-drop_users_of route key es _ ∙ lookup-drop_round route key k (has key es) r

  drop_users_of_keeps_routes :
      (route : String) (es : List (String × Limiter)) (r : RateLimiter b)
      → (drop_users_of b route es r).route_limiters ≡ r.route_limiters
  unfolding drop_users_of drop_user
  drop_users_of_keeps_routes route [] r = refl
  drop_users_of_keeps_routes route ((key, l) ∷ es) r =
      drop_users_of_keeps_routes route es _ ∙ (ground arith)

  lookup_of_missing :
      {V : Type 0} (key : String) (m : List (String × V)) → has key m ≡ false → lookup key m ≡ none
  unfolding has lookup
  lookup_of_missing key [] h = refl
  lookup_of_missing key ((k, v) ∷ m) h = ground (arith, h, lookup_of_missing key m)

  -- Removing a route takes away its limiter and the limiters of the keys that start with its name and
  -- a colon, and no others.
  pub lookup-remove_route_limit :
      (route key : String) (r : RateLimiter b)
      → (lookup key (remove_route_limit b route r).user_limiters
          ≡ (if starts_with key (route <> ":") then none else lookup key r.user_limiters))
        × (lookup key (remove_route_limit b route r).route_limiters
            ≡ (if route == key then none else lookup key r.route_limiters))
  unfolding remove_route_limit
  lookup-remove_route_limit route key r =
      let r' : RateLimiter b = record r { route_limiters = delete route r.route_limiters } in
      (
        ground (
          arith,
          lookup-drop_users_of route key r.user_limiters r',
          lookup_of_missing key r.user_limiters,
        ),
        ap (lookup key) (drop_users_of_keeps_routes route r.user_limiters r')
            ∙ lookup-delete key route r.route_limiters,
      )
