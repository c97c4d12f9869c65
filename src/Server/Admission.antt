-- ===== src/Server/Admission.antt =====
-- Which requests the server refuses, and what becomes of the others (`ServeHTTP` of
-- internal/proxy/server.go).
use kortex.Common.{
  arith, ℕ, ◌≡◌, refl, ap, ◌∙◌, String, Bool, true, false, Option, none, some, Bool-cases, inl, inr,
  ◌⊎◌, List, [], ◌∷◌, ◌++◌, string_eq,
}
use mathlib.Core.Path.{subst}
use kortex.Api.{InferenceRoute, RateLimitConfig}
use kortex.Http.{Request, ResponseWriter}
use kortex.Http.Laws.{status-http_error, or_code}
use kortex.Backend.Proxying.{World, Env, MetricCall, rate_limit_hit}
use kortex.RateLimit.{allow_request, Buckets, RateLimiter, RateLimitResult}
use kortex.RateLimit.Sessions.{
  Target, free, of_user, of_route, ChargedTo, try_of, Charged, allow_request-Charged,
}
use kortex.Router.{RouterEnv, find_matching_route, handle_request}
use kortex.Router.Handling.{Replied, Draws, AllRoutable, handle_request-Replied}
use kortex.Server.{
  Server, Served, too_large, limited, routed, is_too_large, limit_body, user_of, limit_headers,
  reject_limited, route_on, judged, with_limit, for_route, serve_http, record_hit,
}

module _ (b : Buckets) where
  -- The client has the status of a refusal, or the answer of the router.
  abbrev pub Attended : Server b × World × Served → Type 0
  Attended (s, w, too_large) = w.writer.status ≡ some 413
  Attended (s, w, limited result) = w.writer.status ≡ some 429
  Attended (s, w, routed how) = Replied (s.router, w, how)

  -- A call on the metrics is appended to those before, where they are recorded.
  abbrev counted : MetricCall → Option (List MetricCall) → Option (List MetricCall)
  counted call none = none
  counted call (some calls) = some (calls ++ call ∷ [])

  -- The limiter has been asked for the user of a request whose route has a limit, with this outcome.
  abbrev Asks :
      (clock : ℕ → ℕ)
      → Server b
      → Request
      → InferenceRoute
      → RateLimitConfig
      → RateLimiter b × RateLimitResult
      → Type 0
  Asks clock s req route limit asked =
      let req' = limit_body s.config req in
      (find_matching_route s.router.cache req' ≡ some route)
      × (route.spec.rate_limit ≡ some limit)
      × ((limiter : RateLimiter b) × (s.rate_limiter ≡ some limiter)
          × (allow_request b clock route.name (user_of limit req') (some limit) limiter ≡ asked))

  -- Behind a refusal the server is as before, but for the limiter that was asked, and no backend was
  -- asked; any other request was handled as the router handles it, with some headers added to the
  -- writer before.
  abbrev pub Guards :
      RouterEnv
      → Env
      → (clock : ℕ → ℕ) → Server b
      → Request
      → World
      → Server b × World × Served
      → Type 0
  Guards renv env clock s req w (s', w', too_large) =
      (s' ≡ s) × (w' ≡ record w { writer = w'.writer }) × (is_too_large s.config req ≡ true)
  Guards renv env clock s req w (s', w', limited result) =
      (route : InferenceRoute) × (limit : RateLimitConfig) × (limiter : RateLimiter b) × Asks clock
        s req route limit (limiter, result)
      × (result.allowed ≡ false)
      × (s' ≡ record s { rate_limiter = some limiter })
      × (w' ≡ record w {
        writer = w'.writer;
        metrics =
            counted (rate_limit_hit route.name (user_of limit (limit_body s.config req))) w.metrics;
      })
  Guards renv env clock s req w (s', w', routed how) =
      (writer : ResponseWriter) × (writer.status ≡ w.writer.status)
      × (handle_request renv env s.router (limit_body s.config req) (record w { writer = writer })
          ≡ (s'.router, w', how))
      × (s'.config ≡ s.config)
      × ((s'.rate_limiter ≡ s.rate_limiter)
          ⊎ ((route : InferenceRoute) × (limit : RateLimitConfig) × (limiter : RateLimiter b)
              × (result : RateLimitResult) × Asks clock s req route limit (limiter, result)
              × (result.allowed ≡ true)
              × (s'.rate_limiter ≡ some limiter)))

  status-reject_limited :
      (result : RateLimitResult) (writer : ResponseWriter)
      → (reject_limited result writer).status ≡ or_code writer.status 429
  unfolding reject_limited
  status-reject_limited result writer = status-http_error "Rate limit exceeded" 429 _

  module _ (renv : RouterEnv) (env : Env) where
    route_on-Guards :
        (clock : ℕ → ℕ) (s : Server b) (req : Request) (w : World)
        → Guards renv env clock s req w (route_on b renv env s (limit_body s.config req) w)
    unfolding route_on
    route_on-Guards clock s req w = (w.writer, refl, refl, refl, inl refl)

    judged-Guards :
        (clock : ℕ → ℕ) (s : Server b) (req : Request) (w : World) (route : InferenceRoute)
        (limit : RateLimitConfig) (asked : RateLimiter b × RateLimitResult)
        → Asks clock s req route limit asked
        → Guards renv env clock s req w (
            judged b renv env route.name
              (user_of limit (limit_body s.config req))
              s
              (limit_body s.config req)
              w
              asked)
    unfolding judged route_on record_hit
    judged-Guards clock s req w route limit asked how = elim (Bool-cases asked.1.allowed) [
      | inl granted ↦ rw granted (
        limit_headers asked.1 w.writer,
        refl,
        refl,
        refl,
        inr (route, limit, asked.0, asked.1, how, granted, refl),
      )
      | inr denied ↦ simp denied (route, limit, asked.0, how, refl, refl, ground arith)
    ]

    with_limit-Guards :
        (clock : ℕ → ℕ) (s : Server b) (req : Request) (w : World) (route : InferenceRoute)
        (limit : Option RateLimitConfig) (limiter : Option (RateLimiter b))
        → find_matching_route s.router.cache (limit_body s.config req) ≡ some route
        → route.spec.rate_limit ≡ limit
        → s.rate_limiter ≡ limiter
        → Guards renv env clock s req w
            (with_limit b renv env clock s (limit_body s.config req) w route limit limiter)
    unfolding with_limit
    with_limit-Guards clock s req w route none limiter found has limits =
        route_on-Guards clock s req w
    with_limit-Guards clock s req w route (some limit) none found has limits =
        route_on-Guards clock s req w
    with_limit-Guards clock s req w route (some limit) (some limiter) found has limits =
        let user = user_of limit (limit_body s.config req) in
        judged-Guards clock s req w route limit
          (allow_request b clock route.name user (some limit) limiter)
          (found, has, (limiter, limits, refl))

    for_route-Guards :
        (clock : ℕ → ℕ) (s : Server b) (req : Request) (w : World) (route : Option InferenceRoute)
        → find_matching_route s.router.cache (limit_body s.config req) ≡ route
        → Guards renv env clock s req w
            (for_route b renv env clock s (limit_body s.config req) w route)
    unfolding for_route
    for_route-Guards clock s req w none found = route_on-Guards clock s req w
    for_route-Guards clock s req w (some route) found =
        with_limit-Guards clock s req w route route.spec.rate_limit s.rate_limiter found refl refl

    -- A request that the server refuses leaves the router and the configuration as they were, and no
    -- breaker, body, cost, wait or backend is touched: for its size the whole server stays the same,
    -- and for its rate the limiter is as the asking left it, and one hit of the route and the user is
    -- counted. Every other request is handled as the router handles it under the limit on its body,
    -- with a writer whose status is the one before, and the limiter is as before or has let it pass.
    pub serve_http-Guards :
        (clock : ℕ → ℕ) (s : Server b) (req : Request) (w : World)
        → Guards renv env clock s req w (serve_http b renv env clock s req w)
    unfolding serve_http
    serve_http-Guards clock s req w = elim (Bool-cases (is_too_large s.config req)) [
      | inl large ↦ rw large (refl, refl, large)
      | inr fine ↦ rw fine (for_route-Guards clock s req w _ refl)
    ]

    module _ (draws : Draws renv) where
      route_on-Attended :
          (s : Server b) (req : Request) (w : World)
          → AllRoutable s.router.cache.routes
          → w.writer.status ≡ none
          → Attended (route_on b renv env s req w)
      unfolding route_on
      route_on-Attended s req w fine fresh =
          handle_request-Replied renv env s.router req w draws fine fresh

      judged-Attended :
          (route user : String) (s : Server b) (req : Request) (w : World)
          (asked : RateLimiter b × RateLimitResult)
          → AllRoutable s.router.cache.routes
          → w.writer.status ≡ none
          → Attended (judged b renv env route user s req w asked)
      unfolding judged
      judged-Attended route user s req w asked fine fresh = elim (Bool-cases asked.1.allowed) [
        | inl granted ↦ rw granted (
            route_on-Attended (record s { rate_limiter = some asked.0 }) req
              (record w { writer = limit_headers asked.1 w.writer }) fine fresh)
        | inr denied ↦
            rw denied (status-reject_limited asked.1 w.writer ∙ ap (λ st. or_code st 429) fresh)
      ]

      with_limit-Attended :
          (clock : ℕ → ℕ) (s : Server b) (req : Request) (w : World) (route : InferenceRoute)
          (limit : Option RateLimitConfig) (limiter : Option (RateLimiter b))
          → AllRoutable s.router.cache.routes
          → w.writer.status ≡ none
          → Attended (with_limit b renv env clock s req w route limit limiter)
      unfolding with_limit
      with_limit-Attended clock s req w route none limiter = route_on-Attended s req w
      with_limit-Attended clock s req w route (some limit) none = route_on-Attended s req w
      with_limit-Attended clock s req w route (some limit) (some limiter) =
          let user = user_of limit req in
          judged-Attended route.name user s req w
            (allow_request b clock route.name user (some limit) limiter)

      for_route-Attended :
          (clock : ℕ → ℕ) (s : Server b) (req : Request) (w : World) (route : Option InferenceRoute)
          → AllRoutable s.router.cache.routes
          → w.writer.status ≡ none
          → Attended (for_route b renv env clock s req w route)
      unfolding for_route
      for_route-Attended clock s req w none = route_on-Attended s req w
      for_route-Attended clock s req w (some route) =
          with_limit-Attended clock s req w route route.spec.rate_limit s.rate_limiter

      -- Every request to a server whose routes are balanced (no negative weight, sums below 2^31),
      -- whose draws stay below their bound and whose writer has sent no status is answered, whatever
      -- the limits: with 413, with 429, or as the router answers.
      pub serve_http-Attended :
          (clock : ℕ → ℕ) (s : Server b) (req : Request) (w : World)
          → AllRoutable s.router.cache.routes
          → w.writer.status ≡ none
          → Attended (serve_http b renv env clock s req w)
      unfolding serve_http
      serve_http-Attended clock s req w fine fresh = elim (Bool-cases (is_too_large s.config req)) [
        | inl large ↦ rw large (
            status-http_error "Request body too large" 413 w.writer
            ∙ ap (λ st. or_code st 413) fresh)
        | inr small ↦ rw small (for_route-Attended clock s _ w _ fine fresh)
      ]

  -- Whether the bucket that a request is charged to has a token for it.
  unfoldable pub lets_pass : (clock : ℕ → ℕ) → Target → RateLimiter b → Bool
  lets_pass clock free limiter = true
  lets_pass clock (of_user rpm key) limiter = (try_of b clock rpm key limiter.user_limiters).1
  lets_pass clock (of_route rpm key) limiter = (try_of b clock rpm key limiter.route_limiters).1

  -- Behind a pass the router has handled the request; without one the client has the status 429 and
  -- the time to wait, and nothing was sent to a backend.
  abbrev pub Judged : RouterEnv → Env → Server b → Request → World → Bool → World → Type 0
  Judged renv env s req w true w' =
      (writer : ResponseWriter) × (writer.status ≡ w.writer.status)
      × ((handle_request renv env s.router (limit_body s.config req)
            (record w { writer = writer })).1
          ≡ w')
  Judged renv env s req w false w' =
      (w'.writer.status ≡ some 429) × (w'.sent ≡ w.sent) × (w'.breakers ≡ w.breakers)

  lets_pass-allowed :
      (clock : ℕ → ℕ) (limiter : RateLimiter b) (to : Target)
      (asked : RateLimiter b × RateLimitResult)
      → Charged b clock to limiter asked ""
      → asked.1.allowed ≡ lets_pass clock to limiter
  unfolding lets_pass
  lets_pass-allowed clock limiter free asked h = ap (λ r. r.allowed) h.1
  lets_pass-allowed clock limiter (of_user rpm key) asked h = ap (λ r. r.allowed) h.0
  lets_pass-allowed clock limiter (of_route rpm key) asked h = ap (λ r. r.allowed) h.0

  judged-Judged :
      (renv : RouterEnv) (env : Env) (route user : String) (s : Server b) (req : Request)
      (w : World) (asked : RateLimiter b × RateLimitResult)
      → w.writer.status ≡ none
      → Judged renv env s req w asked.1.allowed
          (judged b renv env route user s (limit_body s.config req) w asked).1
  unfolding judged route_on record_hit
  judged-Judged renv env route user s req w asked fresh = elim (Bool-cases asked.1.allowed) [
    | inl granted ↦ rw granted (limit_headers asked.1 w.writer, refl, refl)
    | inr denied ↦
        rw denied
          (status-reject_limited asked.1 w.writer ∙ ap (λ st. or_code st 429) fresh, refl, refl)
  ]

  -- A request of an acceptable size for a route with a rate limit, at a server with a rate limiter,
  -- whose writer has sent no status, is handled by the router when the bucket it is charged to has a
  -- token, and else the client receives 429 and nothing is sent to a backend. The bucket is that of
  -- the user whom the header of the route names, that of the route where there is no such user or the
  -- limit is not per user, and none, which lets it pass, where the limit is not positive.
  pub serve_http-Judged :
      (renv : RouterEnv) (env : Env) (clock : ℕ → ℕ) (s : Server b) (req : Request) (w : World)
      (route : InferenceRoute) (limit : RateLimitConfig) (limiter : RateLimiter b) (to : Target)
      → w.writer.status ≡ none
      → is_too_large s.config req ≡ false
      → find_matching_route s.router.cache (limit_body s.config req) ≡ some route
      → route.spec.rate_limit ≡ some limit
      → s.rate_limiter ≡ some limiter
      → ChargedTo route.name (user_of limit (limit_body s.config req)) (some limit) to
      → Judged renv env s req w (lets_pass clock to limiter) (serve_http b renv env clock s req w).1
  unfolding serve_http for_route with_limit
  serve_http-Judged renv env clock s req w route limit limiter to fresh small found has_limit limits
        charged =
      let req' = limit_body s.config req in
      let user = user_of limit req' in
      let asked = allow_request b clock route.name user (some limit) limiter in
      rw (small, found, has_limit, limits)
        (subst (λ t. Judged renv env s req w t (judged b renv env route.name user s req' w asked).1)
          (lets_pass-allowed clock limiter to asked
            (allow_request-Charged b clock route.name user limiter "" charged))
          (judged-Judged renv env route.name user s req w asked fresh))
