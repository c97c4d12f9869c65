-- ===== src/Server.antt =====
-- The server of the gateway (internal/proxy/server.go): the limit on bodies and the rate limit in
-- front of the router, and the report of its health. `clock` gives the readings of one call of the
-- rate limiter. The cache's map is taken to be iterated in one order by both searches for a route of
-- one request. The listener, spans and log lines are left out.
pub mod Admission
mod Tests
use kortex.Common.{
  ℕ, ◌+◌, ◌*◌, ◌/◌, String, Bool, true, false, ◌&&◌, Option, none, some, List, [], ◌∷◌, ◌++◌,
  if◌then◌else◌,
}
use kortex.Common.Int.{ℤ, pos, negsuc, ltb_ℤ, ◌+ℤ◌, scale}
use kortex.Common.Text.{◌<>◌, is_empty, decimal, decimal_ℤ}
use kortex.Api.{InferenceRoute, RateLimitConfig}
use kortex.Http.{Request, ResponseWriter, header_get, header_set, http_error, write_header, write}
use kortex.Cache.{Store, get_stats}
use kortex.Experiments.{ExperimentManager}
use kortex.SmartRouter.{SmartRouterConfig}
use kortex.Backend.Proxying.{World, Env, MetricCall, rate_limit_hit}
use kortex.RateLimit.{Buckets, RateLimiter, RateLimitResult, allow_request}
use kortex.Router.{RouterEnv, Router, Routed, find_matching_route, handle_request}

abbrev second : ℕ
second = 1_000_000_000

-- Durations are in nanoseconds.
pub record Config : Type 0 where
  pub addr : String
  pub read_timeout : ℕ
  pub write_timeout : ℕ
  pub idle_timeout : ℕ
  pub shutdown_timeout : ℕ
  pub max_request_body_size : ℤ

abbrev pub default_config : Config
default_config = record {
  addr = ":8080";
  read_timeout = 30 * second;
  write_timeout = 120 * second;
  idle_timeout = 120 * second;
  shutdown_timeout = 30 * second;
  max_request_body_size = pos (10 * 1024 * 1024);
}

-- `Duration.Seconds`, cut to an integer; the sum of floats in it is exact enough for less than 2^22
-- seconds.
whole_seconds : ℤ → ℤ
whole_seconds (pos n) = pos (n / second)
whole_seconds (negsuc n) = scale ((n + 1) / second) (negsuc 0)

-- The headers that tell a client of its limit.
unfoldable pub limit_headers : RateLimitResult → ResponseWriter → ResponseWriter
limit_headers result writer = record writer {
  header =
      header_set "X-RateLimit-Remaining" (decimal_ℤ result.remaining)
        (header_set "X-RateLimit-Limit" (decimal_ℤ result.limit) writer.header);
}

unfoldable pub reject_limited : RateLimitResult → ResponseWriter → ResponseWriter
unfolding limit_headers whole_seconds
reject_limited result writer =
    let writer' = limit_headers result writer in
    http_error "Rate limit exceeded" 429 (record writer' {
      header =
          header_set "Retry-After" (decimal_ℤ (whole_seconds result.retry_after +ℤ pos 1))
            writer'.header;
    })

unfoldable pub user_of : RateLimitConfig → Request → String
user_of limit req =
    header_get (if is_empty limit.user_header then "x-user-id" else limit.user_header) req.header

unfoldable pub is_too_large : Config → Request → Bool
is_too_large config req =
    let limit = config.max_request_body_size in
    ltb_ℤ (pos 0) limit && ltb_ℤ limit req.content_length

-- The reader of the body is given the limit.
unfoldable pub limit_body : Config → Request → Request
limit_body config req =
    let limit = config.max_request_body_size in
    if ltb_ℤ (pos 0) limit then record req { body_limit = some limit } else req

unfoldable pub record_hit : (route user : String) → World → World
record_hit route user w = record w {
  metrics = elim w.metrics [
    | none ↦ none
    | some calls ↦ some (calls ++ rate_limit_hit route user ∷ [])
  ];
}

-- How the server deals with a request: two refusals of its own, or what the router does.
pub data Served : Type 0 where
  too_large : Served
  limited : RateLimitResult → Served
  routed : Routed → Served

module _ (b : Buckets) where
  -- The cache, the experiments and the smart router are those of the router.
  pub record Server : Type 0 where
    pub config : Config
    pub router : Router
    pub rate_limiter : Option (RateLimiter b)

  -- What the options of `NewServer` set.
  pub record ServerParts : Type 0 where
    pub rate_limiter : Option (RateLimiter b)
    pub experiments : Option ExperimentManager
    pub smart_router : Option SmartRouterConfig

  abbrev pub ServerOption : Type 0
  ServerOption = ServerParts → ServerParts

  unfoldable pub with_rate_limiter : RateLimiter b → ServerOption
  with_rate_limiter limiter parts = record parts { rate_limiter = some limiter }

  unfoldable pub with_server_experiments : ExperimentManager → ServerOption
  with_server_experiments manager parts = record parts { experiments = some manager }

  unfoldable pub with_server_smart_router : SmartRouterConfig → ServerOption
  with_server_smart_router config parts = record parts { smart_router = some config }

  apply_options : List ServerOption → ServerParts → ServerParts
  apply_options [] parts = parts
  apply_options (option ∷ options) parts = apply_options options (option parts)

  unfoldable pub new_server : Config → Store → List ServerOption → Server
  unfolding apply_options
  new_server config store options =
      let parts =
        apply_options options
          (record { rate_limiter = none; experiments = none; smart_router = none }) in
      record {
        config = config;
        router = record {
          cache = store;
          experiments = parts.experiments;
          smart_router = parts.smart_router;
        };
        rate_limiter = parts.rate_limiter;
      }

  -- The request goes on to the router.
  route_on : RouterEnv → Env → Server → Request → World → Server × World × Served
  route_on renv env s req w =
      let (router, w', how) = handle_request renv env s.router req w in
      (record s { router = router }, w', routed how)

  -- The limiter lets the request through or not.
  judged :
      RouterEnv
      → Env
      → (route user : String) → Server
      → Request
      → World
      → RateLimiter b × RateLimitResult
      → Server × World × Served
  unfolding route_on limit_headers reject_limited record_hit
  judged renv env route user s req w (limiter, result) =
      let s' = record s { rate_limiter = some limiter } in
      if result.allowed
      then route_on renv env s' req (record w { writer = limit_headers result w.writer })
      else let w' = record_hit route user w in
        (s', record w' { writer = reject_limited result w'.writer }, limited result)

  with_limit :
      RouterEnv
      → Env
      → (clock : ℕ → ℕ) → Server
      → Request
      → World
      → InferenceRoute
      → Option RateLimitConfig
      → Option (RateLimiter b)
      → Server × World × Served
  unfolding judged
  with_limit renv env clock s req w route (some limit) (some limiter) =
      let user = user_of limit req in
      judged renv env route.name user s req w
        (allow_request b clock route.name user (some limit) limiter)
  with_limit renv env clock s req w route none limiter = route_on renv env s req w
  with_limit renv env clock s req w route (some limit) none = route_on renv env s req w

  for_route :
      RouterEnv
      → Env
      → (clock : ℕ → ℕ) → Server
      → Request
      → World
      → Option InferenceRoute
      → Server × World × Served
  unfolding with_limit
  for_route renv env clock s req w none = route_on renv env s req w
  for_route renv env clock s req w (some route) =
      with_limit renv env clock s req w route route.spec.rate_limit s.rate_limiter

  -- `ServeHTTP`
  unfoldable pub serve_http :
      RouterEnv → Env → (clock : ℕ → ℕ) → Server → Request → World → Server × World × Served
  unfolding for_route is_too_large limit_body
  serve_http renv env clock s req w =
      let req' = limit_body s.config req in
      let rest = for_route renv env clock s req' w (find_matching_route s.router.cache req') in
      if is_too_large s.config req
      then (s, record w { writer = http_error "Request body too large" 413 w.writer }, too_large)
      else rest

-- `HealthHandler`
unfoldable pub health_handler : Store → ResponseWriter → ResponseWriter
health_handler store writer =
    let stats = get_stats store in
    write
      ("{\"status\":\"ok\",\"routes\":"
        <> decimal stats.route_count
        <> ",\"backends\":"
        <> decimal stats.backend_count
        <> "}")
      (write_header 200
        (record writer { header = header_set "Content-Type" "application/json" writer.header }))
