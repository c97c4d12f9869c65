-- ===== src/Backend/Fallback.antt =====
-- The fallback chain (`ExecuteWithFallback` and `buildFallbackChain` of internal/proxy/backend.go).
-- The loop goes down the chain; `i < len(chain)-1` holds when names remain behind the current one.
pub mod Rounds
pub mod Status
pub mod Slots
pub mod Chain
pub mod Bodies
pub mod Endings
pub mod Metering
use kortex.Common.{
  ℕ, suc, ◌+◌, ◌*◌, ◌^◌, String, Bool, true, false, not, ◌&&◌, ◌||◌, ◌==◌, Option, none, some, List,
  [], ◌∷◌, ◌++◌, leb, if◌then◌else◌, string_eq,
}
use kortex.Common.Int.{ℤ, pos, leb_ℤ, ltb_ℤ, wrap64, scale}
use kortex.Common.Text.{◌<>◌, is_empty, decimal}
use kortex.Http.{Request, http_error}
use kortex.Api.{InferenceBackend, InferenceRoute, BackendRef, FallbackChain}
use kortex.Cache.{Store, get_backend_by_name, health_status_healthy}
use kortex.Breaker.{BreakerError, circuit_open, too_many_requests, second}
use kortex.Breaker.Manager.{
  CircuitBreakerManager, manager_allow, manager_record_success, manager_record_failure,
}
use kortex.Backend.Target.{target_error_text}
use kortex.Backend.Proxying.{
  World, Env, Attempt, HandlerError, blocked, not_found, no_target, backend_status, copy_aborted,
  MetricCall, fallback_from, inc_active, dec_active, request_done, request_failed, metric,
  execute_request,
}

-- The fallback names other than the primary's.
unfoldable pub others : String → List String → List String
others primary [] = []
others primary (name ∷ names) =
    if not (name == primary) then name ∷ others primary names else others primary names

abbrev pub fallback_names : Option FallbackChain → List String
fallback_names none = []
fallback_names (some f) = f.backends

unfoldable pub build_fallback_chain : InferenceRoute → BackendRef → List String
build_fallback_chain route primary =
    primary.name ∷ others primary.name (fallback_names route.spec.fallback)

timeout_of : Option FallbackChain → ℤ
timeout_of none = pos (30 * second)
timeout_of (some f) =
    if ltb_ℤ (pos 0) f.timeout_seconds then scale second f.timeout_seconds else pos (30 * second)

-- The timeout of each attempt, in nanoseconds.
unfoldable pub attempt_timeout : InferenceRoute → ℤ
unfolding timeout_of
attempt_timeout route = timeout_of route.spec.fallback

-- `time.Duration(100<<uint(i)) * time.Millisecond`, at most two seconds; int64 wraps.
unfoldable pub backoff : ℕ → ℤ
backoff i =
    let b = wrap64 (scale 1_000_000 (wrap64 (pos (100 * 2 ^ i)))) in
    if leb_ℤ b (pos (2 * second)) then b else pos (2 * second)

breaker_error_text : BreakerError → String
breaker_error_text circuit_open = "circuit breaker is open"
breaker_error_text too_many_requests = "too many requests in half-open state"

unfoldable pub error_text : HandlerError → String
unfolding breaker_error_text
error_text (blocked e) = breaker_error_text e
error_text (not_found name) = "backend " <> name <> " not found"
error_text (no_target e) = "failed to build target URL: " <> target_error_text e
error_text (backend_status code) = "backend returned status " <> decimal code
error_text copy_aborted = "net/http: abort Handler"

-- How the handling ends: a backend served the request, the client went away during a backoff, every
-- backend failed, `lastErr.Error()` was called on nil, or the reverse proxy panicked while it copied the
-- body of an answer.
pub data Ending : Type 0 where
  served : (name : String) → (status : ℕ) → Ending
  gone : Ending
  all_failed : HandlerError → Ending
  panicked : Ending
  aborted : (name : String) → Ending

-- The end of one round of the loop: on to the next name, with the last error and the previous
-- backend, or a return.
pub data Turn : Type 0 where
  on : World → (last : Option HandlerError) → (previous : String) → Turn
  stop : World → Ending → Turn

-- `circuitBreaker.Allow`, unless there are no breakers.
allowed_with : ℕ → String → World → Option CircuitBreakerManager → World × Option BreakerError
allowed_with now name w none = (w, none)
allowed_with now name w (some m) =
    let (m', e) = manager_allow now name m in (record w { breakers = some m' }, e)

recorded_with : Attempt → String → Bool → World → Option CircuitBreakerManager → World
recorded_with a name failure w none = w
recorded_with a name failure w (some m) = record w {
  breakers = some (
      if failure
      then manager_record_failure a.failed_at a.opened_at name m
      else manager_record_success name m);
}

has_more : List String → Bool
has_more [] = false
has_more (name ∷ names) = true

is_error : Option HandlerError → Bool
is_error none = false
is_error (some e) = true

-- A panic of the reverse proxy goes past what follows.
is_abort : Option HandlerError → Bool
is_abort none = false
is_abort (some copy_aborted) = true
is_abort (some (blocked e)) = false
is_abort (some (not_found name)) = false
is_abort (some (no_target e)) = false
is_abort (some (backend_status code)) = false

-- Behind the loop.
pub finish : Option HandlerError → World → World × Ending
finish none w = (w, panicked)
finish (some e) w = (
  record w { writer = http_error ("All backends failed: " <> error_text e) 503 w.writer },
  all_failed e,
)

-- The metrics of an attempt that starts: a fallback, if a backend has failed, and an active request.
started : (route previous name : String) → World → World
started route previous name w =
    metric (inc_active name)
      (if not (is_empty previous) then metric (fallback_from route previous name) w else w)

module _ (env : Env) (store : Store) (route : InferenceRoute) (req : Request) where
  -- The `select` on the backoff behind a failed attempt that was not the last.
  wait_after : ℕ → String → HandlerError → List String → World → Turn
  wait_after i name e [] w = on w (some e) name
  wait_after i name e (more ∷ names) w =
      let w' = record w { waits = w.waits ++ backoff i ∷ [] } in
      if (env.attempt i).cancelled
      then stop (record w' { writer = http_error "Request cancelled" 503 w'.writer }) gone
      else on w' (some e) name

  -- What follows `executeRequest`.
  conclude : ℕ → String → List String → World × ℕ × Option HandlerError → Turn
  unfolding wait_after recorded_with is_error is_abort
  conclude i name rest (w, status, e) =
      let w1 = metric (dec_active name) w in
      let w2 = recorded_with (env.attempt i) name (is_error e || leb 500 status) w1 w1.breakers in
      if is_abort e then stop w (aborted name) else elim e [
        | none ↦ stop (metric (request_done route.name name status) w2) (served name status)
        | some x ↦ wait_after i name x rest (
            metric (request_done route.name name status)
              (metric (request_failed route.name name) w2))
      ]

  -- An attempt, with the metrics around it.
  pub attempt_backend : ℕ → String → List String → String → InferenceBackend → World → Turn
  unfolding conclude started
  attempt_backend i name rest previous backend w = conclude i name rest (
      execute_request env i (attempt_timeout route) route backend req
        (started route.name previous name w))

  found :
      ℕ
      → String
      → List String
      → Option HandlerError
      → String
      → World
      → Option InferenceBackend
      → Turn
  unfolding attempt_backend has_more
  found i name rest last previous w none = on w (some (not_found name)) previous
  found i name rest last previous w (some backend) =
      if not (backend.status.health == health_status_healthy) && has_more rest
      then on w last previous
      else attempt_backend i name rest previous backend w

  checked :
      ℕ → String → List String → Option HandlerError → String → World × Option BreakerError → Turn
  unfolding found
  checked i name rest last previous (w, some e) = on w (some (blocked e)) previous
  checked i name rest last previous (w, none) =
      found i name rest last previous w (get_backend_by_name route.namespace name store)

  -- One round of the loop.
  unfoldable pub try_backend :
      ℕ → String → List String → Option HandlerError → String → World → Turn
  unfolding checked allowed_with
  try_backend i name rest last previous w =
      checked i name rest last previous (allowed_with (env.attempt i).allow_at name w w.breakers)

  unfoldable pub run_chain : ℕ → List String → Option HandlerError → String → World → World × Ending
  unfolding finish
  run_chain i [] last previous w = finish last w
  run_chain i (name ∷ rest) last previous w = elim (try_backend i name rest last previous w) [
    | on w' last' previous' ↦ run_chain (suc i) rest last' previous' w'
    | stop w' ending ↦ (w', ending)
  ]

  unfoldable pub execute_with_fallback : BackendRef → World → World × Ending
  execute_with_fallback primary w = run_chain 0 (build_fallback_chain route primary) none "" w
