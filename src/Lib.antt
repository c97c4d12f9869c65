-- ===== src/Lib.antt =====
-- Kortex: an inference gateway. Routes and backends are Kubernetes resources; controllers keep a
-- cache of them, and the proxy answers requests from it.
--
-- The program and the modules
--   Common       names of the libraries, lists, maps, int32 and int64, texts and their bytes
--   Api          api/v1alpha1: the structs of routes and backends
--   Cache        internal/cache/store.go: `Store` with its operations; Laws, Listing
--   Breaker      internal/proxy/circuitbreaker.go: `CircuitBreaker` (Allow is allow, RecordSuccess is
--                record_success, ...), its states and counters; what holds of histories of calls stands
--                in Invariant, Transitions, Tripping and HalfOpen; Flights is a ledger of the requests
--                that are out; Manager is `CircuitBreakerManager`, and Manager.Refinement compares it with
--                one breaker per name
--   Http         what is used of net/http: headers, requests, the response writer
--   Costs        internal/proxy/costs.go: `CostTracker` and the parsing of token usage; Capturing is
--                `ResponseBodyCapturer`
--   Backend      internal/proxy/backend.go: Target is buildTargetURL and injectAPIKey, Proxying is
--                executeRequest with trackCosts and responseRecorder, Fallback is ExecuteWithFallback
--   Metrics      internal/proxy/metrics.go: what the gauge of active requests and the counter of requests
--                show behind some calls of the recorder
--   SmartRouter  internal/proxy/smartrouter.go: SelectBackend, UpdateConfig, the latency-based
--                selection and the check of context lengths; Costing is CostBasedSelection
--   Experiments  internal/proxy/experiments.go: `ExperimentManager`
--   Router       internal/proxy/router.go: HandleRequest, which finds a route in the cache, a rule in the
--                route, a backend by the smart router or by weight, applies an experiment, and
--                hands the request to the fallback chain
--   RateLimit    internal/proxy/ratelimit.go: `RateLimiter`; Sessions says whose bucket a request takes
--                from, Removal what the removals take away
--   Retry        internal/proxy/retry.go: `Retrier.Do` is do_retries, and RetryWithCircuitBreaker.Execute is
--                execute_with_retries; Attempts counts the calls, Guarded looks at the breaker
--   Server       internal/proxy/server.go: `Server` with ServeHTTP, which is serve_http; Admission says
--                which requests it refuses
--   Health       internal/health/checker.go: `Checker`; Judgement compares its URLs with the proxy's
--   Controller   internal/controller: what the reconcilers share; Backends is the reconciler of backends,
--                with Counting, Reporting, Caching and Conditions for what holds of it, and Routes the
--                reconciler of routes: Naming, Phases, Ordering and Requests say what its phases and
--                requests mean, and Serving what the router answers behind it
--   Provider     internal/provider: the structs and the registry; Chat is the three providers' Chat,
--                ParseTokenUsage and EstimateTokens, Chat.Usage and Chat.Conversations say what they send
--                and report, and Registering is about the registry
--   Configuration  internal/config/watcher.go: `Watcher`, whose events and timer are the inputs of
--                watch_step, and ValidateConfig; Applying is the handler of cmd/main.go
--   Gateway      cmd/main.go: the proxy and the reconcilers around one cache, as `main` joins them, with
--                all that comes in as the inputs of gateway_step; Answering and Keeping are about
--                sequences of inputs
--   Samples      a route, backends and an environment that the Tests modules use
--
-- State and effects. A method that changes its receiver returns the new record; the handler's
-- effects (the response writer, breakers, metrics, tracked costs, waits, requests sent) are the
-- fields of `Backend.Proxying.World`. Locks are held over each call of a breaker, of the manager
-- and of the cache, so calls are steps one after the other. A reading of the clock is an
-- argument. The transport, with how far a body is read or copied before it breaks off,
-- `url.Parse`, the secrets, the JSON decoder, `path.Match` and the draws of math/rand are
-- parameters, and so are the API server, the HTTP client of the health checks and
-- SetStatusCondition (`Backend.Proxying.Env`, `Router.RouterEnv`, `Health.Probes`,
-- `Controller.Backends.Cluster`, `Controller.Routes.RouteCluster`), the token buckets of
-- golang.org/x/time/rate are a record of operations (`RateLimit.Buckets`), and floats are an
-- abstract record of operations (`Costs.Numbers`, `Retry.Floats`, `SmartRouter.Costing.Prices`).
--
-- Bounds. Weights are added in int32 and token counts in int64, with their wrap-around. Counters of
-- a breaker, the healthy backends of a route and the clock are natural numbers: an int does not
-- overflow within the life of a process, and a resource does not name 2^31 backends. The only fuel
-- is that of `Common.Text.decimal`, which starts above the number printed.
--
-- Not modelled: answers of 1xx and upgrades of the connection in the reverse proxy; the start and
-- shutdown of the server; the watch on the directory of the configuration; the manager of
-- cmd/main.go with its flags and servers; of the metrics the histograms, the costs and tokens and
-- the registration; and tracing and logging, which change no answer.
pub mod Common
pub mod Api
pub mod Breaker
pub mod Cache
pub mod Http
pub mod Costs
pub mod Backend
pub mod SmartRouter
pub mod Experiments
pub mod Router
pub mod RateLimit
pub mod Retry
pub mod Server
pub mod Health
pub mod Controller
pub mod Provider
pub mod Configuration
pub mod Gateway
pub mod Metrics
pub mod Samples
