-- ===== src/Configuration/Applying.antt =====
-- What a changed configuration does to a running gateway (the handler that cmd/main.go registers with
-- `OnChange`).
use kortex.Common.{ℕ, ◌≡◌, refl, ap, ◌∙◌, String, true, false, Option, some, if◌then◌else◌}
use kortex.Common.Int.{pos, ltb_ℤ}
use kortex.Common.Dict.{map_option}
use kortex.Common.Text.{is_empty}
use kortex.Api.{InferenceRoute}
use kortex.Http.{Request}
use kortex.RateLimit.{Buckets, RateLimiter, set_default_limit}
use kortex.SmartRouter.{
  SmartRouterConfig, ChatRequest, estimate_request_tokens, select_backend, update_config,
}
use kortex.SmartRouter.Defaults.{or_name, select_backend-medium}
use kortex.Server.{Server}
use kortex.Configuration.{Rates, KortexConfig, SmartRoutingConfig, RateLimitConfig}

-- The smart router's configuration that the handler builds.
unfoldable pub router_config : SmartRoutingConfig → SmartRouterConfig
router_config r = record {
  long_context_threshold = r.long_context_threshold;
  fast_model_threshold = r.fast_model_threshold;
  long_context_backend = r.long_context_backend;
  fast_model_backend = r.fast_model_backend;
  default_backend = "";
  enable_cost_optimization = r.enable_cost_optimization;
}

smart_router_applied : SmartRoutingConfig → Option SmartRouterConfig → Option SmartRouterConfig
unfolding router_config
smart_router_applied r router =
    if r.enabled then map_option (update_config (router_config r)) router else router

module _ (f : Rates) (b : Buckets) where
  limiter_applied :
      (clock : String → ℕ → ℕ) → RateLimitConfig → Option (RateLimiter b) → Option (RateLimiter b)
  limiter_applied clock l limiter =
      if l.enabled
      then map_option (set_default_limit b clock l.default_requests_per_minute) limiter
      else limiter

  -- The handler; the rate limiter, and the smart router of the server, may be nil.
  unfoldable pub apply_config : (clock : String → ℕ → ℕ) → KortexConfig f → Server b → Server b
  unfolding smart_router_applied limiter_applied
  apply_config clock c s = record s {
    rate_limiter = limiter_applied clock c.rate_limits s.rate_limiter;
    router = record s.router {
      smart_router = smart_router_applied c.smart_routing s.router.smart_router;
    };
  }

  -- The cache is none of its concern.
  pub apply_config-cache :
      (clock : String → ℕ → ℕ) (c : KortexConfig f) (s : Server b)
      → (apply_config clock c s).router.cache ≡ s.router.cache
  unfolding apply_config
  apply_config-cache clock c s = refl

  -- Behind a change with smart routing enabled, a request that is neither long nor short by the new
  -- thresholds goes to the default backend of its route, or to none: whatever default backend the
  -- smart router had before is lost.
  pub apply_config-default_lost :
      (clock : String → ℕ → ℕ) (c : KortexConfig f) (s : Server b) (before : SmartRouterConfig)
      (unmarshal : String → Option ChatRequest) (req : Request) (route : InferenceRoute)
      → c.smart_routing.enabled ≡ true
      → s.router.smart_router ≡ some before
      → ltb_ℤ c.smart_routing.long_context_threshold (pos (estimate_request_tokens unmarshal req))
        ≡ false
      → ltb_ℤ (pos (estimate_request_tokens unmarshal req)) c.smart_routing.fast_model_threshold
        ≡ false
      → (after : SmartRouterConfig) × ((apply_config clock c s).router.smart_router ≡ some after)
        × ((select_backend unmarshal after req route).backend
            ≡ or_name "" route.spec.default_backend)
  unfolding apply_config smart_router_applied router_config update_config is_empty
  apply_config-default_lost clock c s before unmarshal req route on has not_long not_short =
      let after = router_config c.smart_routing in
      (
        after,
        ap
              (λ t.
                if t
                then map_option (update_config after) s.router.smart_router
                else s.router.smart_router)
              on
            ∙ ap (map_option (update_config after)) has,
        select_backend-medium unmarshal after req route not_long not_short,
      )

  -- A change whose two sections are disabled leaves the gateway as it is: limits and smart routing
  -- stay in force.
  pub apply_config-disabled :
      (clock : String → ℕ → ℕ) (c : KortexConfig f) (s : Server b)
      → c.smart_routing.enabled ≡ false
      → c.rate_limits.enabled ≡ false
      → apply_config clock c s ≡ s
  unfolding apply_config smart_router_applied limiter_applied
  apply_config-disabled clock c s off unlimited = rw (off, unlimited) refl
