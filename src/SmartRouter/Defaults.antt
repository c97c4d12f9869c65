-- ===== src/SmartRouter/Defaults.antt =====
-- Where a request of medium length goes (`SelectBackend` of internal/proxy/smartrouter.go).
use kortex.Common.{◌≡◌, String, string_eq, false, Option, none, some, if◌then◌else◌, arith}
use kortex.Common.Int.{pos, ltb_ℤ}
use kortex.Common.Text.{is_empty}
use kortex.Api.{BackendRef, InferenceRoute}
use kortex.Http.{Request}
use kortex.SmartRouter.{
  SmartRouterConfig, ChatRequest, RouteDecision, estimate_request_tokens, or_route_default, decided,
  categorise, select_backend,
}

-- The name of the default backend of a route, or another name.
abbrev pub or_name : String → Option BackendRef → String
or_name other none = other
or_name other (some b) = b.name

or_route_default-backend :
    (d : RouteDecision) (b : Option BackendRef)
    → (or_route_default d b).backend
      ≡ (if is_empty d.backend then or_name d.backend b else d.backend)
unfolding or_route_default
or_route_default-backend d none = ground arith
or_route_default-backend d (some b) = ground arith

-- A request of medium length goes to the default backend of the smart router, or else to that of the
-- route.
pub select_backend-medium :
    (unmarshal : String → Option ChatRequest) (config : SmartRouterConfig) (req : Request)
    (route : InferenceRoute)
    → ltb_ℤ config.long_context_threshold (pos (estimate_request_tokens unmarshal req)) ≡ false
    → ltb_ℤ (pos (estimate_request_tokens unmarshal req)) config.fast_model_threshold ≡ false
    → (select_backend unmarshal config req route).backend ≡ (
        if is_empty config.default_backend
        then or_name config.default_backend route.spec.default_backend
        else config.default_backend)
unfolding select_backend categorise decided
select_backend-medium unmarshal config req route not_long not_short =
    rw (not_long, not_short) (or_route_default-backend _ route.spec.default_backend)
