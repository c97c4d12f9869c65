-- ===== src/SmartRouter.antt =====
-- Routing by the size of a request (internal/proxy/smartrouter.go). The JSON decoder is a parameter:
-- it gives the texts of the messages and the prompt, or none on an error. 1.3 words and 0.75 of a
-- limit are whole divisions, which agree with the float64 products below 2 ^ 40.
pub mod Selection
pub mod Defaults
pub mod Costing
mod Tests
use kortex.Common.{
  leb, nat_beq, suc, ◌&&◌, true, ℕ, ◌+◌, ◌*◌, ◌/◌, String, Bool, true, false, ◌&&◌, ◌||◌, Option,
  none, some, List, [], ◌∷◌, leb, nat_beq, suc, ◌&&◌, if◌then◌else◌, length, string_eq,
}
use kortex.Common.Int.{ℤ, pos, negsuc, ltb_ℤ}
use kortex.Common.Dict.{lookup}
use kortex.Common.Text.{◌<>◌, is_empty}
use kortex.Common.Utf8.{bytes, field_count}
use kortex.Api.{BackendRef, InferenceRoute}
use kortex.Http.{Request, over_limit}

pub record SmartRouterConfig : Type 0 where
  pub long_context_threshold : ℤ
  pub fast_model_threshold : ℤ
  pub long_context_backend : String
  pub fast_model_backend : String
  pub default_backend : String
  pub enable_cost_optimization : Bool

abbrev pub default_smart_router_config : SmartRouterConfig
default_smart_router_config = record {
  long_context_threshold = pos 4000;
  fast_model_threshold = pos 500;
  long_context_backend = "";
  fast_model_backend = "";
  default_backend = "";
  enable_cost_optimization = false;
}

-- `UpdateConfig`; a smart router is its configuration.
unfoldable pub update_config : SmartRouterConfig → SmartRouterConfig → SmartRouterConfig
update_config new old = new

pub record RouteDecision : Type 0 where
  pub backend : String
  pub reason : String
  pub estimated_tokens : ℕ
  pub category : String

-- What the decoder finds in a body.
pub record ChatRequest : Type 0 where
  pub contents : List String
  pub prompt : String

unfoldable pub estimate_tokens_from_text : String → ℕ
estimate_tokens_from_text text =
    if is_empty text then 0 else (field_count text * 13 / 10 + length (bytes text) / 4) / 2

joined : List String → String
joined [] = ""
joined (content ∷ contents) = content <> " " <> joined contents

estimate_decoded : String → Option ChatRequest → ℕ
unfolding joined
estimate_decoded body none = estimate_tokens_from_text body
estimate_decoded body (some chat) = estimate_tokens_from_text (joined chat.contents <> chat.prompt)

estimate_limited : (String → Option ChatRequest) → Option ℤ → Option String → ℕ
unfolding estimate_decoded
estimate_limited unmarshal limit none = 0
estimate_limited unmarshal limit (some body) =
    if over_limit limit body then 0 else estimate_decoded body (unmarshal body)

-- The estimate for a body, which is put back where it was read; zero where reading it fails.
unfoldable pub estimate_request_tokens : (String → Option ChatRequest) → Request → ℕ
unfolding estimate_limited
estimate_request_tokens unmarshal req = estimate_limited unmarshal req.body_limit req.body

or_route_default : RouteDecision → Option BackendRef → RouteDecision
or_route_default d none = d
or_route_default d (some b) =
    if is_empty d.backend
    then record d { backend = b.name; reason = "Fallback to route default backend" }
    else d

decided : ℕ → (category backend reason : String) → RouteDecision
decided tokens category backend reason = record {
  backend = backend;
  reason = if is_empty backend then "" else reason;
  estimated_tokens = tokens;
  category = category;
}

-- The switch over the estimate.
unfoldable pub categorise : SmartRouterConfig → ℕ → RouteDecision
unfolding decided
categorise config tokens =
    if ltb_ℤ config.long_context_threshold (pos tokens)
    then decided tokens "long" config.long_context_backend
        "Token count exceeds long-context threshold"
    else if ltb_ℤ (pos tokens) config.fast_model_threshold
    then decided tokens "short" config.fast_model_backend "Token count below fast-model threshold"
    else decided tokens "medium" config.default_backend
        "Standard routing for medium-length requests"

unfoldable pub select_backend :
    (String → Option ChatRequest) → SmartRouterConfig → Request → InferenceRoute → RouteDecision
unfolding or_route_default
select_backend unmarshal config req route =
    or_route_default (categorise config (estimate_request_tokens unmarshal req))
      route.spec.default_backend

faster : String → Option ℤ → String × ℤ → String × ℤ
faster name none best = best
faster name (some latency) best =
    if ltb_ℤ best.1 (pos 0) || ltb_ℤ latency best.1 then (name, latency) else best

-- The loop over the backends, with the best so far and its latency.
unfoldable pub fastest_from : List (String × ℤ) → List BackendRef → String × ℤ → String × ℤ
unfolding faster
fastest_from health [] best = best
fastest_from health (b ∷ bs) best =
    fastest_from health bs (faster b.name (lookup b.name health) best)

unfoldable pub latency_based_selection : List BackendRef → List (String × ℤ) → String
latency_based_selection bs health = (fastest_from health bs ("", negsuc 0)).0

-- An integer times 0.75 is cut towards zero.
fits : ℕ → Option ℤ → Bool
fits tokens none = true
fits tokens (some (pos limit)) = leb tokens (limit * 3 / 4)
fits tokens (some (negsuc n)) = nat_beq tokens 0 && nat_beq (suc n * 3 / 4) 0

unfoldable pub context_length_capability : String → ℕ → List (String × ℤ) → Bool
unfolding fits
context_length_capability name tokens limits = fits tokens (lookup name limits)
