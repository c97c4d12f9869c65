-- ===== src/Router.antt =====
-- The router (internal/proxy/router.go): from a request to a route, a rule, a backend and, through
-- the fallback chain, an answer. Log lines and spans are left out; they change nothing the router
-- reads. `path.Match` and the draws of math/rand are parameters.
pub mod Weights
pub mod Handling
pub mod Refusals
pub mod Caching
mod Tests
use kortex.Common.{
  zero, suc, ℕ, String, Bool, true, false, not, ◌&&◌, ◌||◌, ◌==◌, string_eq, Option, none, some,
  List, [], ◌∷◌, if◌then◌else◌, Result, ok, err,
}
use kortex.Common.Int.{ℤ, pos, negsuc, ◌+ℤ◌, beq_ℤ, ltb_ℤ, wrap32}
use kortex.Common.Text.{is_empty}
use text.Mathlib.Text.{starts_with}
use kortex.Api.{InferenceRoute, RouteRule, RouteMatch, BackendRef}
use kortex.Http.{over_limit, Header, Request, header_get, http_error}
use kortex.Cache.{Store, get_route, list_routes_in_namespace}
use kortex.Experiments.{
  ExperimentManager, ExperimentResult, apply_experiment, set_experiment_headers,
}
use kortex.SmartRouter.{SmartRouterConfig, ChatRequest, RouteDecision, select_backend}
use kortex.Backend.Proxying.{World, Env}
use kortex.Backend.Fallback.{Ending, execute_with_fallback}

-- What the router takes from outside: `path.Match`, `rand.Int31n` of this request (called with a
-- positive bound), and the JSON decoder of the smart router.
pub record RouterEnv : Type 0 where
  pub path_match : (pattern name : String) → Result String Bool
  pub int31n : ℕ → ℕ
  pub unmarshal : String → Option ChatRequest

-- The optional parts of the router. The experiments are state, for the assignments they count.
pub record Router : Type 0 where
  pub cache : Store
  pub experiments : Option ExperimentManager
  pub smart_router : Option SmartRouterConfig

unfoldable pub namespace_of : Header → String
namespace_of h =
    let namespace = header_get "X-Namespace" h in
    if is_empty namespace then "default" else namespace

-- The first route that is neither failed nor pending.
unfoldable pub first_operational : List InferenceRoute → Option InferenceRoute
first_operational [] = none
first_operational (route ∷ routes) =
    if route.status.phase == "Failed" || route.status.phase == "Pending"
    then first_operational routes
    else some route

unfoldable pub find_matching_route : Store → Request → Option InferenceRoute
unfolding namespace_of
find_matching_route s req =
    let route_name = header_get "X-Route" req.header in
    let namespace = namespace_of req.header in
    if not (is_empty route_name)
    then get_route (record { namespace = namespace; name = route_name }) s
    else first_operational (list_routes_in_namespace namespace s)

unfoldable pub headers_match : List (String × String) → Header → Bool
headers_match [] h = true
headers_match ((key, value) ∷ wanted) h = header_get key h == value && headers_match wanted h

unfoldable pub prefix_matches : Option String → String → Bool
prefix_matches none path = true
prefix_matches (some prefix) path = is_empty prefix || starts_with path prefix

is_match : Result String Bool → Bool
is_match (ok matched) = matched
is_match (err e) = false

-- A request without a model matches every pattern.
unfoldable pub model_matches :
    ((pattern name : String) → Result String Bool) → Option String → String → Bool
unfolding is_match
model_matches path_match none model = true
model_matches path_match (some pattern) model =
    is_empty pattern || is_empty model || is_match (path_match pattern model)

unfoldable pub rule_matches_with :
    ((pattern name : String) → Result String Bool) → Option RouteMatch → Request → Bool
rule_matches_with path_match none req = true
rule_matches_with path_match (some m) req =
    headers_match m.headers req.header
    && prefix_matches m.path_prefix req.path
    && model_matches path_match m.model_pattern (header_get "X-Model" req.header)

abbrev pub rule_matches :
    ((pattern name : String) → Result String Bool) → RouteRule → Request → Bool
rule_matches path_match rule req = rule_matches_with path_match rule.match req

unfoldable pub match_rule :
    ((pattern name : String) → Result String Bool) → List RouteRule → Request → Option RouteRule
match_rule path_match [] req = none
match_rule path_match (rule ∷ rules) req =
    if rule_matches path_match rule req then some rule else match_rule path_match rules req

-- The weight that counts: zero stands for the default.
unfoldable pub weight_of : BackendRef → ℤ
weight_of b = if beq_ℤ b.weight (pos 0) then pos 100 else b.weight

unfoldable pub total_from : ℤ → List BackendRef → ℤ
unfolding weight_of
total_from total [] = total
total_from total (b ∷ bs) = total_from (wrap32 (total +ℤ weight_of b)) bs

-- The second loop, over the backends that are left; none when it runs off the end.
unfoldable pub pick_from : ℕ → ℤ → List BackendRef → Option BackendRef
unfolding weight_of
pick_from target cumulative [] = none
pick_from target cumulative (b ∷ bs) =
    let cumulative' = wrap32 (cumulative +ℤ weight_of b) in
    if ltb_ℤ (pos target) cumulative' then some b else pick_from target cumulative' bs

or_first : BackendRef → Option BackendRef → BackendRef
or_first first none = first
or_first first (some b) = b

-- What is drawn for a total: the first backend for zero, a panic of `Int31n` below zero.
unfoldable pub drawn : (ℕ → ℕ) → BackendRef → List BackendRef → ℤ → Option BackendRef
unfolding or_first
drawn int31n first bs (negsuc n) = none
drawn int31n first bs (pos zero) = some first
drawn int31n first bs (pos (suc n)) = some (or_first first (pick_from (int31n (suc n)) (pos 0) bs))

-- `selectWeightedBackend`; none for a panic.
unfoldable pub select_weighted_backend : (ℕ → ℕ) → List BackendRef → Option BackendRef
unfolding drawn
select_weighted_backend int31n [] = some (record { name = ""; weight = pos 0 })
select_weighted_backend int31n (b ∷ []) = some b
select_weighted_backend int31n (b ∷ c ∷ bs) =
    drawn int31n b (b ∷ c ∷ bs) (total_from (pos 0) (b ∷ c ∷ bs))

-- How the handling of a request ends: with an answer of the router's own, with an ending of the
-- fallback chain for a backend, or with a panic of the selection.
pub data Routed : Type 0 where
  refused : (status : ℕ) → Routed
  forwarded : (backend : String) → Ending → Routed
  crashed : Routed

smart_choice :
    RouterEnv
    → Option SmartRouterConfig
    → Request
    → InferenceRoute
    → List BackendRef
    → Option BackendRef
smart_choice env none req route backends = select_weighted_backend env.int31n backends
smart_choice env (some config) req route backends =
    let d = select_backend env.unmarshal config req route in
    if is_empty d.backend
    then select_weighted_backend env.int31n backends
    else some (record { name = d.backend; weight = pos 0 })

-- The body that the smart router has read: it is in a buffer, or gone where it could not be read.
read_ahead : Option ℤ → Option String → World → World
read_ahead limit none w = w
read_ahead limit (some body) w =
    if over_limit limit body then record w { body = none } else record w { buffered = true }

estimated : Option SmartRouterConfig → Request → World → World
unfolding read_ahead
estimated none req w = w
estimated (some config) req w = read_ahead req.body_limit req.body w

-- The backends of a rule, or the default backend of the route.
backends_of : Option RouteRule → Option BackendRef → Option (List BackendRef)
backends_of (some rule) fallback = some rule.backends
backends_of none (some b) = some (b ∷ [])
backends_of none none = none

refuse : String → ℕ → Router → World → Router × World × Routed
refuse message code r w = (r, record w { writer = http_error message code w.writer }, refused code)

forward : Env → Router → InferenceRoute → Request → BackendRef → World → Router × World × Routed
forward env r route req b w =
    let (w', ending) = execute_with_fallback env r.cache route req b w in
    (r, w', forwarded b.name ending)

-- The experiments of the route, when there are any and the router has a manager.
with_experiments :
    Env
    → Router
    → InferenceRoute
    → Request
    → BackendRef
    → World
    → Option ExperimentManager
    → Router × World × Routed
unfolding forward
with_experiments env r route req b w none = forward env r route req b w
with_experiments env r route req b w (some m) =
    let (m', name, result) = apply_experiment route.spec.experiments b.name req m in
    forward env (record r { experiments = some m' }) route req (record b { name = name })
      (record w { writer = set_experiment_headers result w.writer })

selected :
    Env → Router → InferenceRoute → Request → World → Option BackendRef → Router × World × Routed
unfolding with_experiments
selected env r route req w none = (r, w, crashed)
selected env r route req w (some b) = with_experiments env r route req b w r.experiments

with_backends :
    RouterEnv
    → Env
    → Router
    → InferenceRoute
    → Request
    → World
    → Option (List BackendRef)
    → Router × World × Routed
unfolding selected smart_choice refuse estimated
with_backends renv env r route req w none = refuse "No backend configured for this route" 503 r w
with_backends renv env r route req w (some backends) =
    selected env r route req (estimated r.smart_router req w)
      (smart_choice renv r.smart_router req route backends)

with_route :
    RouterEnv → Env → Router → Request → World → Option InferenceRoute → Router × World × Routed
unfolding with_backends backends_of refuse
with_route renv env r req w none = refuse "No matching route found" 404 r w
with_route renv env r req w (some route) =
    if route.status.phase == "Failed"
    then refuse "Route is not operational" 503 r w
    else with_backends renv env r route req w
        (backends_of (match_rule renv.path_match route.spec.rules req) route.spec.default_backend)

-- `HandleRequest`
unfoldable pub handle_request : RouterEnv → Env → Router → Request → World → Router × World × Routed
unfolding with_route
handle_request renv env r req w = with_route renv env r req w (find_matching_route r.cache req)
