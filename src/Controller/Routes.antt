-- ===== src/Controller/Routes.antt =====
-- The reconciler of routes (internal/controller/inferenceroute_controller.go): it looks up the
-- backends that a route names, and hands the phase of the route to the API server and to the cache.
-- Sets of names are lists whose order stands for the order of the map. Log lines and the set-up with
-- the manager are left out.
pub mod Naming
pub mod Phases
pub mod Ordering
pub mod Requests
pub mod Serving
pub mod Caching
mod Tests
use kortex.Common.{
  ℕ, zero, suc, ◌+◌, ◌*◌, String, ◌==◌, string_eq, Bool, true, false, ◌||◌, ◌&&◌, Option, none,
  some, List, [], ◌∷◌, length, ltb, nat_beq, if◌then◌else◌,
}
use kortex.Common.Int.{ℤ, pos}
use kortex.Common.Dict.{map_option}
use kortex.Common.Text.{◌<>◌}
use kortex.Api.{
  InferenceRoute, InferenceBackend, RouteRule, BackendRef, FallbackChain, AbExperiment, Condition,
}
use kortex.Cache.{NamespacedName, Store, set_route, delete_route, health_status_healthy}
use kortex.Controller.{Fetched, present, absent, unavailable, Reply, done, failing, new_condition}

abbrev phase_pending : String
phase_pending = "Pending"

abbrev phase_active : String
phase_active = "Active"

abbrev phase_degraded : String
phase_degraded = "Degraded"

abbrev phase_failed : String
phase_failed = "Failed"

abbrev condition_type_route_ready : String
condition_type_route_ready = "Ready"

abbrev condition_type_backends_ready : String
condition_type_backends_ready = "BackendsReady"

abbrev condition_type_route_valid : String
condition_type_route_valid = "RouteValid"

-- What one reconciliation meets outside.
pub record RouteCluster : Type 0 where
  pub get : NamespacedName → Fetched InferenceRoute
  pub get_backend : NamespacedName → Fetched InferenceBackend
  pub update_error : InferenceRoute → Option String
  pub set_condition : Condition → List Condition → List Condition
  pub now : ℕ

pub record RouteReconciler : Type 0 where
  pub cache : Option Store

unfoldable pub has_name : String → List String → Bool
has_name name [] = false
has_name name (n ∷ ns) = n == name || has_name name ns

-- A name is added to a set.
unfoldable pub add_name : String → List String → List String
unfolding has_name
add_name name names = if has_name name names then names else name ∷ names

add_refs : List BackendRef → List String → List String
add_refs [] names = names
add_refs (b ∷ bs) names = add_refs bs (add_name b.name names)

add_rules : List RouteRule → List String → List String
unfolding add_refs
add_rules [] names = names
add_rules (rule ∷ rules) names = add_rules rules (add_refs rule.backends names)

add_default : Option BackendRef → List String → List String
add_default none names = names
add_default (some b) names = add_name b.name names

add_all : List String → List String → List String
add_all [] names = names
add_all (n ∷ ns) names = add_all ns (add_name n names)

add_fallback : Option FallbackChain → List String → List String
unfolding add_all
add_fallback none names = names
add_fallback (some chain) names = add_all chain.backends names

add_experiments : List AbExperiment → List String → List String
add_experiments [] names = names
add_experiments (e ∷ es) names =
    add_experiments es (add_name e.treatment (add_name e.control names))

unfoldable pub collect_backend_names : InferenceRoute → List String
unfolding add_rules add_default add_fallback add_experiments
collect_backend_names route = add_experiments route.spec.experiments (
    add_fallback route.spec.fallback
      (add_default route.spec.default_backend (add_rules route.spec.rules [])))

-- What the loop over the names finds. A backend that cannot be fetched for another reason than its
-- absence stands in none of the three.
pub record Tally : Type 0 where
  pub healthy : ℕ
  pub missing : List String
  pub unhealthy : List String

count_fetched : String → Fetched InferenceBackend → Tally → Tally
count_fetched name absent t = record t { missing = name ∷ t.missing }
count_fetched name (unavailable e) t = t
count_fetched name (present b) t =
    if b.status.health == health_status_healthy
    then record t { healthy = suc t.healthy }
    else record t { unhealthy = name ∷ t.unhealthy }

-- The lists are in the order of the loop.
unfoldable pub tally : (String → Fetched InferenceBackend) → List String → Tally
unfolding count_fetched
tally get [] = record { healthy = 0; missing = []; unhealthy = [] }
tally get (name ∷ names) = count_fetched name (get name) (tally get names)

unfoldable pub determine_phase : (total healthy missing : ℕ) → String
determine_phase total healthy missing =
    if nat_beq total 0
    then phase_pending
    else if ltb 0 missing
    then phase_failed
    else if nat_beq healthy 0
    then phase_failed
    else if ltb healthy total
    then phase_degraded
    else phase_active

spaced : List String → String
spaced [] = ""
spaced (n ∷ []) = n
spaced (n ∷ m ∷ ns) = n <> " " <> spaced (m ∷ ns)

-- `%v` of a slice of strings.
unfoldable pub slice_text : List String → String
unfolding spaced
slice_text names = "[" <> spaced names <> "]"

put_condition : RouteCluster → Condition → InferenceRoute → InferenceRoute
put_condition c condition route = record route {
  status = record route.status { conditions = c.set_condition condition route.status.conditions };
}

backends_condition : InferenceRoute → (missing unhealthy : List String) → Condition
unfolding slice_text
backends_condition route [] [] =
    new_condition condition_type_backends_ready route.generation "True" "AllBackendsReady"
      "All referenced backends are healthy"
backends_condition route (n ∷ ns) unhealthy =
    new_condition condition_type_backends_ready route.generation "False" "BackendsMissing"
      ("Missing backends: " <> slice_text (n ∷ ns))
backends_condition route [] (n ∷ ns) =
    new_condition condition_type_backends_ready route.generation "False" "BackendsUnhealthy"
      ("Unhealthy backends: " <> slice_text (n ∷ ns))

unfoldable pub set_backends_condition :
    RouteCluster → (missing unhealthy : List String) → InferenceRoute → InferenceRoute
unfolding put_condition backends_condition
set_backends_condition c missing unhealthy route =
    put_condition c (backends_condition route missing unhealthy) route

valid_condition : InferenceRoute → (missing : List String) → Condition
unfolding slice_text
valid_condition route [] =
    new_condition condition_type_route_valid route.generation "True" "RouteValid"
      "Route configuration is valid"
valid_condition route (n ∷ ns) =
    new_condition condition_type_route_valid route.generation "False" "InvalidBackendReferences"
      ("Referenced backends do not exist: " <> slice_text (n ∷ ns))

unfoldable pub set_route_valid_condition :
    RouteCluster → (missing : List String) → InferenceRoute → InferenceRoute
unfolding put_condition valid_condition
set_route_valid_condition c missing route = put_condition c (valid_condition route missing) route

ready_condition : InferenceRoute → String → Condition
ready_condition route phase =
    if phase == phase_active
    then new_condition condition_type_route_ready route.generation "True" "RouteReady"
        "Route is active and all backends are healthy"
    else if phase == phase_degraded
    then new_condition condition_type_route_ready route.generation "True" "RouteDegraded"
        "Route is operational but some backends are unhealthy"
    else if phase == phase_pending
    then new_condition condition_type_route_ready route.generation "False" "RoutePending"
        "Route has no backends configured"
    else new_condition condition_type_route_ready route.generation "False" "RouteFailed"
        "Route is not operational due to backend issues"

unfoldable pub set_route_ready_condition : RouteCluster → String → InferenceRoute → InferenceRoute
unfolding put_condition ready_condition
set_route_ready_condition c phase route = put_condition c (ready_condition route phase) route

-- The route with the status that a tally leads to.
unfoldable pub route_assessed : RouteCluster → (total : ℕ) → Tally → InferenceRoute → InferenceRoute
unfolding set_backends_condition set_route_valid_condition set_route_ready_condition
route_assessed c total t route =
    let phase = determine_phase total t.healthy (length t.missing) in
    set_route_ready_condition c phase (
      set_route_valid_condition c t.missing (
        set_backends_condition c t.missing t.unhealthy (record route {
          status = record route.status {
            phase = phase;
            active_backends = pos t.healthy;
            last_updated = some c.now;
          };
        })))

-- The route as the reconciliation leaves it.
unfoldable pub assessed_by : RouteCluster → InferenceRoute → InferenceRoute
unfolding route_assessed
assessed_by c route =
    let names = collect_backend_names route in
    let get =
      λ (name : String). c.get_backend (record { namespace = route.namespace; name = name }) in
    route_assessed c (length names) (tally get names) route

route_concluded :
    NamespacedName → InferenceRoute → RouteReconciler → Option String → RouteReconciler × Reply
route_concluded key route r (some e) = (r, failing e)
route_concluded key route r none = (
  record r { cache = map_option (set_route key route) r.cache },
  record { requeue_after = pos (30 * 1_000_000_000); error = none },
)

route_fetched :
    RouteCluster
    → NamespacedName
    → RouteReconciler
    → Fetched InferenceRoute
    → RouteReconciler × Reply
unfolding assessed_by route_concluded
route_fetched c key r absent = (record r { cache = map_option (delete_route key) r.cache }, done)
route_fetched c key r (unavailable e) = (r, failing e)
route_fetched c key r (present route) =
    let route' = assessed_by c route in route_concluded key route' r (c.update_error route')

-- `Reconcile`
unfoldable pub reconcile_route :
    RouteCluster → NamespacedName → RouteReconciler → RouteReconciler × Reply
unfolding route_fetched
reconcile_route c key r = route_fetched c key r (c.get key)

requests_from : String → List InferenceRoute → List NamespacedName
unfolding has_name
requests_from name [] = []
requests_from name (route ∷ routes) =
    if has_name name (collect_backend_names route)
    then record { namespace = route.namespace; name = route.name } ∷ requests_from name routes
    else requests_from name routes

requests_listed : String → Option (List InferenceRoute) → List NamespacedName
unfolding requests_from
requests_listed name none = []
requests_listed name (some routes) = requests_from name routes

-- The routes to reconcile when a backend changes; `list` are those of a namespace, or none where
-- they cannot be listed. The object that changed is a backend.
unfoldable pub find_routes_for_backend :
    (list : String → Option (List InferenceRoute)) → InferenceBackend → List NamespacedName
unfolding requests_listed
find_routes_for_backend list b = requests_listed b.name (list b.namespace)
