-- ===== src/Controller/Routes/Serving.antt =====
-- What the proxy answers behind a reconciliation of a route (internal/controller/inferenceroute_controller.go,
-- internal/proxy/router.go).
use kortex.Common.{
  ℕ, ◌≡◌, refl, ap, ◌∙◌, String, ◌==◌, ==_refl, string_eq, true, false, Option, none, some,
  if◌then◌else◌,
}
use kortex.Common.Dict.{lookup, lookup-insert_self, lookup-delete}
use kortex.Common.Text.{is_empty}
use kortex.Api.{InferenceRoute}
use kortex.Http.{Request, header_get, http_error}
use kortex.Cache.{NamespacedName, key_eq, Store, get_route, set_route, delete_route}
use kortex.Backend.Proxying.{World, Env}
use kortex.Experiments.{ExperimentManager}
use kortex.SmartRouter.{SmartRouterConfig}
use kortex.Router.{RouterEnv, Router, refused, namespace_of, find_matching_route, handle_request}
use kortex.Router.Refusals.{handle_request-unmatched, handle_request-failed}
use kortex.Controller.{present, absent}
use kortex.Controller.Routes.{
  RouteCluster, assessed_by, route_concluded, route_fetched, reconcile_route,
}
use kortex.Controller.Routes.Naming.{references}
use kortex.Controller.Routes.Phases.{is_absent, assessed_by-Phased, Phased-Failed}

-- A request names a route by its headers.
abbrev pub Names : NamespacedName → Request → Type 0
Names key req =
    (namespace_of req.header ≡ key.namespace)
    × (header_get "X-Route" req.header ≡ key.name)
    × (is_empty key.name ≡ false)

-- The router answers with an error of its own, and nothing else happens.
abbrev pub Refuses :
    RouterEnv
    → Env
    → Option Store
    → Option ExperimentManager
    → Option SmartRouterConfig
    → Request
    → (message : String) → ℕ
    → Type 0
Refuses renv env none experiments smart req message code = ⊥
Refuses renv env (some s) experiments smart req message code =
    let r : Router = record { cache = s; experiments = experiments; smart_router = smart } in
    (w : World)
    → handle_request renv env r req w
      ≡ (r, record w { writer = http_error message code w.writer }, refused code)

find_named :
    (s : Store) (key : NamespacedName) (req : Request)
    → Names key req
    → find_matching_route s req ≡ get_route key s
unfolding find_matching_route
find_named s key req (namespace, name, set) = rw (name, set, namespace) refl

get-set_route :
    (key : NamespacedName) (route : InferenceRoute) (s : Store)
    → get_route key (set_route key route s) ≡ some route
unfolding get_route set_route
get-set_route key route s = lookup-insert_self key route s.routes

get-delete_route : (key : NamespacedName) (s : Store) → get_route key (delete_route key s) ≡ none
unfolding get_route delete_route
get-delete_route key s =
    lookup-delete key key s.routes ∙ ap (λ t. if t then none else lookup key s.routes) (==_refl key)

-- Behind the reconciliation of a route that refers to a backend that does not exist, and whose
-- status the API server accepts, a request that names the route is answered 503, no backend is
-- asked, and nothing but the answer changes.
pub reconcile_route-Refuses_failed :
    (renv : RouterEnv) (env : Env) (c : RouteCluster) (key : NamespacedName) (s : Store)
    (experiments : Option ExperimentManager) (smart : Option SmartRouterConfig) (req : Request)
    (route : InferenceRoute) (name : String)
    → c.get key ≡ present route
    → ((route' : InferenceRoute) → c.update_error route' ≡ none)
    → references name route ≡ true
    → is_absent (c.get_backend (record { namespace = route.namespace; name = name })) ≡ true
    → Names key req
    → Refuses renv env
        (reconcile_route c key (record { cache = some s })).0.cache
        experiments
        smart
        req
        "Route is not operational"
        503
unfolding reconcile_route route_fetched route_concluded
reconcile_route-Refuses_failed renv env c key s experiments smart req route name found accepts
      refers gone names =
    let route' = assessed_by c route in
    let failed =
      Phased-Failed (λ n. references n route)
        (λ n. c.get_backend (record { namespace = route.namespace; name = n })) route'.status.phase
        name (assessed_by-Phased c route) refers gone in
    let s' = set_route key route' s in
    rw (found, accepts route')
      (λ w.
        handle_request-failed renv env
          (record { cache = s'; experiments = experiments; smart_router = smart }) req w route'
          (find_named s' key req names ∙ get-set_route key route' s)
          (ap (λ p. p == "Failed") failed))

-- Behind the reconciliation of a route that is gone from the cluster, a request that names it is
-- answered 404, no backend is asked, and nothing but the answer changes.
pub reconcile_route-Refuses_deleted :
    (renv : RouterEnv) (env : Env) (c : RouteCluster) (key : NamespacedName) (s : Store)
    (experiments : Option ExperimentManager) (smart : Option SmartRouterConfig) (req : Request)
    → c.get key ≡ absent
    → Names key req
    → Refuses renv env
        (reconcile_route c key (record { cache = some s })).0.cache
        experiments
        smart
        req
        "No matching route found"
        404
unfolding reconcile_route route_fetched
reconcile_route-Refuses_deleted renv env c key s experiments smart req gone names =
    let s' = delete_route key s in
    rw gone (λ w.
      handle_request-unmatched renv env
        (record { cache = s'; experiments = experiments; smart_router = smart }) req w
        (find_named s' key req names ∙ get-delete_route key s))
