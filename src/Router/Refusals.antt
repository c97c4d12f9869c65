-- ===== src/Router/Refusals.antt =====
-- The refusals of the router for the route that a request finds (`HandleRequest` of
-- internal/proxy/router.go).
use kortex.Common.{◌≡◌, refl, ◌==◌, string_eq, true, none, some}
use kortex.Http.{Request, http_error}
use kortex.Api.{InferenceRoute}
use kortex.Backend.Proxying.{World, Env}
use kortex.Router.{
  RouterEnv, Router, refused, find_matching_route, refuse, with_route, handle_request,
}

module _ (renv : RouterEnv) (env : Env) (r : Router) (req : Request) (w : World) where
  pub handle_request-unmatched :
      find_matching_route r.cache req ≡ none
      → handle_request renv env r req w
        ≡ (r, record w { writer = http_error "No matching route found" 404 w.writer }, refused 404)
  unfolding handle_request with_route refuse
  handle_request-unmatched unmatched = rw unmatched refl

  pub handle_request-failed :
      (route : InferenceRoute)
      → find_matching_route r.cache req ≡ some route
      → (route.status.phase == "Failed") ≡ true
      → handle_request renv env r req w
        ≡ (r, record w { writer = http_error "Route is not operational" 503 w.writer }, refused 503)
  unfolding handle_request with_route refuse
  handle_request-failed route found failed = rw (found, failed) refl
