-- ===== src/Router/Caching.antt =====
-- A request leaves the cache as it is (`HandleRequest` of internal/proxy/router.go).
use kortex.Common.{◌≡◌, refl, ◌==◌, string_eq, Option, none, some, List, Bool-cases, inl, inr}
use kortex.Http.{Request}
use kortex.Api.{InferenceRoute, BackendRef}
use kortex.Experiments.{ExperimentManager}
use kortex.Backend.Proxying.{World, Env}
use kortex.Router.{
  RouterEnv, Router, find_matching_route, match_rule, smart_choice, estimated, backends_of, refuse,
  forward, with_experiments, selected, with_backends, with_route, handle_request,
}

module _ (renv : RouterEnv) (env : Env) (r : Router) (req : Request) (w : World) where
  with_experiments-cache :
      (route : InferenceRoute) (b : BackendRef) (m : Option ExperimentManager)
      → (with_experiments env r route req b w m).0.cache ≡ r.cache
  unfolding with_experiments forward
  with_experiments-cache route b none = refl
  with_experiments-cache route b (some m) = refl

  selected-cache :
      (route : InferenceRoute) (b : Option BackendRef)
      → (selected env r route req w b).0.cache ≡ r.cache
  unfolding selected
  selected-cache route none = refl
  selected-cache route (some b) = with_experiments-cache route b r.experiments

module _ (renv : RouterEnv) (env : Env) (r : Router) (req : Request) (w : World) where
  with_backends-cache :
      (route : InferenceRoute) (bs : Option (List BackendRef))
      → (with_backends renv env r route req w bs).0.cache ≡ r.cache
  unfolding with_backends refuse
  with_backends-cache route none = refl
  with_backends-cache route (some bs) =
      selected-cache renv env r req (estimated r.smart_router req w) route
        (smart_choice renv r.smart_router req route bs)

  with_route-cache :
      (route : Option InferenceRoute) → (with_route renv env r req w route).0.cache ≡ r.cache
  unfolding with_route refuse
  with_route-cache none = refl
  with_route-cache (some route) = elim (Bool-cases (route.status.phase == "Failed")) [
    | inl failed ↦ rw failed refl
    | inr fine ↦ rw fine (
        with_backends-cache route (
          backends_of (match_rule renv.path_match route.spec.rules req) route.spec.default_backend))
  ]

  pub handle_request-cache : (handle_request renv env r req w).0.cache ≡ r.cache
  unfolding handle_request
  handle_request-cache = with_route-cache (find_matching_route r.cache req)
