-- ===== src/Gateway/Answering.antt =====
-- Every request to a running gateway is answered (cmd/main.go).
use kortex.Common.{◌∙◌, ◌≡◌, sym, ap, inl, inr, ℕ, Option, none, some, List, [], ◌∷◌, All}
use mathlib.Core.Path.{subst⁻¹}
use kortex.Http.{Request}
use kortex.Cache.{NamespacedName, key_eq, Store, set_route, delete_route, set_backend}
use kortex.RateLimit.{Buckets}
use kortex.Router.{RouterEnv}
use kortex.Router.Handling.{AllRoutable, Draws}
use kortex.Router.Caching.{handle_request-cache}
use kortex.Backend.Proxying.{World, Env}
use kortex.Server.{Server, Served, too_large, limited, routed, limit_body, serve_http}
use kortex.Server.Admission.{Attended, Guards, serve_http-Attended, serve_http-Guards}
use kortex.Controller.Backends.{BackendReconciler, reconcile_backend}
use kortex.Controller.Backends.Caching.{Caches, reconcile_backend-Caches}
use kortex.Controller.Routes.Caching.{
  InCache, GivesRoutable, set_backend-InCache, reconcile_route-InCache,
}
use kortex.Configuration.{Rates}
use kortex.Configuration.Applying.{apply_config-cache}
use kortex.Gateway.{
  connected, store_or, Gateway, GatewayInput, Flags, backend_changed, route_changed, requested,
  configured, connected, ticked, with_store, gateway_step, gateway_run, new_gateway,
}

Caches-InCache : (r r' : BackendReconciler) → Caches r r' → InCache r.cache → InCache r'.cache
Caches-InCache r r' h fine = elim h [
  | inl kept ↦ subst⁻¹ InCache kept.0 fine
  | inr (j, back, cached, logged) ↦ subst⁻¹ InCache cached (set_backend-InCache j back r.cache fine)
]

module _ (b : Buckets) where
  Guards-cache :
      (renv : RouterEnv) (env : Env) (clock : ℕ → ℕ) (s : Server b) (req : Request) (w : World)
      (after : Server b × World × Served)
      → Guards b renv env clock s req w after
      → after.0.router.cache ≡ s.router.cache
  Guards-cache renv env clock s req w (s', w', too_large) h = ap (λ t. t.router.cache) h.0
  Guards-cache renv env clock s req w (s', w', limited result)
        (route, limit, limiter, how, denied, server, world) =
      ap (λ t. t.router.cache) server
  Guards-cache renv env clock s req w (s', w', routed how) (writer, fresh, same, kept, limits) =
      ap (λ t. t.0.cache) (sym same)
      ∙ handle_request-cache renv env s.router (limit_body s.config req)
          (record w { writer = writer })

  pub serve_http-cache :
      (renv : RouterEnv) (env : Env) (clock : ℕ → ℕ) (s : Server b) (req : Request) (w : World)
      → (serve_http b renv env clock s req w).0.router.cache ≡ s.router.cache
  serve_http-cache renv env clock s req w =
      Guards-cache renv env clock s req w (serve_http b renv env clock s req w)
        (serve_http-Guards b renv env clock s req w)

  with_store-AllRoutable :
      (cache : Option Store) (s : Server b)
      → InCache cache
      → AllRoutable s.router.cache.routes
      → AllRoutable (with_store cache s).router.cache.routes
  unfolding with_store store_or
  with_store-AllRoutable none s h fine = fine
  with_store-AllRoutable (some cache) s h fine = h

  module _ (f : Rates) where
    -- Whatever comes in, the routes that the API server gives are balanced.
    abbrev pub IsSound : GatewayInput b f → Type 0
    IsSound (backend_changed c k) = Unit
    IsSound (route_changed c k) = GivesRoutable (c.get k)
    IsSound (requested renv env clock req w) = Unit
    IsSound (configured clock c) = Unit
    IsSound (ticked now) = Unit

    gateway_step-AllRoutable :
        (i : GatewayInput b f) (g : Gateway b f)
        → IsSound i
        → AllRoutable g.server.router.cache.routes
        → AllRoutable (gateway_step b f i g).server.router.cache.routes
    unfolding gateway_step
    gateway_step-AllRoutable (backend_changed c k) g p h =
        with_store-AllRoutable _ g.server
          (Caches-InCache (connected b f g) (reconcile_backend c k (connected b f g)).0
            (reconcile_backend-Caches c k (connected b f g)) h)
          h
    gateway_step-AllRoutable (route_changed c k) g p h =
        with_store-AllRoutable _ g.server (reconcile_route-InCache c k g.server.router.cache p h) h
    gateway_step-AllRoutable (requested renv env clock req w) g p h =
        subst⁻¹ (λ s. AllRoutable s.routes) (serve_http-cache renv env clock g.server req w) h
    gateway_step-AllRoutable (configured clock c) g p h =
        subst⁻¹ (λ s. AllRoutable s.routes) (apply_config-cache f b clock c g.server) h
    gateway_step-AllRoutable (ticked now) g p h = h

    gateway_run-AllRoutable :
        (is : List (GatewayInput b f)) (g : Gateway b f)
        → All IsSound is
        → AllRoutable g.server.router.cache.routes
        → AllRoutable (gateway_run b f is g).server.router.cache.routes
    unfolding gateway_run
    gateway_run-AllRoutable [] g p h = h
    gateway_run-AllRoutable (i ∷ is) g p h =
        gateway_run-AllRoutable is _ p.1 (gateway_step-AllRoutable i g p.0 h)

    new_gateway-AllRoutable :
        (flags : Flags) → AllRoutable (new_gateway b f flags).server.router.cache.routes
    unfolding new_gateway kortex.Server.new_server kortex.Cache.new_store
    new_gateway-AllRoutable flags = tt

    -- A gateway as `main` starts it answers every request, after any sequence of reconciliations,
    -- requests, changes of the configuration and clean-ups: with 413, with 429, with a status of the
    -- router or as the fallback chain ends. It takes that the API server only gave routes without
    -- negative weights and with sums below 2^31, that the draws stay below their bound and that the
    -- writer of the request has sent no status.
    pub gateway_run-Attended :
        (is : List (GatewayInput b f)) (flags : Flags) (renv : RouterEnv) (env : Env)
        (clock : ℕ → ℕ) (req : Request) (w : World)
        → All IsSound is
        → Draws renv
        → w.writer.status ≡ none
        → Attended b
            (serve_http b renv env clock (gateway_run b f is (new_gateway b f flags)).server req w)
    gateway_run-Attended is flags renv env clock req w sound draws fresh =
        serve_http-Attended b renv env draws clock _ req w
          (gateway_run-AllRoutable is _ sound (new_gateway-AllRoutable flags)) fresh
