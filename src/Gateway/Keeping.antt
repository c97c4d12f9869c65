-- ===== src/Gateway/Keeping.antt =====
-- Which backends a running gateway forgets: none (cmd/main.go).
use kortex.Common.{arith, ◌∙◌, ◌≡◌, ap, inl, inr, Option, none, some, List, [], ◌∷◌}
use mathlib.Core.Path.{subst⁻¹}
use kortex.Api.{InferenceBackend}
use kortex.Common.Dict.{lookup}
use kortex.Cache.{NamespacedName, key_eq, Store, get_backend}
use kortex.RateLimit.{Buckets}
use kortex.Server.{Server}
use kortex.Controller.Backends.{BackendReconciler, reconcile_backend}
use kortex.Controller.Backends.Caching.{
  IsCached, Caches, set_backend-IsCached, reconcile_backend-Caches,
}
use kortex.Controller.Routes.Caching.{backends_in, reconcile_route-backends_in}
use kortex.Configuration.{Rates}
use kortex.Configuration.Applying.{apply_config-cache}
use kortex.Gateway.{
  connected, Gateway, GatewayInput, backend_changed, route_changed, requested, configured, ticked,
  with_store, store_or, gateway_step, gateway_run,
}
use kortex.Gateway.Answering.{serve_http-cache}

backends_or :
    List (NamespacedName × InferenceBackend)
    → Option (List (NamespacedName × InferenceBackend))
    → List (NamespacedName × InferenceBackend)
backends_or bs none = bs
backends_or bs (some cs) = cs

backends_in-IsCached :
    (k : NamespacedName) (a b : Option Store)
    → backends_in a ≡ backends_in b
    → IsCached k b
    → IsCached k a
unfolding IsCached get_backend backends_or
backends_in-IsCached k a none same h = elim h [ ]
backends_in-IsCached k none (some s) same h = ground arith
backends_in-IsCached k (some t) (some s) same h =
    (h.0, ap (λ bs. lookup k (backends_or s.backends bs)) same ∙ h.1)

Caches-IsCached :
    (k : NamespacedName) (r r' : BackendReconciler)
    → Caches r r'
    → IsCached k r.cache
    → IsCached k r'.cache
Caches-IsCached k r r' h cached = elim h [
  | inl kept ↦ subst⁻¹ (λ c. IsCached k c) kept.0 cached
  | inr (j, b, put, logged) ↦
      subst⁻¹ (λ c. IsCached k c) put (set_backend-IsCached k j b r.cache cached)
]

module _ (b : Buckets) where
  with_store-IsCached :
      (k : NamespacedName) (cache : Option Store) (s : Server b)
      → IsCached k cache
      → IsCached k (some (with_store cache s).router.cache)
  unfolding with_store store_or IsCached
  with_store-IsCached k none s h = elim h [ ]
  with_store-IsCached k (some cache) s h = h

  module _ (f : Rates) where
    gateway_step-IsCached :
        (k : NamespacedName) (i : GatewayInput b f) (g : Gateway b f)
        → IsCached k (some g.server.router.cache)
        → IsCached k (some (gateway_step b f i g).server.router.cache)
    unfolding gateway_step
    gateway_step-IsCached k (backend_changed c j) g h = with_store-IsCached k _ g.server (
        Caches-IsCached k (connected b f g) (reconcile_backend c j (connected b f g)).0
          (reconcile_backend-Caches c j (connected b f g)) h)
    gateway_step-IsCached k (route_changed c j) g h = with_store-IsCached k _ g.server (
        backends_in-IsCached k _ _
          (reconcile_route-backends_in c j (record { cache = some g.server.router.cache })) h)
    gateway_step-IsCached k (requested renv env clock req w) g h =
        subst⁻¹ (λ s. IsCached k (some s)) (serve_http-cache b renv env clock g.server req w) h
    gateway_step-IsCached k (configured clock c) g h =
        subst⁻¹ (λ s. IsCached k (some s)) (apply_config-cache f b clock c g.server) h
    gateway_step-IsCached k (ticked now) g h = h

    -- A backend that the proxy knows at some time stays known to it through any sequence of
    -- reconciliations, requests, changes of the configuration and clean-ups: the gateway never
    -- forgets one, also when it is deleted from the cluster.
    pub gateway_run-IsCached :
        (k : NamespacedName) (is : List (GatewayInput b f)) (g : Gateway b f)
        → IsCached k (some g.server.router.cache)
        → IsCached k (some (gateway_run b f is g).server.router.cache)
    unfolding gateway_run
    gateway_run-IsCached k [] g h = h
    gateway_run-IsCached k (i ∷ is) g h =
        gateway_run-IsCached k is _ (gateway_step-IsCached k i g h)
