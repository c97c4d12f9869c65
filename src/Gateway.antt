-- ===== src/Gateway.antt =====
-- The running gateway (cmd/main.go): the proxy and the controllers around one cache. Requests,
-- reconciliations and changes of the configuration come in any order, each as one step: the cache is
-- locked over each of its calls, and a reconciliation changes it in its last call only.
pub mod Answering
pub mod Keeping
mod Tests
use kortex.Common.{false, ℕ, String, Bool, Option, none, some, List, [], ◌∷◌, if◌then◌else◌}
use kortex.Common.Int.{ℤ}
use kortex.Common.Dict.{map_option}
use kortex.Http.{Request}
use kortex.Cache.{NamespacedName, Store, new_store}
use kortex.Health.{new_checker}
use kortex.RateLimit.{Buckets, cleanup, new_rate_limiter}
use kortex.Router.{RouterEnv, Router}
use kortex.Backend.Proxying.{World, Env}
use kortex.Server.{
  Server, serve_http, new_server, default_config, ServerOption, with_rate_limiter,
  with_server_experiments, with_server_smart_router,
}
use kortex.Controller.Backends.{Cluster, BackendReconciler, reconcile_backend}
use kortex.Controller.Routes.{RouteCluster, reconcile_route}
use kortex.Configuration.{Rates, KortexConfig}
use kortex.Configuration.Applying.{apply_config}

-- What the command line says of smart routing and of the proxy's address.
pub record Flags : Type 0 where
  pub proxy_addr : String
  pub enable_smart_routing : Bool
  pub long_context_threshold : ℤ
  pub fast_model_threshold : ℤ
  pub long_context_backend : String
  pub fast_model_backend : String

store_or : Store → Option Store → Store
store_or s none = s
store_or s (some s') = s'

with_store : {b : Buckets} → Option Store → Server b → Server b
unfolding store_or
with_store cache s = record s { router = record s.router { cache = store_or s.router.cache cache } }

module _ (b : Buckets) (f : Rates) where
  -- The cache is that of the server's router, also for the reconcilers.
  pub record Gateway : Type 0 where
    pub server : Server b
    pub reconciler : BackendReconciler

  smart_option : Flags → List (ServerOption b)
  smart_option flags =
      if flags.enable_smart_routing
      then with_server_smart_router b (record {
        long_context_threshold = flags.long_context_threshold;
        fast_model_threshold = flags.fast_model_threshold;
        long_context_backend = flags.long_context_backend;
        fast_model_backend = flags.fast_model_backend;
        default_backend = "";
        enable_cost_optimization = false;
      })
        ∷ []
      else []

  -- The gateway that `main` starts. The reconciler of backends has a checker of its own, and has seen
  -- no failure yet.
  unfoldable pub new_gateway : Flags → Gateway
  unfolding smart_option
  new_gateway flags = record {
    server =
        new_server b (record default_config { addr = flags.proxy_addr }) new_store
          (with_rate_limiter b (new_rate_limiter b)
            ∷ with_server_experiments b (record { metrics = some [] })
            ∷ smart_option flags);
    reconciler = record {
      health_checker = new_checker;
      cache = some new_store;
      failure_counts = [];
      persisted = [];
    };
  }

  -- The reconciler of backends with the cache that it shares.
  abbrev pub connected : Gateway → BackendReconciler
  connected g = record g.reconciler { cache = some g.server.router.cache }

  -- What comes to a gateway from outside, with what it meets there.
  pub data GatewayInput : Type 0 where
    backend_changed : Cluster → NamespacedName → GatewayInput
    route_changed : RouteCluster → NamespacedName → GatewayInput
    requested : RouterEnv → Env → (clock : ℕ → ℕ) → Request → World → GatewayInput
    configured : (clock : String → ℕ → ℕ) → KortexConfig f → GatewayInput
    ticked : (now : ℕ) → GatewayInput

  -- One input. Both reconcilers are made with the cache that the proxy has.
  unfoldable pub gateway_step : GatewayInput → Gateway → Gateway
  unfolding with_store
  gateway_step (backend_changed c key) g =
      let r = (reconcile_backend c key (connected g)).0 in
      record { server = with_store r.cache g.server; reconciler = r }
  gateway_step (route_changed c key) g =
      let r = (reconcile_route c key (record { cache = some g.server.router.cache })).0 in
      record g { server = with_store r.cache g.server }
  gateway_step (requested renv env clock req w) g = record g {
    server = (serve_http b renv env clock g.server req w).0;
  }
  gateway_step (configured clock c) g = record g { server = apply_config f b clock c g.server }
  gateway_step (ticked now) g = record g {
    server = record g.server { rate_limiter = map_option (cleanup b now) g.server.rate_limiter };
  }

  unfoldable pub gateway_run : List GatewayInput → Gateway → Gateway
  gateway_run [] g = g
  gateway_run (i ∷ is) g = gateway_run is (gateway_step i g)
