-- ===== src/Gateway/Tests.antt =====
-- The theorems on the running gateway at a concrete sequence of inputs (cmd/main.go).
use kortex.Common.{ℕ, refl, false, none, some, [], ◌∷◌, ok, arith}
use kortex.Common.Int.{pos}
use kortex.Common.Dict.{insert, lookup}
use kortex.Api.{InferenceBackend}
use kortex.Cache.{NamespacedName, get_backend, new_store, set_route, set_backend}
use kortex.Server.{serve_http}
use kortex.Server.Admission.{Attended}
use kortex.Controller.{Fetched, present, absent}
use kortex.Controller.Backends.{Cluster}
use kortex.Controller.Backends.Caching.{IsCached}
use kortex.Controller.Routes.{RouteCluster}
use kortex.Configuration.{Rates}
use kortex.Gateway.{
  Flags, Gateway, GatewayInput, backend_changed, route_changed, requested, gateway_run, new_gateway,
}
use kortex.Gateway.Answering.{gateway_run-Attended}
use kortex.Gateway.Keeping.{gateway_run-IsCached}
use kortex.Samples.{
  external_backend, chat_route, chat_request, fresh_world, sample_router_env, sample_env, draining,
  sample_store,
}

abbrev no_floats : Rates
no_floats = record { Float = ℕ; one = 1; below_zero = λ x. false; above_one = λ x. false }

abbrev flags : Flags
flags = record {
  proxy_addr = ":8080";
  enable_smart_routing = false;
  long_context_threshold = pos 4000;
  fast_model_threshold = pos 500;
  long_context_backend = "";
  fast_model_backend = "";
}

abbrev gpt_key : NamespacedName
gpt_key = record { namespace = "default"; name = "gpt" }

-- A cluster where a backend is as given and every probe succeeds.
abbrev cluster_of : Fetched InferenceBackend → Cluster
cluster_of backend = record {
  get = λ key. backend;
  update_error = λ b. none;
  set_condition = λ c cs. c ∷ cs;
  probes = record {
    request_error = λ method url. none;
    send = λ client context method url. ok 200;
    latency = 3;
    now = 7;
  };
  now = 9;
}

-- A cluster with the route of the samples, where every backend exists.
abbrev routes : RouteCluster
routes = record {
  get = λ key. present chat_route;
  get_backend = λ key. present (external_backend key.name);
  update_error = λ r. none;
  set_condition = λ c cs. c ∷ cs;
  now = 9;
}

abbrev known : GatewayInput draining no_floats
known = backend_changed (cluster_of (present (external_backend "gpt"))) gpt_key

abbrev gone : GatewayInput draining no_floats
gone = backend_changed (cluster_of absent) gpt_key

abbrev routed_in : GatewayInput draining no_floats
routed_in = route_changed routes (record { namespace = "default"; name = "chat" })

abbrev asked : GatewayInput draining no_floats
asked = requested sample_router_env sample_env (λ n. n) chat_request (fresh_world none)

gateway_run-Attended_example : Attended draining (
    serve_http draining sample_router_env sample_env
      (λ n. n)
      (gateway_run draining no_floats
        (known ∷ routed_in ∷ asked ∷ gone ∷ [])
        (new_gateway draining no_floats flags)).server
      chat_request
      (fresh_world none))
unfolding kortex.Router.weight_of
gateway_run-Attended_example =
    gateway_run-Attended draining no_floats (known ∷ routed_in ∷ asked ∷ gone ∷ []) flags
      sample_router_env sample_env (λ n. n) chat_request (fresh_world none)
      (tt, ((((refl, (refl, tt)), omega arith), tt), (tt, (tt, tt)))) (λ n positive. positive) refl

-- A gateway whose cache holds the backends of the samples.
abbrev informed : Gateway draining no_floats
informed =
    let g = new_gateway draining no_floats flags in
    record g {
      server = record g.server { router = record g.server.router { cache = sample_store } };
    }

gateway_run-IsCached_example : IsCached gpt_key (
    some
      (gateway_run draining no_floats (gone ∷ routed_in ∷ asked ∷ []) informed).server.router.cache)
unfolding IsCached get_backend lookup set_route set_backend insert new_store new_gateway
gateway_run-IsCached_example =
    gateway_run-IsCached draining no_floats gpt_key (gone ∷ routed_in ∷ asked ∷ []) informed
      (external_backend "gpt", refl)
