-- ===== src/Controller/Routes/Tests.antt =====
-- The theorems on the reconciler of routes at a concrete route
-- (internal/controller/inferenceroute_controller.go).
use kortex.Common.{
  ◌≡◌, ◌↔◌, refl, String, ◌==◌, string_eq, true, false, none, some, [], ◌∷◌, In, Any, List, arith,
  Bool-cases, inl, inr, if◌then◌else◌,
}
use kortex.Api.{InferenceRoute}
use kortex.Cache.{NamespacedName}
use kortex.Controller.{Fetched, present, absent}
use kortex.Controller.Routes.{
  RouteCluster, reconcile_route, collect_backend_names, has_name, find_routes_for_backend,
  assessed_by,
}
use kortex.Controller.Routes.Naming.{
  references, any, in_fallback, in_default, IsUnique, collect_backend_names-IsUnique,
}
use kortex.Controller.Routes.Phases.{Phased, is_absent, assessed_by-Phased}
use kortex.Controller.Routes.Serving.{Refuses, reconcile_route-Refuses_failed}
use kortex.Controller.Routes.Ordering.{phase_of_set, assessed_by-phase_of_set}
use mathlib.Core.Quot
use kortex.Samples.{
  external_backend, chat_route, chat_request, sample_store, sample_router_env, sample_env,
}

abbrev chat_key : NamespacedName
chat_key = record { namespace = "default"; name = "chat" }

-- A cluster where the route is as given and the backend "claude" does not exist.
abbrev without_claude : Fetched InferenceRoute → RouteCluster
without_claude route = record {
  get = λ key. route;
  get_backend = λ key. if key.name == "claude" then absent else present (external_backend key.name);
  update_error = λ r. none;
  set_condition = λ c cs. c ∷ cs;
  now = 9;
}

assessed_by-Phased_example :
    Phased
      (λ name. references name chat_route)
      (λ name.
        (without_claude (present chat_route)).get_backend
          (record { namespace = "default"; name = name }))
      (assessed_by (without_claude (present chat_route)) chat_route).status.phase
assessed_by-Phased_example = assessed_by-Phased (without_claude (present chat_route)) chat_route

-- The names in another order, one of them twice.
abbrev other_names : List String
other_names = "claude" ∷ "gpt" ∷ "claude" ∷ []

other_names-references : (name : String) → has_name name other_names ≡ references name chat_route
unfolding has_name references any in_fallback in_default
other_names-references name = elim (Bool-cases ("claude" == name)) [
  | inl same ↦ rw same (ground arith)
  | inr other ↦ rw other (ground arith)
]

assessed_by-phase_of_set_example :
    (assessed_by (without_claude (present chat_route)) chat_route).status.phase
    ≡ phase_of_set
        (λ name.
          (without_claude (present chat_route)).get_backend
            (record { namespace = "default"; name = name }))
        (Quot.mk other_names)
assessed_by-phase_of_set_example =
    assessed_by-phase_of_set (without_claude (present chat_route)) chat_route other_names
      other_names-references

reconcile_route-Refuses_failed_example :
    Refuses sample_router_env sample_env
      (reconcile_route
        (without_claude (present chat_route))
        chat_key
        (record { cache = some sample_store })).0.cache
      none
      none
      (record chat_request { header = ("X-Route", "chat") ∷ [] })
      "Route is not operational"
      503
unfolding is_absent references kortex.Controller.Routes.Naming.any
    kortex.Controller.Routes.Naming.in_fallback kortex.Router.namespace_of
    kortex.Common.Text.is_empty kortex.Http.header_get kortex.Common.Text.fold_eq
reconcile_route-Refuses_failed_example =
    reconcile_route-Refuses_failed sample_router_env sample_env
      (without_claude (present chat_route)) chat_key sample_store none none
      (record chat_request { header = ("X-Route", "chat") ∷ [] }) chat_route "claude" refl
      (λ r. refl) refl refl (refl, refl, refl)

phase_test : (assessed_by (without_claude (present chat_route)) chat_route).status.phase ≡ "Failed"
unfolding assessed_by kortex.Controller.Routes.determine_phase collect_backend_names
    kortex.Controller.Routes.add_name kortex.Controller.Routes.tally
phase_test = refl
