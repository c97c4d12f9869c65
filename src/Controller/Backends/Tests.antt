-- ===== src/Controller/Backends/Tests.antt =====
-- The theorems on the reconciler of backends at concrete histories
-- (internal/controller/inferencebackend_controller.go).
use kortex.Common.{
  ℕ, ◌≡◌, refl, String, true, false, Option, none, some, List, [], ◌∷◌, Result, ok, err, arith,
  string_eq, ◌==◌,
}
use kortex.Common.Int.{pos}
use kortex.Common.Dict.{insert, lookup}
use kortex.Api.{InferenceBackend}
use kortex.Cache.{NamespacedName, set_route, set_backend, new_store, get_backend}
use kortex.Health.{new_checker, check}
use kortex.Controller.{
  Fetched, present, absent, unavailable, condition_of, SetsCondition, request_text,
}
use kortex.Controller.Backends.{
  Cluster, BackendReconciler, BackendEvent, reconcile_backend, reconcile_backends, count_of,
  assessed, validate_backend_config, threshold_of,
}
use kortex.Controller.Backends.Counting.{streak, reconcile_backends-streak}
use kortex.Controller.Backends.Reporting.{Reports, expected_health, reconcile_backend-Reports}
use kortex.Controller.Backends.Caching.{
  IsCached, IsBacked, reconcile_backends-IsCached, reconcile_backends-IsBacked,
}
use kortex.Samples.{external_backend, sample_store}

abbrev gpt_key : NamespacedName
gpt_key = record { namespace = "default"; name = "gpt" }

-- A cluster where a backend is as given and every probe ends with a status.
abbrev cluster_of : Fetched InferenceBackend → ℕ → Cluster
cluster_of backend code = record {
  get = λ key. backend;
  update_error = λ b. none;
  set_condition = λ c cs. c ∷ cs;
  probes = record {
    request_error = λ method url. none;
    send = λ client context method url. ok code;
    latency = 3;
    now = 7;
  };
  now = 9;
}

abbrev gpt_fails : BackendEvent
gpt_fails = record { key = gpt_key; cluster = cluster_of (present (external_backend "gpt")) 503 }

abbrev gpt_gone : BackendEvent
gpt_gone = record { key = gpt_key; cluster = cluster_of absent 503 }

abbrev start : BackendReconciler
start = record {
  health_checker = new_checker;
  cache = some new_store;
  failure_counts = [];
  persisted = [];
}

abbrev caching : BackendReconciler
caching = record start { cache = some sample_store }

prepend-SetsCondition : SetsCondition (λ c cs. c ∷ cs)
unfolding condition_of
prepend-SetsCondition c cs kind = refl

reconcile_backends-streak_example :
    count_of "default/gpt" (reconcile_backends (gpt_fails ∷ gpt_fails ∷ []) start).failure_counts
    ≡ pos (streak new_checker "default/gpt" 0 (gpt_fails ∷ gpt_fails ∷ []))
unfolding count_of lookup
reconcile_backends-streak_example =
    reconcile_backends-streak "default/gpt" (gpt_fails ∷ gpt_fails ∷ []) 0 start refl (omega arith)

reconcile_backend-Reports_example :
    Reports gpt_key
      (expected_health
        (check gpt_fails.cluster.probes new_checker (external_backend "gpt")).healthy
        (streak new_checker (request_text gpt_key) 0 (gpt_fails ∷ gpt_fails ∷ []))
        (threshold_of (external_backend "gpt")))
      (reconcile_backends (gpt_fails ∷ gpt_fails ∷ []) start)
      (reconcile_backend gpt_fails.cluster gpt_key
        (reconcile_backends (gpt_fails ∷ gpt_fails ∷ []) start)).0
unfolding count_of validate_backend_config lookup kortex.Common.Text.is_empty
reconcile_backend-Reports_example =
    reconcile_backend-Reports (gpt_fails ∷ gpt_fails ∷ []) 0 start gpt_fails.cluster gpt_key
      (external_backend "gpt") refl (omega arith) refl refl (λ b. refl)

-- The third failure reaches the threshold.
third_failure :
    (expected_health
      (check gpt_fails.cluster.probes new_checker (external_backend "gpt")).healthy
      (streak new_checker (request_text gpt_key) 0 (gpt_fails ∷ gpt_fails ∷ []))
      (threshold_of (external_backend "gpt")))
    ≡ "Unhealthy"
unfolding expected_health streak threshold_of check kortex.Common.Text.is_empty
    kortex.Controller.Backends.Counting.next_streak kortex.Controller.Backends.Counting.observed
    validate_backend_config
third_failure = refl

reconcile_backends-IsCached_example :
    IsCached gpt_key (reconcile_backends (gpt_gone ∷ []) caching).cache
unfolding IsCached get_backend lookup set_route set_backend insert new_store
reconcile_backends-IsCached_example =
    reconcile_backends-IsCached gpt_key (gpt_gone ∷ []) caching (external_backend "gpt", refl)

reconcile_backends-IsBacked_example :
    IsBacked
      (reconcile_backends (gpt_fails ∷ gpt_gone ∷ []) start).persisted
      (reconcile_backends (gpt_fails ∷ gpt_gone ∷ []) start).cache
unfolding IsBacked get_backend new_store lookup
reconcile_backends-IsBacked_example =
    reconcile_backends-IsBacked (gpt_fails ∷ gpt_gone ∷ []) start (λ k b e. ground arith)
