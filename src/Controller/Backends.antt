-- ===== src/Controller/Backends.antt =====
-- The reconciler of backends (internal/controller/inferencebackend_controller.go): it probes a
-- backend, counts the failures in a row, and hands the status to the API server and to the cache.
-- Reconciliations of one controller run one after the other. Log lines and the set-up with the
-- manager are left out.
pub mod Counting
pub mod Reporting
pub mod Caching
pub mod Conditions
mod Tests
use kortex.Common.{
  ℕ, ◌/◌, String, ◌==◌, string_eq, Bool, true, false, Option, none, some, List, [], ◌∷◌, ◌++◌,
  if◌then◌else◌,
}
use kortex.Common.Int.{ℤ, pos, ◌+ℤ◌, leb_ℤ, ltb_ℤ, scale, wrap32}
use kortex.Common.Dict.{lookup, insert, delete, map_option}
use kortex.Common.Text.{◌<>◌, is_empty}
use kortex.Api.{
  InferenceBackend, ExternalBackend, KubernetesBackend, KserveBackend, Condition,
  backend_type_kserve, backend_type_external, backend_type_kubernetes,
}
use kortex.Cache.{
  NamespacedName, Store, set_backend, health_status_healthy, health_status_unhealthy,
  health_status_unknown,
}
use kortex.Health.{HealthResult, Checker, Probes, check}
use kortex.Controller.{
  Fetched, present, absent, unavailable, Reply, done, failing, request_text, new_condition,
}

abbrev condition_type_backend_healthy : String
condition_type_backend_healthy = "Healthy"

abbrev condition_type_backend_ready : String
condition_type_backend_ready = "Ready"

-- What one reconciliation meets outside: the API server, the probes and the clock. An update of the
-- status is accepted where it has no error.
pub record Cluster : Type 0 where
  pub get : NamespacedName → Fetched InferenceBackend
  pub update_error : InferenceBackend → Option String
  pub set_condition : Condition → List Condition → List Condition
  pub probes : Probes
  pub now : ℕ

-- `persisted` are the statuses that the API server has accepted, in their order. A nil map of counts
-- is the empty one.
pub record BackendReconciler : Type 0 where
  pub health_checker : Checker
  pub cache : Option Store
  pub failure_counts : List (String × ℤ)
  pub persisted : List (NamespacedName × InferenceBackend)

external_config_error : Option ExternalBackend → Option String
external_config_error none = some "external config is required for backend type 'external'"
external_config_error (some e) =
    if is_empty e.url then some "external.url is required for backend type 'external'" else none

kubernetes_config_error : Option KubernetesBackend → Option String
kubernetes_config_error none = some "kubernetes config is required for backend type 'kubernetes'"
kubernetes_config_error (some k) =
    if is_empty k.service_name
    then some "kubernetes.serviceName is required for backend type 'kubernetes'"
    else none

kserve_config_error : Option KserveBackend → Option String
kserve_config_error none = some "kserve config is required for backend type 'kserve'"
kserve_config_error (some k) =
    if is_empty k.service_name
    then some "kserve.serviceName is required for backend type 'kserve'"
    else none

-- The error of a configuration, or none.
unfoldable pub validate_backend_config : InferenceBackend → Option String
unfolding external_config_error kubernetes_config_error kserve_config_error
validate_backend_config b =
    if b.spec.kind == backend_type_external
    then external_config_error b.spec.external
    else if b.spec.kind == backend_type_kubernetes
    then kubernetes_config_error b.spec.kubernetes
    else if b.spec.kind == backend_type_kserve
    then kserve_config_error b.spec.kserve
    else some ("unknown backend type: " <> b.spec.kind)

or_zero : Option ℤ → ℤ
or_zero none = pos 0
or_zero (some n) = n

unfoldable pub count_of : String → List (String × ℤ) → ℤ
unfolding or_zero
count_of key counts = or_zero (lookup key counts)

-- The failures in a row behind a check, as an int32.
unfoldable pub failures_after : Bool → ℤ → ℤ
failures_after healthy failures = if healthy then pos 0 else wrap32 (failures +ℤ pos 1)

unfoldable pub threshold_of : InferenceBackend → ℤ
threshold_of b = elim b.spec.health_check [
  | none ↦ pos 3
  | some h ↦ if ltb_ℤ (pos 0) h.failure_threshold then h.failure_threshold else pos 3
]

unfoldable pub health_status : Bool → (failures threshold : ℤ) → String
health_status healthy failures threshold =
    if healthy
    then health_status_healthy
    else if leb_ℤ threshold failures
    then health_status_unhealthy
    else health_status_unknown

unfoldable pub requeue_interval : InferenceBackend → ℤ
requeue_interval b = scale 1_000_000_000 (elim b.spec.health_check [
  | none ↦ pos 30
  | some h ↦ if ltb_ℤ (pos 0) h.interval_seconds then h.interval_seconds else pos 30
])

message_with : String → String → Option String → String
message_with prefix other none = other
message_with prefix other (some e) = prefix <> e

health_condition : InferenceBackend → String → Option String → Condition
unfolding message_with
health_condition b status e =
    if status == health_status_healthy
    then new_condition condition_type_backend_healthy b.generation "True" "HealthCheckPassed"
        "Backend is responding to health checks"
    else if status == health_status_unhealthy
    then new_condition condition_type_backend_healthy b.generation "False" "HealthCheckFailed"
        (message_with "Health check failed: " "Backend failed health check threshold" e)
    else new_condition condition_type_backend_healthy b.generation "Unknown" "HealthCheckPending"
        (message_with "Health check in progress: " "Health check status pending" e)

abbrev ready_condition : InferenceBackend → (status reason message : String) → Condition
ready_condition b = new_condition condition_type_backend_ready b.generation

put_condition : Cluster → Condition → InferenceBackend → InferenceBackend
put_condition c condition b = record b {
  status = record b.status { conditions = c.set_condition condition b.status.conditions };
}

unfoldable pub set_health_condition :
    Cluster → String → Option String → InferenceBackend → InferenceBackend
unfolding put_condition health_condition
set_health_condition c status e b = put_condition c (health_condition b status e) b

unfoldable pub set_ready_condition : Cluster → String → InferenceBackend → InferenceBackend
unfolding put_condition
set_ready_condition c status b =
    put_condition c
      (if status == health_status_healthy
        then ready_condition b "True" "BackendReady" "Backend is configured and healthy"
        else ready_condition b "False" "BackendNotReady" ("Backend health status is " <> status))
      b

-- The status that a check leaves in the resource.
unfoldable pub assessed : Cluster → String → HealthResult → InferenceBackend → InferenceBackend
unfolding set_health_condition set_ready_condition
assessed c status result b = set_ready_condition c status (
    set_health_condition c status result.error (record b {
      status = record b.status {
        health = status;
        average_latency_ms = pos (result.latency / 1_000_000);
        last_health_check = if result.healthy then some c.now else b.status.last_health_check;
      };
    }))

unfoldable pub cleanup_backend : String → BackendReconciler → BackendReconciler
cleanup_backend key r = record r { failure_counts = delete key r.failure_counts }

persist : NamespacedName → InferenceBackend → BackendReconciler → BackendReconciler
persist key b r = record r { persisted = r.persisted ++ (key, b) ∷ [] }

-- The answer of the API server to the new status; the cache follows where it is accepted.
concluded :
    NamespacedName
    → InferenceBackend
    → BackendReconciler
    → Option String
    → BackendReconciler × Reply
unfolding persist
concluded key b r (some e) = (r, failing e)
concluded key b r none = (
  record (persist key b r) { cache = map_option (set_backend key b) r.cache },
  record { requeue_after = requeue_interval b; error = none },
)

unfoldable pub probed :
    Cluster
    → NamespacedName
    → InferenceBackend
    → HealthResult
    → BackendReconciler
    → BackendReconciler × Reply
unfolding concluded
probed c key b result r =
    let failures = failures_after result.healthy (count_of (request_text key) r.failure_counts) in
    let b' = assessed c (health_status result.healthy failures (threshold_of b)) result b in
    concluded key b'
      (record r { failure_counts = insert (request_text key) failures r.failure_counts })
      (c.update_error b')

misconfigured :
    NamespacedName
    → InferenceBackend
    → BackendReconciler
    → Option String
    → BackendReconciler × Reply
unfolding persist
misconfigured key b r (some e) = (r, failing e)
misconfigured key b r none =
    (persist key b r, record { requeue_after = scale 1_000_000_000 (pos 30); error = none })

unfoldable pub update_status_with_error :
    Cluster
    → NamespacedName
    → InferenceBackend
    → String
    → BackendReconciler
    → BackendReconciler × Reply
unfolding misconfigured put_condition
update_status_with_error c key b e r =
    let b' =
      put_condition c (ready_condition b "False" "ConfigurationError" e)
        (record b { status = record b.status { health = health_status_unhealthy } }) in
    misconfigured key b' r (c.update_error b')

validated :
    Cluster
    → NamespacedName
    → InferenceBackend
    → BackendReconciler
    → Option String
    → BackendReconciler × Reply
unfolding update_status_with_error probed
validated c key b r (some e) = update_status_with_error c key b e r
validated c key b r none = probed c key b (check c.probes r.health_checker b) r

fetched :
    Cluster
    → NamespacedName
    → BackendReconciler
    → Fetched InferenceBackend
    → BackendReconciler × Reply
unfolding validated cleanup_backend
fetched c key r absent = (cleanup_backend (request_text key) r, done)
fetched c key r (unavailable e) = (r, failing e)
fetched c key r (present b) = validated c key b r (validate_backend_config b)

-- `Reconcile`
unfoldable pub reconcile_backend :
    Cluster → NamespacedName → BackendReconciler → BackendReconciler × Reply
unfolding fetched
reconcile_backend c key r = fetched c key r (c.get key)

-- A reconciliation of a key, with what it meets, and a history of them.
pub record BackendEvent : Type 0 where
  pub key : NamespacedName
  pub cluster : Cluster

unfoldable pub reconcile_backends : List BackendEvent → BackendReconciler → BackendReconciler
reconcile_backends [] r = r
reconcile_backends (e ∷ es) r = reconcile_backends es (reconcile_backend e.cluster e.key r).0
