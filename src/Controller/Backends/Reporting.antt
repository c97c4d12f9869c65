-- ===== src/Controller/Backends/Reporting.antt =====
-- The health that the reconciler reports (internal/controller/inferencebackend_controller.go).
use kortex.Common.{
  ℕ, suc, ◌+◌, ◌<◌, ◌^◌, ◌≡◌, refl, ap, ◌∙◌, String, string_eq, Bool, true, false, none, List, [],
  ◌∷◌, ◌++◌, length, if◌then◌else◌, arith,
}
use kortex.Common.Int.{ℤ, pos, leb_ℤ}
use kortex.Common.Dict.{map_option}
use kortex.Api.{InferenceBackend}
use kortex.Cache.{NamespacedName, set_backend}
use kortex.Health.{HealthResult, check}
use kortex.Controller.{present, request_text}
use kortex.Controller.Backends.{
  Cluster, BackendReconciler, BackendEvent, validate_backend_config, count_of, failures_after,
  threshold_of, health_status, probed, concluded, persist, assessed, set_ready_condition,
  set_health_condition, put_condition, validated, fetched, reconcile_backend, reconcile_backends,
}
use kortex.Controller.Backends.Counting.{
  next_streak, streak, failures_after-next_streak, streak_le, checker-reconcile_backends,
  reconcile_backends-streak,
}

-- The health that a check should lead to, behind some failures in a row.
unfoldable pub expected_health : Bool → ℕ → (threshold : ℤ) → String
expected_health true n threshold = "Healthy"
expected_health false n threshold = if leb_ℤ threshold (pos (suc n)) then "Unhealthy" else "Unknown"

health_status-expected :
    (healthy : Bool) (n : ℕ) (threshold : ℤ)
    → suc n < 2 ^ 31
    → health_status healthy (failures_after healthy (pos n)) threshold
      ≡ expected_health healthy n threshold
unfolding health_status expected_health next_streak
health_status-expected true n threshold room = refl
health_status-expected false n threshold room = rw (failures_after-next_streak false n room) refl

-- The status with a health is persisted, and the cache holds it.
abbrev pub Reports : NamespacedName → String → (before after : BackendReconciler) → Type 0
Reports k health r r' =
    (b : InferenceBackend) × (b.status.health ≡ health)
    × (r'.persisted ≡ r.persisted ++ (k, b) ∷ [])
    × (r'.cache ≡ map_option (set_backend k b) r.cache)

probed-Reports :
    (c : Cluster) (k : NamespacedName) (b : InferenceBackend) (result : HealthResult)
    (r : BackendReconciler)
    → ((b' : InferenceBackend) → c.update_error b' ≡ none)
    → Reports k
        (health_status result.healthy
          (failures_after result.healthy (count_of (request_text k) r.failure_counts))
          (threshold_of b))
        r
        (probed c k b result r).0
unfolding probed concluded persist assessed set_ready_condition set_health_condition put_condition
probed-Reports c k b result r accepts =
    let failures = failures_after result.healthy (count_of (request_text k) r.failure_counts) in
    let b' = assessed c (health_status result.healthy failures (threshold_of b)) result b in
    rw (accepts b') (b', refl, refl, refl)

-- Behind a history that stays below 2^31, a reconciliation of a backend whose configuration is
-- valid, and whose status the API server accepts, reports it healthy if the check succeeds,
-- unhealthy if the check fails and the failed checks in a row reach the threshold, and unknown
-- otherwise: to the API server and, where there is one, to the cache.
pub reconcile_backend-Reports :
    (es : List BackendEvent) (n : ℕ) (r : BackendReconciler) (c : Cluster) (k : NamespacedName)
    (b : InferenceBackend)
    → count_of (request_text k) r.failure_counts ≡ pos n
    → n + length es + 1 < 2 ^ 31
    → c.get k ≡ present b
    → validate_backend_config b ≡ none
    → ((b' : InferenceBackend) → c.update_error b' ≡ none)
    → Reports k
        (expected_health
          (check c.probes r.health_checker b).healthy
          (streak r.health_checker (request_text k) n es)
          (threshold_of b))
        (reconcile_backends es r)
        (reconcile_backend c k (reconcile_backends es r)).0
unfolding reconcile_backend fetched validated
reconcile_backend-Reports es n r c k b h room found valid accepts =
    let r' = reconcile_backends es r in
    let key = request_text k in
    let result = check c.probes r'.health_checker b in
    let counted = reconcile_backends-streak key es n r h (omega arith) in
    let (b', health, logged, cached) = probed-Reports c k b result r' accepts in
    rw (found, valid)
      (
        b',
        health
            ∙ ap
                (λ failures.
                  health_status result.healthy (failures_after result.healthy failures)
                    (threshold_of b))
                counted
            ∙ health_status-expected result.healthy (streak r.health_checker key n es)
                (threshold_of b) (omega (arith, streak_le r.health_checker key es n))
            ∙ ap
                (λ checker.
                  expected_health (check c.probes checker b).healthy
                    (streak r.health_checker key n es) (threshold_of b))
                (checker-reconcile_backends es r),
        logged,
        cached,
      )
