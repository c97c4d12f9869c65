-- ===== src/Health/Tests.antt =====
-- The theorems on health checks at concrete backends (internal/health/checker.go).
use kortex.Common.{ℕ, ◌≡◌, refl, String, true, false, Option, none, some, Result, ok, err}
use kortex.Common.Int.{pos}
use kortex.Api.{InferenceBackend, backend_type_kubernetes}
use kortex.Backend.Target.{target_text}
use kortex.Health.{Probes, new_checker, check, build_health_check_url}
use kortex.Health.Judgement.{
  probe_url, probe_path, Judges, is_up, build_health_check_url-target, check-Judges,
}
use kortex.Samples.{external_backend}

abbrev pod : InferenceBackend
pod = record (external_backend "llama") {
  spec = record (external_backend "llama").spec {
    kind = backend_type_kubernetes;
    external = none;
    kubernetes = some (record { service_name = "llama"; namespace = ""; port = pos 0 });
  };
}

-- Every answer has the status 404.
abbrev not_found_probes : Probes
not_found_probes = record {
  request_error = λ method url. none;
  send = λ client context method url. ok 404;
  latency = 3;
  now = 7;
}

build_health_check_url-target_example :
    build_health_check_url pod ≡ probe_url (probe_path pod) (target_text pod)
build_health_check_url-target_example = build_health_check_url-target pod

check-Judges_example :
    Judges (is_up not_found_probes new_checker pod) (check not_found_probes new_checker pod)
check-Judges_example = check-Judges not_found_probes new_checker pod

pod_url : build_health_check_url pod ≡ ok "http://llama.default.svc.cluster.local:8080/health"
unfolding build_health_check_url kortex.Common.Text.is_empty kortex.Common.Text.decimal_ℤ
pod_url = refl

-- An answer of 404 is reachable for an external backend and no success for the others.
not_found_tests :
    (is_up not_found_probes new_checker (external_backend "gpt") ≡ true)
    × (is_up not_found_probes new_checker pod ≡ false)
unfolding is_up target_text kortex.Common.Text.is_empty kortex.Health.is_reachable
    kortex.Health.is_success
not_found_tests = (refl, refl)
