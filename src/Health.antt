-- ===== src/Health.antt =====
-- Health checks (internal/health/checker.go). The HTTP client is a parameter: `Probes` says whether
-- a request can be made of a method and a URL, what becomes of it under the two timeouts, and the
-- readings of the clock.
pub mod Judgement
mod Tests
use kortex.Common.{
  ℕ, ◌*◌, String, ◌==◌, string_eq, Bool, true, false, not, ◌&&◌, ◌||◌, Option, none, some, leb, ltb,
  if◌then◌else◌, Result, ok, err,
}
use kortex.Common.Int.{ℤ, pos, beq_ℤ, ltb_ℤ, scale}
use kortex.Common.Text.{◌<>◌, is_empty, decimal, decimal_ℤ}
use kortex.Api.{
  InferenceBackend, ExternalBackend, KubernetesBackend, KserveBackend, HealthCheck,
  backend_type_kserve, backend_type_external, backend_type_kubernetes,
}

-- The durations are in nanoseconds.
pub record HealthResult : Type 0 where
  pub healthy : Bool
  pub latency : ℕ
  pub error : Option String
  pub timestamp : ℕ

pub record Checker : Type 0 where
  pub client_timeout : ℤ

abbrev seconds : ℤ → ℤ
seconds n = scale 1_000_000_000 n

unfoldable pub new_checker : Checker
new_checker = record { client_timeout = seconds (pos 10) }

unfoldable pub new_checker_with_timeout : ℤ → Checker
new_checker_with_timeout timeout = record { client_timeout = timeout }

-- What is used of net/http: the error of `http.NewRequestWithContext`, if any, and the status of the
-- answer or the error of `Do`.
pub record Probes : Type 0 where
  pub request_error : (method url : String) → Option String
  pub send : (client_timeout context_timeout : ℤ) → (method url : String) → Result String ℕ
  pub latency : ℕ
  pub now : ℕ

unfoldable pub check_timeout : InferenceBackend → ℤ
check_timeout b = elim b.spec.health_check [
  | none ↦ seconds (pos 5)
  | some h ↦ if ltb_ℤ (pos 0) h.timeout_seconds then seconds h.timeout_seconds else seconds (pos 5)
]

failed : Probes → ℕ → String → HealthResult
failed probes latency message = record {
  healthy = false;
  latency = latency;
  error = some message;
  timestamp = probes.now;
}

-- The judgement of a status, with the words for one that is refused.
judge_status : Probes → Bool → String → ℕ → HealthResult
judge_status probes healthy refusal code = record {
  healthy = healthy;
  latency = probes.latency;
  error = if healthy then none else some (refusal <> decimal code);
  timestamp = probes.now;
}

judge_answer : Probes → (ℕ → Bool) → String → Result String ℕ → HealthResult
unfolding failed judge_status
judge_answer probes accepts refusal (err e) =
    failed probes probes.latency ("health check failed: " <> e)
judge_answer probes accepts refusal (ok code) = judge_status probes (accepts code) refusal code

request_and_judge : Probes → (ℕ → Bool) → String → Option String → Result String ℕ → HealthResult
unfolding failed judge_answer
request_and_judge probes accepts refusal (some e) answer =
    failed probes probes.latency ("failed to create request: " <> e)
request_and_judge probes accepts refusal none answer = judge_answer probes accepts refusal answer

unfoldable pub is_reachable : ℕ → Bool
is_reachable code = ltb code 500

unfoldable pub is_success : ℕ → Bool
is_success code = leb 200 code && ltb code 400

check_external_with : Probes → Checker → ℤ → Option ExternalBackend → HealthResult
unfolding failed request_and_judge is_reachable
check_external_with probes c timeout none = failed probes 0 "external backend config is nil"
check_external_with probes c timeout (some e) =
    if is_empty e.url
    then failed probes 0 "external backend URL is empty"
    else request_and_judge probes is_reachable "external API returned status "
        (probes.request_error "HEAD" e.url) (probes.send c.client_timeout timeout "HEAD" e.url)

unfoldable pub check_external : Probes → Checker → ℤ → InferenceBackend → HealthResult
unfolding check_external_with
check_external probes c timeout b = check_external_with probes c timeout b.spec.external

unfoldable pub do_health_check : Probes → Checker → ℤ → String → HealthResult
unfolding request_and_judge is_success
do_health_check probes c timeout url =
    request_and_judge probes is_success "health check returned status "
      (probes.request_error "GET" url) (probes.send c.client_timeout timeout "GET" url)

path_or : String → Option HealthCheck → String
path_or default none = default
path_or default (some h) = if is_empty h.path then default else h.path

abbrev namespace_or : String → String → String
namespace_or text own = if is_empty text then own else text

external_url : Option ExternalBackend → Result String String
external_url none = err "external backend URL is not configured"
external_url (some e) =
    if is_empty e.url then err "external backend URL is not configured" else ok e.url

kubernetes_url : InferenceBackend → Option KubernetesBackend → Result String String
unfolding path_or
kubernetes_url b none = err "kubernetes backend config is not configured"
kubernetes_url b (some k) =
    let port = if beq_ℤ k.port (pos 0) then pos 8080 else k.port in
    ok (
      "http://"
      <> k.service_name
      <> "."
      <> namespace_or k.namespace b.namespace
      <> ".svc.cluster.local:"
      <> decimal_ℤ port
      <> path_or "/health" b.spec.health_check)

kserve_url : InferenceBackend → Option KserveBackend → Result String String
unfolding path_or
kserve_url b none = err "kserve backend config is not configured"
kserve_url b (some k) = ok (
    "http://"
    <> k.service_name
    <> "-predictor."
    <> namespace_or k.namespace b.namespace
    <> ".svc.cluster.local"
    <> path_or "/v1/models" b.spec.health_check)

unfoldable pub build_health_check_url : InferenceBackend → Result String String
unfolding external_url kubernetes_url kserve_url
build_health_check_url b =
    if b.spec.kind == backend_type_external
    then external_url b.spec.external
    else if b.spec.kind == backend_type_kubernetes
    then kubernetes_url b b.spec.kubernetes
    else if b.spec.kind == backend_type_kserve
    then kserve_url b b.spec.kserve
    else err ("unknown backend type: " <> b.spec.kind)

check_url : Probes → Checker → ℤ → Result String String → HealthResult
unfolding failed do_health_check
check_url probes c timeout (err e) = failed probes 0 e
check_url probes c timeout (ok url) = do_health_check probes c timeout url

unfoldable pub check_kubernetes : Probes → Checker → ℤ → InferenceBackend → HealthResult
unfolding check_url build_health_check_url
check_kubernetes probes c timeout b = check_url probes c timeout (build_health_check_url b)

unfoldable pub check_kserve : Probes → Checker → ℤ → InferenceBackend → HealthResult
unfolding check_url build_health_check_url
check_kserve probes c timeout b = check_url probes c timeout (build_health_check_url b)

-- `Check`
unfoldable pub check : Probes → Checker → InferenceBackend → HealthResult
unfolding check_timeout check_external check_kubernetes check_kserve failed
check probes c b =
    let timeout = check_timeout b in
    if b.spec.kind == backend_type_external
    then check_external probes c timeout b
    else if b.spec.kind == backend_type_kubernetes
    then check_kubernetes probes c timeout b
    else if b.spec.kind == backend_type_kserve
    then check_kserve probes c timeout b
    else failed probes 0 ("unknown backend type: " <> b.spec.kind)
