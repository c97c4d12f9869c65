-- ===== src/Health/Judgement.antt =====
-- What a health check asks and how it judges the answer, against the URL to which the proxy sends
-- requests (internal/health/checker.go, internal/proxy/backend.go).
use kortex.Common.{
  ◌*◌, leb, ◌&&◌, nat_beq, ℕ, ◌≡◌, refl, ap, sym, ◌↔◌, String, ◌==◌, string_eq, Bool, true, false,
  Option, none, some, if◌then◌else◌, Result, ok, err, Bool-cases, inl, inr, arith,
}
use mathlib.Core.Path.{subst⁻¹}
use kortex.Common.Int.{ℤ, pos, negsuc, ltb_ℤ}
use kortex.Common.Text.{◌<>◌, is_empty}
use text.Mathlib.TextLemmas.{append_assoc, append-nil}
use kortex.Api.{
  InferenceBackend, HealthCheck, ExternalBackend, KubernetesBackend, KserveBackend,
  backend_type_kserve, backend_type_external, backend_type_kubernetes,
}
use kortex.Backend.Target.{
  TargetError, external_url_missing, kubernetes_config_missing, kserve_config_missing,
  unsupported_type, bad_url, target_error_text, target_text, external_text, kubernetes_text,
  kserve_text,
}
use kortex.Health.{
  seconds, HealthResult, Checker, Probes, check_timeout, is_reachable, is_success, path_or,
  external_url, kubernetes_url, kserve_url, build_health_check_url, check_url, judge_answer,
  request_and_judge, do_health_check, check_external_with, check_external, check, failed,
  judge_status, check_kubernetes, check_kserve,
}

-- The configured path, where there is one.
abbrev configured : String → Option HealthCheck → String
configured default none = default
configured default (some h) = if is_empty h.path then default else h.path

-- What a check appends to the URL of a backend.
unfoldable pub probe_path : InferenceBackend → String
probe_path b =
    if b.spec.kind == backend_type_external
    then ""
    else if b.spec.kind == backend_type_kubernetes
    then configured "/health" b.spec.health_check
    else configured "/v1/models" b.spec.health_check

path_or-configured :
    (default : String) (h : Option HealthCheck) → path_or default h ≡ configured default h
unfolding path_or
path_or-configured default none = refl
path_or-configured default (some h) = refl

-- The checker's words for a target that the proxy cannot build.
unfoldable pub target_words : TargetError → String
target_words external_url_missing = target_error_text external_url_missing
target_words kubernetes_config_missing = target_error_text kubernetes_config_missing
target_words kserve_config_missing = target_error_text kserve_config_missing
target_words (unsupported_type kind) = "unknown backend type: " <> kind
target_words (bad_url message) = message

unfoldable pub probe_url : String → Result TargetError String → Result String String
probe_url path (ok url) = ok (url <> path)
probe_url path (err e) = err (target_words e)

external_url-target : (e : Option ExternalBackend) → external_url e ≡ probe_url "" (external_text e)
unfolding external_url external_text probe_url target_words target_error_text
external_url-target none = refl
external_url-target (some e) = elim (Bool-cases (is_empty e.url)) [
  | inl unset ↦ rw unset refl
  | inr set ↦ rw set (ap ok (sym (append-nil e.url)))
]

kubernetes_url-target :
    (b : InferenceBackend) (k : Option KubernetesBackend)
    → kubernetes_url b k
      ≡ probe_url (configured "/health" b.spec.health_check) (kubernetes_text b.namespace k)
unfolding kubernetes_url kubernetes_text probe_url target_words target_error_text
kubernetes_url-target b none = refl
kubernetes_url-target b (some k) =
    rw⁻¹ (path_or-configured "/health" b.spec.health_check) (simp (append_assoc))

kserve_url-target :
    (b : InferenceBackend) (k : Option KserveBackend)
    → kserve_url b k
      ≡ probe_url (configured "/v1/models" b.spec.health_check) (kserve_text b.namespace k)
unfolding kserve_url kserve_text probe_url target_words target_error_text
kserve_url-target b none = refl
kserve_url-target b (some k) =
    rw⁻¹ (path_or-configured "/v1/models" b.spec.health_check) (simp (append_assoc))

-- The URL of a check is the one to which the proxy sends the requests of the backend, with the path
-- of the check behind it: nothing for an external backend, and the configured path, /health or
-- /v1/models for the others. There is none exactly where the proxy has none, for the same reason.
pub build_health_check_url-target :
    (b : InferenceBackend) → build_health_check_url b ≡ probe_url (probe_path b) (target_text b)
unfolding build_health_check_url target_text probe_path probe_url target_words
build_health_check_url-target b = elim (Bool-cases (b.spec.kind == backend_type_external)) [
  | inl external ↦ rw external (external_url-target b.spec.external)
  | inr internal ↦ rw internal (elim (Bool-cases (b.spec.kind == backend_type_kubernetes)) [
    | inl kubernetes ↦ rw kubernetes (kubernetes_url-target b b.spec.kubernetes)
    | inr other ↦ rw other (elim (Bool-cases (b.spec.kind == backend_type_kserve)) [
      | inl kserve ↦ rw kserve (kserve_url-target b b.spec.kserve)
      | inr unknown ↦ rw unknown refl
    ])
  ])
]

is_answer : (ℕ → Bool) → Option String → Result String ℕ → Bool
is_answer accepts (some e) answer = false
is_answer accepts none (err e) = false
is_answer accepts none (ok code) = accepts code

-- Whether the probe of a URL is answered as it should be.
unfoldable pub is_answered :
    Probes → Checker → ℤ → (method : String) → (ℕ → Bool) → Result String String → Bool
unfolding is_answer
is_answered probes c timeout method accepts (err e) = false
is_answered probes c timeout method accepts (ok url) =
    is_answer accepts (probes.request_error method url)
      (probes.send c.client_timeout timeout method url)

-- The timeout of the check in nanoseconds: five seconds unless a positive one is configured.
unfoldable pub timeout_stated : Option HealthCheck → ℤ
timeout_stated none = pos 5_000_000_000
timeout_stated (some h) = elim h.timeout_seconds [
  | pos n ↦ if nat_beq n 0 then pos 5_000_000_000 else pos (1_000_000_000 * n)
  | negsuc n ↦ pos 5_000_000_000
]

-- A backend is up when the URL of the proxy, with the path of the check, answers: an external one
-- HEAD below 500, the others GET from 200 to 399.
unfoldable pub is_up : Probes → Checker → InferenceBackend → Bool
unfolding is_answered probe_url probe_path
is_up probes c b =
    let url = probe_url (probe_path b) (target_text b) in
    let timeout = timeout_stated b.spec.health_check in
    if b.spec.kind == backend_type_external
    then is_answered probes c timeout "HEAD" (λ code. leb code 499) url
    else is_answered probes c timeout "GET" (λ code. leb 200 code && leb code 399) url

timeout_of :
    (h : Option HealthCheck)
    → timeout_stated h ≡ elim h [
      | none ↦ seconds (pos 5)
      | some h ↦
          if ltb_ℤ (pos 0) h.timeout_seconds then seconds h.timeout_seconds else seconds (pos 5)
    ]
unfolding timeout_stated
timeout_of none = refl
timeout_of (some h) = ground arith

timeout_stated-check : (b : InferenceBackend) → timeout_stated b.spec.health_check ≡ check_timeout b
unfolding check_timeout
timeout_stated-check b = timeout_of b.spec.health_check

reachable_lem : (code : ℕ) → leb code 499 ≡ is_reachable code
unfolding is_reachable
reachable_lem code = ground arith

success_lem : (code : ℕ) → (leb 200 code && leb code 399) ≡ is_success code
unfolding is_success
success_lem code = ground arith

-- The same in the checker's words.
abbrev up_by :
    (timeout : ℤ) (reachable success : ℕ → Bool) → Probes → Checker → InferenceBackend → Bool
up_by timeout reachable success probes c b =
    let url = probe_url (probe_path b) (target_text b) in
    if b.spec.kind == backend_type_external
    then is_answered probes c timeout "HEAD" reachable url
    else is_answered probes c timeout "GET" success url

up_by-is_up :
    (probes : Probes) (c : Checker) (b : InferenceBackend)
    → is_up probes c b ≡ up_by (check_timeout b) is_reachable is_success probes c b
unfolding is_up
up_by-is_up probes c b = λ i.
    up_by (timeout_stated-check b i) (λ code. reachable_lem code i) (λ code. success_lem code i)
      probes c b

-- The result is healthy as stated, and carries an error otherwise.
abbrev pub Judges : Bool → HealthResult → Type 0
Judges up result = (result.healthy ≡ up) × ((up ≡ true) ↔ (result.error ≡ none))

request_and_judge-Judges :
    (probes : Probes) (accepts : ℕ → Bool) (refusal : String) (e : Option String)
    (answer : Result String ℕ)
    → Judges (is_answer accepts e answer) (request_and_judge probes accepts refusal e answer)
unfolding request_and_judge judge_answer judge_status failed is_answer
request_and_judge-Judges probes accepts refusal (some e) answer = ground arith
request_and_judge-Judges probes accepts refusal none (err e) = ground arith
request_and_judge-Judges probes accepts refusal none (ok code) = elim (Bool-cases (accepts code)) [
  | inl good ↦ rw good (ground arith)
  | inr bad ↦ rw bad (ground arith)
]

check_url-Judges :
    (probes : Probes) (c : Checker) (timeout : ℤ) (url : Result String String)
    → Judges (is_answered probes c timeout "GET" is_success url) (check_url probes c timeout url)
unfolding is_answered check_url do_health_check failed
check_url-Judges probes c timeout (err e) = ground arith
check_url-Judges probes c timeout (ok url) =
    request_and_judge-Judges probes is_success "health check returned status "
      (probes.request_error "GET" url) (probes.send c.client_timeout timeout "GET" url)

check_external-Judges :
    (probes : Probes) (c : Checker) (timeout : ℤ) (e : Option ExternalBackend)
    → Judges
        (is_answered probes c timeout "HEAD" is_reachable (external_url e))
        (check_external_with probes c timeout e)
unfolding is_answered check_external_with external_url failed
check_external-Judges probes c timeout none = ground arith
check_external-Judges probes c timeout (some e) = elim (Bool-cases (is_empty e.url)) [
  | inl unset ↦ rw unset (ground arith)
  | inr set ↦ rw set (
      request_and_judge-Judges probes is_reachable "external API returned status "
        (probes.request_error "HEAD" e.url) (probes.send c.client_timeout timeout "HEAD" e.url))
]

check-Judges_by :
    (probes : Probes) (c : Checker) (b : InferenceBackend)
    → Judges (up_by (check_timeout b) is_reachable is_success probes c b) (check probes c b)
unfolding check check_external check_kubernetes check_kserve build_health_check_url is_answered
    failed
check-Judges_by probes c b =
    rw⁻¹ (build_health_check_url-target b)
      (elim (Bool-cases (b.spec.kind == backend_type_external)) [
        | inl external ↦
            rw external (check_external-Judges probes c (check_timeout b) b.spec.external)
        | inr internal ↦ rw internal (elim (Bool-cases (b.spec.kind == backend_type_kubernetes)) [
          | inl kubernetes ↦
              rw kubernetes
                (check_url-Judges probes c (check_timeout b) (kubernetes_url b b.spec.kubernetes))
          | inr other ↦ rw other (elim (Bool-cases (b.spec.kind == backend_type_kserve)) [
            | inl kserve ↦
                rw kserve (check_url-Judges probes c (check_timeout b) (kserve_url b b.spec.kserve))
            | inr unknown ↦ rw unknown (ground arith)
          ])
        ])
      ])

-- A check finds a backend healthy exactly when the URL of the proxy, with the path of the check
-- behind it, answers within the timeout of the
-- client and that of the check (five seconds unless a positive one is configured): an external backend HEAD with a status below 500, the
-- others GET with one from 200 to 399. The result carries an error exactly when it is not healthy.
pub check-Judges :
    (probes : Probes) (c : Checker) (b : InferenceBackend)
    → Judges (is_up probes c b) (check probes c b)
check-Judges probes c b =
    subst⁻¹ (λ up. Judges up (check probes c b)) (up_by-is_up probes c b)
      (check-Judges_by probes c b)
