-- ===== src/Backend/Target.antt =====
-- The URL of a backend and the API key that is added to its requests (internal/proxy/backend.go).
-- `url.Parse` and the Kubernetes client are arguments.
use kortex.Common.{
  String, ◌==◌, string_eq, Option, none, some, List, if◌then◌else◌, Result, ok, err,
}
use kortex.Common.Int.{pos, beq_ℤ}
use kortex.Common.Dict.{lookup}
use kortex.Common.Text.{◌<>◌, is_empty, decimal_ℤ}
use kortex.Http.{Header, header_set}
use kortex.Cache.{NamespacedName}
use kortex.Api.{
  InferenceBackend, ExternalBackend, KubernetesBackend, KserveBackend, SecretKeySelector,
  backend_type_kserve, backend_type_external, backend_type_kubernetes,
}

-- url.URL, as far as the proxy reads it.
pub record Url : Type 0 where
  pub scheme : String
  pub host : String
  pub path : String

pub data TargetError : Type 0 where
  external_url_missing kubernetes_config_missing kserve_config_missing : TargetError
  unsupported_type bad_url : String → TargetError

abbrev pub or_default : String → String → String
or_default text default = if is_empty text then default else text

unfoldable pub external_text : Option ExternalBackend → Result TargetError String
external_text none = err external_url_missing
external_text (some e) = if is_empty e.url then err external_url_missing else ok e.url

unfoldable pub kubernetes_text : String → Option KubernetesBackend → Result TargetError String
kubernetes_text own none = err kubernetes_config_missing
kubernetes_text own (some k) =
    let port = if beq_ℤ k.port (pos 0) then pos 8080 else k.port in
    ok (
      "http://"
      <> k.service_name
      <> "."
      <> or_default k.namespace own
      <> ".svc.cluster.local:"
      <> decimal_ℤ port)

unfoldable pub kserve_text : String → Option KserveBackend → Result TargetError String
kserve_text own none = err kserve_config_missing
kserve_text own (some k) = ok (
    "http://"
    <> k.service_name
    <> "-predictor."
    <> or_default k.namespace own
    <> ".svc.cluster.local")

-- `Error()`; what `url.Parse` says of a text that it refuses is its own.
unfoldable pub target_error_text : TargetError → String
target_error_text external_url_missing = "external backend URL is not configured"
target_error_text kubernetes_config_missing = "kubernetes backend config is not configured"
target_error_text kserve_config_missing = "kserve backend config is not configured"
target_error_text (unsupported_type kind) = "unsupported backend type: " <> kind
target_error_text (bad_url message) = message

-- The text that `buildTargetURL` hands to `url.Parse`.
unfoldable pub target_text : InferenceBackend → Result TargetError String
unfolding external_text kubernetes_text kserve_text
target_text b =
    if b.spec.kind == backend_type_external
    then external_text b.spec.external
    else if b.spec.kind == backend_type_kubernetes
    then kubernetes_text b.namespace b.spec.kubernetes
    else if b.spec.kind == backend_type_kserve
    then kserve_text b.namespace b.spec.kserve
    else err (unsupported_type b.spec.kind)

parsed : (String → Result String Url) → Result TargetError String → Result TargetError Url
parsed parse (err e) = err e
parsed parse (ok text) = elim (parse text) [ err m ↦ err (bad_url m) | ok u ↦ ok u ]

unfoldable pub build_target_url :
    (String → Result String Url) → InferenceBackend → Result TargetError Url
unfolding parsed target_text
build_target_url parse b = parsed parse (target_text b)

-- The `switch` on the provider at the end of `injectAPIKey`.
unfoldable pub set_api_key : String → String → Header → Header
set_api_key provider api_key h =
    let bearer = header_set "Authorization" ("Bearer " <> api_key) h in
    let name = or_default provider "openai" in
    if name == "openai"
    then bearer
    else if name == "anthropic"
    then header_set "anthropic-version" "2023-06-01" (header_set "x-api-key" api_key h)
    else if name == "cohere"
    then bearer
    else bearer

abbrev or_empty : Option String → String
or_empty none = ""
or_empty (some s) = s

-- The data of a secret, or none if it cannot be fetched.
abbrev pub Secrets : Type 0
Secrets = NamespacedName → Option (List (String × String))

key_from : Option (List (String × String)) → String → String → Header → Header
unfolding set_api_key
key_from none key provider h = h
key_from (some secret) key provider h =
    let api_key = or_empty (lookup key secret) in
    if is_empty api_key then h else set_api_key provider api_key h

inject_with : Secrets → String → ExternalBackend → Option SecretKeySelector → Header → Header
unfolding key_from
inject_with secrets own e none h = h
inject_with secrets own e (some ref) h =
    key_from (secrets (record { namespace = own; name = ref.name })) ref.key e.provider h

inject_for : Secrets → String → Option ExternalBackend → Header → Header
unfolding inject_with
inject_for secrets own none h = h
inject_for secrets own (some e) h = inject_with secrets own e e.api_key_secret h

unfoldable pub inject_api_key : Secrets → InferenceBackend → Header → Header
unfolding inject_for
inject_api_key secrets b h = inject_for secrets b.namespace b.spec.external h
